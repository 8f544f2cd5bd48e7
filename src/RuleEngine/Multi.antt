-- ===== src/RuleEngine/Multi.antt =====
-- Two queries in one: `split_query`, and the case MSG_REQUEST of `handle_message`, of
-- khazar/components/rule-engine/main.c, up to the texts of the answers.
pub mod Joined
pub mod Found
use khazar_os.Common.{
  ℕ, zero, suc, ◌+◌, ◌-◌, ◌*◌, ◌/◌, ◌%◌, ◌^◌, ◌≤◌, ◌<◌, ◌≡◌, refl, sym, ap, ◌∙◌, ◌≢◌, ◌↔◌, ◌⊎◌, inl,
  inr, Bool, true, false, not, ◌&&◌, ◌||◌, Option, none, some, List, [], ◌∷◌, ◌++◌, map, arith, leb,
  ltb, ◌==◌, if◌then◌else◌, length, take, drop, get_or, get_elem?, set, ℤ, pos, negsuc, ltb_ℤ,
  pos_part, neg_part, sub_ℕ, ◌+ℤ◌, ◌≤ℤ◌, ◌<ℤ◌, ◌>>=◌, Bool-cases, Option-cases, length-append,
  length-set, replicate, ltb→lt, lt→ltb,
}
use khazar_os.CString.{
  Bytes, lit, str_eq, strncpy, has_prefix, strstr, is_some, contains, strchr, tolower, isspace,
  skip_spaces,
}
use khazar_os.RuleEngine.Result.{MatchResult}
use khazar_os.RuleEngine.Cache.{Cache, is_unknown}
use khazar_os.RuleEngine.Pipeline.{Config, Tables, run_tier0_pipeline}

-- separators
abbrev pub separators : List Bytes
separators = lit " ve " ∷ lit " & " ∷ lit " həm " ∷ lit " hem " ∷ lit " + " ∷ []

-- The spaces at the end of a text go.
unfoldable pub join_space : ℕ → Bytes → Bytes
join_space c [] = if c == b' ' then [] else c ∷ []
join_space c (d ∷ s) = c ∷ (d ∷ s)

unfoldable pub strip_end : Bytes → Bytes
unfolding join_space
strip_end [] = []
strip_end (c ∷ s) = join_space c (strip_end s)

-- The loop stops at the first byte, which stays.
unfoldable pub trim_end : Bytes → Bytes
unfolding strip_end
trim_end [] = []
trim_end (c ∷ s) = c ∷ strip_end s

-- parts[i], from the text on one side of the separator
unfoldable pub part : Bytes → Bytes
unfolding trim_end skip_spaces
part s = trim_end (strncpy 2047 (skip_spaces s))

-- The parts that are counted: both, or none of them.
unfoldable pub both : Bytes → Bytes → List Bytes
both [] b = []
both (c ∷ a) [] = []
both (c ∷ a) (d ∷ b) = (c ∷ a) ∷ (d ∷ b) ∷ []

-- `temp` around the separator that was looked for, or what the next separators give.
unfoldable pub split_at : Bytes → Bytes → Option Bytes → List Bytes → List Bytes
unfolding both part
split_at temp sep none rest = rest
split_at temp sep (some tail) rest =
    both (part (take (length temp - length tail) temp)) (part (drop (length sep) tail))

unfoldable pub split_by : List Bytes → Bytes → Bytes → List Bytes
unfolding split_at strstr
split_by [] query temp = strncpy 2047 query ∷ []
split_by (sep ∷ seps) query temp = split_at temp sep (strstr temp sep) (split_by seps query temp)

-- parts[0], ..., parts[*count - 1]
unfoldable pub split_query : Bytes → List Bytes
unfolding split_by
split_query query = split_by separators query (strncpy 2047 query)

-- The results of the parts, in `multi_results`. The clock is read in each call.
unfoldable pub run_parts :
    Config → Tables → (ℕ → ℕ) → ℕ → Cache → List Bytes → Cache × List MatchResult
unfolding run_tier0_pipeline
run_parts cfg t clock i c [] = (c, [])
run_parts cfg t clock i c (query ∷ queries) =
    let r = run_tier0_pipeline cfg t (clock i) c query in
    let rest = run_parts cfg t clock (suc i) r.0 queries in (rest.0, r.1 ∷ rest.1)

-- found: the parts for which run_tier0_pipeline returned 0
unfoldable pub count_known : List MatchResult → ℕ
unfolding is_unknown
count_known [] = 0
count_known (r ∷ rs) = let rest = count_known rs in if is_unknown r.intent then rest else suc rest

-- What is answered: one result, or a list of them.
pub data Answer : Type 0 where
  single : MatchResult → Answer
  multi : List MatchResult → Answer

-- Of `multi_results` the first `found` are answered.
unfoldable pub found_of : Cache × List MatchResult → Cache × Answer
unfolding count_known
found_of (c, rs) = (c, multi (take (count_known rs) rs))

unfoldable pub single_of : Cache × MatchResult → Cache × Answer
single_of (c, r) = (c, single r)

-- The case MSG_REQUEST for a query that is not empty: the cache and the answer.
unfoldable pub answer_request : Config → Tables → (ℕ → ℕ) → Cache → Bytes → Cache × Answer
unfolding split_query run_parts found_of single_of run_tier0_pipeline
answer_request cfg t clock c query =
    let parts = split_query query in
    if ltb 1 (length parts)
    then found_of (run_parts cfg t clock 0 c parts)
    else single_of (run_tier0_pipeline cfg t (clock 0) c query)
