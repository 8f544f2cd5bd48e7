-- ===== src/RuleEngine/Matcher.antt =====
-- The regular expressions: khazar/components/rule-engine/matcher/matcher.c. `regcomp` and `regexec`
-- are parameters: whether a pattern compiles, and whether the compiled pattern matches a text.
pub mod Highest
use khazar_os.Common.{
  ℕ, zero, suc, ◌+◌, ◌-◌, ◌*◌, ◌/◌, ◌%◌, ◌^◌, ◌≤◌, ◌<◌, ◌≡◌, refl, sym, ap, ◌∙◌, ◌≢◌, ◌↔◌, ◌⊎◌, inl,
  inr, Bool, true, false, not, ◌&&◌, ◌||◌, Option, none, some, List, [], ◌∷◌, ◌++◌, map, arith, leb,
  ltb, ◌==◌, if◌then◌else◌, length, take, drop, get_or, get_elem?, set, ℤ, pos, negsuc, ltb_ℤ,
  pos_part, neg_part, sub_ℕ, ◌+ℤ◌, ◌≤ℤ◌, ◌<ℤ◌, ◌>>=◌, Bool-cases, Option-cases, length-append,
  length-set, replicate, ltb→lt, lt→ltb,
}
use khazar_os.CString.{
  Bytes, lit, str_eq, strncpy, has_prefix, strstr, is_some, contains, strchr, tolower, isspace,
  skip_spaces,
}
use khazar_os.Common.{first_max}
use khazar_os.RuleEngine.Intent.{IntentType, RuleSource, by_regex}
use khazar_os.RuleEngine.Result.{MatchResult, no_match, same_source, keep}

-- `regex` is the text that was compiled, `pattern` the copy of it that is kept.
pub record RegexRule : Type 0 where
  pub regex : Bytes
  pub pattern : Bytes
  pub intent : IntentType
  pub priority : ℤ
  pub source : RuleSource

abbrev pub max_regex_rules : ℕ
max_regex_rules = 1024

abbrev pub matcher_init : List RegexRule
matcher_init = []

-- The new table, and whether the call returns 0.
unfoldable pub matcher_add_rule :
    (Bytes → Bool) → List RegexRule → Bytes → IntentType → ℤ → RuleSource → List RegexRule × Bool
matcher_add_rule compiles rules pattern intent priority source =
    if leb max_regex_rules (length rules)
    then (rules, false)
    else if not (compiles pattern)
    then (rules, false)
    else (
      rules
          ++ record {
            regex = pattern;
            pattern = strncpy 127 pattern;
            intent = intent;
            priority = priority;
            source = source;
          }
            ∷ [],
      true,
    )

-- while (isspace(*q)) q++
unfoldable pub skip_isspace : Bytes → Bytes
skip_isspace [] = []
skip_isspace (c ∷ q) = if isspace c then skip_isspace q else c ∷ q

unfoldable pub starts_with_space : Bytes → Bool
starts_with_space [] = false
starts_with_space (c ∷ q) = isspace c

-- while (*q && *p == ' ' && isspace(*q)) { p++; q++; }
unfoldable pub skip_both : Bytes → Bytes → Bytes × Bytes
skip_both [] q = ([], q)
skip_both (c ∷ p) [] = (c ∷ p, [])
skip_both (c ∷ p) (d ∷ q) =
    let rest = skip_both p q in if c == b' ' && isspace d then rest else (c ∷ p, d ∷ q)

-- At most `n` bytes up to a blank.
unfoldable pub word : ℕ → Bytes → Bytes
word zero q = []
word (suc n) [] = []
word (suc n) (c ∷ q) = let rest = word n q in if isspace c then [] else c ∷ rest

-- The last loop: past the blanks and the signs of the expression.
unfoldable pub skip_signs : Bytes → Bytes → Bytes
skip_signs [] q = []
skip_signs (c ∷ p) q =
    let past_blanks = skip_signs p (skip_isspace q) in
    let rest = skip_signs p q in
    if c == b' ' && starts_with_space q
    then past_blanks
    else if c == b' ' || c == b'$' || c == b'(' || c == b')' || c == b'.' || c == b'*'
    then rest
    else c ∷ p

unfoldable pub skip_caret : Bytes → Bytes
skip_caret [] = []
skip_caret (c ∷ p) = if c == b'^' then p else c ∷ p

-- if (*q && *q != ' ')
unfoldable pub first_word : Bytes → Bytes
first_word [] = []
first_word (c ∷ q) = if c == b' ' then [] else word 255 (c ∷ q)

-- The pattern and the query behind the group, and the target.
unfoldable pub read_group : Bytes → Bytes → (Bytes × Bytes) × Bytes
read_group p q =
    if has_prefix (lit "(.*)") p
    then (skip_both (drop 4 p) q, first_word (skip_both (drop 4 p) q).1)
    else ((p, q), [])

unfoldable pub or_query : Bytes → Bytes → Bytes
or_query [] query = strncpy 255 query
or_query (c ∷ target) query = c ∷ target

-- The target and the action.
unfoldable pub extract_target : Bytes → RegexRule → Bytes × Bytes
unfolding skip_caret skip_isspace read_group or_query skip_signs
extract_target query rule =
    let ((p, q), target) = read_group (skip_caret rule.pattern) (skip_isspace query) in
    (or_query target query, strncpy 127 (skip_signs p q))

unfoldable pub answer : Bytes → Option RegexRule → MatchResult × Bool
answer query none = (no_match, false)
answer query (some r) = (
  record {
    intent = r.intent;
    target = (extract_target query r).0;
    action = (extract_target query r).1;
    confidence = record { num = 95; den = 100 };
    source = by_regex;
    matched_pattern = strncpy 127 r.pattern;
  },
  true,
)

-- The result, and whether the call returns 0.
unfoldable pub matcher_match : (Bytes → Bytes → Bool) → List RegexRule → Bytes → MatchResult × Bool
unfolding answer first_max
matcher_match matches rules query =
    answer query (first_max (λ r. matches r.regex query) (λ r. r.priority) none (negsuc 0) rules)

unfoldable pub nonempty : Bytes → Bool
nonempty [] = false
nonempty (c ∷ s) = true

-- An entry of the source is cleared, and then each entry without a pattern is dropped.
unfoldable pub matcher_clear_rules : List RegexRule → RuleSource → List RegexRule
unfolding nonempty
matcher_clear_rules rules source =
    keep (λ r. not (same_source r.source source) && nonempty r.pattern) rules
