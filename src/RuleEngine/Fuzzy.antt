-- ===== src/RuleEngine/Fuzzy.antt =====
-- The fuzzy match: khazar/components/rule-engine/fuzzy/fuzzy.c. The matrix is filled row by row; a cell
-- reads the row above and the cell to its left, so a row is kept as a list. Similarities are exact
-- quotients in place of `float`s.
pub mod Distance
pub mod Optimal
use khazar_os.Common.{
  ℕ, zero, suc, ◌+◌, ◌-◌, ◌*◌, ◌/◌, ◌%◌, ◌^◌, ◌≤◌, ◌<◌, ◌≡◌, refl, sym, ap, ◌∙◌, ◌≢◌, ◌↔◌, ◌⊎◌, inl,
  inr, Bool, true, false, not, ◌&&◌, ◌||◌, Option, none, some, List, [], ◌∷◌, ◌++◌, map, arith, leb,
  ltb, ◌==◌, if◌then◌else◌, length, take, drop, get_or, get_elem?, set, ℤ, pos, negsuc, ltb_ℤ,
  pos_part, neg_part, sub_ℕ, ◌+ℤ◌, ◌≤ℤ◌, ◌<ℤ◌, ◌>>=◌, Bool-cases, Option-cases, length-append,
  length-set, replicate, ltb→lt, lt→ltb,
}
use khazar_os.CString.{
  Bytes, lit, str_eq, strncpy, has_prefix, strstr, is_some, contains, strchr, tolower, isspace,
  skip_spaces,
}
use khazar_os.RuleEngine.Intent.{by_fuzzy}
use khazar_os.RuleEngine.Result.{MatchResult, Quotient, no_match}
use khazar_os.RuleEngine.Intents.{IntentEntry, strtolower}

abbrev pub cost : ℕ → ℕ → ℕ
cost c d = if c == d then 0 else 1

-- `min_val` of the three
unfoldable pub min_val : ℕ → ℕ → ℕ → ℕ
min_val del ins sub =
    let least = if ltb ins del then ins else del in if ltb sub least then sub else least

-- The inner loop for the byte `c` of the first text, from one column on: `diagonal` and `left` are the
-- cells at matrix[i - 1][j - 1] and matrix[i][j - 1].
unfoldable pub fill_row : ℕ → ℕ → ℕ → Bytes → List ℕ → List ℕ
unfolding min_val
fill_row c diagonal left [] above = []
fill_row c diagonal left (d ∷ t) [] = []
fill_row c diagonal left (d ∷ t) (up ∷ above) =
    let cell = min_val (up + 1) (left + 1) (diagonal + cost c d) in
    cell ∷ fill_row c up cell t above

-- Row `i` from the row above.
unfoldable pub next_row : ℕ → ℕ → Bytes → List ℕ → List ℕ
unfolding fill_row
next_row i c t [] = []
next_row i c t (up ∷ above) = i ∷ fill_row c up i t above

-- The outer loop from row `i` on.
unfoldable pub fill_rows : ℕ → Bytes → Bytes → List ℕ → List ℕ
unfolding next_row
fill_rows i [] t row = row
fill_rows i (c ∷ s) t row = fill_rows (i + 1) s t (next_row i c t row)

-- matrix[0][j] = j
unfoldable pub first_row : ℕ → Bytes → List ℕ
first_row j [] = j ∷ []
first_row j (d ∷ t) = j ∷ first_row (j + 1) t

unfoldable pub distance_table : Bytes → Bytes → ℕ
unfolding fill_rows first_row
distance_table s t = get_or (fill_rows 1 s t (first_row 0 t)) (length t) 0

-- A text of 127 bytes or more counts with its first 126.
unfoldable pub levenshtein : Bytes → Bytes → ℕ
unfolding distance_table
levenshtein s t = distance_table (take 126 s) (take 126 t)

-- The distance is at most the greater length, so the difference is exact.
unfoldable pub similarity : Bytes → Bytes → Quotient
unfolding levenshtein
similarity a b =
    let longest = if ltb (length a) (length b) then length b else length a in
    if leb longest 0
    then record { num = 1; den = 1 }
    else record { num = longest - levenshtein a b; den = longest }

-- a > b, and a >= b
unfoldable pub above : Quotient → Quotient → Bool
above a b = ltb (b.num * a.den) (a.num * b.den)

unfoldable pub at_least : Quotient → Quotient → Bool
at_least a b = leb (b.num * a.den) (a.num * b.den)

-- The loop of `fuzzy_match`, with `best_sim` and the entry at `best_idx`.
unfoldable pub best_entry :
    Bytes
    → Quotient
    → Quotient
    → Option IntentEntry
    → List IntentEntry
    → Quotient × Option IntentEntry
unfolding similarity above at_least strtolower
best_entry query_lower threshold best_sim best [] = (best_sim, best)
best_entry query_lower threshold best_sim best (e ∷ es) =
    let sim = similarity query_lower (strtolower (strncpy 2047 e.query)) in
    let taken = best_entry query_lower threshold sim (some e) es in
    let kept = best_entry query_lower threshold best_sim best es in
    if above sim best_sim && at_least sim threshold then taken else kept

unfoldable pub answer : Quotient × Option IntentEntry → MatchResult × Bool
answer (sim, none) = (no_match, false)
answer (sim, some e) = (
  record {
    intent = e.intent;
    target = strncpy 255 e.target;
    action = strncpy 127 e.action;
    confidence = sim;
    source = by_fuzzy;
    matched_pattern = strncpy 127 e.query;
  },
  true,
)

-- `g_intents` and `g_threshold`; no function of the source adds an entry.
pub record FuzzyTable : Type 0 where
  pub intents : List IntentEntry
  pub threshold : Quotient

abbrev pub fuzzy_init : FuzzyTable → FuzzyTable
fuzzy_init f = record f { intents = [] }

abbrev pub fuzzy_set_threshold : FuzzyTable → Quotient → FuzzyTable
fuzzy_set_threshold f threshold = record f { threshold = threshold }

-- The result, and whether the call returns 0.
unfoldable pub fuzzy_match : FuzzyTable → Bytes → MatchResult × Bool
unfolding best_entry answer
fuzzy_match f query = answer (
    best_entry (strtolower (strncpy 2047 query)) f.threshold (record { num = 0; den = 1 }) none
      f.intents)
