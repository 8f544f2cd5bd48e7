-- ===== src/RuleEngine/Multi/Found.antt =====
-- The answer of the rule engine to two queries that are joined by a separator.
use khazar_os.Common.{
  ℕ, ◌+◌, ◌≤◌, ◌≡◌, refl, inl, inr, Bool, true, false, List, [], ◌∷◌, ◌++◌, length, take,
  Bool-cases,
}
use khazar_os.CString.{Bytes, lit, contains}
use khazar_os.RuleEngine.Result.{MatchResult}
use khazar_os.RuleEngine.Cache.{Cache, is_unknown}
use khazar_os.RuleEngine.Pipeline.{Config, Tables, run_tier0_pipeline}
use khazar_os.RuleEngine.Multi.{multi, count_known, run_parts, found_of, answer_request}
use khazar_os.RuleEngine.Multi.Joined.{IsTrimmed, split_query-joined}

-- The results that are answered, where the first and the second query have no known intent.
unfoldable pub reported : Bool → Bool → MatchResult → MatchResult → List MatchResult
reported true true r s = []
reported true false r s = r ∷ []
reported false true r s = r ∷ []
reported false false r s = r ∷ s ∷ []

count_known-reported :
    (r s : MatchResult)
    → take (count_known (r ∷ s ∷ [])) (r ∷ s ∷ [])
      ≡ reported (is_unknown r.intent) (is_unknown s.intent) r s
unfolding count_known reported
count_known-reported r s = elim (Bool-cases (is_unknown r.intent)) [
  | inl u ↦ elim (Bool-cases (is_unknown s.intent)) [
    | inl v ↦ rw (u, v) refl
    | inr v ↦ rw (u, v) refl
  ]
  | inr u ↦ elim (Bool-cases (is_unknown s.intent)) [
    | inl v ↦ rw (u, v) refl
    | inr v ↦ rw (u, v) refl
  ]
]

-- Two queries without spaces at their ends, not empty, with " ve " between them, are looked up one
-- after the other, the second with the cache that the first left. Where both intents are known, both
-- results are answered. Where one of them is known, the answer is the result of the first query, even
-- if the second is the one that is known. Where none is, the answer lists nothing. The four bytes are
-- not found in the first query with " ve" behind it, and the whole fits the buffer.
pub answer_request-joined :
    (cfg : Config) (t : Tables) (clock : ℕ → ℕ) (c : Cache) (a b : Bytes)
    → IsTrimmed a
    → IsTrimmed b
    → contains (a ++ lit " ve") (lit " ve ") ≡ false
    → length a + length b ≤ 2043
    → let first = run_tier0_pipeline cfg t (clock 0) c a in
      let second = run_tier0_pipeline cfg t (clock 1) first.0 b in
      answer_request cfg t clock c (a ++ (lit " ve " ++ b)) ≡ (
        second.0,
        multi (reported (is_unknown first.1.intent) (is_unknown second.1.intent) first.1 second.1),
      )
unfolding answer_request run_parts found_of
answer_request-joined cfg t clock c a b ta tb h n =
    let first = run_tier0_pipeline cfg t (clock 0) c a in
    let second = run_tier0_pipeline cfg t (clock 1) first.0 b in
    rw (split_query-joined a b ta tb h n, count_known-reported first.1 second.1) refl
