-- ===== src/RuleEngine/Tokens/Highest.antt =====
-- Which token decides.
use khazar_os.Common.{
  ◌≡◌, refl, inl, inr, Bool, true, false, not, ◌&&◌, Option, none, some, List, [], ◌∷◌, ℤ, pos,
  ltb_ℤ, Bool-cases,
}
use khazar_os.CString.{Bytes, strncpy}
use khazar_os.Common.{first_max, Best, NoneAbove, first_max_cases}
use khazar_os.RuleEngine.Intent.{unknown, RuleSource}
use khazar_os.RuleEngine.Result.{MatchResult, same_source, keep}
use khazar_os.RuleEngine.Tokens.{
  TokenEntry, holds, score, answer, tokens_lookup, tokens_clear_rules,
}

-- The outcome of a lookup among the tokens that fit.
abbrev pub IsHighest : (TokenEntry → Bool) → Bytes → List TokenEntry → MatchResult × Bool → Type 0
IsHighest fits query ts (r, false) = (r.intent ≡ unknown) × NoneAbove fits score (pos 0) ts
IsHighest fits query ts (r, true) =
    (e : TokenEntry) × (r.intent ≡ e.intent)
    × (r.matched_pattern ≡ strncpy 127 e.token)
    × (r.target ≡ strncpy 255 query)
    × Best fits score (pos 0) ts e

answer-IsHighest :
    (fits : TokenEntry → Bool) (query : Bytes) (ts : List TokenEntry)
    → IsHighest fits query ts (answer query (first_max fits score none (pos 0) ts))
unfolding answer
answer-IsHighest fits query ts = elim (first_max_cases fits score ts none (pos 0)) [
  | inl (e, low) ↦ rw (e, answer) (refl, low)
  | inr (w, e, b) ↦ rw (e, answer) (w, refl, refl, refl, b)
]

-- `tokens_lookup` answers with the first of the tokens of highest score, weight plus length, among
-- those that the query holds; it fails, with the unknown intent, if none of these has a positive score.
pub tokens_lookup-IsHighest :
    (ts : List TokenEntry) (query : Bytes)
    → IsHighest (holds query) query ts (tokens_lookup ts query)
unfolding tokens_lookup
tokens_lookup-IsHighest ts query = answer-IsHighest (holds query) query ts

first_max-keep :
    (p fits : TokenEntry → Bool) (ts : List TokenEntry) (best : Option TokenEntry) (floor : ℤ)
    → first_max fits score best floor (keep p ts)
      ≡ first_max (λ e. p e && fits e) score best floor ts
unfolding keep first_max
first_max-keep p fits [] best floor = refl
first_max-keep p fits (e ∷ ts) best floor = elim (Bool-cases (p e)) [
  | inr n ↦ rw n (first_max-keep p fits ts best floor)
  | inl y ↦ elim (Bool-cases (fits e && ltb_ℤ floor (score e))) [
    | inl t ↦ rw y (rw t (first_max-keep p fits ts (some e) (score e)))
    | inr f ↦ rw y (rw f (first_max-keep p fits ts best floor))
  ]
]

-- After `tokens_clear_rules` the lookup answers from the original table as if the tokens of the cleared
-- source were not there: with the first of highest score among the others that the query holds, or not
-- at all if none of these has a positive score.
pub tokens_lookup-tokens_clear_rules :
    (ts : List TokenEntry) (source : RuleSource) (query : Bytes)
    → IsHighest
        (λ e. not (same_source e.source source) && holds query e)
        query
        ts
        (tokens_lookup (tokens_clear_rules ts source) query)
unfolding tokens_lookup tokens_clear_rules
tokens_lookup-tokens_clear_rules ts source query =
    let other : TokenEntry → Bool = λ e. not (same_source e.source source) in
    rw (first_max-keep other (holds query) ts none (pos 0))
      (answer-IsHighest (λ e. other e && holds query e) query ts)
