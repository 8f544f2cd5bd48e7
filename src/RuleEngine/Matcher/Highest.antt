-- ===== src/RuleEngine/Matcher/Highest.antt =====
-- Which rule decides.
use khazar_os.Common.{◌≡◌, refl, inl, inr, Bool, true, false, none, List, negsuc}
use khazar_os.CString.{Bytes, strncpy}
use khazar_os.Common.{Best, NoneAbove, first_max_cases}
use khazar_os.RuleEngine.Intent.{unknown}
use khazar_os.RuleEngine.Result.{MatchResult}
use khazar_os.RuleEngine.Matcher.{RegexRule, answer, matcher_match}

module _ (matches : Bytes → Bytes → Bool) where
  -- The outcome of a match against the table.
  abbrev pub IsHighest : Bytes → List RegexRule → MatchResult × Bool → Type 0
  IsHighest query rules (r, false) =
      (r.intent ≡ unknown)
      × NoneAbove (λ e. matches e.regex query) (λ e. e.priority) (negsuc 0) rules
  IsHighest query rules (r, true) =
      (e : RegexRule) × (r.intent ≡ e.intent)
      × (r.matched_pattern ≡ strncpy 127 e.pattern)
      × Best (λ e. matches e.regex query) (λ e. e.priority) (negsuc 0) rules e

  -- `matcher_match` answers with the first of the rules of highest priority among those whose
  -- expression matches the query; it fails, with the unknown intent, if none of these has a priority of
  -- at least 0.
  pub matcher_match-IsHighest :
      (rules : List RegexRule) (query : Bytes)
      → IsHighest query rules (matcher_match matches rules query)
  unfolding matcher_match answer
  matcher_match-IsHighest rules query =
      elim (first_max_cases (λ (e : RegexRule). matches e.regex query) (λ e. e.priority) rules none
        (negsuc 0)) [
          | inl (e, low) ↦ rw (e, answer) (refl, low)
          | inr (w, e, b) ↦ rw (e, answer) (w, refl, refl, b)
        ]
