-- ===== src/RuleEngine/Result.antt =====
-- `match_result_t` of khazar/components/rule-engine/include/common.h, and what the tables have in common.
use khazar_os.Common.{ℕ, Bool, true, false, List, [], ◌∷◌, if◌then◌else◌}
use khazar_os.CString.{Bytes}
use khazar_os.RuleEngine.Intent.{
  IntentType, unknown, RuleSource, builtin, file, runtime, MatchSource, by_cache,
}

-- A `float` as the quotient that it is computed as.
pub record Quotient : Type 0 where
  pub num : ℕ
  pub den : ℕ

-- `args`, which no table fills, is left out.
pub record MatchResult : Type 0 where
  pub intent : IntentType
  pub target : Bytes
  pub action : Bytes
  pub confidence : Quotient
  pub source : MatchSource
  pub matched_pattern : Bytes

-- The result after `memset` and `intent = INTENT_UNKNOWN`: the source 0 is `MATCH_SOURCE_CACHE`.
abbrev pub no_match : MatchResult
no_match = record {
  intent = unknown;
  target = [];
  action = [];
  confidence = record { num = 0; den = 1 };
  source = by_cache;
  matched_pattern = [];
}

unfoldable pub same_source : RuleSource → RuleSource → Bool
same_source builtin builtin = true
same_source file file = true
same_source runtime runtime = true
same_source _ _ = false

-- The loop that moves the entries that stay to the front, in their order.
unfoldable pub keep {ℓ} : {A : Type ℓ} → (A → Bool) → List A → List A
keep p [] = []
keep p (x ∷ xs) = let rest = keep p xs in if p x then x ∷ rest else rest
