-- ===== src/RuleEngine/Tokens.antt =====
-- The table of tokens: khazar/components/rule-engine/tokens/tokens.c. `g_tokens[0 .. g_token_count)` is
-- a list. The sum of a weight and a length is an integer without a bound.
pub mod Highest
use khazar_os.Common.{
  ℕ, zero, suc, ◌+◌, ◌-◌, ◌*◌, ◌/◌, ◌%◌, ◌^◌, ◌≤◌, ◌<◌, ◌≡◌, refl, sym, ap, ◌∙◌, ◌≢◌, ◌↔◌, ◌⊎◌, inl,
  inr, Bool, true, false, not, ◌&&◌, ◌||◌, Option, none, some, List, [], ◌∷◌, ◌++◌, map, arith, leb,
  ltb, ◌==◌, if◌then◌else◌, length, take, drop, get_or, get_elem?, set, ℤ, pos, negsuc, ltb_ℤ,
  pos_part, neg_part, sub_ℕ, ◌+ℤ◌, ◌≤ℤ◌, ◌<ℤ◌, ◌>>=◌, Bool-cases, Option-cases, length-append,
  length-set, replicate, ltb→lt, lt→ltb,
}
use khazar_os.CString.{
  Bytes, lit, str_eq, strncpy, has_prefix, strstr, is_some, contains, strchr, tolower, isspace,
  skip_spaces,
}
use khazar_os.Common.{first_max}
use khazar_os.RuleEngine.Intent.{IntentType, RuleSource, by_token}
use khazar_os.RuleEngine.Result.{MatchResult, no_match, same_source, keep}

pub record TokenEntry : Type 0 where
  pub token : Bytes
  pub intent : IntentType
  pub weight : ℤ
  pub source : RuleSource

abbrev pub max_tokens : ℕ
max_tokens = 1024

abbrev pub tokens_init : List TokenEntry
tokens_init = []

-- The new table, and whether the call returns 0.
unfoldable pub tokens_add :
    List TokenEntry → Bytes → IntentType → ℤ → RuleSource → List TokenEntry × Bool
tokens_add ts token intent weight source = if leb max_tokens (length ts) then (ts, false) else (
  ts
      ++ record { token = strncpy 127 token; intent = intent; weight = weight; source = source }
        ∷ [],
  true,
)

-- to_lowercase(dst, src, max)
unfoldable pub to_lowercase : Bytes → ℕ → Bytes
to_lowercase src max = map tolower (take (max - 1) src)

-- The query holds the token, in either case.
unfoldable pub holds : Bytes → TokenEntry → Bool
holds query e = contains (to_lowercase query 2048) (to_lowercase e.token 128)

unfoldable pub score : TokenEntry → ℤ
score e = e.weight +ℤ pos (length (to_lowercase e.token 128))

unfoldable pub answer : Bytes → Option TokenEntry → MatchResult × Bool
answer query none = (no_match, false)
answer query (some e) = (
  record {
    intent = e.intent;
    target = strncpy 255 query;
    action = strncpy 127 e.token;
    confidence = record { num = pos_part (score e); den = pos_part (score e) + 10 };
    source = by_token;
    matched_pattern = strncpy 127 e.token;
  },
  true,
)

-- The result, and whether the call returns 0.
unfoldable pub tokens_lookup : List TokenEntry → Bytes → MatchResult × Bool
unfolding answer first_max
tokens_lookup ts query = answer query (first_max (holds query) score none (pos 0) ts)

unfoldable pub tokens_clear_rules : List TokenEntry → RuleSource → List TokenEntry
tokens_clear_rules ts source = keep (λ e. not (same_source e.source source)) ts
