-- ===== src/RuleEngine/Pipeline.antt =====
-- The order in which the tables are asked: `run_tier0_pipeline` of khazar/components/rule-engine/main.c,
-- without the metrics and the clock. What `regexec` returns is a parameter, and a confidence is
-- compared with its threshold as an exact quotient.
pub mod Again
use khazar_os.Common.{
  ℕ, zero, suc, ◌+◌, ◌-◌, ◌*◌, ◌/◌, ◌%◌, ◌^◌, ◌≤◌, ◌<◌, ◌≡◌, refl, sym, ap, ◌∙◌, ◌≢◌, ◌↔◌, ◌⊎◌, inl,
  inr, Bool, true, false, not, ◌&&◌, ◌||◌, Option, none, some, List, [], ◌∷◌, ◌++◌, map, arith, leb,
  ltb, ◌==◌, if◌then◌else◌, length, take, drop, get_or, get_elem?, set, ℤ, pos, negsuc, ltb_ℤ,
  pos_part, neg_part, sub_ℕ, ◌+ℤ◌, ◌≤ℤ◌, ◌<ℤ◌, ◌>>=◌, Bool-cases, Option-cases, length-append,
  length-set, replicate, ltb→lt, lt→ltb,
}
use khazar_os.CString.{
  Bytes, lit, str_eq, strncpy, has_prefix, strstr, is_some, contains, strchr, tolower, isspace,
  skip_spaces,
}
use khazar_os.RuleEngine.Intent.{
  open_application, by_cache, by_regex, by_token, by_intent, by_alias, by_fuzzy, by_none,
}
use khazar_os.RuleEngine.Result.{MatchResult, Quotient, no_match}
use khazar_os.RuleEngine.Tokens.{TokenEntry, tokens_lookup}
use khazar_os.RuleEngine.Matcher.{RegexRule, matcher_match}
use khazar_os.RuleEngine.Intents.{IntentEntry, intent_lookup}
use khazar_os.RuleEngine.Alias.{AliasEntry, alias_resolve}
use khazar_os.RuleEngine.Cache.{Cache, cache_lookup, cache_store}
use khazar_os.RuleEngine.Fuzzy.{FuzzyTable, fuzzy_match}

-- The part of `config_t` that the pipeline reads.
pub record Config : Type 0 where
  pub enable_cache : Bool
  pub enable_intent_table : Bool
  pub enable_regex : Bool
  pub enable_tokens : Bool
  pub enable_alias : Bool
  pub enable_fuzzy : Bool
  pub cache_confidence_threshold : Quotient
  pub regex_confidence_threshold : Quotient
  pub token_confidence_threshold : Quotient
  pub intent_confidence_threshold : Quotient
  pub alias_confidence_threshold : Quotient

pub record Tables : Type 0 where
  pub intents : List IntentEntry
  pub rules : List RegexRule
  pub tokens : List TokenEntry
  pub aliases : List AliasEntry
  pub matches : Bytes → Bytes → Bool
  pub fuzzy : FuzzyTable

-- a >= b
unfoldable pub at_least : Quotient → Quotient → Bool
at_least a b = leb (b.num * a.den) (a.num * b.den)

unfoldable pub confidence_ok : Config → MatchResult → Bool
unfolding at_least
confidence_ok cfg r = elim r.source [
  | by_cache ↦ at_least r.confidence cfg.cache_confidence_threshold
  | by_regex ↦ at_least r.confidence cfg.regex_confidence_threshold
  | by_token ↦ at_least r.confidence cfg.token_confidence_threshold
  | by_intent ↦ at_least r.confidence cfg.intent_confidence_threshold
  | by_alias ↦ at_least r.confidence cfg.alias_confidence_threshold
  | by_fuzzy ↦ true
  | by_none ↦ false
]

-- One stage on `*result`: a lookup overwrites it, whether or not it succeeds. With the result, whether
-- the stage ends the pipeline.
unfoldable pub stage : Config → Bool → MatchResult × Bool → MatchResult → MatchResult × Bool
unfolding confidence_ok
stage cfg enabled looked r =
    if enabled then (looked.0, looked.1 && confidence_ok cfg looked.0) else (r, false)

-- The next stage, unless the pipeline has ended.
unfoldable pub then_try :
    MatchResult × Bool → (MatchResult → MatchResult × Bool) → MatchResult × Bool
then_try (r, true) next = (r, true)
then_try (r, false) next = next r

-- The last stage asks for no confidence.
unfoldable pub fuzzy_stage : Bool → MatchResult × Bool → MatchResult → MatchResult × Bool
fuzzy_stage enabled looked r = if enabled then looked else (r, false)

-- The stages behind the cache.
unfoldable pub lookup_tables : Config → Tables → Bytes → MatchResult → MatchResult × Bool
unfolding then_try stage fuzzy_stage
lookup_tables cfg t query r =
    then_try
      (then_try
        (then_try
          (then_try (stage cfg cfg.enable_intent_table (intent_lookup t.intents query) r)
            (stage cfg cfg.enable_regex (matcher_match t.matches t.rules query)))
          (stage cfg cfg.enable_tokens (tokens_lookup t.tokens query)))
        (stage cfg cfg.enable_alias (alias_resolve t.aliases query)))
      (fuzzy_stage cfg.enable_fuzzy (fuzzy_match t.fuzzy query))

-- The cache, `*result`, and whether the cache answered.
pub record Looked : Type 0 where
  pub cache : Cache
  pub result : MatchResult
  pub done : Bool

-- A miss leaves the result cleared, which reads as `INTENT_OPEN_APPLICATION`.
unfoldable pub after_lookup : Config → Cache × Option MatchResult → Looked
unfolding confidence_ok
after_lookup cfg (c, some r) = record { cache = c; result = r; done = confidence_ok cfg r }
after_lookup cfg (c, none) = record {
  cache = c;
  result = record no_match { intent = open_application };
  done = false;
}

unfoldable pub ask_cache : Config → ℕ → Cache → Bytes → Looked
unfolding after_lookup
ask_cache cfg now c query =
    if cfg.enable_cache
    then after_lookup cfg (cache_lookup now c query)
    else record { cache = c; result = no_match; done = false }

-- What a stage has found goes to the cache.
unfoldable pub keep_answer : Config → ℕ → Cache → Bytes → MatchResult × Bool → Cache × MatchResult
keep_answer cfg now c query (r, found) =
    (if found && cfg.enable_cache then cache_store now c query r else c, r)

-- What follows the first stage.
unfoldable pub ask_tables : Config → Tables → ℕ → Bytes → Looked → Cache × MatchResult
unfolding lookup_tables keep_answer
ask_tables cfg t now query looked =
    if looked.done
    then (looked.cache, looked.result)
    else keep_answer cfg now looked.cache query (lookup_tables cfg t query looked.result)

-- The new cache and `*result`; the call returns 0 unless the result's intent is unknown.
unfoldable pub run_tier0_pipeline : Config → Tables → ℕ → Cache → Bytes → Cache × MatchResult
unfolding ask_cache ask_tables
run_tier0_pipeline cfg t now c query = ask_tables cfg t now query (ask_cache cfg now c query)
