-- ===== src/RuleEngine/Metrics.antt =====
-- The counters of the rule engine: khazar/components/rule-engine/metrics/metrics.c without the
-- latencies, which are floating-point numbers, and the end of `run_tier0_pipeline` of main.c.
pub mod Counted
pub mod Balance
use khazar_os.Common.{
  ℕ, zero, suc, ◌+◌, ◌-◌, ◌*◌, ◌/◌, ◌%◌, ◌^◌, ◌≤◌, ◌<◌, ◌≡◌, refl, sym, ap, ◌∙◌, ◌≢◌, ◌↔◌, ◌⊎◌, inl,
  inr, Bool, true, false, not, ◌&&◌, ◌||◌, Option, none, some, List, [], ◌∷◌, ◌++◌, map, arith, leb,
  ltb, ◌==◌, if◌then◌else◌, length, take, drop, get_or, get_elem?, set, ℤ, pos, negsuc, ltb_ℤ,
  pos_part, neg_part, sub_ℕ, ◌+ℤ◌, ◌≤ℤ◌, ◌<ℤ◌, ◌>>=◌, Bool-cases, Option-cases, length-append,
  length-set, replicate, ltb→lt, lt→ltb,
}
use khazar_os.CString.{
  Bytes, lit, str_eq, strncpy, has_prefix, strstr, is_some, contains, strchr, tolower, isspace,
  skip_spaces,
}
use khazar_os.RuleEngine.Intent.{
  MatchSource, by_cache, by_regex, by_token, by_intent, by_alias, by_fuzzy, by_none,
}
use khazar_os.RuleEngine.Result.{MatchResult}
use khazar_os.RuleEngine.Cache.{is_unknown}

-- pipeline_metrics_t
pub record Metrics : Type 0 where
  pub total_requests : ℕ
  pub cache_hits : ℕ
  pub regex_hits : ℕ
  pub token_hits : ℕ
  pub intent_hits : ℕ
  pub alias_hits : ℕ
  pub fuzzy_hits : ℕ
  pub unknown_hits : ℕ
  pub multi_intents : ℕ
  pub active_connections : ℕ
  pub cache_size : ℕ
  pub cache_evictions : ℕ
  pub uptime_start : ℕ

-- x++ on a uint64_t
abbrev pub increment : ℕ → ℕ
increment n = (n + 1) % 18446744073709551616

unfoldable pub metrics_init : ℕ → Metrics
metrics_init now = record {
  total_requests = 0;
  cache_hits = 0;
  regex_hits = 0;
  token_hits = 0;
  intent_hits = 0;
  alias_hits = 0;
  fuzzy_hits = 0;
  unknown_hits = 0;
  multi_intents = 0;
  active_connections = 0;
  cache_size = 0;
  cache_evictions = 0;
  uptime_start = now;
}

unfoldable pub metrics_record_request : Metrics → Metrics
metrics_record_request m = record m { total_requests = increment m.total_requests }

unfoldable pub metrics_record_hit : MatchSource → Metrics → Metrics
metrics_record_hit by_cache m = record m { cache_hits = increment m.cache_hits }
metrics_record_hit by_regex m = record m { regex_hits = increment m.regex_hits }
metrics_record_hit by_token m = record m { token_hits = increment m.token_hits }
metrics_record_hit by_intent m = record m { intent_hits = increment m.intent_hits }
metrics_record_hit by_alias m = record m { alias_hits = increment m.alias_hits }
metrics_record_hit by_fuzzy m = record m { fuzzy_hits = increment m.fuzzy_hits }
metrics_record_hit by_none m = m

unfoldable pub metrics_record_unknown : Metrics → Metrics
metrics_record_unknown m = record m { unknown_hits = increment m.unknown_hits }

-- The argument of the call is not used.
unfoldable pub metrics_record_multi : Metrics → Metrics
metrics_record_multi m = record m { multi_intents = increment m.multi_intents }

unfoldable pub metrics_set_connections : ℕ → Metrics → Metrics
metrics_set_connections n m = record m { active_connections = n }

unfoldable pub metrics_set_cache_size : ℕ → Metrics → Metrics
metrics_set_cache_size n m = record m { cache_size = n }

unfoldable pub metrics_set_cache_evictions : ℕ → Metrics → Metrics
metrics_set_cache_evictions n m = record m { cache_evictions = n }

-- What `run_tier0_pipeline` counts for its result.
unfoldable pub record_answer : MatchResult → Metrics → Metrics
unfolding metrics_record_request metrics_record_unknown metrics_record_hit
record_answer r m =
    let counted = metrics_record_request m in
    if is_unknown r.intent
    then metrics_record_unknown counted
    else metrics_record_hit r.source counted
