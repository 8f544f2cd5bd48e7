-- ===== src/RuleEngine/Metrics/Balance.antt =====
-- Each request of the rule engine is counted under one outcome.
use khazar_os.Common.{ℕ, ◌+◌, ◌%◌, ◌≡◌, refl, inl, inr, Bool, true, false, ◌||◌, arith, Bool-cases}
use khazar_os.CString.{Bytes}
use khazar_os.RuleEngine.Intent.{
  MatchSource, by_cache, by_regex, by_token, by_intent, by_alias, by_fuzzy, by_none,
}
use khazar_os.RuleEngine.Result.{MatchResult}
use khazar_os.RuleEngine.Cache.{Cache, is_unknown}
use khazar_os.RuleEngine.Pipeline.{Config, Tables, run_tier0_pipeline}
use khazar_os.RuleEngine.Metrics.{
  Metrics, metrics_init, metrics_record_request, metrics_record_unknown, metrics_record_hit,
  metrics_record_multi, metrics_set_connections, metrics_set_cache_size,
  metrics_set_cache_evictions, record_answer,
}
use khazar_os.RuleEngine.Metrics.Counted.{finds, IsCounted, run_tier0_pipeline-IsCounted}

-- What the counters can become: by the requests, with any tables and any state of the cache, and by the
-- other calls.
pub data Reachable : Metrics → Type 0 where
  started : (now : ℕ) → Reachable (metrics_init now)
  answered :
      {m : Metrics} (cfg : Config) (t : Tables) (now : ℕ) (c : Cache) (q : Bytes)
      → Reachable m
      → Reachable (record_answer (run_tier0_pipeline cfg t now c q).1 m)
  several : {m : Metrics} → Reachable m → Reachable (metrics_record_multi m)
  connected : {m : Metrics} (n : ℕ) → Reachable m → Reachable (metrics_set_connections n m)
  resized : {m : Metrics} (n : ℕ) → Reachable m → Reachable (metrics_set_cache_size n m)
  evicted : {m : Metrics} (n : ℕ) → Reachable m → Reachable (metrics_set_cache_evictions n m)

-- The outcomes add up to the requests, as numbers of 64 bits, and none is that of an alias.
unfoldable pub IsBalanced : Metrics → Type 0
IsBalanced m =
    (m.total_requests
      ≡ (m.cache_hits + m.regex_hits + m.token_hits + m.intent_hits + m.fuzzy_hits + m.unknown_hits)
        % 18446744073709551616)
    × (m.alias_hits ≡ 0)

unknown-IsBalanced :
    (m : Metrics) → IsBalanced m → IsBalanced (metrics_record_unknown (metrics_record_request m))
unfolding metrics_record_unknown metrics_record_request IsBalanced
unknown-IsBalanced m (e, a) = (omega (arith, e), a)

hit-IsBalanced :
    (s : MatchSource) (m : Metrics)
    → finds s ≡ true
    → IsBalanced m
    → IsBalanced (metrics_record_hit s (metrics_record_request m))
unfolding metrics_record_hit metrics_record_request finds IsBalanced
hit-IsBalanced by_cache m f (e, a) = (omega (arith, e), a)
hit-IsBalanced by_regex m f (e, a) = (omega (arith, e), a)
hit-IsBalanced by_token m f (e, a) = (omega (arith, e), a)
hit-IsBalanced by_intent m f (e, a) = (omega (arith, e), a)
hit-IsBalanced by_alias m f (e, a) = absurd (cc)
hit-IsBalanced by_fuzzy m f (e, a) = (omega (arith, e), a)
hit-IsBalanced by_none m f (e, a) = absurd (cc)

finds-known : (b u : Bool) → (b || u) ≡ true → u ≡ false → b ≡ true
finds-known true u h k = refl
finds-known false u h k = absurd (cc)

record_answer-IsBalanced :
    (r : MatchResult) (m : Metrics) → IsCounted r → IsBalanced m → IsBalanced (record_answer r m)
unfolding record_answer IsCounted
record_answer-IsBalanced r m h k = elim (Bool-cases (is_unknown r.intent)) [
  | inl u ↦ rw u (unknown-IsBalanced m k)
  | inr u ↦ rw u (hit-IsBalanced r.source m (finds-known (finds r.source) _ h u) k)
]

-- After any requests, with whatever tables, settings and cache, and any other calls of the counters in
-- between, the hits of the cache, the regular expressions, the tokens, the whole queries and the fuzzy
-- match and the unknown queries add up to the requests, as numbers of 64 bits; the hits of the aliases
-- are 0.
pub Reachable-IsBalanced : (m : Metrics) → Reachable m → IsBalanced m
unfolding IsBalanced metrics_init metrics_record_multi metrics_set_connections
    metrics_set_cache_size metrics_set_cache_evictions
Reachable-IsBalanced _ (started now) = (refl, refl)
Reachable-IsBalanced _ (answered {m = m} cfg t now c q r) =
    record_answer-IsBalanced (run_tier0_pipeline cfg t now c q).1 m
      (run_tier0_pipeline-IsCounted cfg t now c q) (Reachable-IsBalanced m r)
Reachable-IsBalanced _ (several {m = m} r) = Reachable-IsBalanced m r
Reachable-IsBalanced _ (connected {m = m} n r) = Reachable-IsBalanced m r
Reachable-IsBalanced _ (resized {m = m} n r) = Reachable-IsBalanced m r
Reachable-IsBalanced _ (evicted {m = m} n r) = Reachable-IsBalanced m r
