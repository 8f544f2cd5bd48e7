-- ===== src/RuleEngine/Tests/Metrics.antt =====
-- The counters of the rule engine at concrete inputs.
use khazar_os.Common.{◌≡◌, refl, true}
use khazar_os.CString.{lit}
use khazar_os.RuleEngine.Cache.{cache_init}
use khazar_os.RuleEngine.Pipeline.{run_tier0_pipeline}
use khazar_os.RuleEngine.Metrics.{Metrics, metrics_init, record_answer, metrics_record_multi}
use khazar_os.RuleEngine.Metrics.Balance.{
  started, answered, several, IsBalanced, Reachable-IsBalanced,
}
use khazar_os.RuleEngine.Tests.Pipeline.{config, tables}
use khazar_os.RuleEngine.Cache.{cache_lookup, hash_query, hits, is_free, is_unknown, unsigned_char}
use khazar_os.RuleEngine.Intents.{found, intent_lookup, strtolower}
use khazar_os.CString.{str_eq, tolower}
use khazar_os.RuleEngine.Matcher.{matcher_match}
use khazar_os.RuleEngine.Tokens.{tokens_lookup}
use khazar_os.RuleEngine.Alias.{alias_resolve}
use khazar_os.RuleEngine.Fuzzy.{fuzzy_match}

-- One query that is understood and one that is not.
abbrev two_requests : Metrics
two_requests = metrics_record_multi (
    record_answer (run_tier0_pipeline (config true) tables 2 cache_init (lit "dance")).1 (
      record_answer (run_tier0_pipeline (config true) tables 1 cache_init (lit "Firefox open")).1
        (metrics_init 0)))

Reachable-IsBalanced_example : IsBalanced two_requests
Reachable-IsBalanced_example = Reachable-IsBalanced two_requests (
    several (
      answered (config true) tables 2 cache_init (lit "dance")
        (answered (config true) tables 1 cache_init (lit "Firefox open") (started 0))))

two_requests_test :
    (two_requests.total_requests ≡ 2)
    × (two_requests.intent_hits ≡ 1)
    × (two_requests.unknown_hits ≡ 1)
unfolding run_tier0_pipeline record_answer metrics_record_multi metrics_init is_unknown cache_lookup
    hash_query unsigned_char hits is_free intent_lookup str_eq strtolower tolower matcher_match
    tokens_lookup alias_resolve fuzzy_match found
two_requests_test = (refl, refl, refl)
