-- ===== src/RuleEngine/Tests/Multi.antt =====
-- Two queries in one, at concrete inputs.
use khazar_os.Common.{suc, ◌≡◌, refl, true, [], ◌∷◌, arith}
use khazar_os.CString.{lit, str_eq, strstr, is_some, tolower}
use khazar_os.RuleEngine.Intents.{found, intent_lookup, strtolower}
use khazar_os.RuleEngine.Cache
use khazar_os.RuleEngine.Cache.{Cache, cache_init, is_unknown}
use khazar_os.RuleEngine.Pipeline.{run_tier0_pipeline}
use khazar_os.RuleEngine.Multi.{multi, split_query, answer_request}
use khazar_os.RuleEngine.Multi.Joined.{IsTrimmed, split_query-joined}
use khazar_os.RuleEngine.Multi.Found.{reported, answer_request-joined}
use khazar_os.RuleEngine.Tests.Pipeline.{config, tables}
use khazar_os.RuleEngine.Matcher.{matcher_match}
use khazar_os.RuleEngine.Tokens.{tokens_lookup}
use khazar_os.RuleEngine.Alias.{alias_resolve}
use khazar_os.RuleEngine.Fuzzy.{fuzzy_match}

dance-IsTrimmed : IsTrimmed (lit "dance")
unfolding IsTrimmed
dance-IsTrimmed = (refl, refl, λ e. absurd (cc))

open-IsTrimmed : IsTrimmed (lit "Firefox open")
unfolding IsTrimmed
open-IsTrimmed = (refl, refl, λ e. absurd (cc))

split_query-joined_example :
    split_query (lit "dance ve Firefox open") ≡ lit "dance" ∷ lit "Firefox open" ∷ []
split_query-joined_example =
    split_query-joined (lit "dance") (lit "Firefox open") dance-IsTrimmed open-IsTrimmed
      (unfold strstr in unfold is_some in refl) (omega arith)

answer_request-joined_example :
    let first = run_tier0_pipeline (config true) tables 1 cache_init (lit "dance") in
    let second = run_tier0_pipeline (config true) tables 2 first.0 (lit "Firefox open") in
    answer_request (config true) tables suc cache_init (lit "dance ve Firefox open") ≡ (
      second.0,
      multi (reported (is_unknown first.1.intent) (is_unknown second.1.intent) first.1 second.1),
    )
answer_request-joined_example =
    answer_request-joined (config true) tables suc cache_init (lit "dance") (lit "Firefox open")
      dance-IsTrimmed open-IsTrimmed (unfold strstr in unfold is_some in refl) (omega arith)

no_part_test : split_query (lit " ve x") ≡ []
unfolding split_query
no_part_test = refl

one_part_test : split_query (lit "open x") ≡ lit "open x" ∷ []
unfolding split_query
one_part_test = refl

hem_test : split_query (lit "open x həm  mute ") ≡ lit "open x" ∷ lit "mute" ∷ []
unfolding split_query
hem_test = refl

-- The second query is the one that is understood, and the answer holds the first one's result.
lost_test :
    (answer_request (config true) tables suc cache_init (lit "dance ve Firefox open")).1
    ≡ multi ((run_tier0_pipeline (config true) tables 1 cache_init (lit "dance")).1 ∷ [])
unfolding answer_request Cache.cache_lookup Cache.hash_query Cache.unsigned_char Cache.hits
    Cache.is_free intent_lookup str_eq strtolower tolower matcher_match tokens_lookup alias_resolve
    fuzzy_match found
lost_test = refl

not_understood_test :
    is_unknown (run_tier0_pipeline (config true) tables 1 cache_init (lit "dance")).1.intent ≡ true
unfolding run_tier0_pipeline is_unknown Cache.cache_lookup Cache.hash_query Cache.unsigned_char
    Cache.hits Cache.is_free intent_lookup str_eq strtolower tolower matcher_match tokens_lookup
    alias_resolve fuzzy_match found
not_understood_test = refl
