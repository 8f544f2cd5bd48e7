-- ===== src/RuleEngine/Tests/Pipeline.antt =====
-- The pipeline at concrete inputs.
use khazar_os.Common.{ℕ, ◌≡◌, refl, Bool, true, false, none, [], ◌∷◌, arith}
use khazar_os.CString.{lit, str_eq, tolower}
use khazar_os.Common.{length-replicate}
use khazar_os.RuleEngine.Intent.{open_application, builtin}
use khazar_os.RuleEngine.Result.{Quotient}
use khazar_os.RuleEngine.Intents.{IntentEntry, found}
use khazar_os.RuleEngine.Intents.Lookup.{entry}
use khazar_os.RuleEngine.Cache.{
  Cache, cache_init, max_cache_entries, free_slot, new_entry, cache_lookup, is_unknown,
}
use khazar_os.RuleEngine.Cache
use khazar_os.RuleEngine.Pipeline.{Config, Tables, lookup_tables, run_tier0_pipeline}
use khazar_os.RuleEngine.Pipeline.Again.{
  cleared, run_tier0_pipeline-again, run_tier0_pipeline-cache_only,
}
use khazar_os.RuleEngine.Intents.{intent_lookup, strtolower}

abbrev hundredths : ℕ → Quotient
hundredths n = record { num = n; den = 100 }

abbrev pub config : Bool → Config
config on = record {
  enable_cache = true;
  enable_intent_table = on;
  enable_regex = on;
  enable_tokens = on;
  enable_alias = on;
  enable_fuzzy = on;
  cache_confidence_threshold = hundredths 90;
  regex_confidence_threshold = hundredths 85;
  token_confidence_threshold = hundredths 50;
  intent_confidence_threshold = hundredths 95;
  alias_confidence_threshold = hundredths 70;
}

abbrev pub firefox : IntentEntry
firefox = entry (lit "firefox open") open_application (lit "firefox") (lit "open") builtin

abbrev pub tables : Tables
tables = record {
  intents = firefox ∷ [];
  rules = [];
  tokens = [];
  aliases = [];
  matches = str_eq;
  fuzzy = record { intents = []; threshold = hundredths 70 };
}

missed : (cache_lookup 1 cache_init (lit "Firefox open")).1 ≡ none
unfolding cache_lookup Cache.hash_query Cache.unsigned_char Cache.hits Cache.is_free
missed = refl

answered : lookup_tables (config true) tables (lit "Firefox open") cleared ≡ (found firefox, true)
unfolding lookup_tables intent_lookup str_eq strtolower tolower found
answered = refl

run_tier0_pipeline-again_example :
    ((run_tier0_pipeline (config true) tables 1 cache_init (lit "Firefox open")).1 ≡ found firefox)
    × ((run_tier0_pipeline
          (config true)
          tables
          2
          (run_tier0_pipeline (config true) tables 1 cache_init (lit "Firefox open")).0
          (lit "Firefox open")).1
        ≡ Cache.found (new_entry 1 cache_init (lit "Firefox open") (found firefox)))
run_tier0_pipeline-again_example =
    run_tier0_pipeline-again (config true) tables tables 1 2 cache_init (lit "Firefox open")
      (found firefox) refl (omega arith) (length-replicate max_cache_entries free_slot)
      (omega arith) (omega arith) missed answered (unfold is_unknown found in refl)

run_tier0_pipeline-cache_only_test :
    ((run_tier0_pipeline (config false) tables 1 cache_init (lit "Firefox open")).1.intent
      ≡ open_application)
    × ((run_tier0_pipeline (config false) tables 1 cache_init (lit "Firefox open")).1.target ≡ [])
run_tier0_pipeline-cache_only_test =
    run_tier0_pipeline-cache_only (config false) tables 1 cache_init (lit "Firefox open") refl refl
      refl refl refl refl missed
