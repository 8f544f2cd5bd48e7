-- ===== src/RuleEngine/Tests.antt =====
-- The rule engine at concrete inputs.
mod Config
mod Pipeline
mod Multi
mod Metrics
mod Rules
mod Fuzzy
use khazar_os.Common.{
  ◌≡◌, refl, ◌≢◌, true, false, not, ◌&&◌, none, some, List, [], ◌∷◌, arith, if◌then◌else◌, pos,
}
use khazar_os.CString.{lit, str_eq, strncpy, has_prefix, strstr, is_some, tolower, isspace}
use khazar_os.RuleEngine.Intent.{
  open_application, close_application, volume_mute, unknown, builtin, file, runtime,
  intent_type_str, intent_type_from_str,
}
use khazar_os.RuleEngine.Intent.Names.{
  intent_type_from_str-intent_type_str, intent_type_str-intent_type_from_str,
}
use khazar_os.RuleEngine.Result.{MatchResult, same_source}
use khazar_os.RuleEngine.Tokens.{TokenEntry, holds, tokens_lookup, tokens_clear_rules}
use khazar_os.RuleEngine.Tokens
use khazar_os.RuleEngine.Tokens.Highest
use khazar_os.RuleEngine.Tokens.Highest.{tokens_lookup-IsHighest, tokens_lookup-tokens_clear_rules}
use khazar_os.RuleEngine.Matcher.{RegexRule, matcher_match, extract_target}
use khazar_os.RuleEngine.Matcher
use khazar_os.RuleEngine.Matcher.Highest.{matcher_match-IsHighest}
use khazar_os.RuleEngine.Intents.{IntentEntry, strtolower, found, intent_add, intent_lookup}
use khazar_os.RuleEngine.Cache.{
  Cache, cache_init, max_cache_entries, new_entry, cache_lookup, cache_store, first_hit, visited,
  hits, is_free, report,
}
use khazar_os.RuleEngine.Cache
use khazar_os.RuleEngine.Alias
use khazar_os.RuleEngine.Alias.{
  AliasEntry, alias_resolve, find_alias, is_word, begins_word, ends_word,
}
use khazar_os.RuleEngine.Alias.Word.{Resolves, alias_resolve-Resolves}
use khazar_os.RuleEngine.Cache.Lookup.{cache_lookup-cache_store}
use khazar_os.RuleEngine.Result.{no_match}
use khazar_os.Common.{length-replicate}
use khazar_os.RuleEngine.Intents.Lookup.{entry, intent_lookup-intent_add}

intent_type_from_str-intent_type_str_test :
    intent_type_from_str (intent_type_str volume_mute) ≡ volume_mute
intent_type_from_str-intent_type_str_test = intent_type_from_str-intent_type_str volume_mute

reads_mute : intent_type_from_str (lit "volume_mute") ≡ volume_mute
unfolding intent_type_from_str str_eq intent_type_str
reads_mute = refl

mute_known : intent_type_from_str (lit "volume_mute") ≢ unknown
mute_known e = cc (e, reads_mute)

intent_type_str-intent_type_from_str_test :
    intent_type_str (intent_type_from_str (lit "volume_mute")) ≡ lit "volume_mute"
intent_type_str-intent_type_from_str_test =
    intent_type_str-intent_type_from_str (lit "volume_mute") mute_known

abbrev tokens : List TokenEntry
tokens =
    record { token = lit "open"; intent = open_application; weight = pos 5; source = builtin }
    ∷ record { token = lit "close"; intent = close_application; weight = pos 5; source = file }
    ∷ []

finds_close : (tokens_lookup tokens (lit "Close or open")).0.intent ≡ close_application
unfolding tokens_lookup holds is_some strstr Tokens.to_lowercase tolower Tokens.score
finds_close = refl

tokens_lookup-IsHighest_test :
    Highest.IsHighest
      (holds (lit "Close or open"))
      (lit "Close or open")
      tokens
      (tokens_lookup tokens (lit "Close or open"))
tokens_lookup-IsHighest_test = tokens_lookup-IsHighest tokens (lit "Close or open")

tokens_lookup-tokens_clear_rules_test :
    Highest.IsHighest
      (λ e. not (same_source e.source file) && holds (lit "Close or open") e)
      (lit "Close or open")
      tokens
      (tokens_lookup (tokens_clear_rules tokens file) (lit "Close or open"))
tokens_lookup-tokens_clear_rules_test =
    tokens_lookup-tokens_clear_rules tokens file (lit "Close or open")

abbrev rule : RegexRule
rule = record {
  regex = lit "^(.*) open$";
  pattern = lit "^(.*) open$";
  intent = open_application;
  priority = pos 9;
  source = builtin;
}

splits_query : extract_target (lit "firefox open") rule ≡ (lit "firefox", lit "open$")
unfolding extract_target has_prefix Matcher.first_word Matcher.skip_both isspace Matcher.word
    Matcher.starts_with_space
splits_query = refl

-- With equality in place of the expressions.
matcher_match-IsHighest_test :
    Matcher.Highest.IsHighest str_eq
      (lit "^(.*) open$")
      (rule ∷ [])
      (matcher_match str_eq (rule ∷ []) (lit "^(.*) open$"))
matcher_match-IsHighest_test = matcher_match-IsHighest str_eq (rule ∷ []) (lit "^(.*) open$")

abbrev entries : List IntentEntry
entries = entry (lit "firefox open") open_application (lit "firefox") (lit "open") builtin ∷ []

intent_lookup-intent_add_test :
    intent_lookup
      (intent_add entries
        (lit "Firefox close")
        close_application
        (lit "firefox")
        (lit "close")
        runtime).0
      (lit "firefox CLOSE")
    ≡ (if (intent_lookup entries (lit "firefox CLOSE")).1
        then intent_lookup entries (lit "firefox CLOSE")
        else if str_eq
            (strtolower (strncpy 2047 (lit "firefox CLOSE")))
            (strtolower (strncpy 2047 (strncpy 2047 (lit "Firefox close"))))
        then (
          found
              (entry (lit "Firefox close") close_application (lit "firefox") (lit "close") runtime),
          true,
        )
        else intent_lookup entries (lit "firefox CLOSE"))
intent_lookup-intent_add_test =
    intent_lookup-intent_add entries (lit "Firefox close") close_application (lit "firefox")
      (lit "close") runtime (lit "firefox CLOSE") (omega arith)

abbrev mute_result : MatchResult
mute_result = record no_match { intent = volume_mute; target = lit "volume"; action = lit "mute" }

missed : (cache_lookup 1 cache_init (lit "mute")).1 ≡ none
unfolding cache_lookup Cache.hash_query Cache.unsigned_char hits is_free
missed = refl

cache_lookup-cache_store_example :
    (cache_lookup 2 (cache_store 1 cache_init (lit "mute") mute_result) (lit "mute")).1
    ≡ some (Cache.found (new_entry 1 cache_init (lit "mute") mute_result))
cache_lookup-cache_store_example =
    cache_lookup-cache_store 1 2 cache_init (lit "mute") mute_result
      (length-replicate max_cache_entries Cache.free_slot) (omega arith) (omega arith)
      (unfold Cache.is_unknown in refl) missed

abbrev aliases : List AliasEntry
aliases = record { alias = lit "TG"; canonical = lit "telegram"; source = builtin } ∷ []

resolves_tg : (alias_resolve aliases (lit "open tg")).0.target ≡ lit "telegram"
unfolding alias_resolve Alias.strtolower tolower begins_word ends_word
resolves_tg = refl

-- Only the first occurrence counts: the word at the end is not seen.
misses_tg : (alias_resolve aliases (lit "xtg tg")).1 ≡ false
unfolding alias_resolve Alias.strtolower tolower begins_word
misses_tg = refl

alias_resolve-Resolves_example :
    Resolves
      (Alias.strtolower (strncpy 2047 (lit "open tg")))
      aliases
      (alias_resolve aliases (lit "open tg"))
alias_resolve-Resolves_example = alias_resolve-Resolves aliases (lit "open tg")
