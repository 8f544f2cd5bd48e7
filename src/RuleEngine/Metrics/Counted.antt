-- ===== src/RuleEngine/Metrics/Counted.antt =====
-- The sources that the results of the pipeline can have.
use khazar_os.Common.{
  ℕ, ◌≡◌, refl, inl, inr, Bool, true, false, ◌||◌, Option, none, some, List, [], ◌∷◌, if◌then◌else◌,
  Bool-cases,
}
use khazar_os.CString.{Bytes}
use khazar_os.RuleEngine.Intent.{MatchSource, by_alias, by_none}
use khazar_os.RuleEngine.Result.{MatchResult, Quotient, no_match}
use khazar_os.RuleEngine.Tokens
use khazar_os.RuleEngine.Tokens.{TokenEntry, tokens_lookup}
use khazar_os.RuleEngine.Matcher
use khazar_os.RuleEngine.Matcher.{RegexRule, matcher_match}
use khazar_os.RuleEngine.Intents
use khazar_os.RuleEngine.Intents.{IntentEntry, intent_lookup}
use khazar_os.RuleEngine.Alias
use khazar_os.RuleEngine.Alias.{AliasEntry, alias_resolve}
use khazar_os.RuleEngine.Fuzzy
use khazar_os.RuleEngine.Fuzzy.{FuzzyTable, fuzzy_match}
use khazar_os.RuleEngine.Cache
use khazar_os.RuleEngine.Cache.{Cache, CacheEntry, cache_lookup, is_unknown}
use khazar_os.RuleEngine.Pipeline.{
  Config, Tables, stage, then_try, fuzzy_stage, lookup_tables, after_lookup, ask_cache, keep_answer,
  ask_tables, run_tier0_pipeline,
}

unfoldable pub finds : MatchSource → Bool
finds by_alias = false
finds by_none = false
finds _ = true

-- The result is unknown, or of a table other than that of the aliases.
unfoldable pub IsCounted : MatchResult → Type 0
unfolding finds
IsCounted r = (finds r.source || is_unknown r.intent) ≡ true

IsCounted-no_match : IsCounted no_match
unfolding IsCounted
IsCounted-no_match = refl

IsCounted-if :
    (b : Bool) (p q : MatchResult × Bool)
    → IsCounted p.0
    → IsCounted q.0
    → IsCounted (if b then p else q).0
IsCounted-if true p q h k = h
IsCounted-if false p q h k = k

token-IsCounted : (q : Bytes) (o : Option TokenEntry) → IsCounted (Tokens.answer q o).0
unfolding Tokens.answer IsCounted
token-IsCounted q none = refl
token-IsCounted q (some e) = refl

regex-IsCounted : (q : Bytes) (o : Option RegexRule) → IsCounted (Matcher.answer q o).0
unfolding Matcher.answer IsCounted
regex-IsCounted q none = refl
regex-IsCounted q (some e) = refl

intent-IsCounted : (o : Option IntentEntry) → IsCounted (Intents.answer o).0
unfolding Intents.answer Intents.found IsCounted
intent-IsCounted none = refl
intent-IsCounted (some e) = refl

fuzzy-IsCounted : (o : Quotient × Option IntentEntry) → IsCounted (Fuzzy.answer o).0
unfolding Fuzzy.answer IsCounted
fuzzy-IsCounted (sim, none) = refl
fuzzy-IsCounted (sim, some e) = refl

find_alias-IsCounted : (q : Bytes) (es : List AliasEntry) → IsCounted (Alias.find_alias q es).0
unfolding Alias.find_alias Alias.answer IsCounted is_unknown
find_alias-IsCounted q [] = refl
find_alias-IsCounted q (e ∷ es) =
    IsCounted-if _ (Alias.answer e, true) (Alias.find_alias q es) refl (find_alias-IsCounted q es)

module _ (t : Tables) (q : Bytes) where
  intent_lookup-IsCounted : IsCounted (intent_lookup t.intents q).0
  unfolding intent_lookup
  intent_lookup-IsCounted = intent-IsCounted _

  matcher_match-IsCounted : IsCounted (matcher_match t.matches t.rules q).0
  unfolding matcher_match
  matcher_match-IsCounted = search regex-IsCounted

  tokens_lookup-IsCounted : IsCounted (tokens_lookup t.tokens q).0
  unfolding tokens_lookup
  tokens_lookup-IsCounted = search token-IsCounted

  alias_resolve-IsCounted : IsCounted (alias_resolve t.aliases q).0
  unfolding alias_resolve
  alias_resolve-IsCounted = find_alias-IsCounted _ t.aliases

  fuzzy_match-IsCounted : IsCounted (fuzzy_match t.fuzzy q).0
  unfolding fuzzy_match
  fuzzy_match-IsCounted = search fuzzy-IsCounted

reported-IsCounted :
    (now : ℕ) (q : Bytes) (c : Cache) (o : Option (ℕ × CacheEntry)) (cfg : Config)
    → IsCounted (after_lookup cfg (Cache.report now q c o)).result
unfolding Cache.report Cache.found IsCounted after_lookup
reported-IsCounted now q c none cfg = refl
reported-IsCounted now q c (some (i, e)) cfg = refl

stage-IsCounted :
    (cfg : Config) (on : Bool) (looked : MatchResult × Bool) (r : MatchResult)
    → IsCounted looked.0
    → IsCounted r
    → IsCounted (stage cfg on looked r).0
unfolding stage
stage-IsCounted cfg true looked r h k = h
stage-IsCounted cfg false looked r h k = k

then_try-IsCounted :
    (looked : MatchResult × Bool) (next : MatchResult → MatchResult × Bool)
    → IsCounted looked.0
    → ((r : MatchResult) → IsCounted r → IsCounted (next r).0)
    → IsCounted (then_try looked next).0
unfolding then_try
then_try-IsCounted (r, true) next h k = h
then_try-IsCounted (r, false) next h k = k r h

fuzzy_stage-IsCounted :
    (on : Bool) (looked : MatchResult × Bool) (r : MatchResult)
    → IsCounted looked.0
    → IsCounted r
    → IsCounted (fuzzy_stage on looked r).0
unfolding fuzzy_stage
fuzzy_stage-IsCounted true looked r h k = h
fuzzy_stage-IsCounted false looked r h k = k

-- One stage after the others.
next_stage-IsCounted :
    (cfg : Config) (on : Bool) (before looked : MatchResult × Bool)
    → IsCounted before.0
    → IsCounted looked.0
    → IsCounted (then_try before (stage cfg on looked)).0
next_stage-IsCounted cfg on before looked h k =
    then_try-IsCounted before (stage cfg on looked) h (λ r l. stage-IsCounted cfg on looked r k l)

lookup_tables-IsCounted :
    (cfg : Config) (t : Tables) (q : Bytes) (r : MatchResult)
    → IsCounted r
    → IsCounted (lookup_tables cfg t q r).0
unfolding lookup_tables
lookup_tables-IsCounted cfg t q r h =
    let intents = intent_lookup t.intents q in
    let rules = matcher_match t.matches t.rules q in
    let tokens = tokens_lookup t.tokens q in
    let aliases = alias_resolve t.aliases q in
    let fuzzy = fuzzy_match t.fuzzy q in
    let one = stage cfg cfg.enable_intent_table intents r in
    let two = then_try one (stage cfg cfg.enable_regex rules) in
    let three = then_try two (stage cfg cfg.enable_tokens tokens) in
    let four = then_try three (stage cfg cfg.enable_alias aliases) in
    let h1 =
      stage-IsCounted cfg cfg.enable_intent_table intents r (intent_lookup-IsCounted t q) h in
    let h2 = next_stage-IsCounted cfg cfg.enable_regex one rules h1 (matcher_match-IsCounted t q) in
    let h3 =
      next_stage-IsCounted cfg cfg.enable_tokens two tokens h2 (tokens_lookup-IsCounted t q) in
    let h4 =
      next_stage-IsCounted cfg cfg.enable_alias three aliases h3 (alias_resolve-IsCounted t q) in
    then_try-IsCounted four (fuzzy_stage cfg.enable_fuzzy fuzzy) h4
      (λ s k. fuzzy_stage-IsCounted cfg.enable_fuzzy fuzzy s (fuzzy_match-IsCounted t q) k)

ask_cache-IsCounted :
    (cfg : Config) (now : ℕ) (c : Cache) (q : Bytes) → IsCounted (ask_cache cfg now c q).result
unfolding ask_cache cache_lookup
ask_cache-IsCounted cfg now c q = elim (Bool-cases cfg.enable_cache) [
  | inl on ↦ rw on (reported-IsCounted now q c _ cfg)
  | inr off ↦ rw off IsCounted-no_match
]

keep_answer-IsCounted :
    (cfg : Config) (now : ℕ) (c : Cache) (q : Bytes) (p : MatchResult × Bool)
    → IsCounted p.0
    → IsCounted (keep_answer cfg now c q p).1
unfolding keep_answer
keep_answer-IsCounted cfg now c q (r, found) h = h

ask_tables-IsCounted :
    (b : Bool) (p q : Cache × MatchResult)
    → IsCounted p.1
    → IsCounted q.1
    → IsCounted (if b then p else q).1
ask_tables-IsCounted true p q h k = h
ask_tables-IsCounted false p q h k = k

pub run_tier0_pipeline-IsCounted :
    (cfg : Config) (t : Tables) (now : ℕ) (c : Cache) (q : Bytes)
    → IsCounted (run_tier0_pipeline cfg t now c q).1
unfolding run_tier0_pipeline ask_tables
run_tier0_pipeline-IsCounted cfg t now c q =
    let looked = ask_cache cfg now c q in
    let found = lookup_tables cfg t q looked.result in
    let h = ask_cache-IsCounted cfg now c q in
    ask_tables-IsCounted looked.done (looked.cache, looked.result)
      (keep_answer cfg now looked.cache q found) h
      (keep_answer-IsCounted cfg now looked.cache q found
        (lookup_tables-IsCounted cfg t q looked.result h))
