-- ===== src/RuleEngine/Pipeline/Again.antt =====
-- What the pipeline answers when it is asked again.
use khazar_os.Common.{
  ℕ, ◌≤◌, ◌≡◌, refl, ap, ◌∙◌, true, false, Option, none, some, [], arith, if◌then◌else◌, length,
}
use khazar_os.CString.{Bytes}
use khazar_os.RuleEngine.Intent.{open_application}
use khazar_os.RuleEngine.Result.{MatchResult, Quotient, no_match}
use khazar_os.RuleEngine.Cache.{
  Cache, CacheEntry, first_hit, visited, max_cache_entries, new_entry, found, is_unknown, report,
  cache_lookup, cache_store,
}
use khazar_os.RuleEngine.Cache.Lookup.{cache_lookup-cache_store}
use khazar_os.RuleEngine.Pipeline.{
  Config, Tables, at_least, confidence_ok, Looked, lookup_tables, after_lookup, ask_cache,
  ask_tables, then_try, stage, fuzzy_stage, keep_answer, run_tier0_pipeline,
}

-- `*result` after a miss of the cache.
abbrev pub cleared : MatchResult
cleared = record no_match { intent = open_application }

report-miss :
    (now : ℕ) (q : Bytes) (c : Cache) (o : Option (ℕ × CacheEntry))
    → (report now q c o).1 ≡ none
    → report now q c o ≡ (c, none)
unfolding report
report-miss now q c none e = refl
report-miss now q c (some (i, x)) e = absurd (ground arith)

lookup-miss :
    (now : ℕ) (c : Cache) (q : Bytes)
    → (cache_lookup now c q).1 ≡ none
    → cache_lookup now c q ≡ (c, none)
unfolding cache_lookup
lookup-miss now c q e = report-miss now q c (first_hit q (visited q c.slots)) e

ask_cache-miss :
    (cfg : Config) (now : ℕ) (c : Cache) (q : Bytes)
    → cfg.enable_cache ≡ true
    → (cache_lookup now c q).1 ≡ none
    → ask_cache cfg now c q ≡ record { cache = c; result = cleared; done = false }
unfolding ask_cache after_lookup
ask_cache-miss cfg now c q on missed =
    ap
      (λ b.
        if b
        then after_lookup cfg (cache_lookup now c q)
        else record { cache = c; result = no_match; done = false })
      on
    ∙ ap (after_lookup cfg) (lookup-miss now c q missed)

run-miss :
    (cfg : Config) (t : Tables) (now : ℕ) (c : Cache) (q : Bytes) (r : MatchResult)
    → cfg.enable_cache ≡ true
    → (cache_lookup now c q).1 ≡ none
    → lookup_tables cfg t q cleared ≡ (r, true)
    → run_tier0_pipeline cfg t now c q ≡ (cache_store now c q r, r)
unfolding run_tier0_pipeline ask_tables keep_answer
run-miss cfg t now c q r on missed given =
    ap (ask_tables cfg t now q) (ask_cache-miss cfg now c q on missed)
    ∙ ap (keep_answer cfg now c q) given
    ∙ ap (λ b. (if b then cache_store now c q r else c, r)) on

at_least-one : (b : Quotient) → b.num ≤ b.den → at_least (record { num = 1; den = 1 }) b ≡ true
unfolding at_least
at_least-one b h = ground arith

ask_tables-done :
    (cfg : Config) (t : Tables) (now : ℕ) (q : Bytes) (l : Looked)
    → l.done ≡ true
    → (ask_tables cfg t now q l).1 ≡ l.result
unfolding ask_tables
ask_tables-done cfg t now q l e =
    ap
      (λ b.
        (if b
          then (l.cache, l.result)
          else keep_answer cfg now l.cache q (lookup_tables cfg t q l.result)).1)
      e

found-confidence_ok :
    (cfg : Config) (e : CacheEntry)
    → cfg.cache_confidence_threshold.num ≤ cfg.cache_confidence_threshold.den
    → confidence_ok cfg (found e) ≡ true
unfolding confidence_ok found
found-confidence_ok cfg e low = at_least-one cfg.cache_confidence_threshold low

after_lookup-hit :
    (cfg : Config) (t : Tables) (now : ℕ) (q : Bytes) (e : CacheEntry)
    (p : Cache × Option MatchResult)
    → cfg.cache_confidence_threshold.num ≤ cfg.cache_confidence_threshold.den
    → p.1 ≡ some (found e)
    → (ask_tables cfg t now q (after_lookup cfg p)).1 ≡ found e
unfolding after_lookup
after_lookup-hit cfg t now q e (d, o) low h =
    ap (λ x. (ask_tables cfg t now q (after_lookup cfg (d, x))).1) h
    ∙ ask_tables-done cfg t now q (after_lookup cfg (d, some (found e)))
        (found-confidence_ok cfg e low)

run-hit :
    (cfg : Config) (t : Tables) (now : ℕ) (c : Cache) (q : Bytes) (e : CacheEntry)
    → cfg.enable_cache ≡ true
    → cfg.cache_confidence_threshold.num ≤ cfg.cache_confidence_threshold.den
    → (cache_lookup now c q).1 ≡ some (found e)
    → (run_tier0_pipeline cfg t now c q).1 ≡ found e
unfolding run_tier0_pipeline ask_cache
run-hit cfg t now c q e on low hit =
    ap
      (λ b.
        (ask_tables cfg t now q (
          if b
          then after_lookup cfg (cache_lookup now c q)
          else record { cache = c; result = no_match; done = false })).1)
      on
    ∙ after_lookup-hit cfg t now q e (cache_lookup now c q) low hit

-- With the cache on, a query that it does not hold and that the tables answer with a known intent gets
-- that answer, and the pipeline run again on the new cache gives its intent, target and action from the
-- cache, at any time and whatever the tables hold then. The query is not empty and fits its buffer, the
-- cache has its 256 slots, and the threshold of the cache is at most 1.
pub run_tier0_pipeline-again :
    (cfg : Config) (t later_t : Tables) (now later : ℕ) (c : Cache) (q : Bytes) (r : MatchResult)
    → cfg.enable_cache ≡ true
    → cfg.cache_confidence_threshold.num ≤ cfg.cache_confidence_threshold.den
    → length c.slots ≡ max_cache_entries
    → 1 ≤ length q
    → length q ≤ 2047
    → (cache_lookup now c q).1 ≡ none
    → lookup_tables cfg t q cleared ≡ (r, true)
    → is_unknown r.intent ≡ false
    → ((run_tier0_pipeline cfg t now c q).1 ≡ r)
      × ((run_tier0_pipeline cfg later_t later (run_tier0_pipeline cfg t now c q).0 q).1
          ≡ found (new_entry now c q r))
run_tier0_pipeline-again cfg t later_t now later c q r on low size some_text fits missed given
      known =
    let first = run-miss cfg t now c q r on missed given in
    let stored = cache_lookup-cache_store now later c q r size some_text fits known missed in
    (
      ap (λ (p : Cache × MatchResult). p.1) first,
      ap (λ (p : Cache × MatchResult). (run_tier0_pipeline cfg later_t later p.0 q).1) first
          ∙ run-hit cfg later_t later (cache_store now c q r) q (new_entry now c q r) on low stored,
    )

-- If the cache is the only stage that is on, a query that it does not hold is answered as the intent to
-- open an application, with an empty target.
pub run_tier0_pipeline-cache_only :
    (cfg : Config) (t : Tables) (now : ℕ) (c : Cache) (q : Bytes)
    → cfg.enable_cache ≡ true
    → cfg.enable_intent_table ≡ false
    → cfg.enable_regex ≡ false
    → cfg.enable_tokens ≡ false
    → cfg.enable_alias ≡ false
    → cfg.enable_fuzzy ≡ false
    → (cache_lookup now c q).1 ≡ none
    → ((run_tier0_pipeline cfg t now c q).1.intent ≡ open_application)
      × ((run_tier0_pipeline cfg t now c q).1.target ≡ [])
unfolding run_tier0_pipeline ask_tables keep_answer lookup_tables then_try stage fuzzy_stage
run_tier0_pipeline-cache_only cfg t now c q on i r k a f missed =
    let asked = ask_cache-miss cfg now c q on missed in ground (arith, asked)
