-- ===== src/RuleEngine/Cache.antt =====
-- The cache of answers: khazar/components/rule-engine/cache/cache.c. The array is a list of 256 slots, a
-- free slot one with an empty query; `time(NULL)` is an argument. `char` is signed, as on x86.
pub mod Lookup
use khazar_os.Common.{
  ℕ, zero, suc, ◌+◌, ◌-◌, ◌*◌, ◌/◌, ◌%◌, ◌^◌, ◌≤◌, ◌<◌, ◌≡◌, refl, sym, ap, ◌∙◌, ◌≢◌, ◌↔◌, ◌⊎◌, inl,
  inr, Bool, true, false, not, ◌&&◌, ◌||◌, Option, none, some, List, [], ◌∷◌, ◌++◌, map, arith, leb,
  ltb, ◌==◌, if◌then◌else◌, length, take, drop, get_or, get_elem?, set, ℤ, pos, negsuc, ltb_ℤ,
  pos_part, neg_part, sub_ℕ, ◌+ℤ◌, ◌≤ℤ◌, ◌<ℤ◌, ◌>>=◌, Bool-cases, Option-cases, length-append,
  length-set, replicate, ltb→lt, lt→ltb,
}
use khazar_os.CString.{
  Bytes, lit, str_eq, strncpy, has_prefix, strstr, is_some, contains, strchr, tolower, isspace,
  skip_spaces,
}
use khazar_os.RuleEngine.Intent.{IntentType, open_application, unknown, by_cache}
use khazar_os.RuleEngine.Result.{MatchResult}

pub record CacheEntry : Type 0 where
  pub query : Bytes
  pub intent : IntentType
  pub target : Bytes
  pub action : Bytes
  pub timestamp : ℕ
  pub hit_count : ℕ

pub record Cache : Type 0 where
  pub slots : List CacheEntry
  pub count : ℕ
  pub lru_counter : ℕ

abbrev pub max_cache_entries : ℕ
max_cache_entries = 256

abbrev pub free_slot : CacheEntry
free_slot = record {
  query = [];
  intent = open_application;
  target = [];
  action = [];
  timestamp = 0;
  hit_count = 0;
}

abbrev pub cache_init : Cache
cache_init = record { slots = replicate max_cache_entries free_slot; count = 0; lru_counter = 0 }

-- `cache_clear`; `cache_cleanup` leaves the counter of the stores as it is.
abbrev pub cache_clear : Cache → Cache
cache_clear c = cache_init

abbrev pub cache_cleanup : Cache → Cache
cache_cleanup c = record cache_init { lru_counter = c.lru_counter }

abbrev pub cache_size : Cache → ℕ
cache_size c = c.count

-- (unsigned int)c, where `c` is a `char`
unfoldable pub unsigned_char : ℕ → ℕ
unsigned_char c = if ltb c 128 then c else c + (2 ^ 32 - 256)

unfoldable pub hash_bytes : ℕ → Bytes → ℕ
hash_bytes hash [] = hash
hash_bytes hash (c ∷ s) = hash_bytes ((hash * 32 + hash + unsigned_char c) % 2 ^ 32) s

unfoldable pub hash_query : Bytes → ℕ
unfolding hash_bytes
hash_query query = hash_bytes 5381 query % max_cache_entries

unfoldable pub is_free : CacheEntry → Bool
is_free e = leb (length e.query) 0

-- The slots in the order in which `idx = (hash + i) % MAX_CACHE_ENTRIES` visits them.
unfoldable pub visited : Bytes → List CacheEntry → List CacheEntry
visited query slots = drop (hash_query query) slots ++ take (hash_query query) slots

-- A slot that is not free and holds the query.
unfoldable pub hits : Bytes → CacheEntry → Bool
hits query e = not (is_free e) && str_eq e.query query

-- The loop of `cache_lookup`: how many slots it passes before the hit, and the slot.
unfoldable pub first_hit : Bytes → List CacheEntry → Option (ℕ × CacheEntry)
first_hit query [] = none
first_hit query (e ∷ es) =
    let rest = first_hit query es in
    if hits query e then some (0, e) else elim rest [ none ↦ none | some (i, x) ↦ some (suc i, x) ]

unfoldable pub found : CacheEntry → MatchResult
found e = record {
  intent = e.intent;
  target = strncpy 255 e.target;
  action = strncpy 127 e.action;
  confidence = record { num = 1; den = 1 };
  source = by_cache;
  matched_pattern = [];
}

abbrev pub stamp : ℕ → Cache → ℕ
stamp now c = now + c.lru_counter / 256

abbrev pub index : Bytes → ℕ → ℕ
index query i = (hash_query query + i) % max_cache_entries

abbrev pub renewed : ℕ → Cache → CacheEntry → CacheEntry
renewed now c e = record e { hit_count = e.hit_count + 1; timestamp = stamp now c }

unfoldable pub report : ℕ → Bytes → Cache → Option (ℕ × CacheEntry) → Cache × Option MatchResult
report now query c none = (c, none)
report now query c (some (i, e)) =
    (record c { slots = set c.slots (index query i) (renewed now c e) }, some (found e))

-- The new cache, and the result where the call returns 0.
unfoldable pub cache_lookup : ℕ → Cache → Bytes → Cache × Option MatchResult
unfolding report visited first_hit
cache_lookup now c query = report now query c (first_hit query (visited query c.slots))

-- Where the first loop of `cache_store` ends.
pub data Place : Type 0 where
  at_free : ℕ → Place
  at_same : ℕ → CacheEntry → Place
  nowhere : Place

further : Place → Place
further (at_free i) = at_free (suc i)
further (at_same i e) = at_same (suc i) e
further nowhere = nowhere

unfoldable pub first_place : Bytes → List CacheEntry → Place
unfolding further
first_place query [] = nowhere
first_place query (e ∷ es) =
    let rest = first_place query es in
    if is_free e then at_free 0 else if str_eq e.query query then at_same 0 e else further rest

-- The second loop, at slot `i`, with the oldest so far.
unfoldable pub oldest : ℕ → ℕ → ℕ → List CacheEntry → ℕ
oldest i oldest_time oldest_idx [] = oldest_idx
oldest i oldest_time oldest_idx (e ∷ es) =
    let older = oldest (suc i) e.timestamp i es in
    let rest = oldest (suc i) oldest_time oldest_idx es in
    if ltb e.timestamp oldest_time then older else rest

abbrev pub new_entry : ℕ → Cache → Bytes → MatchResult → CacheEntry
new_entry now c query r = record {
  query = strncpy 2047 query;
  intent = r.intent;
  target = strncpy 255 r.target;
  action = strncpy 127 r.action;
  timestamp = stamp now c;
  hit_count = 1;
}

unfoldable pub store_at : ℕ → Cache → Bytes → MatchResult → Place → Cache
store_at now c query r (at_free i) = record {
  slots = set c.slots (index query i) (new_entry now c query r);
  count = c.count + 1;
  lru_counter = c.lru_counter + 1;
}
store_at now c query r (at_same i e) = record c {
  slots = set c.slots (index query i) (renewed now c e);
  lru_counter = c.lru_counter + 1;
}
store_at now c query r nowhere = record c {
  slots = set c.slots (oldest 0 (now + 1) 0 c.slots) (new_entry now c query r);
  lru_counter = c.lru_counter + 1;
}

unfoldable pub is_unknown : IntentType → Bool
is_unknown unknown = true
is_unknown _ = false

unfoldable pub cache_store : ℕ → Cache → Bytes → MatchResult → Cache
unfolding store_at first_place visited
cache_store now c query r =
    if is_unknown r.intent
    then c
    else store_at now c query r (first_place query (visited query c.slots))
