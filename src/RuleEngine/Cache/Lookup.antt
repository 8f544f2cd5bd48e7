-- ===== src/RuleEngine/Cache/Lookup.antt =====
-- What the cache holds after a store.
use khazar_os.Common.{
  ℕ, zero, suc, ◌+◌, ◌≤◌, ◌<◌, ◌≡◌, refl, sym, ap, ◌∙◌, ◌⊎◌, inl, inr, Bool, true, false, ◌||◌,
  none, some, List, [], ◌∷◌, ◌++◌, arith, length, take, drop, set, Bool-cases, Option-cases,
}
use khazar_os.CString.{Bytes, str_eq}
use khazar_os.Common.{take-append-drop}
use khazar_os.CString.Laws.{str_eq_refl, take-all}
use khazar_os.RuleEngine.Result.{MatchResult}
use khazar_os.RuleEngine.Cache.{
  CacheEntry, Cache, max_cache_entries, is_free, visited, hash_query, hits, first_hit, found, index,
  report, cache_lookup, at_free, nowhere, first_place, oldest, new_entry, store_at, is_unknown,
  cache_store,
}

abbrev any_hit : Bytes → List CacheEntry → Bool
any_hit query [] = false
any_hit query (e ∷ es) = hits query e || any_hit query es

any_hit-append :
    (q : Bytes) (xs ys : List CacheEntry) → any_hit q (xs ++ ys) ≡ (any_hit q xs || any_hit q ys)
any_hit-append q [] ys = refl
any_hit-append q (x ∷ xs) ys = ground (arith, any_hit-append q xs ys)

-- The order of the visit does not matter for whether there is a hit.
any_hit-visited : (q : Bytes) (xs : List CacheEntry) → any_hit q (visited q xs) ≡ any_hit q xs
unfolding visited
any_hit-visited q xs = ground (
  arith,
  any_hit-append q (drop (hash_query q) xs) (take (hash_query q) xs),
  any_hit-append q (take (hash_query q) xs) (drop (hash_query q) xs),
  ap (any_hit q) (take-append-drop (hash_query q) xs),
)

first_hit-any_hit :
    (q : Bytes) (xs : List CacheEntry) → first_hit q xs ≡ none → any_hit q xs ≡ false
unfolding first_hit
first_hit-any_hit q [] e = refl
first_hit-any_hit q (x ∷ xs) e = elim (Option-cases (first_hit q xs)) [
  | inl n ↦ ground (arith, first_hit-any_hit q xs n)
  | inr (p, f) ↦ absurd (ground arith)
]

-- The only entry that a hit can be is `new`.
abbrev Only : Bytes → CacheEntry → List CacheEntry → Type 0
Only q new [] = Unit
Only q new (e ∷ es) = (hits q e ≡ true → e ≡ new) × Only q new es

Only-none :
    (q : Bytes) (new : CacheEntry) (xs : List CacheEntry) → any_hit q xs ≡ false → Only q new xs
Only-none q new [] h = tt
Only-none q new (x ∷ xs) h = ((λ y. absurd (ground arith)), Only-none q new xs (ground arith))

Only-append :
    (q : Bytes) (new : CacheEntry) (xs ys : List CacheEntry)
    → Only q new xs
    → Only q new ys
    → Only q new (xs ++ ys)
Only-append q new [] ys h k = k
Only-append q new (x ∷ xs) ys h k = (h.0, Only-append q new xs ys h.1 k)

Only-take :
    (q : Bytes) (new : CacheEntry) (n : ℕ) (xs : List CacheEntry)
    → Only q new xs
    → Only q new (take n xs)
Only-take q new zero xs h = tt
Only-take q new (suc n) [] h = tt
Only-take q new (suc n) (x ∷ xs) h = (h.0, Only-take q new n xs h.1)

Only-drop :
    (q : Bytes) (new : CacheEntry) (n : ℕ) (xs : List CacheEntry)
    → Only q new xs
    → Only q new (drop n xs)
Only-drop q new zero xs h = h
Only-drop q new (suc n) [] h = tt
Only-drop q new (suc n) (x ∷ xs) h = Only-drop q new n xs h.1

Only-visited :
    (q : Bytes) (new : CacheEntry) (xs : List CacheEntry)
    → Only q new xs
    → Only q new (visited q xs)
unfolding visited
Only-visited q new xs h =
    Only-append q new (drop (hash_query q) xs) (take (hash_query q) xs)
      (Only-drop q new (hash_query q) xs h) (Only-take q new (hash_query q) xs h)

Only-set :
    (q : Bytes) (new : CacheEntry) (xs : List CacheEntry) (i : ℕ)
    → Only q new xs
    → Only q new (set xs i new)
Only-set q new [] i h = tt
Only-set q new (x ∷ xs) zero h = ((λ y. refl), h.1)
Only-set q new (x ∷ xs) (suc i) h = (h.0, Only-set q new xs i h.1)

any_hit-set :
    (q : Bytes) (new : CacheEntry) (xs : List CacheEntry) (i : ℕ)
    → hits q new ≡ true
    → i < length xs
    → any_hit q (set xs i new) ≡ true
any_hit-set q new [] i h l = absurd (omega arith)
any_hit-set q new (x ∷ xs) zero h l = rw h refl
any_hit-set q new (x ∷ xs) (suc i) h l = ground (arith, any_hit-set q new xs i h (omega arith))

first_hit-Only :
    (q : Bytes) (new : CacheEntry) (xs : List CacheEntry)
    → Only q new xs
    → any_hit q xs ≡ true
    → (i : ℕ) × (first_hit q xs ≡ some (i, new))
unfolding first_hit
first_hit-Only q new [] o h = absurd (ground arith)
first_hit-Only q new (x ∷ xs) o h = elim (Bool-cases (hits q x)) [
  | inl y ↦ (0, rw y (ap (λ e. some (0, e)) (o.0 y)))
  | inr n ↦
      let (i, e) = first_hit-Only q new xs o.1 (ground arith) in
      (suc i, rw n (rw (e, first_hit) refl))
]

-- A new entry for the query is found, wherever it is put.
lookup-set :
    (later : ℕ) (c : Cache) (q : Bytes) (new : CacheEntry) (i : ℕ)
    → any_hit q c.slots ≡ false
    → hits q new ≡ true
    → i < length c.slots
    → (d : Cache) → d.slots ≡ set c.slots i new
    → (cache_lookup later d q).1 ≡ some (found new)
unfolding cache_lookup report
lookup-set later c q new i miss h l d e =
    let only =
      Only-visited q new (set c.slots i new)
        (Only-set q new c.slots i (Only-none q new c.slots miss)) in
    let any = any_hit-visited q (set c.slots i new) ∙ any_hit-set q new c.slots i h l in
    let (k, f) = first_hit-Only q new (visited q (set c.slots i new)) only any in
    rw e (rw (f, report) refl)

first_place-miss :
    (q : Bytes) (xs : List CacheEntry)
    → any_hit q xs ≡ false
    → (first_place q xs ≡ nowhere) ⊎ ((i : ℕ) × (first_place q xs ≡ at_free i))
unfolding first_place hits
first_place-miss q [] h = inl refl
first_place-miss q (x ∷ xs) h = elim (Bool-cases (is_free x)) [
  | inl y ↦ inr (0, rw y refl)
  | inr n ↦
      let other : str_eq x.query q ≡ false = ground arith in
      elim (first_place-miss q xs (ground arith)) [
        | inl e ↦ inl (rw n (rw other (rw e refl)))
        | inr (i, e) ↦ inr (suc i, rw n (rw other (rw e refl)))
      ]
]

oldest_bound :
    (i t best : ℕ) (xs : List CacheEntry)
    → (oldest i t best xs ≡ best) ⊎ (oldest i t best xs < i + length xs)
unfolding oldest
oldest_bound i t best [] = inl refl
oldest_bound i t best (x ∷ xs) =
    ground (arith, oldest_bound (suc i) x.timestamp i xs, oldest_bound (suc i) t best xs)

hits-new_entry :
    (now : ℕ) (c : Cache) (q : Bytes) (r : MatchResult)
    → 1 ≤ length q
    → length q ≤ 2047
    → hits q (new_entry now c q r) ≡ true
unfolding hits is_free
hits-new_entry now c q r some_text fits =
    let same = take-all 2047 q fits in rw same (ground (arith, str_eq_refl q))

lookup-none :
    (now : ℕ) (c : Cache) (q : Bytes)
    → (cache_lookup now c q).1 ≡ none
    → first_hit q (visited q c.slots) ≡ none
unfolding cache_lookup report
lookup-none now c q e = elim (Option-cases (first_hit q (visited q c.slots))) [
  | inl n ↦ n
  | inr (p, f) ↦ absurd (ground arith)
]

-- What is stored for a query that the cache does not hold is found for it from then on, with its
-- intent, target and action, whether it took a free slot or that of the oldest entry. The query is not
-- empty and fits its buffer, the cache has its 256 slots, and the intent is known.
pub cache_lookup-cache_store :
    (now later : ℕ) (c : Cache) (q : Bytes) (r : MatchResult)
    → length c.slots ≡ max_cache_entries
    → 1 ≤ length q
    → length q ≤ 2047
    → is_unknown r.intent ≡ false
    → (cache_lookup now c q).1 ≡ none
    → (cache_lookup later (cache_store now c q r) q).1 ≡ some (found (new_entry now c q r))
unfolding cache_store store_at
cache_lookup-cache_store now later c q r size some_text fits known missed =
    let new = new_entry now c q r in
    let h = hits-new_entry now c q r some_text fits in
    let none_found = lookup-none now c q missed in
    let miss : any_hit q c.slots ≡ false =
      sym (any_hit-visited q c.slots) ∙ first_hit-any_hit q (visited q c.slots) none_found in
    elim (first_place-miss q (visited q c.slots) (any_hit-visited q c.slots ∙ miss)) [
      | inl e ↦
          let b = oldest_bound 0 (now + 1) 0 c.slots in
          rw known (
            rw (e, store_at)
              (lookup-set later c q new (oldest 0 (now + 1) 0 c.slots) miss h
                (ground (arith, b, size)) _ refl))
      | inr (i, e) ↦ rw known (
          rw (e, store_at)
            (lookup-set later c q new (index q i) miss h (omega (arith, size)) _ refl))
    ]
