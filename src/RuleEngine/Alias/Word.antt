-- ===== src/RuleEngine/Alias/Word.antt =====
-- Which alias is resolved (khazar/components/rule-engine/alias/alias.c).
use khazar_os.Common.{
  ℕ, zero, suc, ◌+◌, ◌-◌, ◌<◌, ◌≤◌, ◌≡◌, refl, sym, ap, ◌∙◌, ◌⊎◌, inl, inr, Bool, true, false, ◌&&◌,
  none, some, List, [], ◌∷◌, ◌++◌, arith, length, drop, get_or, Bool-cases, Option-cases,
  length-append,
}
use mathlib.Core.Option.{some-injective}
use khazar_os.CString.{Bytes, strncpy, has_prefix, strstr, is_some}
use khazar_os.CString.Laws.{has_prefix-append, contains-append}
use khazar_os.Common.{All}
use khazar_os.RuleEngine.Intent.{unknown}
use khazar_os.RuleEngine.Result.{MatchResult}
use khazar_os.RuleEngine.Alias.{
  AliasEntry, strtolower, alias_lower, ends_word, begins_word, is_word, answer, find_alias,
  alias_resolve,
}

strstr_splits :
    (s p : Bytes) {f : Bytes}
    → strstr s p ≡ some f
    → (b : Bytes) × (s ≡ b ++ f) × (has_prefix p f ≡ true)
unfolding strstr
strstr_splits [] p e = ([], ground arith, ground arith)
strstr_splits (c ∷ s) p e = elim (Bool-cases (has_prefix p (c ∷ s))) [
  | inl y ↦ ([], ground arith, ground arith)
  | inr n ↦ let (b, d, h) = strstr_splits s p (ground arith) in (c ∷ b, ap (◌∷◌ c) d, h)
]

has_prefix_splits : (p f : Bytes) → has_prefix p f ≡ true → f ≡ p ++ drop (length p) f
unfolding has_prefix
has_prefix_splits [] f h = refl
has_prefix_splits (c ∷ p) [] h = absurd (ground arith)
has_prefix_splits (c ∷ p) (d ∷ f) h = ground (arith, has_prefix_splits p f)

get_or-append : (b f : Bytes) (i : ℕ) → i < length b → get_or (b ++ f) i 0 ≡ get_or b i 0
get_or-append [] f i h = absurd (omega arith)
get_or-append (c ∷ b) f zero h = refl
get_or-append (c ∷ b) f (suc i) h = get_or-append b f i (omega arith)

drop-append : (a t : Bytes) → drop (length a) (a ++ t) ≡ t
drop-append [] t = refl
drop-append (x ∷ a) t = drop-append a t

-- No occurrence stands in front of the one that strstr finds.
strstr-first :
    (s p : Bytes) {f : Bytes}
    → strstr s p ≡ some f
    → (b t : Bytes) → s ≡ b ++ (p ++ t)
    → length s ≤ length b + length f
unfolding strstr
strstr-first [] p e b t d = omega arith
strstr-first (c ∷ s) p {f = f} e [] t d =
    let here : has_prefix p (c ∷ s) ≡ true = ap (has_prefix p) d ∙ has_prefix-append p t in
    let same : c ∷ s ≡ f = some-injective _ _ (rw here at e) in omega (arith, ap length same)
strstr-first (c ∷ s) p {f = f} e (x ∷ b) t d = elim (Bool-cases (has_prefix p (c ∷ s))) [
  | inl y ↦ let same : c ∷ s ≡ f = some-injective _ _ (rw y at e) in omega (arith, ap length same)
  | inr n ↦ let rest = strstr-first s p (rw n at e) b t (ap (drop 1) d) in omega (arith, rest)
]

-- At its first occurrence in the query, between `before` and `behind`, the alias is a word.
pub record IsWord (query_lower alias : Bytes) : Type 0 where
  pub before : Bytes
  pub behind : Bytes
  pub splits : query_lower ≡ before ++ (alias ++ behind)
  pub begins : (before ≡ []) ⊎ (get_or before (length before - 1) 0 ≡ b' ')
  pub ends : (behind ≡ []) ⊎ (get_or behind 0 0 ≡ b' ')
  pub first : (b t : Bytes) → query_lower ≡ b ++ (alias ++ t) → length before ≤ length b

begins_word-append :
    (b f : Bytes)
    → begins_word (b ++ f) (length b) ≡ true
    → (b ≡ []) ⊎ (get_or b (length b - 1) 0 ≡ b' ')
unfolding begins_word
begins_word-append [] f h = inl refl
begins_word-append (c ∷ b) f h =
    let same = get_or-append (c ∷ b) f (length (c ∷ b) - 1) (omega arith) in inr (ground arith)

ends_word_lem : (d : Bytes) → ends_word d ≡ true → (d ≡ []) ⊎ (get_or d 0 0 ≡ b' ')
unfolding ends_word
ends_word_lem [] h = inl refl
ends_word_lem (c ∷ d) h = inr (ground arith)

is_word-IsWord : (q a : Bytes) → is_word q a (strstr q a) ≡ true → IsWord q a
unfolding is_word
is_word-IsWord q a h = elim (Option-cases (strstr q a)) [
  | inl e ↦ absurd (ground arith)
  | inr (f, e) ↦
      let (b, d, p) = strstr_splits q a e in
      let r = has_prefix_splits a f p in
      let len : length q - length f ≡ length b = omega (arith, length-append b f, ap length d) in
      let tests : begins_word q (length q - length f) && ends_word (drop (length a) f) ≡ true =
        ground arith in
      let same : begins_word q (length q - length f) ≡ begins_word (b ++ f) (length b) =
        ap (λ n. begins_word q n) len ∙ ap (λ x. begins_word x (length b)) d in
      record {
        before = b;
        behind = drop (length a) f;
        splits = d ∙ ap (λ x. b ++ x) r;
        begins = begins_word-append b f (ground arith);
        ends = ends_word_lem (drop (length a) f) (ground arith);
        first = λ x t k. omega (arith, strstr-first q a e x t k, length-append b f, ap length d);
      }
]

begins_word-before :
    (b f : Bytes)
    → (b ≡ []) ⊎ (get_or b (length b - 1) 0 ≡ b' ')
    → begins_word (b ++ f) (length b) ≡ true
unfolding begins_word
begins_word-before [] f h = refl
begins_word-before (c ∷ b) f h =
    let same = get_or-append (c ∷ b) f (length (c ∷ b) - 1) (omega arith) in ground (arith, same, h)

ends_word-behind : (d : Bytes) → (d ≡ []) ⊎ (get_or d 0 0 ≡ b' ') → ends_word d ≡ true
unfolding ends_word
ends_word-behind [] h = refl
ends_word-behind (c ∷ d) h = ground (arith, h)

IsWord-is_word : (q a : Bytes) → IsWord q a → is_word q a (strstr q a) ≡ true
unfolding is_word is_some
IsWord-is_word q a w = elim (Option-cases (strstr q a)) [
  | inl e ↦
      let found : is_some (strstr q a) ≡ true =
        ap (λ x. is_some (strstr x a)) w.splits ∙ contains-append w.before a w.behind in
      let missed : is_some {A = Bytes} none ≡ true = rw e at found in absurd (cc)
  | inr (f, e) ↦
      let (b, d, p) = strstr_splits q a e in
      let r = has_prefix_splits a f p in
      let here : length w.before ≤ length b =
        w.first b (drop (length a) f) (d ∙ ap (λ x. b ++ x) r) in
      let len : length q ≡ length b + length f = ap length d ∙ length-append b f in
      let least = strstr-first q a e w.before w.behind w.splits in
      let same : length b ≡ length w.before = omega (arith, here, len, least) in
      let found : f ≡ a ++ w.behind =
        sym (drop-append b f)
        ∙ (ap (drop (length b)) (sym d)
            ∙ (ap (λ n. drop n q) same
                ∙ (ap (drop (length w.before)) w.splits ∙ drop-append w.before (a ++ w.behind)))) in
      let position : length q - length f ≡ length w.before = omega (arith, len, same) in
      let begins : begins_word q (length q - length f) ≡ true =
        ap (begins_word q) position
        ∙ (ap (λ x. begins_word x (length w.before)) w.splits
            ∙ begins_word-before w.before (a ++ w.behind) w.begins) in
      let ends : ends_word (drop (length a) f) ≡ true =
        ap (λ x. ends_word (drop (length a) x)) found
        ∙ (ap ends_word (drop-append a w.behind) ∙ ends_word-behind w.behind w.ends) in
      rw (e, begins, ends) refl
]

-- The outcome for a query in lower case.
abbrev pub Resolves : Bytes → List AliasEntry → MatchResult × Bool → Type 0
Resolves q table (r, false) = All (λ e. ¬ IsWord q (alias_lower e)) table
Resolves q table (r, true) =
    (before : List AliasEntry) × (e : AliasEntry) × (behind : List AliasEntry) × (table
      ≡ before ++ e ∷ behind)
    × IsWord q (alias_lower e)
    × All (λ x. ¬ IsWord q (alias_lower x)) before
    × (r.target ≡ strncpy 255 e.canonical)
    × (r.intent ≡ unknown)

no-IsWord : (q a : Bytes) → is_word q a (strstr q a) ≡ false → ¬ IsWord q a
no-IsWord q a n w = absurd (ground (arith, n, IsWord-is_word q a w))

Resolves-cons :
    (q : Bytes) (e : AliasEntry) (table : List AliasEntry) (o : MatchResult × Bool)
    → ¬ IsWord q (alias_lower e)
    → Resolves q table o
    → Resolves q (e ∷ table) o
Resolves-cons q e table (r, false) n h = (n, h)
Resolves-cons q e table (r, true) n (before, x, behind, d, w, a, t, i) =
    (e ∷ before, x, behind, ap (◌∷◌ e) d, w, (n, a), t, i)

find_alias-Resolves : (q : Bytes) (table : List AliasEntry) → Resolves q table (find_alias q table)
unfolding find_alias answer
find_alias-Resolves q [] = tt
find_alias-Resolves q (e ∷ table) =
    elim (Bool-cases (is_word q (alias_lower e) (strstr q (alias_lower e)))) [
      | inl y ↦ rw y ([], e, table, refl, is_word-IsWord q (alias_lower e) y, tt, refl, refl)
      | inr n ↦ rw n (
          Resolves-cons q e table (find_alias q table) (no-IsWord q (alias_lower e) n)
            (find_alias-Resolves q table))
    ]

-- `alias_resolve` answers with the canonical name of the first alias whose first occurrence in the query,
-- in lower case, begins and ends at the text's end or at a blank, and leaves the intent unknown; it fails
-- exactly if the first occurrence of no alias does so.
pub alias_resolve-Resolves :
    (table : List AliasEntry) (query : Bytes)
    → Resolves (strtolower (strncpy 2047 query)) table (alias_resolve table query)
unfolding alias_resolve
alias_resolve-Resolves table query = find_alias-Resolves (strtolower (strncpy 2047 query)) table
