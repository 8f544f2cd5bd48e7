-- ===== src/RuleEngine/Multi/Joined.antt =====
-- `split_query` on two queries that are joined by a separator.
use khazar_os.Common.{
  ℕ, ◌+◌, ◌-◌, ◌≤◌, ◌≡◌, refl, sym, ap, ◌∙◌, ◌≢◌, Bool, true, false, ◌&&◌, Option, some, List, [],
  ◌∷◌, ◌++◌, arith, ◌==◌, if◌then◌else◌, length, take, drop, length-append,
}
use khazar_os.CString.{Bytes, lit, strncpy, has_prefix, strstr, is_some, contains, skip_spaces}
use khazar_os.CString.Laws.{has_prefix-append, take-all}
use khazar_os.RuleEngine.Multi.{
  separators, join_space, strip_end, trim_end, part, both, split_at, split_by, split_query,
}

-- A text that neither begins nor ends in a space.
unfoldable pub ends_in_space : Bytes → Bool
ends_in_space [] = false
ends_in_space (c ∷ []) = c == b' '
ends_in_space (c ∷ d ∷ s) = ends_in_space (d ∷ s)

unfoldable pub begins_in_space : Bytes → Bool
begins_in_space [] = false
begins_in_space (c ∷ s) = c == b' '

unfoldable pub IsTrimmed : Bytes → Type 0
unfolding ends_in_space begins_in_space
IsTrimmed s = (begins_in_space s ≡ false) × (ends_in_space s ≡ false) × (s ≢ [])

strip_end-same : (s : Bytes) → ends_in_space s ≡ false → strip_end s ≡ s
unfolding strip_end join_space ends_in_space
strip_end-same [] h = refl
strip_end-same (c ∷ []) h = rw h refl
strip_end-same (c ∷ d ∷ s) h = rw (strip_end-same (d ∷ s) h) refl

ends_in_space-tail : (c : ℕ) (s : Bytes) → ends_in_space (c ∷ s) ≡ false → ends_in_space s ≡ false
unfolding ends_in_space
ends_in_space-tail c [] h = refl
ends_in_space-tail c (d ∷ s) h = h

skip_spaces-same : (s : Bytes) → begins_in_space s ≡ false → skip_spaces s ≡ s
unfolding skip_spaces begins_in_space
skip_spaces-same [] h = refl
skip_spaces-same (c ∷ s) h = rw h refl

trim_end-same : (s : Bytes) → ends_in_space s ≡ false → trim_end s ≡ s
unfolding trim_end
trim_end-same [] h = refl
trim_end-same (c ∷ s) h = ap (λ t. c ∷ t) (strip_end-same s (ends_in_space-tail c s h))

part-same : (s : Bytes) → IsTrimmed s → length s ≤ 2047 → part s ≡ s
unfolding part IsTrimmed
part-same s (b, e, _) h =
    ap (λ t. trim_end (take 2047 t)) (skip_spaces-same s b)
    ∙ (ap trim_end (take-all 2047 s h) ∙ trim_end-same s e)

both-given : (a b : Bytes) → a ≢ [] → b ≢ [] → both a b ≡ a ∷ b ∷ []
unfolding both
both-given [] b h k = absurd (h refl)
both-given (c ∷ a) [] h k = absurd (k refl)
both-given (c ∷ a) (d ∷ b) h k = refl

-- What stands behind a text does not matter for a pattern that is no longer than it.
has_prefix-front : (p s t : Bytes) → length p ≤ length s → has_prefix p (s ++ t) ≡ has_prefix p s
unfolding has_prefix
has_prefix-front [] s t h = refl
has_prefix-front (c ∷ p) [] t h = absurd (omega (arith, h))
has_prefix-front (c ∷ p) (d ∷ s) t h =
    ap (λ b. (c == d) && b) (has_prefix-front p s t (omega (arith, h)))

strstr-here : (p s : Bytes) → has_prefix p s ≡ true → strstr s p ≡ some s
unfolding strstr
strstr-here p [] h = rw h refl
strstr-here p (c ∷ s) h = rw h refl

is_some-if :
    (b : Bool) (s : Bytes) (o : Option Bytes)
    → is_some (if b then some s else o) ≡ false
    → (b ≡ false) × (is_some o ≡ false)
unfolding is_some
is_some-if true s o h = absurd (cc)
is_some-if false s o h = (refl, h)

append_assoc : (a b c : Bytes) → (a ++ b) ++ c ≡ a ++ (b ++ c)
append_assoc [] b c = refl
append_assoc (x ∷ a) b c = ap (λ s. x ∷ s) (append_assoc a b c)

regroup : (a q : Bytes) (z : ℕ) (b : Bytes) → a ++ ((q ++ z ∷ []) ++ b) ≡ (a ++ q) ++ (z ∷ b)
regroup a q z b = ap (λ s. a ++ s) (append_assoc q (z ∷ []) b) ∙ sym (append_assoc a q (z ∷ b))

-- `p` less its last byte is `q`.
strstr-first :
    (a q : Bytes) (z : ℕ) (b : Bytes)
    → contains (a ++ q) (q ++ z ∷ []) ≡ false
    → strstr (a ++ ((q ++ z ∷ []) ++ b)) (q ++ z ∷ []) ≡ some ((q ++ z ∷ []) ++ b)
unfolding strstr
strstr-first [] q z b h =
    strstr-here (q ++ z ∷ []) ((q ++ z ∷ []) ++ b) (has_prefix-append (q ++ z ∷ []) b)
strstr-first (c ∷ a) q z b h =
    let p = q ++ z ∷ [] in
    let misses = is_some-if (has_prefix p (c ∷ (a ++ q))) (c ∷ (a ++ q)) (strstr (a ++ q) p) h in
    let short : length p ≤ length (c ∷ (a ++ q)) =
      omega (arith, length-append q (z ∷ []), length-append a q) in
    let here : has_prefix p (c ∷ (a ++ (p ++ b))) ≡ false =
      ap (λ s. has_prefix p (c ∷ s)) (regroup a q z b)
      ∙ (has_prefix-front p (c ∷ (a ++ q)) (z ∷ b) short ∙ misses.0) in
    rw here (strstr-first a q z b misses.1)

take-length : (a t : Bytes) → take (length a) (a ++ t) ≡ a
take-length [] [] = refl
take-length [] (c ∷ t) = refl
take-length (x ∷ a) t = ap (λ s. x ∷ s) (take-length a t)

take-length_append : (a t : Bytes) → take (length (a ++ t) - length t) (a ++ t) ≡ a
take-length_append a t =
    ap (λ n. take n (a ++ t)) (omega (arith, length-append a t)) ∙ take-length a t

drop-length_append : (a t : Bytes) → drop (length a) (a ++ t) ≡ t
drop-length_append [] t = refl
drop-length_append (x ∷ a) t = drop-length_append a t

split_by-joined :
    (a b q : Bytes) (z : ℕ) (seps : List Bytes) (query : Bytes)
    → IsTrimmed a
    → IsTrimmed b
    → contains (a ++ q) (q ++ z ∷ []) ≡ false
    → length a ≤ 2047
    → length b ≤ 2047
    → split_by ((q ++ z ∷ []) ∷ seps) query (a ++ ((q ++ z ∷ []) ++ b)) ≡ a ∷ b ∷ []
unfolding split_by split_at
split_by-joined a b q z seps query ta tb h n m =
    let p = q ++ z ∷ [] in
    rw
      (
        strstr-first a q z b h,
        take-length_append a (p ++ b),
        drop-length_append p b,
        part-same a ta n,
        part-same b tb m,
      )
      (both-given a b (unfold IsTrimmed in ta.2) (unfold IsTrimmed in tb.2))

-- Two queries without spaces at their ends, not empty, are taken apart at the " ve " between them,
-- where the four bytes are not found in the first one with " ve" behind it, and the whole fits the
-- buffer.
pub split_query-joined :
    (a b : Bytes)
    → IsTrimmed a
    → IsTrimmed b
    → contains (a ++ lit " ve") (lit " ve ") ≡ false
    → length a + length b ≤ 2043
    → split_query (a ++ (lit " ve " ++ b)) ≡ a ∷ b ∷ []
unfolding split_query
split_query-joined a b ta tb h n =
    let query = a ++ (lit " ve " ++ b) in
    let whole : strncpy 2047 query ≡ query =
      take-all 2047 query (omega (arith, n, length-append a (lit " ve " ++ b))) in
    ap (λ s. split_by separators query s) whole
    ∙ split_by-joined a b (lit " ve") b' ' (drop 1 separators) query ta tb h (omega (arith, n))
        (omega (arith, n))
