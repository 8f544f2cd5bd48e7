-- ===== src/CString/Pieces.antt =====
-- A predicate that all bytes of a text meet holds for the bytes of its parts.
use mathlib.Core.Option.{some-injective}
use khazar_os.Common.{
  ℕ, zero, suc, ◌≡◌, inl, inr, Bool, true, false, Option, none, some, [], ◌∷◌, ◌==◌, if◌then◌else◌,
  take, drop, Bool-cases,
}
use khazar_os.CString.{Bytes, has_prefix, strstr, skip_spaces}
use khazar_os.CString.Lines.{span_not}
use khazar_os.Common.{All}

module _ {ℓ} (P : ℕ → Type ℓ) where
  pub All-take : (n : ℕ) (s : Bytes) → All P s → All P (take n s)
  All-take zero s h = tt
  All-take (suc n) [] h = tt
  All-take (suc n) (c ∷ s) (p, h) = (p, All-take n s h)

  pub All-drop : (n : ℕ) (s : Bytes) → All P s → All P (drop n s)
  All-drop zero s h = h
  All-drop (suc n) [] h = tt
  All-drop (suc n) (c ∷ s) (p, h) = All-drop n s h

  pub All-if : (b : Bool) (s t : Bytes) → All P s → All P t → All P (if b then s else t)
  All-if true s t h k = h
  All-if false s t h k = k

  pub All-skip_spaces : (s : Bytes) → All P s → All P (skip_spaces s)
  unfolding skip_spaces
  All-skip_spaces [] h = tt
  All-skip_spaces (c ∷ s) (p, h) = All-if (c == b' ') _ (c ∷ s) (All-skip_spaces s h) (p, h)

  found-if :
      (b : Bool) (s t : Bytes) (o : Option Bytes)
      → (if b then some s else o) ≡ some t
      → All P s
      → (o ≡ some t → All P t)
      → All P t
  found-if true s t o e h k = rw (some-injective _ _ e) at h
  found-if false s t o e h k = k e

  pub All-strstr : (s p t : Bytes) → strstr s p ≡ some t → All P s → All P t
  unfolding strstr
  All-strstr [] p t e h = found-if (has_prefix p []) [] t none e h (λ k. absurd (cc))
  All-strstr (c ∷ s) p t e (q, h) =
      found-if (has_prefix p (c ∷ s)) (c ∷ s) t (strstr s p) e (q, h) (λ k. All-strstr s p t k h)

-- The part up to a byte is free of it.
pub span_not-free : (stop n : ℕ) (s : Bytes) → All (λ c. (c == stop) ≡ false) (span_not stop n s).0
unfolding span_not
span_not-free stop zero s = tt
span_not-free stop (suc n) [] = tt
span_not-free stop (suc n) (c ∷ s) = elim (Bool-cases (c == stop)) [
  | inl y ↦ rw y tt
  | inr m ↦ rw m (m, span_not-free stop n s)
]
