-- ===== src/Common/SwapOut.antt =====
-- Removal from an array by moving the last element into the hole, and what it keeps.
use Prim.Native.Nat.{suc}
use mathlib.Core.Path.{◌≡◌, refl, ap}
use khazar_os.Common.Lists.{length}
use mathlib.Core.List.{List, [], ◌∷◌, ◌++◌}
use khazar_os.Common.Everywhere.{All, All-append}

-- `xs[i] = xs[--count]` on the list from position `i` on: the last element takes the first place.
module _ {ℓ} {A : Type ℓ} where
  unfoldable pub last_or : A → List A → A
  last_or x [] = x
  last_or x (y ∷ ys) = last_or y ys

  unfoldable pub drop_last : List A → List A
  drop_last [] = []
  drop_last (x ∷ []) = []
  drop_last (x ∷ y ∷ ys) = x ∷ drop_last (y ∷ ys)

  unfoldable pub swap_out : List A → List A
  unfolding last_or drop_last
  swap_out [] = []
  swap_out (x ∷ []) = []
  swap_out (x ∷ y ∷ ys) = last_or y ys ∷ drop_last (y ∷ ys)

-- Every two elements are related.
abbrev pub AllPairs {ℓ κ} : {A : Type ℓ} → (A → A → Type κ) → List A → Type κ
AllPairs R [] = Unit
AllPairs R (x ∷ xs) = All (R x) xs × AllPairs R xs

module _ {ℓ κ} {A : Type ℓ} (P : A → Type κ) where
  pub All-last_or : (x : A) (xs : List A) → All P (x ∷ xs) → P (last_or x xs)
  unfolding last_or
  All-last_or x [] h = h.0
  All-last_or x (y ∷ xs) h = All-last_or y xs h.1

  All-drop_last : (xs : List A) → All P xs → All P (drop_last xs)
  unfolding drop_last
  All-drop_last [] h = tt
  All-drop_last (x ∷ []) h = tt
  All-drop_last (x ∷ y ∷ xs) h = (h.0, All-drop_last (y ∷ xs) h.1)

  pub All-swap_out : (x : A) (xs : List A) → All P xs → All P (swap_out (x ∷ xs))
  unfolding swap_out
  All-swap_out x [] h = tt
  All-swap_out x (y ∷ xs) h = (All-last_or y xs h, All-drop_last (y ∷ xs) h)

module _ {ℓ κ} {A : Type ℓ} (R : A → A → Type κ) (comm : (x y : A) → R x y → R y x) where
  AllPairs-last_or :
      (x : A) (xs : List A) → AllPairs R (x ∷ xs) → AllPairs R (last_or x xs ∷ drop_last (x ∷ xs))
  unfolding last_or drop_last
  AllPairs-last_or x [] h = (tt, tt)
  AllPairs-last_or x (y ∷ xs) h =
      let rest = AllPairs-last_or y xs h.1 in
      (
        (comm x (last_or y xs) (All-last_or (R x) y xs h.0), rest.0),
        (All-drop_last (R x) (y ∷ xs) h.0, rest.1),
      )

  pub AllPairs-swap_out : (x : A) (xs : List A) → AllPairs R xs → AllPairs R (swap_out (x ∷ xs))
  unfolding swap_out
  AllPairs-swap_out x [] h = tt
  AllPairs-swap_out x (y ∷ xs) h = AllPairs-last_or y xs h

pub AllPairs-snoc {ℓ κ} :
    {A : Type ℓ} (R : A → A → Type κ) (xs : List A) (y : A)
    → AllPairs R xs
    → All (λ x. R x y) xs
    → AllPairs R (xs ++ y ∷ [])
AllPairs-snoc R [] y p h = (tt, tt)
AllPairs-snoc R (x ∷ xs) y p h =
    (All-append (R x) xs (y ∷ []) p.0 (h.0, tt), AllPairs-snoc R xs y p.1 h.1)

module _ {ℓ} {A : Type ℓ} where
  length-drop_last : (x : A) (xs : List A) → length (drop_last (x ∷ xs)) ≡ length xs
  unfolding drop_last
  length-drop_last x [] = refl
  length-drop_last x (y ∷ xs) = ap suc (length-drop_last y xs)

  pub length-swap_out : (x : A) (xs : List A) → length (swap_out (x ∷ xs)) ≡ length xs
  unfolding swap_out
  length-swap_out x [] = refl
  length-swap_out x (y ∷ xs) = ap suc (length-drop_last y xs)
