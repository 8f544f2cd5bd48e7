-- ===== src/Common/FirstMatch.antt =====
-- The first element of an array that passes a test: changing it, and removing it by moving the last
-- element into its place.
use Prim.Native.Nat.{suc}
use mathlib.Core.Path.{◌≡◌, ap, ◌∙◌}
use mathlib.Core.Logic.{◌⊎◌, inl, inr}
use mathlib.Core.Bool.{Bool, false}
use mathlib.Core.Option.{Option, none, some}
use mathlib.Core.List.{List, [], ◌∷◌}
use native.Mathlib.Omega.{arith}
use khazar_os.Common.Lists.{length}
use khazar_os.Common.Tests.{if◌then◌else◌, Bool-cases, Option-cases}
use khazar_os.Common.Everywhere.{All, All-mono}
use khazar_os.Common.SwapOut.{swap_out, AllPairs, All-swap_out, AllPairs-swap_out, length-swap_out}

module _ {ℓ} {A : Type ℓ} (test : A → Bool) where
  unfoldable pub change_first : (A → A) → List A → Option (List A)
  change_first f [] = none
  change_first f (x ∷ xs) =
      let rest = change_first f xs in
      if test x then some (f x ∷ xs) else elim rest [ none ↦ none | some r ↦ some (x ∷ r) ]

  unfoldable pub remove_first : List A → Option (List A)
  remove_first [] = none
  remove_first (x ∷ xs) =
      let rest = remove_first xs in
      if test x then some (swap_out (x ∷ xs)) else elim rest [ none ↦ none | some r ↦ some (x ∷ r) ]

  pub change_first-none :
      (f : A → A) (xs : List A) → change_first f xs ≡ none → All (λ x. test x ≡ false) xs
  unfolding change_first
  change_first-none f [] e = tt
  change_first-none f (x ∷ xs) e = elim (Bool-cases (test x)) [
    | inl y ↦ absurd (ground arith)
    | inr n ↦ elim (Option-cases (change_first f xs)) [
      | inl g ↦ (n, change_first-none f xs g)
      | inr (r, g) ↦ absurd (ground arith)
    ]
  ]

  change_first_cases :
      (f : A → A) (x : A) (xs : List A) {r : List A}
      → change_first f (x ∷ xs) ≡ some r
      → (r ≡ f x ∷ xs) ⊎ ((r' : List A) × (change_first f xs ≡ some r') × (r ≡ x ∷ r'))
  unfolding change_first
  change_first_cases f x xs e = elim (Bool-cases (test x)) [
    | inl y ↦ inl (ground arith)
    | inr n ↦ elim (Option-cases (change_first f xs)) [
      | inl g ↦ absurd (ground arith)
      | inr (r', g) ↦ inr (r', g, ground arith)
    ]
  ]

  remove_first_cases :
      (x : A) (xs : List A) {r : List A}
      → remove_first (x ∷ xs) ≡ some r
      → (r ≡ swap_out (x ∷ xs)) ⊎ ((r' : List A) × (remove_first xs ≡ some r') × (r ≡ x ∷ r'))
  unfolding remove_first
  remove_first_cases x xs e = elim (Bool-cases (test x)) [
    | inl y ↦ inl (ground arith)
    | inr n ↦ elim (Option-cases (remove_first xs)) [
      | inl g ↦ absurd (ground arith)
      | inr (r', g) ↦ inr (r', g, ground arith)
    ]
  ]

  pub length-change_first :
      (f : A → A) (xs : List A) {r : List A} → change_first f xs ≡ some r → length r ≡ length xs
  length-change_first f [] e = absurd (unfold change_first in ground arith)
  length-change_first f (x ∷ xs) e = elim (change_first_cases f x xs e) [
    | inl d ↦ ap length d
    | inr (r', g, d) ↦ ap length d ∙ ap suc (length-change_first f xs g)
  ]

  module _ {κ} (P : A → Type κ) where
    pub All-change_first :
        (f : A → A) (keeps : (x : A) → P x → P (f x)) (xs : List A) {r : List A}
        → change_first f xs ≡ some r
        → All P xs
        → All P r
    All-change_first f keeps [] e h = absurd (unfold change_first in ground arith)
    All-change_first f keeps (x ∷ xs) e h = elim (change_first_cases f x xs e) [
      | inl d ↦ rw d (keeps x h.0, h.1)
      | inr (r', g, d) ↦ rw d (h.0, All-change_first f keeps xs g h.1)
    ]

    pub All-remove_first :
        (xs : List A) {r : List A} → remove_first xs ≡ some r → All P xs → All P r
    All-remove_first [] e h = absurd (unfold remove_first in ground arith)
    All-remove_first (x ∷ xs) e h = elim (remove_first_cases x xs e) [
      | inl d ↦ rw d (All-swap_out P x xs h.1)
      | inr (r', g, d) ↦ rw d (h.0, All-remove_first xs g h.1)
    ]

  module _ {κ} (R : A → A → Type κ) where
    pub AllPairs-change_first :
        (f : A → A) (left : (x y : A) → R x y → R (f x) y) (right : (x y : A) → R x y → R x (f y))
        (xs : List A) {r : List A}
        → change_first f xs ≡ some r
        → AllPairs R xs
        → AllPairs R r
    AllPairs-change_first f left right [] e h = absurd (unfold change_first in ground arith)
    AllPairs-change_first f left right (x ∷ xs) e h = elim (change_first_cases f x xs e) [
      | inl d ↦ rw d (All-mono xs (left x) h.0, h.1)
      | inr (r', g, d) ↦
          rw d (
            All-change_first (R x) f (right x) xs g h.0,
            AllPairs-change_first f left right xs g h.1,
          )
    ]

    pub AllPairs-remove_first :
        (comm : (x y : A) → R x y → R y x) (xs : List A) {r : List A}
        → remove_first xs ≡ some r
        → AllPairs R xs
        → AllPairs R r
    AllPairs-remove_first comm [] e h = absurd (unfold remove_first in ground arith)
    AllPairs-remove_first comm (x ∷ xs) e h = elim (remove_first_cases x xs e) [
      | inl d ↦ rw d (AllPairs-swap_out R comm x xs h.1)
      | inr (r', g, d) ↦ rw d (All-remove_first (R x) xs g h.0, AllPairs-remove_first comm xs g h.1)
    ]

  pub length-remove_first :
      (xs : List A) {r : List A} → remove_first xs ≡ some r → suc (length r) ≡ length xs
  length-remove_first [] e = absurd (unfold remove_first in ground arith)
  length-remove_first (x ∷ xs) e = elim (remove_first_cases x xs e) [
    | inl d ↦ ap (λ r. suc (length r)) d ∙ ap suc (length-swap_out x xs)
    | inr (r', g, d) ↦ ap (λ r. suc (length r)) d ∙ ap suc (length-remove_first xs g)
  ]
