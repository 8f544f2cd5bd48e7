-- ===== src/Common/FirstMax.antt =====
-- The search for the best of a list: the first element of the highest score above a bound, among those
-- that fit.
use mathlib.Core.Path.{◌≡◌, refl, ap}
use mathlib.Core.Logic.{◌⊎◌, inl, inr}
use mathlib.Core.Bool.{Bool, true, ◌&&◌}
use mathlib.Core.Option.{Option, some}
use mathlib.Core.List.{List, [], ◌∷◌, ◌++◌}
use native.Mathlib.Omega.{arith}
use khazar_os.Common.Tests.{if◌then◌else◌, Bool-cases}
use khazar_os.Common.Int.{ℤ, ◌≤ℤ◌, ◌<ℤ◌, ltb_ℤ}
use khazar_os.Common.Everywhere.{All}

module _ {ℓ} {A : Type ℓ} (fits : A → Bool) (score : A → ℤ) where
  -- if fits and scores above `floor` then it is the best so far
  unfoldable pub first_max : Option A → ℤ → List A → Option A
  first_max best floor [] = best
  first_max best floor (x ∷ xs) =
      let taken = first_max (some x) (score x) xs in
      let kept = first_max best floor xs in if fits x && ltb_ℤ floor (score x) then taken else kept

  -- `x` beats what stands before it, and nothing behind it beats `x`.
  pub record Best (floor : ℤ) (xs : List A) (x : A) : Type ℓ where
    pub before : List A
    pub behind : List A
    pub splits : xs ≡ before ++ x ∷ behind
    pub fitting : fits x ≡ true
    pub above : floor <ℤ score x
    pub before_lower : All (λ y. fits y ≡ true → score y <ℤ score x) before
    pub behind_le : All (λ y. fits y ≡ true → score y ≤ℤ score x) behind

  -- None of them scores above `floor`.
  abbrev pub NoneAbove : ℤ → List A → Type 0
  NoneAbove floor xs = All (λ y. fits y ≡ true → score y ≤ℤ floor) xs

  Best-skip :
      {floor : ℤ} {xs : List A} {w : A} (x : A)
      → (fits x ≡ true → score x ≤ℤ floor)
      → Best floor xs w
      → Best floor (x ∷ xs) w
  Best-skip x low b = record {
    before = x ∷ b.before;
    behind = b.behind;
    splits = ap (◌∷◌ x) b.splits;
    fitting = b.fitting;
    above = b.above;
    before_lower = (λ h. omega (arith, low h, b.above), b.before_lower);
    behind_le = b.behind_le;
  }

  Best-raise :
      {floor : ℤ} {xs : List A} {w : A} (x : A)
      → floor <ℤ score x
      → Best (score x) xs w
      → Best floor (x ∷ xs) w
  Best-raise x up b = record {
    before = x ∷ b.before;
    behind = b.behind;
    splits = ap (◌∷◌ x) b.splits;
    fitting = b.fitting;
    above = omega (arith, b.above);
    before_lower = (λ h. b.above, b.before_lower);
    behind_le = b.behind_le;
  }

  Best-here :
      {floor : ℤ} {xs : List A} (x : A)
      → fits x ≡ true
      → floor <ℤ score x
      → NoneAbove (score x) xs
      → Best floor (x ∷ xs) x
  Best-here {xs = xs} x f up rest = record {
    before = [];
    behind = xs;
    splits = refl;
    fitting = f;
    above = up;
    before_lower = tt;
    behind_le = rest;
  }

  pub first_max_cases :
      (xs : List A) (best : Option A) (floor : ℤ)
      → ((first_max best floor xs ≡ best) × NoneAbove floor xs)
        ⊎ ((x : A) × (first_max best floor xs ≡ some x) × Best floor xs x)
  unfolding first_max
  first_max_cases [] best floor = inl (refl, tt)
  first_max_cases (x ∷ xs) best floor = elim (Bool-cases (fits x && ltb_ℤ floor (score x))) [
    | inl y ↦ elim (first_max_cases xs (some x) (score x)) [
      | inl (e, rest) ↦ inr (x, (rw y e), Best-here x (ground arith) (ground arith) rest)
      | inr (w, e, b) ↦ inr (w, (rw y e), Best-raise x (ground arith) b)
    ]
    | inr n ↦ elim (first_max_cases xs best floor) [
      | inl (e, rest) ↦ inl (rw n e, ((λ h. ground arith), rest))
      | inr (w, e, b) ↦ inr (w, (rw n e), Best-skip x (λ h. ground arith) b)
    ]
  ]
