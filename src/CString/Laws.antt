-- ===== src/CString/Laws.antt =====
-- What the functions of CString promise.
use khazar_os.Common.{
  ◌+◌, ◌-◌, ap, ◌∙◌, ℕ, zero, suc, ◌≤◌, ◌≡◌, refl, ◌↔◌, true, List, [], ◌∷◌, ◌++◌, arith, length,
  take,
}
use khazar_os.CString.{Bytes, str_eq, has_prefix, strstr, is_some, contains, tolower}

pub str_eq_iff : (a b : Bytes) → (str_eq a b ≡ true) ↔ (a ≡ b)
unfolding str_eq
str_eq_iff (x ∷ a) (y ∷ b) = ground (arith, str_eq_iff a b)
str_eq_iff _ _ = ground arith

pub str_eq_refl : (a : Bytes) → str_eq a a ≡ true
str_eq_refl a = (str_eq_iff a a).1 refl

pub tolower_idem : (c : ℕ) → tolower (tolower c) ≡ tolower c
unfolding tolower
tolower_idem c = ground arith

pub has_prefix-append : (p s : Bytes) → has_prefix p (p ++ s) ≡ true
unfolding has_prefix
has_prefix-append [] s = refl
has_prefix-append (c ∷ p) s = ground (arith, has_prefix-append p s)

-- A text with `p` in it is found by strstr.
pub contains-append : (a p b : Bytes) → contains (a ++ (p ++ b)) p ≡ true
unfolding strstr is_some
contains-append [] [] [] = refl
contains-append [] [] (c ∷ b) = refl
contains-append [] (c ∷ p) b = ground (arith, has_prefix-append p b)
contains-append (c ∷ a) p b = ground (arith, contains-append a p b)

pub take-all {ℓ} : {A : Type ℓ} (n : ℕ) (s : List A) → length s ≤ n → take n s ≡ s
take-all zero [] h = refl
take-all zero (c ∷ s) h = absurd (omega arith)
take-all (suc n) [] h = refl
take-all (suc n) (c ∷ s) h = rw (take-all n s (omega arith))

pub str_eq_comm : (a b : Bytes) → str_eq a b ≡ str_eq b a
unfolding str_eq
str_eq_comm (x ∷ a) (y ∷ b) = ground (arith, str_eq_comm a b)
str_eq_comm [] [] = refl
str_eq_comm [] (y ∷ b) = refl
str_eq_comm (x ∷ a) [] = refl

has_prefix-part : (p q s : Bytes) → has_prefix (p ++ q) s ≡ true → has_prefix p s ≡ true
unfolding has_prefix
has_prefix-part [] q s h = refl
has_prefix-part (c ∷ p) q [] h = h
has_prefix-part (c ∷ p) q (d ∷ s) h = ground (arith, has_prefix-part p q s)

-- A text that holds a word holds each word that it begins with.
pub contains-part : (p q s : Bytes) → contains s (p ++ q) ≡ true → contains s p ≡ true
unfolding strstr is_some
contains-part p q [] h = ground (arith, has_prefix-part p q [])
contains-part p q (c ∷ s) h = ground (arith, has_prefix-part p q (c ∷ s), contains-part p q s)

contains-tail_of : (p q s : Bytes) → has_prefix (p ++ q) s ≡ true → contains s q ≡ true
unfolding has_prefix strstr is_some
contains-tail_of [] q [] h = ground arith
contains-tail_of [] q (c ∷ s) h = ground arith
contains-tail_of (c ∷ p) q [] h = absurd (ground arith)
contains-tail_of (c ∷ p) q (d ∷ s) h = ground (arith, contains-tail_of p q s)

-- And each word that it ends with.
pub contains-tail : (p q s : Bytes) → contains s (p ++ q) ≡ true → contains s q ≡ true
unfolding strstr is_some
contains-tail p q [] h = ground (arith, contains-tail_of p q [])
contains-tail p q (c ∷ s) h = ground (arith, contains-tail_of p q (c ∷ s), contains-tail p q s)

pub length-take_le {ℓ} : {A : Type ℓ} (n : ℕ) (s : List A) → length (take n s) ≤ n
length-take_le zero s = omega arith
length-take_le (suc n) [] = omega arith
length-take_le (suc n) (c ∷ s) = omega (arith, length-take_le n s)

pub take-append_le {ℓ} :
    {A : Type ℓ} (n : ℕ) (xs ys : List A)
    → length xs ≤ n
    → take n (xs ++ ys) ≡ xs ++ take (n - length xs) ys
take-append_le n [] ys h = ap (λ m. take m ys) (omega arith)
take-append_le zero (x ∷ xs) ys h = absurd (omega (arith, h))
take-append_le (suc n) (x ∷ xs) ys h =
    let less : suc n - suc (length xs) ≡ n - length xs = omega arith in
    rw (take-append_le n xs ys (omega (arith, h)), less) refl

-- A text that is cut behind a word still holds the word.
pub contains-take :
    (n : ℕ) (a p b : Bytes) → length a + length p ≤ n → contains (take n (a ++ (p ++ b))) p ≡ true
contains-take n a p b h =
    let rest = n - length a in
    let cut : take n (a ++ (p ++ b)) ≡ a ++ (p ++ take (rest - length p) b) =
      take-append_le n a (p ++ b) (omega (arith, h))
      ∙ ap (λ s. a ++ s) (take-append_le rest p b (omega (arith, h))) in
    rw cut (contains-append a p (take (rest - length p) b))
