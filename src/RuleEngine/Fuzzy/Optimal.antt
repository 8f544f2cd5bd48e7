-- ===== src/RuleEngine/Fuzzy/Optimal.antt =====
-- `levenshtein` as the least number of edits.
use khazar_os.Common.{
  ℕ, zero, suc, ◌+◌, ◌≤◌, ◌≡◌, refl, sym, ◌∙◌, ◌⊎◌, inl, inr, [], ◌∷◌, ◌++◌, arith, length, take,
}
use khazar_os.CString.{Bytes}
use khazar_os.RuleEngine.Fuzzy.{cost, min_val, distance_table, levenshtein}
use khazar_os.RuleEngine.Fuzzy.Distance.{distance, onto, distance-nil, distance_table-distance}
use mathlib.Core.List.{append-nil}

-- A way of editing one text into another from left to right, and its number of edits.
pub data Edits : Bytes → Bytes → ℕ → Type 0 where
  done : Edits [] [] 0
  delete : {s t : Bytes} {n : ℕ} → (c : ℕ) → Edits s t n → Edits (c ∷ s) t (n + 1)
  insert : {s t : Bytes} {n : ℕ} → (d : ℕ) → Edits s t n → Edits s (d ∷ t) (n + 1)
  replace : {s t : Bytes} {n : ℕ} → (c d : ℕ) → Edits s t n → Edits (c ∷ s) (d ∷ t) (n + cost c d)

Edits-cast : {s t : Bytes} {m n : ℕ} → m ≡ n → Edits s t m → Edits s t n
Edits-cast {s} {t} e h = rw (← e) h

min_val_cases : (a b c : ℕ) → (min_val a b c ≡ a) ⊎ ((min_val a b c ≡ b) ⊎ (min_val a b c ≡ c))
unfolding min_val
min_val_cases a b c = ground arith

min_val_le : (a b c : ℕ) → (min_val a b c ≤ a) × (min_val a b c ≤ b) × (min_val a b c ≤ c)
unfolding min_val
min_val_le a b c = ground arith

insert_all : (t : Bytes) → Edits [] t (length t)
insert_all [] = done
insert_all (d ∷ t) = Edits-cast (omega arith) (insert d (insert_all t))

delete_all : (s : Bytes) → Edits s [] (length s)
delete_all [] = done
delete_all (c ∷ s) = Edits-cast (omega arith) (delete c (delete_all s))

distance-Edits : (s t : Bytes) → Edits s t (distance s t)
unfolding distance
distance-Edits [] t = insert_all t
distance-Edits (c ∷ s) [] = delete_all (c ∷ s)
distance-Edits (c ∷ s) (d ∷ t) =
    elim (min_val_cases (distance s (d ∷ t) + 1) (distance (c ∷ s) t + 1)
      (distance s t + cost c d)) [
        | inl e ↦ Edits-cast (sym e) (delete c (distance-Edits s (d ∷ t)))
        | inr (inl e) ↦ Edits-cast (sym e) (insert d (distance-Edits (c ∷ s) t))
        | inr (inr e) ↦ Edits-cast (sym e) (replace c d (distance-Edits s t))
      ]

-- No way of editing is shorter than the recursion's value.
distance_le : {s t : Bytes} {n : ℕ} → Edits s t n → distance s t ≤ n
unfolding distance
distance_le done = omega arith
distance_le (delete {s = s} {t = []} c h) = ground (arith, distance_le h, distance-nil s)
distance_le (delete {s = s} {t = d ∷ t} c h) = ground (
  arith,
  distance_le h,
  min_val_le (distance s (d ∷ t) + 1) (distance (c ∷ s) t + 1) (distance s t + cost c d),
)
distance_le (insert {s = []} {t = t} d h) = ground (arith, distance_le h)
distance_le (insert {s = c ∷ s} {t = t} d h) = ground (
  arith,
  distance_le h,
  min_val_le (distance s (d ∷ t) + 1) (distance (c ∷ s) t + 1) (distance s t + cost c d),
)
distance_le (replace {s = s} {t = t} c d h) = ground (
  arith,
  distance_le h,
  min_val_le (distance s (d ∷ t) + 1) (distance (c ∷ s) t + 1) (distance s t + cost c d),
)

-- The edits of the ends behind those of the beginnings, turned round.
Edits-onto :
    {s t p q : Bytes} {m n : ℕ} → Edits s t n → Edits p q m → Edits (onto s p) (onto t q) (n + m)
Edits-onto done k = Edits-cast (omega arith) k
Edits-onto (delete c h) k = Edits-cast (omega arith) (Edits-onto h (delete c k))
Edits-onto (insert d h) k = Edits-cast (omega arith) (Edits-onto h (insert d k))
Edits-onto (replace c d h) k = Edits-cast (omega arith) (Edits-onto h (replace c d k))

onto-onto : (s p q : Bytes) → onto (onto s p) q ≡ onto p (s ++ q)
onto-onto [] p q = refl
onto-onto (c ∷ s) p q = onto-onto s (c ∷ p) q

onto_twice : (s : Bytes) → onto (onto s []) [] ≡ s
onto_twice s = onto-onto s [] [] ∙ append-nil s

Edits-turned : {s t : Bytes} {n : ℕ} → Edits s t n → Edits (onto s []) (onto t []) n
Edits-turned h = Edits-cast (omega arith) (Edits-onto h done)

distance_table-Edits : (s t : Bytes) → Edits s t (distance_table s t)
distance_table-Edits s t =
    let turned = Edits-turned (distance-Edits (onto s []) (onto t [])) in
    Edits-cast (sym (distance_table-distance s t)) (rw (onto_twice s, onto_twice t) at turned)

-- `levenshtein` is the least number of single-byte insertions, deletions and replacements that turn the
-- first text into the second, each cut to 126 bytes: that many edits do it, and no way of editing has
-- fewer.
pub levenshtein-Edits :
    (s t : Bytes) (n : ℕ)
    → Edits (take 126 s) (take 126 t) n
    → Edits (take 126 s) (take 126 t) (levenshtein s t) × (levenshtein s t ≤ n)
unfolding levenshtein
levenshtein-Edits s t n h =
    let least = distance_le (Edits-turned h) in
    (
      distance_table-Edits (take 126 s) (take 126 t),
      omega (arith, least, distance_table-distance (take 126 s) (take 126 t)),
    )

distance_bound : (s t : Bytes) (n : ℕ) → length s ≤ n → length t ≤ n → distance s t ≤ n
unfolding distance
distance_bound [] t n a b = b
distance_bound (c ∷ s) [] n a b = a
distance_bound (c ∷ s) (d ∷ t) zero a b = absurd (omega arith)
distance_bound (c ∷ s) (d ∷ t) (suc n) a b = ground (
  arith,
  distance_bound s t n (omega arith) (omega arith),
  min_val_le (distance s (d ∷ t) + 1) (distance (c ∷ s) t + 1) (distance s t + cost c d),
)

length-onto : (s p : Bytes) → length (onto s p) ≡ length s + length p
length-onto [] p = omega arith
length-onto (c ∷ s) p = omega (arith, length-onto s (c ∷ p))

length-take_le_length : (n : ℕ) (s : Bytes) → length (take n s) ≤ length s
length-take_le_length zero s = omega arith
length-take_le_length (suc n) [] = omega arith
length-take_le_length (suc n) (c ∷ s) = omega (arith, length-take_le_length n s)

-- The distance is at most the length of the longer text, so a similarity is never below 0.
pub levenshtein_bound : (s t : Bytes) (n : ℕ) → length s ≤ n → length t ≤ n → levenshtein s t ≤ n
unfolding levenshtein
levenshtein_bound s t n a b =
    let p = take 126 s in
    let q = take 126 t in
    let bound =
      distance_bound (onto p []) (onto q []) n
        (omega (arith, length-onto p [], length-take_le_length 126 s, a))
        (omega (arith, length-onto q [], length-take_le_length 126 t, b)) in
    omega (arith, bound, distance_table-distance p q)
