-- ===== src/RuleEngine/Fuzzy/Distance.antt =====
-- The table of `levenshtein` (khazar/components/rule-engine/fuzzy/fuzzy.c) against its recursion.
use khazar_os.Common.{ℕ, suc, ◌+◌, ◌≡◌, refl, ap, ◌∙◌, List, [], ◌∷◌, arith, length, get_or}
use khazar_os.CString.{Bytes}
use khazar_os.RuleEngine.Fuzzy.{
  cost, min_val, fill_row, next_row, fill_rows, first_row, distance_table,
}

-- The recursion that the table computes, on prefixes with their last byte first.
unfoldable pub distance : Bytes → Bytes → ℕ
unfolding min_val
distance [] t = length t
distance (c ∷ s) [] = suc (length s)
distance (c ∷ s) (d ∷ t) =
    min_val (distance s (d ∷ t) + 1) (distance (c ∷ s) t + 1) (distance s t + cost c d)

-- What stands before, with its last byte first.
abbrev pub onto : Bytes → Bytes → Bytes
onto [] q = q
onto (d ∷ t) q = onto t (d ∷ q)

-- The row of the prefix `p` behind the column of the prefix `q`.
abbrev row_of : Bytes → Bytes → Bytes → List ℕ
row_of p q [] = []
row_of p q (d ∷ t) = distance p (d ∷ q) ∷ row_of p (d ∷ q) t

fill_row-row_of :
    (c : ℕ) (p q t : Bytes)
    → fill_row c (distance p q) (distance (c ∷ p) q) t (row_of p q t) ≡ row_of (c ∷ p) q t
unfolding fill_row
fill_row-row_of c p q [] = refl
fill_row-row_of c p q (d ∷ t) =
    let same : min_val (distance p (d ∷ q) + 1) (distance (c ∷ p) q + 1) (distance p q + cost c d)
        ≡ distance (c ∷ p) (d ∷ q) =
      unfold distance in refl in
    rw same (ap (◌∷◌ (distance (c ∷ p) (d ∷ q))) (fill_row-row_of c p (d ∷ q) t))

pub distance-nil : (p : Bytes) → distance p [] ≡ length p
unfolding distance
distance-nil [] = refl
distance-nil (c ∷ p) = refl

next_row-row_of :
    (i c : ℕ) (p t : Bytes)
    → i ≡ length p + 1
    → next_row i c t (distance p [] ∷ row_of p [] t) ≡ distance (c ∷ p) [] ∷ row_of (c ∷ p) [] t
unfolding next_row
next_row-row_of i c p t e =
    let start : i ≡ distance (c ∷ p) [] = omega (arith, e, distance-nil (c ∷ p)) in
    rw start (ap (◌∷◌ (distance (c ∷ p) [])) (fill_row-row_of c p [] t))

fill_rows-row_of :
    (i : ℕ) (s p t : Bytes)
    → i ≡ length p + 1
    → fill_rows i s t (distance p [] ∷ row_of p [] t)
      ≡ distance (onto s p) [] ∷ row_of (onto s p) [] t
unfolding fill_rows
fill_rows-row_of i [] p t e = refl
fill_rows-row_of i (c ∷ s) p t e =
    ap (fill_rows (i + 1) s t) (next_row-row_of i c p t e)
    ∙ fill_rows-row_of (i + 1) s (c ∷ p) t (omega (arith, e))

first_row-row_of : (q t : Bytes) → first_row (length q) t ≡ distance [] q ∷ row_of [] q t
unfolding first_row distance
first_row-row_of q [] = refl
first_row-row_of q (d ∷ t) =
    let e : length q + 1 ≡ length (d ∷ q) = omega arith in
    rw e (ap (◌∷◌ (length q)) (first_row-row_of (d ∷ q) t))

get_or-row_of :
    (p q t : Bytes) → get_or (distance p q ∷ row_of p q t) (length t) 0 ≡ distance p (onto t q)
get_or-row_of p q [] = refl
get_or-row_of p q (d ∷ t) = get_or-row_of p (d ∷ q) t

-- The table gives the recursion's value for the two texts read from their ends.
pub distance_table-distance : (s t : Bytes) → distance_table s t ≡ distance (onto s []) (onto t [])
unfolding distance_table
distance_table-distance s t =
    ap (λ row. get_or (fill_rows 1 s t row) (length t) 0) (first_row-row_of [] t)
    ∙ ap (λ row. get_or row (length t) 0) (fill_rows-row_of 1 s [] t refl)
    ∙ get_or-row_of (onto s []) [] t
