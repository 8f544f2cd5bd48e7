-- ===== src/Settings/Last.antt =====
-- Each setting has the value of the last line that sets it.
use khazar_os.Common.{
  ◌≡◌, refl, sym, ap, ◌∙◌, inl, inr, Bool, true, false, ◌&&◌, ◌||◌, Option, none, some, List, [],
  ◌∷◌, if◌then◌else◌, Bool-cases,
}
use khazar_os.CString.{Bytes, str_eq}
use khazar_os.Common.{All}
use khazar_os.CString.Laws.{str_eq_iff, str_eq_comm}
use khazar_os.Settings.{or_keep, apply, load_line, load_lines}

-- What a line does to the setting with the key `k`, where `val` reads its value.
unfoldable pub set_by {ℓ} :
    {V : Type ℓ} → Bytes → (Bytes → Option V) → Option (Bytes × Bytes) → Option V
set_by k val none = none
set_by k val (some (key, value)) = if str_eq key k then val value else none

-- The value that the last of the lines gives, or else `v`.
unfoldable pub last_set {ℓ} :
    {V : Type ℓ}
    → (Bytes → Option (Bytes × Bytes))
    → Bytes
    → (Bytes → Option V)
    → List Bytes
    → V
    → V
unfolding or_keep set_by
last_set pair k val [] v = v
last_set pair k val (line ∷ ls) v = last_set pair k val ls (or_keep (set_by k val (pair line)) v)

abbrev pub has_key {ℓ} : {C : Type ℓ} → List (Bytes × (Bytes → C → C)) → Bytes → Bool
has_key [] k = false
has_key ((k', f) ∷ rest) k = str_eq k' k || has_key rest k

module _ {V : Type 0} where
  if_and-false : (b : Bool) (x y : V) → y ≡ (if b && false then x else y)
  if_and-false true x y = refl
  if_and-false false x y = refl

  if_absorb : (b c : Bool) (x y : V) → (if b then x else y) ≡ (if b && (b || c) then x else y)
  if_absorb true c x y = refl
  if_absorb false c x y = refl

  or_keep-if :
      (b : Bool) (o : Option V) (v : V)
      → (if b && true then or_keep o v else v) ≡ or_keep (if b then o else none) v
  unfolding or_keep
  or_keep-if true o v = refl
  or_keep-if false o v = refl

other_key :
    (key k' k : Bytes) (h : Bool)
    → str_eq key k' ≡ false
    → (str_eq key k && (str_eq k' k || h)) ≡ (str_eq key k && h)
other_key key k' k h n = elim (Bool-cases (str_eq key k)) [
  | inl y ↦
      let same : key ≡ k = (str_eq_iff key k).0 y in
      let differ : str_eq k' k ≡ false = ap (str_eq k') (sym same) ∙ (str_eq_comm k' key ∙ n) in
      rw differ refl
  | inr m ↦ rw m refl
]

module _ {C V : Type 0} (get : C → V) (k : Bytes) (val : Bytes → Option V) where
  -- An entry of the chain sets the setting if its key is `k`, and leaves it otherwise.
  abbrev pub Row : Bytes × (Bytes → C → C) → Type 0
  Row (k', f) =
      (v : Bytes) (c : C) → get (f v c) ≡ (if str_eq k' k then or_keep (val v) (get c) else get c)

  apply-get :
      (table : List (Bytes × (Bytes → C → C)))
      → All Row table
      → (key value : Bytes) (c : C)
      → get (apply table key value c)
        ≡ (if str_eq key k && has_key table k then or_keep (val value) (get c) else get c)
  unfolding apply
  apply-get [] rows key value c = if_and-false (str_eq key k) (or_keep (val value) (get c)) (get c)
  apply-get ((k', f) ∷ rest) (row, rows) key value c = elim (Bool-cases (str_eq key k')) [
    | inl y ↦
        let same : key ≡ k' = (str_eq_iff key k').0 y in
        rw y (
          row value c
          ∙ (if_absorb (str_eq k' k) (has_key rest k) _ _
              ∙ ap
                  (λ t.
                    if str_eq t k && (str_eq k' k || has_key rest k)
                    then or_keep (val value) (get c)
                    else get c)
                  (sym same)))
    | inr n ↦ rw n (
        apply-get rest rows key value c
        ∙ ap (λ b. if b then or_keep (val value) (get c) else get c)
            (sym (other_key key k' k (has_key rest k) n)))
  ]

  pub load_lines-get :
      (pair : Bytes → Option (Bytes × Bytes)) (table : List (Bytes × (Bytes → C → C)))
      → All Row table
      → has_key table k ≡ true
      → (ls : List Bytes) (c : C)
      → get (load_lines pair table ls c) ≡ last_set pair k val ls (get c)
  unfolding load_lines last_set
  load_lines-get pair table rows h [] c = refl
  load_lines-get pair table rows h (line ∷ ls) c =
      load_lines-get pair table rows h ls (load_line table (pair line) c)
      ∙ ap (last_set pair k val ls) (load_line-get (pair line))
    where
      load_line-get :
          (p : Option (Bytes × Bytes))
          → get (load_line table p c) ≡ or_keep (set_by k val p) (get c)
      load_line-get none = refl
      load_line-get (some (key, value)) =
          apply-get table rows key value c
          ∙ (ap (λ b. if str_eq key k && b then or_keep (val value) (get c) else get c) h
              ∙ or_keep-if (str_eq key k) (val value) (get c))

module _ {C V : Type 0} (get : C → V) where
  -- An entry of the chain leaves the setting.
  abbrev pub Keeps : Bytes × (Bytes → C → C) → Type 0
  Keeps (k', f) = (v : Bytes) (c : C) → get (f v c) ≡ get c

  apply-Keeps :
      (table : List (Bytes × (Bytes → C → C)))
      → All Keeps table
      → (key value : Bytes) (c : C) → get (apply table key value c) ≡ get c
  unfolding apply
  apply-Keeps [] rows key value c = refl
  apply-Keeps ((k', f) ∷ rest) (row, rows) key value c = elim (Bool-cases (str_eq key k')) [
    | inl y ↦ rw y (row value c)
    | inr n ↦ rw n (apply-Keeps rest rows key value c)
  ]

  pub load_lines-Keeps :
      (pair : Bytes → Option (Bytes × Bytes)) (table : List (Bytes × (Bytes → C → C)))
      → All Keeps table
      → (ls : List Bytes) (c : C) → get (load_lines pair table ls c) ≡ get c
  unfolding load_lines
  load_lines-Keeps pair table rows [] c = refl
  load_lines-Keeps pair table rows (line ∷ ls) c =
      load_lines-Keeps pair table rows ls (load_line table (pair line) c)
      ∙ load_line-Keeps (pair line)
    where
      load_line-Keeps : (p : Option (Bytes × Bytes)) → get (load_line table p c) ≡ get c
      load_line-Keeps none = refl
      load_line-Keeps (some (key, value)) = apply-Keeps table rows key value c
