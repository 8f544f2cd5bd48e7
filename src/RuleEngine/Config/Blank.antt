-- ===== src/RuleEngine/Config/Blank.antt =====
-- A blank behind the '=' of a line in the rule engine's configuration.
use khazar_os.Common.{
  ℕ, ◌≤◌, ◌≡◌, refl, ap, ◌∙◌, inl, inr, false, some, [], ◌∷◌, ◌++◌, ◌==◌, length, take, Bool-cases,
}
use khazar_os.CString.{Bytes, str_eq, isspace}
use khazar_os.Common.{All}
use khazar_os.CString.Laws.{take-all}
use khazar_os.Settings.{is_true}
use khazar_os.RuleEngine.Config.{
  all_white, trim_right, trim_whitespace, unquoted, split_pair, trimmed_pair, pair_of,
}

-- A byte of a key: no white space, no '='.
abbrev pub InKey : ℕ → Type 0
InKey c = (isspace c ≡ false) × ((c == b'=') ≡ false)

trim_right-key : (k s : Bytes) → All InKey k → trim_right (k ++ b'=' ∷ s) ≡ k ++ b'=' ∷ trim_right s
unfolding trim_right all_white isspace
trim_right-key [] s h = refl
trim_right-key (c ∷ k) s ((w, e), h) = rw w (ap (λ t. c ∷ t) (trim_right-key k s h))

trim_right-All : (k : Bytes) → All InKey k → trim_right k ≡ k
unfolding trim_right all_white
trim_right-All [] h = refl
trim_right-All (c ∷ k) ((w, e), h) = rw w (ap (λ t. c ∷ t) (trim_right-All k h))

split_pair-key : (k s : Bytes) → All InKey k → split_pair (k ++ b'=' ∷ s) ≡ some (k, s)
unfolding split_pair
split_pair-key [] s h = refl
split_pair-key (c ∷ k) s ((w, e), h) = rw (e, split_pair-key k s h) refl

-- A value that is empty or begins with a blank is not read as true.
abbrev Blank : Bytes → Type 0
Blank v = is_true v ≡ false

Blank-head : (t : Bytes) → Blank (unquoted (trim_whitespace (b' ' ∷ t)))
unfolding is_true str_eq unquoted trim_whitespace trim_right all_white isspace
Blank-head t = elim (Bool-cases (all_white t)) [ inl y ↦ rw y refl | inr n ↦ rw n refl ]

Blank-trim : (s : Bytes) → Blank (unquoted (trim_whitespace (take 255 (trim_right (b' ' ∷ s)))))
unfolding is_true str_eq unquoted trim_whitespace trim_right all_white isspace
Blank-trim s = elim (Bool-cases (all_white s)) [
  | inl y ↦ rw y refl
  | inr n ↦ rw n (Blank-head (take 254 (trim_right s)))
]

trim_whitespace-key : (c : ℕ) (k : Bytes) → All InKey (c ∷ k) → trim_whitespace (c ∷ k) ≡ c ∷ k
unfolding trim_whitespace all_white
trim_whitespace-key c k ((w, e), h) = rw w (ap (λ t. c ∷ t) (trim_right-All k h))

trim_line :
    (c : ℕ) (k rest : Bytes)
    → All InKey (c ∷ k)
    → pair_of ((c ∷ k) ++ b'=' ∷ b' ' ∷ rest)
      ≡ trimmed_pair (c ∷ (k ++ b'=' ∷ trim_right (b' ' ∷ rest)))
unfolding pair_of trim_whitespace all_white
trim_line c k rest ((w, e), h) =
    rw w (ap (λ t. trimmed_pair (c ∷ t)) (trim_right-key k (b' ' ∷ rest) h))

-- The value that is read from the line with the key `k` and, behind the '=', the blank and `rest`.
abbrev pub value_of : Bytes → Bytes
value_of rest = unquoted (trim_whitespace (take 255 (trim_right (b' ' ∷ rest))))

trimmed_pair-blank :
    (c : ℕ) (k rest : Bytes)
    → All InKey (c ∷ k)
    → length (c ∷ k) ≤ 255
    → (c == b'#') ≡ false
    → (c == b'[') ≡ false
    → trimmed_pair (c ∷ (k ++ b'=' ∷ trim_right (b' ' ∷ rest))) ≡ some (c ∷ k, value_of rest)
unfolding trimmed_pair
trimmed_pair-blank c k rest h l n m =
    rw (n, m, split_pair-key (c ∷ k) (trim_right (b' ' ∷ rest)) h)
      (ap (λ t. some (trim_whitespace t, value_of rest)) (take-all 255 (c ∷ k) l)
        ∙ ap (λ t. some (t, value_of rest)) (trim_whitespace-key c k h))

-- A flag is not switched on by a line with a blank behind the '=': where the key `c ∷ k` has at most 255
-- bytes, no white space and no '=', and begins no comment and no section, the line gives that key with a
-- value that is not read as true, whatever stands behind the blank.
pub pair_of-blank :
    (c : ℕ) (k rest : Bytes)
    → All InKey (c ∷ k)
    → length (c ∷ k) ≤ 255
    → (c == b'#') ≡ false
    → (c == b'[') ≡ false
    → (pair_of ((c ∷ k) ++ b'=' ∷ b' ' ∷ rest) ≡ some (c ∷ k, value_of rest))
      × (is_true (value_of rest) ≡ false)
pair_of-blank c k rest ((w, e), h) l n m = (
  trim_line c k rest ((w, e), h) ∙ trimmed_pair-blank c k rest ((w, e), h) l n m,
  Blank-trim rest,
)
