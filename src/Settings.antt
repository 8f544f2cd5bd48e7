-- ===== src/Settings.antt =====
-- What the readers of the daemons' configuration files have in common (khazar/components/*/config/config.c):
-- a chain of comparisons of the key, each with the field that it sets, applied to one line after the other.
pub mod Last
use khazar_os.Common.{
  ℕ, zero, suc, ◌+◌, ◌-◌, ◌*◌, ◌/◌, ◌%◌, ◌^◌, ◌≤◌, ◌<◌, ◌≡◌, refl, sym, ap, ◌∙◌, ◌≢◌, ◌↔◌, ◌⊎◌, inl,
  inr, Bool, true, false, not, ◌&&◌, ◌||◌, Option, none, some, List, [], ◌∷◌, ◌++◌, map, arith, leb,
  ltb, ◌==◌, if◌then◌else◌, length, take, drop, get_or, get_elem?, set, ℤ, pos, negsuc, ltb_ℤ,
  pos_part, neg_part, sub_ℕ, ◌+ℤ◌, ◌≤ℤ◌, ◌<ℤ◌, ◌>>=◌, Bool-cases, Option-cases, length-append,
  length-set, replicate, ltb→lt, lt→ltb,
}
use khazar_os.CString.{
  Bytes, lit, str_eq, strncpy, has_prefix, strstr, is_some, contains, strchr, tolower, isspace,
  skip_spaces,
}

-- A comparison `strcmp(key, ..) == 0` and what it does with the value.
abbrev pub Setter : Type 0 → Type 0
Setter C = Bytes × (Bytes → C → C)

-- The chain of `else if`.
unfoldable pub apply {ℓ} : {C : Type ℓ} → List (Bytes × (Bytes → C → C)) → Bytes → Bytes → C → C
apply [] key value c = c
apply ((k, f) ∷ rest) key value c = if str_eq key k then f value c else apply rest key value c

-- The body of the loop, where `pair` is what the reader takes from the line.
unfoldable pub load_line {ℓ} :
    {C : Type ℓ} → List (Bytes × (Bytes → C → C)) → Option (Bytes × Bytes) → C → C
unfolding apply
load_line table none c = c
load_line table (some (key, value)) c = apply table key value c

-- The loop.
unfoldable pub load_lines {ℓ} :
    {C : Type ℓ}
    → (Bytes → Option (Bytes × Bytes))
    → List (Bytes × (Bytes → C → C))
    → List Bytes
    → C
    → C
unfolding load_line
load_lines pair table [] c = c
load_lines pair table (line ∷ ls) c = load_lines pair table ls (load_line table (pair line) c)

-- The configuration file: no path, a file that cannot be opened, or what it holds.
pub data ConfigFile : Type 0 where
  no_path not_opened : ConfigFile
  contents : Bytes → ConfigFile

-- atoi of an `int`, strcmp(value, "true") == 0
unfoldable pub is_true : Bytes → Bool
is_true value = str_eq value (lit "true")

-- A setting keeps its value where there is no new one.
unfoldable pub or_keep {ℓ} : {V : Type ℓ} → Option V → V → V
or_keep none v = v
or_keep (some w) v = w
