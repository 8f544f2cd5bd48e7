-- ===== src/CString.antt =====
-- C strings as the lists of their bytes before the terminating NUL, and the functions of
-- `string.h` and `ctype.h` (in the C locale) that the components call. A fixed buffer of `n` bytes
-- that is zeroed first and filled by `strncpy(buf, s, n - 1)` holds `strncpy (n - 1) s`.
pub mod Laws
pub mod Lines
pub mod Quoted
pub mod Pieces
use Prim.Native.Char.{Char, code}
use Prim.Native.String.{String}
use khazar_os.Common.{
  ℕ, zero, suc, ◌+◌, ◌-◌, ◌*◌, ◌/◌, ◌%◌, ◌≡◌, refl, Bool, true, false, not, ◌&&◌, ◌||◌, Option,
  none, some, List, [], ◌∷◌, ◌++◌, map, leb, ltb, ◌==◌, if◌then◌else◌, length, take, drop, get_or,
  ℤ, pos, negsuc,
}

abbrev pub Bytes : Type 0
Bytes = List ℕ

-- The UTF-8 bytes of a code point, as they stand in the source's literals.
abbrev utf8 : ℕ → Bytes
utf8 c =
    if ltb c 0x80
    then c ∷ []
    else if ltb c 0x800
    then (192 + c / 64) ∷ (128 + c % 64) ∷ []
    else (224 + c / 4096) ∷ (128 + c / 64 % 64) ∷ (128 + c % 64) ∷ []

-- A string literal of the source.
abbrev pub lit : String → Bytes
lit String.[] = []
lit (String.◌∷◌ c s) = utf8 (code c) ++ lit s

-- strcmp(a, b) == 0
unfoldable pub str_eq : Bytes → Bytes → Bool
str_eq [] [] = true
str_eq (a ∷ as') (b ∷ bs) = a == b && str_eq as' bs
str_eq _ _ = false

-- strncpy into a zeroed buffer that keeps its last byte
abbrev pub strncpy : ℕ → Bytes → Bytes
strncpy n s = take n s

-- strncmp(p, s, strlen(p)) == 0
unfoldable pub has_prefix : Bytes → Bytes → Bool
has_prefix [] s = true
has_prefix (c ∷ p) [] = false
has_prefix (c ∷ p) (d ∷ s) = c == d && has_prefix p s

-- strstr(s, p): what stands from the first occurrence on
unfoldable pub strstr : Bytes → Bytes → Option Bytes
unfolding has_prefix
strstr [] p = if has_prefix p [] then some [] else none
strstr (c ∷ s) p = let rest = strstr s p in if has_prefix p (c ∷ s) then some (c ∷ s) else rest

unfoldable pub is_some {ℓ} : {A : Type ℓ} → Option A → Bool
is_some none = false
is_some (some a) = true

-- the use of strstr as a test
abbrev pub contains : Bytes → Bytes → Bool
contains s p = is_some (strstr s p)

-- strchr(s, c), c not NUL: what stands from the first `c` on
unfoldable pub strchr : Bytes → ℕ → Option Bytes
strchr [] c = none
strchr (d ∷ s) c = if d == c then some (d ∷ s) else strchr s c

-- tolower of the C locale
unfoldable pub tolower : ℕ → ℕ
tolower c = if leb b'A' c && leb c b'Z' then c + 32 else c

-- isspace of the C locale
unfoldable pub isspace : ℕ → Bool
isspace c = c == 32 || (leb 9 c && leb c 13)

-- while (*p == ' ') p++
unfoldable pub skip_spaces : Bytes → Bytes
skip_spaces [] = []
skip_spaces (c ∷ s) = if c == b' ' then skip_spaces s else c ∷ s
