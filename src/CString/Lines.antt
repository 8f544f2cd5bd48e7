-- ===== src/CString/Lines.antt =====
-- Reading lines of text: `fgets`, `sscanf("%127[^=]=%383[^\n]")`, `atoi`, and the trimming loops that
-- the policy engine's rule files and configuration files share.
use khazar_os.Common.{
  ◌≤◌, inl, inr, arith, Bool-cases, ℕ, zero, suc, ◌+◌, ◌-◌, ◌*◌, ◌/◌, ◌%◌, ◌^◌, Bool, true, false,
  ◌&&◌, Option, none, some, List, [], ◌∷◌, leb, ltb, ◌==◌, if◌then◌else◌, length, take, drop,
  get_or, ℤ, pos, sub_ℕ,
}
use khazar_os.CString.{Bytes, isspace, skip_spaces}

-- One `fgets(line, room + 1, f)`, then the newline cut off: at most `room` bytes, up to a newline.
-- The line and what is left of the file.
unfoldable pub fgets : ℕ → Bytes → Bytes × Bytes
fgets zero file = ([], file)
fgets (suc room) [] = ([], [])
fgets (suc room) (c ∷ file) =
    let (line, rest) = fgets room file in if c == b'\n' then ([], file) else (c ∷ line, rest)

-- The lines of a file, one a round of `while (fgets(..))`; each round takes at least a byte.
lines_fuel : ℕ → ℕ → Bytes → List Bytes
lines_fuel zero room file = []
lines_fuel (suc fuel) room [] = []
lines_fuel (suc fuel) room (c ∷ file) =
    let (line, rest) = fgets room (c ∷ file) in line ∷ lines_fuel fuel room rest

unfoldable pub lines : ℕ → Bytes → List Bytes
unfolding lines_fuel fgets
lines room file = lines_fuel (length file) room file

-- One `fgets(line, room + 1, f)`, which keeps the newline.
unfoldable pub fgets_whole : ℕ → Bytes → Bytes × Bytes
fgets_whole zero file = ([], file)
fgets_whole (suc room) [] = ([], [])
fgets_whole (suc room) (c ∷ file) =
    let (line, rest) = fgets_whole room file in
    if c == b'\n' then (c ∷ [], file) else (c ∷ line, rest)

whole_lines_fuel : ℕ → ℕ → Bytes → List Bytes
whole_lines_fuel zero room file = []
whole_lines_fuel (suc fuel) room [] = []
whole_lines_fuel (suc fuel) room (c ∷ file) =
    let (line, rest) = fgets_whole room (c ∷ file) in line ∷ whole_lines_fuel fuel room rest

-- The lines of a file with their newlines.
unfoldable pub whole_lines : ℕ → Bytes → List Bytes
unfolding whole_lines_fuel fgets_whole
whole_lines room file = whole_lines_fuel (length file) room file

-- The longest part of at most `n` bytes without the byte `stop`, and what follows it.
unfoldable pub span_not : ℕ → ℕ → Bytes → Bytes × Bytes
span_not stop zero s = ([], s)
span_not stop (suc n) [] = ([], [])
span_not stop (suc n) (c ∷ s) =
    let (a, b) = span_not stop n s in if c == stop then ([], c ∷ s) else (c ∷ a, b)

key_value : Bytes → Bytes → Option (Bytes × Bytes)
key_value [] rest = none
key_value key [] = none
key_value key (e ∷ rest) =
    if e == b'='
    then elim (span_not b'\n' 383 rest).0 [ [] ↦ none | v ∷ vs ↦ some (key, v ∷ vs) ]
    else none

-- sscanf(line, "%127[^=]=%383[^\n]", key, value), where it converts both.
unfoldable pub scan_pair : Bytes → Option (Bytes × Bytes)
unfolding key_value span_not
scan_pair line = let (key, rest) = span_not b'=' 127 line in key_value key rest

unfoldable pub all_spaces : Bytes → Bool
all_spaces [] = true
all_spaces (c ∷ s) = c == b' ' && all_spaces s

-- while (ke > k && *ke == ' ') *ke-- = '\0', from the last byte: the first byte stays.
unfoldable pub trim_end : Bytes → Bytes
unfolding all_spaces
trim_end [] = []
trim_end (c ∷ s) = let rest = trim_end s in if all_spaces s then c ∷ [] else c ∷ rest

-- The key between its spaces.
unfoldable pub trim_key : Bytes → Bytes
unfolding skip_spaces trim_end
trim_key key = trim_end (skip_spaces key)

unfoldable pub last_byte : Bytes → ℕ
last_byte [] = 0
last_byte (c ∷ []) = c
last_byte (c ∷ d ∷ s) = last_byte (d ∷ s)

-- The value behind its spaces, without the two quotes around it.
unfoldable pub unquote : Bytes → Bytes
unfolding skip_spaces last_byte
unquote value =
    let v = skip_spaces value in
    if leb 2 (length v) && get_or v 0 0 == b'"' && last_byte v == b'"'
    then drop 1 (take (length v - 1) v)
    else v

skip_space : Bytes → Bytes
skip_space [] = []
skip_space (c ∷ s) = if isspace c then skip_space s else c ∷ s

digits : ℕ → Bytes → ℕ
digits n [] = n
digits n (c ∷ s) =
    let more = digits (n * 10 + (c - b'0')) s in if leb b'0' c && leb c b'9' then more else n

signed : Bytes → ℤ
signed [] = pos 0
signed (c ∷ s) =
    if c == b'-'
    then sub_ℕ 0 (digits 0 s)
    else if c == b'+'
    then pos (digits 0 s)
    else pos (digits 0 (c ∷ s))

-- atoi, for a value that an `int` holds
unfoldable pub atoi : Bytes → ℤ
unfolding skip_space isspace digits signed
atoi s = signed (skip_space s)

-- strtoull(s, NULL, 10) of an unsigned number: the digits behind white space and a `+`, up to the
-- largest value of 64 bits; behind a `-` the number is negated in 64 bits.
unfoldable pub strtoull : Bytes → ℕ
unfolding skip_space isspace digits
strtoull s =
    let clamp : ℕ → ℕ = λ n. if ltb n (2 ^ 64) then n else 2 ^ 64 - 1 in
    elim (skip_space s) [
      | [] ↦ 0
      | c ∷ t ↦
          if c == b'-'
          then (if ltb (digits 0 t) (2 ^ 64) then (2 ^ 64 - digits 0 t) % 2 ^ 64 else 2 ^ 64 - 1)
          else if c == b'+'
          then clamp (digits 0 t)
          else clamp (digits 0 (c ∷ t))
    ]

starts_with_digit : Bytes → Bool
starts_with_digit [] = false
starts_with_digit (c ∷ s) = leb b'0' c && leb c b'9'

-- strtoll(p, &end, 10), `none` where it converts nothing, so that `end == p`; the value is clamped to
-- the range of 64 bits.
unfoldable pub strtoll : Bytes → Option ℤ
unfolding skip_space isspace digits starts_with_digit
strtoll s =
    let clamp : ℕ → ℤ = λ n. pos (if ltb n (2 ^ 63) then n else 2 ^ 63 - 1) in
    elim (skip_space s) [
      | [] ↦ none
      | c ∷ t ↦
          if c == b'-'
          then (if starts_with_digit t
              then some (sub_ℕ 0 (if ltb (digits 0 t) (2 ^ 63) then digits 0 t else 2 ^ 63))
              else none)
          else if c == b'+'
          then (if starts_with_digit t then some (clamp (digits 0 t)) else none)
          else if starts_with_digit (c ∷ t)
          then some (clamp (digits 0 (c ∷ t)))
          else none
    ]

-- printf("%llu", n): the decimal digits
unfoldable pub decimal_fuel : ℕ → ℕ → Bytes → Bytes
decimal_fuel zero n s = s
decimal_fuel (suc f) n s =
    let t = (b'0' + n % 10) ∷ s in
    let more = decimal_fuel f (n / 10) t in if ltb n 10 then t else more

-- A number of 64 bits has at most 20 digits.
unfoldable pub decimal : ℕ → Bytes
unfolding decimal_fuel
decimal n = decimal_fuel 20 n []

length-decimal_fuel_le : (f n : ℕ) (s : Bytes) → length (decimal_fuel f n s) ≤ f + length s
unfolding decimal_fuel
length-decimal_fuel_le zero n s = omega arith
length-decimal_fuel_le (suc f) n s = elim (Bool-cases (ltb n 10)) [
  | inl y ↦ rw y (omega arith)
  | inr m ↦ rw m (omega (arith, length-decimal_fuel_le f (n / 10) ((b'0' + n % 10) ∷ s)))
]

pub length-decimal_le : (n : ℕ) → length (decimal n) ≤ 20
unfolding decimal
length-decimal_le n = omega (arith, length-decimal_fuel_le 20 n [])
