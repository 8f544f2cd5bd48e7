-- ===== src/Sdk/Json/RoundTrip.antt =====
-- Escaping a text, and reading it back (khazar/sdk/json/json.c).
use khazar_os.Common.{
  ℕ, zero, suc, ◌+◌, ◌-◌, ◌*◌, ◌%◌, ◌^◌, ◌≤◌, ◌<◌, ◌≡◌, refl, ap, ◌∙◌, inl, inr, false, Option,
  some, [], ◌∷◌, ◌++◌, arith, leb, ltb, length, drop, ◌>>=◌, Bool-cases, length-append, ltb→lt,
  lt→ltb,
}
use khazar_os.CString.{Bytes, has_prefix, strstr}
use khazar_os.CString.Laws.{take-all, has_prefix-append}
use mathlib.Core.List.{append_assoc}
use native.Mathlib.Nat.{add-mod_right, mod-eq_of_lt}
use khazar_os.Sdk.Json.{
  skip_whitespace, behind_colon, quoted_key, find_key, unescape_byte, unescape, json_unescape,
  string_at, json_extract_string, escape_byte, escape, json_escape,
}

length-escape_byte_le : (c : ℕ) → (1 ≤ length (escape_byte c)) × (length (escape_byte c) ≤ 2)
unfolding escape_byte
length-escape_byte_le c = ground arith

length-escape_le :
    (bound j : ℕ) (s : Bytes) → j ≤ bound + 1 → j + length (escape bound j s) ≤ bound + 1
unfolding escape
length-escape_le bound j [] h = omega (arith, h)
length-escape_le bound j (c ∷ s) h = elim (Bool-cases (ltb j bound)) [
  | inr n ↦ rw n (omega (arith, h))
  | inl y ↦
      let small = length-escape_byte_le c in
      let less = ltb→lt j bound y in
      let rest =
        length-escape_le bound (j + length (escape_byte c)) s (omega (arith, small.1, less)) in
      rw y (
        omega (
          arith,
          rest,
          length-append (escape_byte c) (escape bound (j + length (escape_byte c)) s),
        ))
]

escape_bound : (n : ℕ) → 2 ≤ n → n < 2 ^ 64 → (n + (2 ^ 64 - 2)) % 2 ^ 64 ≡ n - 2
escape_bound n a b =
    let m = n - 2 in
    let same : n + (2 ^ 64 - 2) ≡ m + 2 ^ 64 = omega (arith, a) in
    rw same (add-mod_right m (2 ^ 64) ∙ mod-eq_of_lt (omega (arith, b)))

json_escape-escape :
    (src : Bytes) (dst_len : ℕ)
    → 2 ≤ dst_len
    → dst_len < 2 ^ 64
    → json_escape src dst_len ≡ some (escape (dst_len - 2) 0 src)
unfolding json_escape
json_escape-escape src dst_len a b = rw (escape_bound dst_len a b) (ground (arith, a))

-- `json_escape` writes no more than its buffer holds, the NUL included, whatever the text, if the buffer
-- has at least 2 bytes and less than 2 ^ 64.
pub json_escape_bound :
    (src : Bytes) (dst_len : ℕ) (out : Bytes)
    → 2 ≤ dst_len
    → dst_len < 2 ^ 64
    → json_escape src dst_len ≡ some out
    → length out + 1 ≤ dst_len
json_escape_bound src dst_len out a b e =
    let bound = length-escape_le (dst_len - 2) 0 src (omega arith) in
    let same : out ≡ escape (dst_len - 2) 0 src =
      ground (arith, e, json_escape-escape src dst_len a b) in
    rw same (omega (arith, bound, a))

-- The escaped form of each byte, in a row.
escape_all : Bytes → Bytes
escape_all [] = []
escape_all (c ∷ s) = escape_byte c ++ escape_all s

escape-escape_all :
    (bound j : ℕ) (s : Bytes) → j + 2 * length s ≤ bound → escape bound j s ≡ escape_all s
unfolding escape escape_all
escape-escape_all bound j [] h = refl
escape-escape_all bound j (c ∷ s) h =
    let small = length-escape_byte_le c in
    let rest = escape-escape_all bound (j + length (escape_byte c)) s (omega (arith, h, small.1)) in
    rw (lt→ltb j bound (omega (arith, h))) (ap (λ t. escape_byte c ++ t) rest)

unescape-escape_byte :
    (n c : ℕ) (s : Bytes) → unescape (suc n) (escape_byte c ++ s) ≡ c ∷ unescape n s
unfolding unescape escape_byte unescape_byte
unescape-escape_byte n c s = ground arith

unescape-escape_all :
    (n : ℕ) (s rest : Bytes) → length s ≤ n → unescape n (escape_all s ++ (b'"' ∷ rest)) ≡ s
unfolding escape_all unescape
unescape-escape_all zero [] rest h = refl
unescape-escape_all (suc n) [] rest h = refl
unescape-escape_all zero (c ∷ s) rest h = absurd (omega (arith, h))
unescape-escape_all (suc n) (c ∷ s) rest h =
    ap (unescape (suc n)) (append_assoc (escape_byte c) (escape_all s) (b'"' ∷ rest))
    ∙ unescape-escape_byte n c (escape_all s ++ (b'"' ∷ rest))
    ∙ ap (λ t. c ∷ t) (unescape-escape_all n s rest (omega (arith, h)))

-- An object whose first member is `key`, with a text for its value.
abbrev pub first_member : Bytes → Bytes → Bytes → Bytes
first_member key value rest =
    b'{' ∷ ((b'"' ∷ (key ++ b'"' ∷ [])) ++ (b':' ∷ b'"' ∷ (value ++ (b'"' ∷ rest))))

drop-append : (p s : Bytes) → drop (length p) (p ++ s) ≡ s
drop-append [] s = refl
drop-append (c ∷ p) s = drop-append p s

abbrev behind : Bytes → Bytes → Option Bytes
behind json q = do p ← strstr json q; behind_colon (skip_whitespace (drop (length q) p))

strstr-second :
    (p s : Bytes) → strstr (b'{' ∷ ((b'"' ∷ p) ++ s)) (b'"' ∷ p) ≡ some ((b'"' ∷ p) ++ s)
unfolding strstr has_prefix
strstr-second p s = rw (has_prefix-append p s) refl

behind-first_member :
    (q text : Bytes)
    → behind (b'{' ∷ ((b'"' ∷ q) ++ (b':' ∷ b'"' ∷ text))) (b'"' ∷ q) ≡ some (b'"' ∷ text)
unfolding behind_colon skip_whitespace
behind-first_member q text =
    let text' : Bytes = b':' ∷ b'"' ∷ text in
    ap (λ found. found >>= (λ p. behind_colon (skip_whitespace (drop (length (b'"' ∷ q)) p))))
      (strstr-second q text')
    ∙ ap (λ p. behind_colon (skip_whitespace p)) (drop-append (b'"' ∷ q) text')

find_key-first_member :
    (key value rest : Bytes)
    → length key ≤ 125
    → find_key (first_member key value rest) key ≡ some (b'"' ∷ (value ++ (b'"' ∷ rest)))
unfolding find_key
find_key-first_member key value rest h =
    let q : Bytes = b'"' ∷ (key ++ b'"' ∷ []) in
    let whole : quoted_key key ≡ q =
      take-all 127 q (omega (arith, h, length-append key (b'"' ∷ []))) in
    ap (behind (first_member key value rest)) whole
    ∙ behind-first_member (key ++ b'"' ∷ []) (value ++ (b'"' ∷ rest))

json_extract_string-found :
    (json key text : Bytes) (out_len : ℕ)
    → 1 ≤ out_len
    → find_key json key ≡ some (b'"' ∷ text)
    → json_extract_string json key out_len ≡ some (unescape (out_len - 1) text)
unfolding json_extract_string string_at json_unescape
json_extract_string-found json key text out_len o e =
    let room : leb out_len 0 ≡ false = ground (arith, o) in rw room (rw e (rw room refl))

-- A text that `json_escape` writes into a buffer of at least twice its length and 2 comes back from
-- `json_extract_string`, if it is the value of the first member of the object, `json_extract_string` has
-- room for the text and its NUL, and the key has at most 125 bytes.
pub json_extract_string-json_escape :
    (key src rest escaped : Bytes) (dst_len out_len : ℕ)
    → length key ≤ 125
    → 2 * length src + 2 ≤ dst_len
    → dst_len < 2 ^ 64
    → length src + 1 ≤ out_len
    → json_escape src dst_len ≡ some escaped
    → json_extract_string (first_member key escaped rest) key out_len ≡ some src
json_extract_string-json_escape key src rest escaped dst_len out_len k l l' o e =
    let same : escaped ≡ escape (dst_len - 2) 0 src =
      ground (arith, e, json_escape-escape src dst_len (omega (arith, l)) l') in
    let all = same ∙ escape-escape_all (dst_len - 2) 0 src (omega (arith, l)) in
    let back = unescape-escape_all (out_len - 1) src rest (omega (arith, o)) in
    json_extract_string-found (first_member key escaped rest) key (escaped ++ (b'"' ∷ rest)) out_len
      (omega (arith, o)) (find_key-first_member key escaped rest k)
    ∙ ap (λ t. some (unescape (out_len - 1) (t ++ (b'"' ∷ rest)))) all
    ∙ ap some back
