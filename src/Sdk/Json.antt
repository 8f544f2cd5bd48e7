-- ===== src/Sdk/Json.antt =====
-- Reading and escaping JSON texts: khazar/sdk/json/json.c. The readers look for a key anywhere in the
-- text. `json_extract_double`, which is `strtod` behind a key, and `json_build_object`, which is
-- `vsnprintf`, are left out.
pub mod RoundTrip
use khazar_os.Common.{
  ℕ, zero, suc, ◌+◌, ◌-◌, ◌*◌, ◌/◌, ◌%◌, ◌^◌, ◌≤◌, ◌<◌, ◌≡◌, refl, sym, ap, ◌∙◌, ◌≢◌, ◌↔◌, ◌⊎◌, inl,
  inr, Bool, true, false, not, ◌&&◌, ◌||◌, Option, none, some, List, [], ◌∷◌, ◌++◌, map, arith, leb,
  ltb, ◌==◌, if◌then◌else◌, length, take, drop, get_or, get_elem?, set, ℤ, pos, negsuc, ltb_ℤ,
  pos_part, neg_part, sub_ℕ, ◌+ℤ◌, ◌≤ℤ◌, ◌<ℤ◌, ◌>>=◌, Bool-cases, Option-cases, length-append,
  length-set, replicate, ltb→lt, lt→ltb,
}
use khazar_os.CString.{
  Bytes, lit, str_eq, strncpy, has_prefix, strstr, is_some, contains, strchr, tolower, isspace,
  skip_spaces,
}
use khazar_os.CString.Lines.{strtoll}

-- while (*p == ' ' || *p == '\t' || *p == '\n' || *p == '\r') p++
unfoldable pub skip_whitespace : Bytes → Bytes
skip_whitespace [] = []
skip_whitespace (c ∷ s) =
    let rest = skip_whitespace s in
    if c == b' ' || c == b'\t' || c == b'\n' || c == b'\r' then rest else c ∷ s

-- if (*p != ':') return NULL, and past it
unfoldable pub behind_colon : Bytes → Option Bytes
unfolding skip_whitespace
behind_colon [] = none
behind_colon (c ∷ s) = if c == b':' then some (skip_whitespace s) else none

abbrev pub quoted_key : Bytes → Bytes
quoted_key key = strncpy 127 (b'"' ∷ (key ++ b'"' ∷ []))

unfoldable pub find_key : Bytes → Bytes → Option Bytes
unfolding strstr skip_whitespace behind_colon
find_key json key = do
  p ← strstr json (quoted_key key)
  behind_colon (skip_whitespace (drop (length (quoted_key key)) p))

-- What a backslash and `c` stand for.
unfoldable pub unescape_byte : ℕ → ℕ
unescape_byte c =
    if c == b'n' then b'\n' else if c == b'r' then b'\r' else if c == b't' then b'\t' else c

-- The loop of `json_unescape`, with room for `n` more.
unfoldable pub unescape : ℕ → Bytes → Bytes
unfolding unescape_byte
unescape zero s = []
unescape (suc n) [] = []
unescape (suc n) (c ∷ s) =
    let plain = unescape n s in
    let escaped : Bytes = elim s [ [] ↦ c ∷ [] | d ∷ t ↦ unescape_byte d ∷ unescape n t ] in
    if c == b'"' then [] else if c == b'\\' then escaped else c ∷ plain

-- `none` where the call returns -1, here and below.
unfoldable pub json_unescape : Bytes → ℕ → Option Bytes
unfolding unescape
json_unescape src dst_len = if leb dst_len 0 then none else some (unescape (dst_len - 1) src)

-- if (*p != '"') return -1
unfoldable pub string_at : ℕ → Bytes → Option Bytes
unfolding json_unescape
string_at out_len [] = none
string_at out_len (c ∷ s) = if c == b'"' then json_unescape s out_len else none

unfoldable pub json_extract_string : Bytes → Bytes → ℕ → Option Bytes
unfolding find_key string_at
json_extract_string json key out_len =
    if leb out_len 0 then none else do p ← find_key json key; string_at out_len p

unfoldable pub json_extract_int : Bytes → Bytes → Option ℤ
unfolding find_key strtoll
json_extract_int json key = do p ← find_key json key; strtoll p

unfoldable pub bool_at : Bytes → Option Bool
unfolding has_prefix
bool_at p =
    if has_prefix (lit "true") p
    then some true
    else if has_prefix (lit "false") p
    then some false
    else none

unfoldable pub json_extract_bool : Bytes → Bytes → Option Bool
unfolding find_key bool_at
json_extract_bool json key = do p ← find_key json key; bool_at p

-- while (*p && *p != '"' && *p != ']') p++
unfoldable pub to_item : Bytes → Bytes
to_item [] = []
to_item (c ∷ s) = let rest = to_item s in if c == b'"' || c == b']' then c ∷ s else rest

-- An item of at most `n` bytes, and where the copy stops: a backslash before another byte is dropped.
unfoldable pub copy_item : ℕ → Bytes → Bytes × Bytes
copy_item zero s = ([], s)
copy_item (suc n) [] = ([], [])
copy_item (suc n) (c ∷ s) =
    let plain = copy_item n s in
    let escaped : Bytes × Bytes = elim s [
      | [] ↦ (c ∷ [], [])
      | d ∷ t ↦ let (a, b) = copy_item n t in (d ∷ a, b)
    ] in
    if c == b'"' then ([], c ∷ s) else if c == b'\\' then escaped else (c ∷ plain.0, plain.1)

-- if (*p == c) p++
unfoldable pub skip_one : ℕ → Bytes → Bytes
skip_one c [] = []
skip_one c (d ∷ s) = if d == c then s else d ∷ s

-- The loop, with room for `n` more items: each round stores one, unless no quote stands before the end
-- or the bracket, and then it is the last.
unfoldable pub array_items : ℕ → Bytes → List Bytes
unfolding skip_whitespace to_item copy_item skip_one
array_items zero p = []
array_items (suc n) p = elim (to_item (skip_whitespace p)) [
  | [] ↦ []
  | c ∷ q ↦
      let (item, rest) = copy_item 63 q in
      let items = array_items n (skip_one b',' (skip_whitespace (skip_one b'"' rest))) in
      if c == b'"' then item ∷ items else []
]

-- if (*p != '[') return -1
unfoldable pub array_at : ℕ → Bytes → Option (List Bytes)
unfolding array_items
array_at max_count [] = none
array_at max_count (c ∷ s) = if c == b'[' then some (array_items max_count s) else none

unfoldable pub json_extract_string_array : Bytes → Bytes → ℕ → Option (List Bytes)
unfolding find_key array_at
json_extract_string_array json key max_count = do p ← find_key json key; array_at max_count p

unfoldable pub json_has_key : Bytes → Bytes → Bool
unfolding strstr is_some
json_has_key json key = contains json (quoted_key key)

unfoldable pub escape_byte : ℕ → Bytes
escape_byte c =
    if c == b'"'
    then b'\\' ∷ b'"' ∷ []
    else if c == b'\\'
    then b'\\' ∷ b'\\' ∷ []
    else if c == b'\n'
    then b'\\' ∷ b'n' ∷ []
    else if c == b'\r'
    then b'\\' ∷ b'r' ∷ []
    else if c == b'\t'
    then b'\\' ∷ b't' ∷ []
    else c ∷ []

-- The loop of `json_escape` while `j < bound`.
unfoldable pub escape : ℕ → ℕ → Bytes → Bytes
unfolding escape_byte
escape bound j [] = []
escape bound j (c ∷ s) =
    let rest = escape bound (j + length (escape_byte c)) s in
    if ltb j bound then escape_byte c ++ rest else []

-- `dst_len - 2` is an unsigned number of 64 bits, which wraps around at 1.
unfoldable pub json_escape : Bytes → ℕ → Option Bytes
unfolding escape
json_escape src dst_len =
    if leb dst_len 0 then none else some (escape ((dst_len + (2 ^ 64 - 2)) % 2 ^ 64) 0 src)
