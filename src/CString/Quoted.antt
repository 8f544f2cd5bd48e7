-- ===== src/CString/Quoted.antt =====
-- Searching a text of quoted values: a value without a quote holds no key.
use khazar_os.Common.{
  ℕ, zero, suc, ◌≤◌, ◌≡◌, refl, Bool, true, false, not, ◌&&◌, [], ◌∷◌, ◌++◌, arith, ◌==◌, length,
  ◌+◌, ◌/◌, ◌%◌, ltb, Bool-cases, inl, inr,
}
use khazar_os.CString.{Bytes, str_eq, has_prefix, strstr, strchr}
use khazar_os.CString.Lines.{span_not, decimal, decimal_fuel}

-- No byte of the text is a quote.
abbrev pub NoQuote : Bytes → Type 0
NoQuote [] = Unit
NoQuote (c ∷ s) = ((c == b'"') ≡ false) × NoQuote s

abbrev pub is_quote_free : Bytes → Bool
is_quote_free [] = true
is_quote_free (c ∷ s) = not (c == b'"') && is_quote_free s

-- For concrete texts, by evaluation.
pub NoQuote-is_quote_free : (v : Bytes) → is_quote_free v ≡ true → NoQuote v
NoQuote-is_quote_free [] h = tt
NoQuote-is_quote_free (c ∷ v) h = (ground arith, NoQuote-is_quote_free v (ground arith))

pub strstr_skip : (v s p : Bytes) → NoQuote v → strstr (v ++ s) (b'"' ∷ p) ≡ strstr s (b'"' ∷ p)
unfolding strstr
strstr_skip [] s p h = refl
strstr_skip (c ∷ v) s p h = ground (arith, strstr_skip v s p h.1)

pub strchr_skip : (v s : Bytes) → NoQuote v → strchr (v ++ s) b'"' ≡ strchr s b'"'
unfolding strchr
strchr_skip [] s h = refl
strchr_skip (c ∷ v) s h = ground (arith, strchr_skip v s h.1)

pub span_not-value :
    (n : ℕ) (v s : Bytes) → NoQuote v → length v ≤ n → (span_not b'"' n (v ++ b'"' ∷ s)).0 ≡ v
unfolding span_not
span_not-value zero [] s h l = refl
span_not-value zero (c ∷ v) s h l = absurd (omega arith)
span_not-value (suc n) [] s h l = refl
span_not-value (suc n) (c ∷ v) s h l = ground (arith, span_not-value n v s h.1 (omega arith))

-- A value that is followed by `c` is not a key that is followed by another byte.
has_prefix-key_ne :
    (w v p s : Bytes) (c d : ℕ)
    → NoQuote w
    → NoQuote v
    → (d == c) ≡ false
    → has_prefix (w ++ b'"' ∷ d ∷ p) (v ++ b'"' ∷ c ∷ s) ≡ false
unfolding has_prefix
has_prefix-key_ne [] [] p s c d hw hv e = ground arith
has_prefix-key_ne [] (y ∷ v) p s c d hw hv e = ground arith
has_prefix-key_ne (x ∷ w) [] p s c d hw hv e = ground arith
has_prefix-key_ne (x ∷ w) (y ∷ v) p s c d hw hv e =
    ground (arith, has_prefix-key_ne w v p s c d hw.1 hv.1 e)

-- A value other than `key` is not the quoted key.
has_prefix-value_ne :
    (w v s : Bytes)
    → NoQuote w
    → NoQuote v
    → str_eq v w ≡ false
    → has_prefix (w ++ b'"' ∷ []) (v ++ b'"' ∷ s) ≡ false
unfolding has_prefix str_eq
has_prefix-value_ne [] [] s hw hv e = absurd (cc)
has_prefix-value_ne [] (y ∷ v) s hw hv e = ground arith
has_prefix-value_ne (x ∷ w) [] s hw hv e = ground arith
has_prefix-value_ne (x ∷ w) (y ∷ v) s hw hv e = ground (arith, has_prefix-value_ne w v s hw.1 hv.1)

-- Past a quoted value, whose closing quote `c` follows, to its closing quote.
pub strstr_member :
    (w v p s : Bytes) (c d : ℕ)
    → NoQuote w
    → NoQuote v
    → (d == c) ≡ false
    → strstr (b'"' ∷ (v ++ b'"' ∷ c ∷ s)) (b'"' ∷ (w ++ b'"' ∷ d ∷ p))
      ≡ strstr (b'"' ∷ c ∷ s) (b'"' ∷ (w ++ b'"' ∷ d ∷ p))
unfolding strstr has_prefix
strstr_member w v p s c d hw hv e = ground (
  arith,
  has_prefix-key_ne w v p s c d hw hv e,
  strstr_skip v (b'"' ∷ c ∷ s) (w ++ b'"' ∷ d ∷ p) hv,
)

pub strstr_value :
    (w v s : Bytes)
    → NoQuote w
    → NoQuote v
    → str_eq v w ≡ false
    → strstr (b'"' ∷ (v ++ b'"' ∷ s)) (b'"' ∷ (w ++ b'"' ∷ []))
      ≡ strstr (b'"' ∷ s) (b'"' ∷ (w ++ b'"' ∷ []))
unfolding strstr has_prefix
strstr_value w v s hw hv e =
    ground (arith, has_prefix-value_ne w v s hw hv e, strstr_skip v (b'"' ∷ s) (w ++ b'"' ∷ []) hv)

NoQuote-decimal_fuel : (f n : ℕ) (s : Bytes) → NoQuote s → NoQuote (decimal_fuel f n s)
unfolding decimal_fuel
NoQuote-decimal_fuel zero n s h = h
NoQuote-decimal_fuel (suc f) n s h =
    let digit : ((b'0' + n % 10) == b'"') ≡ false = ground arith in
    elim (Bool-cases (ltb n 10)) [
      | inl y ↦ rw y (digit, h)
      | inr m ↦ rw m (NoQuote-decimal_fuel f (n / 10) ((b'0' + n % 10) ∷ s) (digit, h))
    ]

pub NoQuote-decimal : (n : ℕ) → NoQuote (decimal n)
unfolding decimal
NoQuote-decimal n = NoQuote-decimal_fuel 20 n [] tt
