-- ===== src/Orchestrator/IntentClient/Request.antt =====
-- The client's request, as the intent classifier reads it.
use khazar_os.Common.{
  ℕ, zero, suc, ◌+◌, ◌≤◌, ◌≡◌, refl, ap, false, [], ◌∷◌, ◌++◌, arith, ◌==◌, length,
}
use khazar_os.CString.{Bytes, lit, has_prefix, strstr, is_some, strchr}
use khazar_os.CString.Quoted.{NoQuote, NoQuote-is_quote_free, strstr_member}
use khazar_os.IntentClassifier.Protocol.{
  cmsg_classify, protocol_parse_type, copy_value, protocol_parse_classify, escape_quotes,
}
use khazar_os.Orchestrator.IntentClient.{classify_request}

-- No byte of the text is a quote or a backslash.
abbrev pub IsPlain : Bytes → Type 0
IsPlain [] = Unit
IsPlain (c ∷ s) = (((c == b'"') ≡ false) × ((c == b'\\') ≡ false)) × IsPlain s

pub IsPlain-NoQuote : (s : Bytes) → IsPlain s → NoQuote s
IsPlain-NoQuote [] h = tt
IsPlain-NoQuote (c ∷ s) h = (h.0.0, IsPlain-NoQuote s h.1)

copy_value-plain :
    (n : ℕ) (v s : Bytes) → IsPlain v → length v ≤ n → copy_value n (v ++ b'"' ∷ s) ≡ v
unfolding copy_value
copy_value-plain zero [] s h l = refl
copy_value-plain zero (c ∷ v) s h l = absurd (omega (arith, l))
copy_value-plain (suc n) [] [] h l = refl
copy_value-plain (suc n) [] (d ∷ s) h l = refl
copy_value-plain (suc n) (c ∷ []) s h l =
    ground (arith, h.0.0, h.0.1, copy_value-plain n [] s tt (omega arith))
copy_value-plain (suc n) (c ∷ d ∷ v) s h l =
    ground (arith, h.0.0, h.0.1, copy_value-plain n (d ∷ v) s h.1 (omega (arith, l)))

pub escape_quotes-plain :
    (bound ei : ℕ) (v : Bytes) → IsPlain v → ei + length v ≤ bound → escape_quotes bound ei v ≡ v
unfolding escape_quotes
escape_quotes-plain bound ei [] h l = refl
escape_quotes-plain bound ei (c ∷ v) h l =
    ground (arith, h.0.0, h.0.1, escape_quotes-plain bound (ei + 1) v h.1 (omega (arith, l)))

type_NoQuote : NoQuote (lit "type")
type_NoQuote = NoQuote-is_quote_free (lit "type") refl

module _ (query : Bytes) (h : IsPlain query) where
  no_other_type :
      (p : Bytes)
      → strstr (b'"' ∷ (query ++ b'"' ∷ b'}' ∷ [])) (b'"' ∷ (lit "type" ++ b'"' ∷ b':' ∷ p))
        ≡ strstr (b'"' ∷ b'}' ∷ []) (b'"' ∷ (lit "type" ++ b'"' ∷ b':' ∷ p))
  no_other_type p =
      strstr_member (lit "type") query p [] b'}' b':' type_NoQuote (IsPlain-NoQuote query h) refl

  pub parse_type-classify_request : protocol_parse_type (classify_request query) ≡ cmsg_classify
  unfolding protocol_parse_type classify_request strstr has_prefix is_some
  parse_type-classify_request =
      rw
        (
          no_other_type (lit "\"ping\""),
          no_other_type (lit "\"version\""),
          no_other_type (lit "\"reload\""),
        )
        refl

  pub parse-classify_request :
      length query ≤ 2047
      → protocol_parse_classify (classify_request query) ≡ record { id = 1; query = query }
  unfolding protocol_parse_classify classify_request strstr has_prefix strchr
  parse-classify_request l =
      ap (λ q. record { id = 1; query = q }) (copy_value-plain 2047 query (b'}' ∷ []) h l)
