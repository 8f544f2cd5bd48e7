-- ===== src/ModelRuntime/Engine/Text.antt =====
-- The intent classifier reads the text that the model runtime generated
-- (khazar/components/intent-classifier/main.c).
use khazar_os.Common.{
  ℕ, zero, suc, ◌-◌, ◌*◌, ◌≤◌, ◌≡◌, refl, ap, ◌∙◌, inl, inr, true, false, none, some, [], ◌∷◌, ◌++◌,
  arith, ◌==◌, length, Option-cases,
}
use khazar_os.CString.{Bytes, lit, has_prefix, strstr, strchr}
use mathlib.Core.List.{append_assoc}
use khazar_os.CString.Lines.{decimal}
use khazar_os.CString.Quoted.{strstr_skip, NoQuote-decimal}
use khazar_os.ModelRuntime.Protocol.{
  InferenceResponse, escape_of, escape_byte, escape_text, protocol_build_inference_response,
}
use khazar_os.IntentClassifier.Classify.{behind_quote, raw_escape, copy_raw, raw_text}

copy_raw-nil : (n : ℕ) → copy_raw n [] ≡ []
unfolding copy_raw
copy_raw-nil zero = refl
copy_raw-nil (suc n) = refl

-- A byte that needs no escape is copied.
copy_raw-plain :
    (n c : ℕ) (s : Bytes) → escape_of c ≡ none → copy_raw (suc n) (c ∷ s) ≡ c ∷ copy_raw n s
unfolding copy_raw escape_of
copy_raw-plain n c [] e = ground (arith, copy_raw-nil n)
copy_raw-plain n c (d ∷ s) e = ground arith

-- An escape is undone.
copy_raw-escape :
    (n c d : ℕ) (s : Bytes)
    → escape_of c ≡ some d
    → copy_raw (suc n) (b'\\' ∷ d ∷ s) ≡ c ∷ copy_raw n s
unfolding copy_raw escape_of raw_escape
copy_raw-escape n c d s e = ground arith

copy_raw-byte : (n c : ℕ) (s : Bytes) → copy_raw (suc n) (escape_byte c ++ s) ≡ c ∷ copy_raw n s
unfolding escape_byte
copy_raw-byte n c s = elim (Option-cases (escape_of c)) [
  | inl e ↦ rw (e, escape_byte) (copy_raw-plain n c s e)
  | inr (d, e) ↦ rw (e, escape_byte) (copy_raw-escape n c d s e)
]

pub length-escape_byte_le : (c : ℕ) → length (escape_byte c) ≤ 2
unfolding escape_byte escape_of
length-escape_byte_le c = ground arith

escape_text-step :
    (room c : ℕ) (s : Bytes)
    → (room == 0) ≡ false
    → escape_text room (c ∷ s) ≡ escape_byte c ++ escape_text (room - length (escape_byte c)) s
unfolding escape_text
escape_text-step room c s e = rw e refl

copy_raw-escape_text :
    (n room : ℕ) (text rest : Bytes)
    → length text ≤ n
    → 2 * length text ≤ room
    → copy_raw n (escape_text room text ++ b'"' ∷ rest) ≡ text
unfolding escape_text copy_raw
copy_raw-escape_text zero room [] rest l r = refl
copy_raw-escape_text (suc n) room [] [] l r = refl
copy_raw-escape_text (suc n) room [] (d ∷ rest) l r = refl
copy_raw-escape_text zero room (c ∷ text) rest l r = absurd (omega arith)
copy_raw-escape_text (suc n) zero (c ∷ text) rest l r = absurd (omega arith)
copy_raw-escape_text (suc n) (suc room) (c ∷ text) rest l r =
    let left = suc room - length (escape_byte c) in
    let short = length-escape_byte_le c in
    let again =
      copy_raw-escape_text n left text rest (omega arith)
        (omega (arith, length-escape_byte_le c)) in
    ap (λ t. copy_raw (suc n) (t ++ b'"' ∷ rest))
      (escape_text-step (suc room) c text (ground arith))
    ∙ (ap (copy_raw (suc n)) (append_assoc (escape_byte c) (escape_text left text) (b'"' ∷ rest))
        ∙ (copy_raw-byte n c (escape_text left text ++ b'"' ∷ rest) ∙ ap (λ t. c ∷ t) again))

module _ (resp : InferenceResponse) where
  abbrev rest : Bytes
  rest =
      lit ",\"tokens_generated\":"
      ++ (decimal resp.tokens_generated
          ++ (lit ",\"tokens_per_second\":" ++ (resp.tokens_per_second ++ lit "}")))

  behind_quote-text :
      resp.success ≡ true
      → behind_quote (protocol_build_inference_response resp) (lit "\"text\"")
        ≡ some (escape_text 16_382 resp.generated_text ++ b'"' ∷ rest)
  unfolding behind_quote protocol_build_inference_response strstr has_prefix strchr
  behind_quote-text h =
      rw
        (
          h,
          strstr_skip (decimal resp.id)
              (lit ",\"type\":\"inference_response\",\"success\":true,\"text\":\""
                ++ (escape_text 16_382 resp.generated_text ++ b'"' ∷ rest))
              (lit "text\"") (NoQuote-decimal resp.id),
        )
        refl

  -- The text of an answer of the model runtime arrives at the intent classifier as it was generated,
  -- whatever bytes it holds, if it has at most 4095 bytes.
  pub raw_text-build_response :
      resp.success ≡ true
      → length resp.generated_text ≤ 4095
      → raw_text (protocol_build_inference_response resp) ≡ resp.generated_text
  unfolding raw_text
  raw_text-build_response h l =
      rw (behind_quote-text h, raw_text)
        (copy_raw-escape_text 4095 16_382 resp.generated_text rest l (omega (arith, l)))
