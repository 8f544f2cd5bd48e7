-- ===== src/ModelRuntime/Engine/EndToEnd.antt =====
-- The intent classifier and the model runtime together (khazar/components/intent-classifier/main.c and
-- khazar/components/model-runtime/main.c).
use khazar_os.Common.{
  ℕ, ◌-◌, ◌*◌, ◌≤◌, ◌≡◌, refl, sym, ap, ◌∙◌, inl, inr, Bool, true, false, Option, none, some, [],
  ◌∷◌, ◌++◌, arith, ◌==◌, if◌then◌else◌, length, take, drop, Bool-cases, length-append,
}
use khazar_os.CString.{Bytes, lit, has_prefix, strstr, strchr}
use khazar_os.CString.Laws.{take-all}
use khazar_os.CString.Lines.{decimal, span_not, length-decimal_le}
use khazar_os.CString.Quoted.{NoQuote, strstr_member, span_not-value, NoQuote-is_quote_free}
use khazar_os.ModelRuntime.Protocol.{
  rmsg_inference, InferenceRequest, InferenceResponse, protocol_parse_type, extract_str, quoted_at,
  skip_blanks, or_default, protocol_parse_inference, protocol_build_inference_response, escape_text,
  escape_byte,
}
use khazar_os.ModelRuntime.Inference.{
  InferenceEngine, model_state_loaded, inference_backend_mock, Template, best_template, generated,
  mock_generate, inference_generate, generate_in, generate_with,
}
use khazar_os.ModelRuntime.Engine.{client_handler}
use khazar_os.ModelRuntime.Engine.Templates.{
  IsTemplate, member-intent, member-target, generated_bound, best_template-IsTemplate,
}
use khazar_os.ModelRuntime.Engine.Text.{raw_text-build_response, length-escape_byte_le}
use khazar_os.IntentClassifier.Protocol.{Classified}
use khazar_os.IntentClassifier.Classify.{
  inference_request, classify_with_runtime, on_runtime_answer, parse_llm_response, member_or,
  behind_quote, raw_text, text_or,
}

abbrev pub prompt_of : Bytes → Bytes
prompt_of query =
    lit "Classify this command: " ++ (query ++ lit ". Output JSON with intent, target, action.")

abbrev pub request_of : Bytes → Bytes
request_of query =
    lit "{\"type\":\"inference\",\"prompt\":\"" ++ (prompt_of query ++ lit "\",\"max_tokens\":128}")

request-whole : (query : Bytes) → length query ≤ 3900 → inference_request query ≡ request_of query
unfolding inference_request
request-whole query l =
    let short : length (prompt_of query) ≤ 4095 =
      omega (arith, length-append query (lit ". Output JSON with intent, target, action.")) in
    let fits : length (request_of query) ≤ 4095 = omega (
      arith,
      length-append (prompt_of query) (lit "\",\"max_tokens\":128}"),
      length-append query (lit ". Output JSON with intent, target, action."),
    ) in
    ap
      (λ p.
        take 4095
          (lit "{\"type\":\"inference\",\"prompt\":\"" ++ (p ++ lit "\",\"max_tokens\":128}")))
      (take-all 4095 (prompt_of query) short)
    ∙ take-all 4095 (request_of query) fits

NoQuote-append : (a b : Bytes) → NoQuote a → NoQuote b → NoQuote (a ++ b)
NoQuote-append [] b h k = k
NoQuote-append (c ∷ a) b (p, h) k = (p, NoQuote-append a b h k)

NoQuote-prompt : (query : Bytes) → NoQuote query → NoQuote (prompt_of query)
NoQuote-prompt query h =
    NoQuote-append (lit "Classify this command: ") _
      (NoQuote-is_quote_free (lit "Classify this command: ") refl)
      (NoQuote-append query _ h
        (NoQuote-is_quote_free (lit ". Output JSON with intent, target, action.") refl))

module _ (p : Bytes) (free : NoQuote p) where
  abbrev message : Bytes
  message = lit "{\"type\":\"inference\",\"prompt\":\"" ++ (p ++ lit "\",\"max_tokens\":128}")

  no_type :
      (w : Bytes)
      → ((s : Bytes) → has_prefix (w ++ b'"' ∷ []) (lit "inference\",\"prompt\":\"" ++ s) ≡ false)
      → strstr message (lit "\"type\":\"" ++ (w ++ b'"' ∷ [])) ≡ none
  unfolding strstr has_prefix
  no_type w f = rw (f (p ++ lit "\",\"max_tokens\":128}")) (
      strstr_member (lit "type") p (b'"' ∷ (w ++ b'"' ∷ [])) (lit "\"max_tokens\":128}") b',' b':'
        (NoQuote-is_quote_free (lit "type") refl) free refl)

  parse_type-message : protocol_parse_type message ≡ rmsg_inference
  unfolding protocol_parse_type
  parse_type-message =
      rw
        (
          no_type (lit "ping") (λ s. refl),
          no_type (lit "version") (λ s. refl),
          no_type (lit "load_model") (λ s. refl),
          no_type (lit "unload_model") (λ s. refl),
          no_type (lit "status") (λ s. refl),
        )
        refl

  prompt-message : length p ≤ 4095 → (protocol_parse_inference message).prompt ≡ p
  unfolding protocol_parse_inference extract_str strstr has_prefix strchr skip_blanks quoted_at
      or_default
  prompt-message l = span_not-value 4095 p (lit ",\"max_tokens\":128}") free l

-- What the classifier is to report for the template that the runtime chose.
abbrev pub Names : Option Template → Classified → Classified → Type 0
Names (some t) old r = (r.intent ≡ t.intent_str) × (r.target ≡ t.target_str) × (r.fallback ≡ false)
Names none old r = (r.intent ≡ lit "unknown") × (r.target ≡ old.target) × (r.fallback ≡ false)

text_or-generated : (o : Option Template) (r : Bytes) → text_or (generated o) r ≡ generated o
unfolding text_or generated
text_or-generated none r = refl
text_or-generated (some t) r = refl

length-escape_text_le : (room : ℕ) (s : Bytes) → length (escape_text room s) ≤ 2 * length s
unfolding escape_text
length-escape_text_le room [] = omega arith
length-escape_text_le room (c ∷ s) = elim (Bool-cases (room == 0)) [
  | inl y ↦ rw y (omega arith)
  | inr n ↦ rw n (
      omega (
        arith,
        length-append (escape_byte c) (escape_text (room - length (escape_byte c)) s),
        length-escape_byte_le c,
        length-escape_text_le (room - length (escape_byte c)) s,
      ))
]

response_bound :
    (r : InferenceResponse)
    → r.success ≡ true
    → length r.generated_text ≤ 4095
    → length r.tokens_per_second ≤ 10
    → length (protocol_build_inference_response r) ≤ 65_535
unfolding protocol_build_inference_response
response_bound r h l k =
    let tail : Bytes = lit ",\"tokens_per_second\":" ++ (r.tokens_per_second ++ lit "}") in
    let number : Bytes = lit "\",\"tokens_generated\":" ++ (decimal r.tokens_generated ++ tail) in
    let text : Bytes = escape_text 16_382 r.generated_text in
    rw h (
      omega (
        arith,
        l,
        k,
        length-decimal_le r.id,
        length-decimal_le r.tokens_generated,
        length-escape_text_le 16_382 r.generated_text,
        length-append (decimal r.id) (
            lit ",\"type\":\"inference_response\",\"success\":true,\"text\":\""
            ++ (text ++ number)),
        length-append text number,
        length-append (decimal r.tokens_generated) tail,
        length-append r.tokens_per_second (lit "}"),
      ))

response_head :
    (r : InferenceResponse) → (s : Bytes) × (protocol_build_inference_response r ≡ b'{' ∷ s)
unfolding protocol_build_inference_response
response_head r = (drop 1 (protocol_build_inference_response r), head r.success _ _)
  where
    head :
        (b : Bool) (x y : Bytes)
        → (if b then b'{' ∷ x else b'{' ∷ y) ≡ b'{' ∷ drop 1 (if b then b'{' ∷ x else b'{' ∷ y)
    head true x y = refl
    head false x y = refl

module _ (atof : Bytes → Option Bytes) (runtime : Bytes → Option Bytes) (resp : Classified) where
  parse-Names :
      (o : Option Template)
      → ((t : Template) → o ≡ some t → IsTemplate t)
      → (old : Classified) → old.target ≡ resp.target
      → old.fallback ≡ false
      → Names o resp (parse_llm_response atof runtime (generated o) old)
  unfolding parse_llm_response member_or behind_quote generated strstr has_prefix strchr span_not
  parse-Names none f old e g = (refl, e, g)
  parse-Names (some t) f old e g =
      (member-intent t (f t refl) old.intent, member-target t (f t refl) old.target, g)

  answer-Names :
      (o : Option Template)
      → ((t : Template) → o ≡ some t → IsTemplate t)
      → (r : Bytes) → raw_text r ≡ generated o
      → Names o resp (on_runtime_answer atof runtime r resp)
  unfolding on_runtime_answer
  answer-Names o f r e =
      rw (e, text_or-generated o r)
        (parse-Names o f (record resp { raw_output = generated o; fallback = false }) refl refl)

  classify-Names :
      (o : Option Template)
      → ((t : Template) → o ≡ some t → IsTemplate t)
      → (query : Bytes) (c : ℕ) (s : Bytes) → runtime (inference_request query) ≡ some (c ∷ s)
      → length (c ∷ s) ≤ 65_535
      → raw_text (c ∷ s) ≡ generated o
      → Names o resp (classify_with_runtime atof runtime query resp)
  unfolding classify_with_runtime
  classify-Names o f query c s e l h =
      rw (e, classify_with_runtime)
        (answer-Names o f (take 65_535 (c ∷ s)) (ap raw_text (take-all 65_535 (c ∷ s) l) ∙ h))

generated-whole :
    (o : Option Template)
    → ((t : Template) → o ≡ some t → IsTemplate t)
    → length (generated o) ≤ 4095
unfolding generated
generated-whole none f = omega arith
generated-whole (some t) f = generated_bound t (f t refl)

handler-inference :
    (now : ℕ) (eng : InferenceEngine) (raw : Bytes)
    → protocol_parse_type raw ≡ rmsg_inference
    → (client_handler now eng raw).1
      ≡ protocol_build_inference_response (inference_generate eng (protocol_parse_inference raw)).0
unfolding client_handler
handler-inference now eng raw e = rw (e, client_handler) refl

generate-loaded :
    (eng : InferenceEngine) (req : InferenceRequest)
    → eng.state ≡ model_state_loaded
    → eng.backend ≡ inference_backend_mock
    → (inference_generate eng req).0 ≡ mock_generate req
generate-loaded eng req s m =
    unfold inference_generate in
    ap (λ t. (generate_in t eng.backend req).0) s
    ∙ (unfold generate_in in ap (λ b. (generate_with b req).0) m ∙ (unfold generate_with in refl))

mock-text :
    (req : InferenceRequest)
    → ((mock_generate req).success ≡ true)
      × (length (mock_generate req).tokens_per_second ≤ 10)
      × ((mock_generate req).generated_text ≡ take 8191 (generated (best_template req.prompt)))
unfolding mock_generate
mock-text req = (refl, omega arith, refl)

answer-text :
    (req : InferenceRequest) (o : Option Template)
    → best_template req.prompt ≡ o
    → ((t : Template) → o ≡ some t → IsTemplate t)
    → (mock_generate req).generated_text ≡ generated o
answer-text req o e f =
    (mock-text req).2
    ∙ (ap (λ b. take 8191 (generated b)) e
        ∙ take-all 8191 (generated o) (omega (arith, generated-whole o f)))

module _ (atof : Bytes → Option Bytes) (now : ℕ) (eng : InferenceEngine) (resp : Classified) where
  abbrev pub runtime : Bytes → Option Bytes
  runtime raw = some (client_handler now eng raw).1

  answered-Names :
      (query : Bytes) (req : InferenceRequest) (o : Option Template)
      → best_template req.prompt ≡ o
      → ((t : Template) → o ≡ some t → IsTemplate t)
      → (client_handler now eng (inference_request query)).1
        ≡ protocol_build_inference_response (mock_generate req)
      → Names o resp (classify_with_runtime atof runtime query resp)
  answered-Names query req o e f a =
      let r = mock_generate req in
      let (ok, speed, _) = mock-text req in
      let text = answer-text req o e f in
      let short : length r.generated_text ≤ 4095 =
        omega (arith, ap length text, generated-whole o f) in
      let (s, head) = response_head r in
      classify-Names atof runtime resp o f query b'{' s (ap some (a ∙ head))
        (omega (arith, ap length head, response_bound r ok short speed))
        (ap raw_text (sym head) ∙ (raw_text-build_response r ok short ∙ text))

  -- With a runtime that has its model loaded, the classifier reports for a query without quotes of at most
  -- 3900 bytes the intent and the target of the template that fits the prompt best, and the intent "unknown"
  -- where none fits; in both cases the answer counts as one of the model.
  pub classify_with_runtime-Names :
      (query : Bytes)
      → eng.state ≡ model_state_loaded
      → eng.backend ≡ inference_backend_mock
      → NoQuote query
      → length query ≤ 3900
      → Names (best_template (prompt_of query)) resp (classify_with_runtime atof runtime query resp)
  classify_with_runtime-Names query s m free l =
      let p = prompt_of query in
      let free' = NoQuote-prompt query free in
      let req = protocol_parse_inference (request_of query) in
      let short : length p ≤ 4095 =
        omega (arith, length-append query (lit ". Output JSON with intent, target, action.")) in
      answered-Names query req (best_template p) (ap best_template (prompt-message p free' short))
        (λ t e. best_template-IsTemplate p t e)
        (ap (λ raw. (client_handler now eng raw).1) (request-whole query l)
          ∙ (handler-inference now eng (request_of query) (parse_type-message p free')
              ∙ ap protocol_build_inference_response (generate-loaded eng req s m)))
