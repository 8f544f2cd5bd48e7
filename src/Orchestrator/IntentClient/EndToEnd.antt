-- ===== src/Orchestrator/IntentClient/EndToEnd.antt =====
-- The client of the intent classifier with the classifier at the other end of the socket, while the model runtime is away.
use khazar_os.Common.{
  ◌≤◌, ◌≡◌, ap, ◌∙◌, ◌⊎◌, inl, inr, Bool, true, false, Option, none, some, List, [], ◌∷◌, ◌++◌,
  arith, length, length-append,
}
use khazar_os.CString.{Bytes, lit, str_eq, strncpy}
use khazar_os.Common.{All}
use khazar_os.CString.Laws.{take-all, str_eq_refl}
use khazar_os.IntentClassifier.Protocol.{Query, Classified, protocol_build_classify_response}
use khazar_os.IntentClassifier.Keywords.{KeywordRule}
use khazar_os.IntentClassifier.Keywords.Longest.{NoKeyword, IsLongest}
use khazar_os.IntentClassifier.Classify.{inference_request, classify, handle_type, client_handler}
use khazar_os.IntentClassifier.Classify.Fallback.{ByKeyword, classify-ByKeyword, classify-id}
use khazar_os.Orchestrator.Message.{Intent}
use khazar_os.Orchestrator.IntentClient.{classify_request, receive, intent_client_classify}
use khazar_os.Orchestrator.IntentClient.Request.{
  IsPlain, IsPlain-NoQuote, parse_type-classify_request, parse-classify_request,
}
use khazar_os.Orchestrator.IntentClient.Answer.{
  response_of, behind_intent, build-response_of, Accepts, receive-Accepts,
}

-- An intent of a rule that comes through the messages: it has 1 to 63 bytes, none a quote or a backslash, and is not "unknown".
abbrev pub IsSendable : KeywordRule → Type 0
IsSendable k =
    IsPlain k.intent
    × (1 ≤ length k.intent)
    × (length k.intent ≤ 63)
    × (str_eq k.intent (lit "unknown") ≡ false)

-- What the orchestrator gets for a query.
abbrev pub Gets : List KeywordRule → Bytes → Option Intent → Type 0
Gets keywords query o =
    ((o ≡ none) × NoKeyword keywords query)
    ⊎ ((i : Intent) × (k : KeywordRule) × (o ≡ some i)
        × (i.required_capability ≡ k.intent)
        × IsLongest keywords query k)

module _ (atof : Bytes → Option Bytes) (runtime : Bytes → Option Bytes)
    (keywords : List KeywordRule) where
  client_handler-classify_request :
      (query : Bytes)
      → IsPlain query
      → length query ≤ 2047
      → client_handler atof runtime true keywords (classify_request query)
        ≡ protocol_build_classify_response
            (classify atof runtime true keywords record { id = 1; query = query })
  unfolding client_handler
  client_handler-classify_request query h l =
      ap (λ t. handle_type atof runtime true keywords t (classify_request query))
        (parse_type-classify_request query h)
      ∙ (unfold handle_type in
          ap (λ q. protocol_build_classify_response (classify atof runtime true keywords q))
            (parse-classify_request query h l))

IsSendable-middle :
    (before behind : List KeywordRule) (k : KeywordRule)
    → All IsSendable (before ++ k ∷ behind)
    → IsSendable k
IsSendable-middle [] behind k h = h.0
IsSendable-middle (b ∷ before) behind k h = IsSendable-middle before behind k h.1

-- The longest keyword's intent is sendable.
IsSendable-best :
    (keywords : List KeywordRule) (query : Bytes) (k : KeywordRule)
    → All IsSendable keywords
    → IsLongest keywords query k
    → IsSendable k
IsSendable-best keywords query k all b = IsSendable-middle b.before b.behind k (rw b.splits at all)

-- The intent of the response is sendable, or that of no keyword.
response_intent :
    (keywords : List KeywordRule) (query : Bytes) (r : Classified)
    → All IsSendable keywords
    → ByKeyword keywords query r
    → IsPlain r.intent × (1 ≤ length r.intent) × (length r.intent ≤ 63)
response_intent keywords query r all (inl (i, t, low)) = rw i (ground arith)
response_intent keywords query r all (inr (k, i, t, best)) =
    let s = IsSendable-best keywords query k all best in
    let same : r.intent ≡ k.intent = i ∙ take-all 63 k.intent s.2 in rw same (s.0, s.1, s.2)

clash {ℓ} : {A : Type ℓ} (b : Bool) → b ≡ true → b ≡ false → A
clash b y n = absurd (ground (arith, y, n))

by_intent :
    (keywords : List KeywordRule) (query : Bytes) (r : Classified) (o : Option Intent)
    → All IsSendable keywords
    → ByKeyword keywords query r
    → Accepts r.intent o
    → Gets keywords query o
by_intent keywords query r o all (inl (i, t, low)) (inl (y, n)) = inl (n, low)
by_intent keywords query r o all (inl (i, t, low)) (inr (j, m, s, e)) =
    clash (str_eq r.intent (lit "unknown"))
      (ap (λ v. str_eq v (lit "unknown")) i ∙ str_eq_refl (lit "unknown")) m
by_intent keywords query r o all (inr (k, i, t, best)) (inl (y, n)) =
    let s = IsSendable-best keywords query k all best in
    let same : r.intent ≡ k.intent = i ∙ take-all 63 k.intent s.2 in
    clash (str_eq r.intent (lit "unknown")) y (ap (λ v. str_eq v (lit "unknown")) same ∙ s.3)
by_intent keywords query r o all (inr (k, i, t, best)) (inr (j, m, e, c)) =
    let s = IsSendable-best keywords query k all best in
    inr (j, k, e, c ∙ (i ∙ take-all 63 k.intent s.2), best)

Gets-cast :
    (keywords : List KeywordRule) (query : Bytes) (o o' : Option Intent)
    → o ≡ o'
    → Gets keywords query o'
    → Gets keywords query o
Gets-cast keywords query o o' e h = rw e h

classify_request-fits :
    (query : Bytes)
    → length query ≤ 2047
    → strncpy 8191 (classify_request query) ≡ classify_request query
unfolding classify_request
classify_request-fits query l =
    take-all 8191 _ (omega (arith, l, length-append query (b'"' ∷ b'}' ∷ [])))

module _ (atof : Bytes → Option Bytes) (runtime : Bytes → Option Bytes)
    (keywords : List KeywordRule) where
  answered :
      (query : Bytes)
      → IsPlain query
      → length query ≤ 2047
      → runtime (inference_request query) ≡ none
      → All IsSendable keywords
      → Gets keywords query
          (receive (some (client_handler atof runtime true keywords (classify_request query))))
  answered query h l e all =
      let req : Query = record { id = 1; query = query } in
      let r = classify atof runtime true keywords req in
      let by = classify-ByKeyword atof runtime keywords req e in
      let (plain, some_byte, short) = response_intent keywords query r all by in
      let sent =
        client_handler-classify_request atof runtime keywords query h l
        ∙ build-response_of r (classify-id atof runtime keywords req e) plain short in
      let got =
        receive-Accepts r.intent (behind_intent r) (IsPlain-NoQuote r.intent plain) some_byte
          short in
      let o = receive (some (client_handler atof runtime true keywords (classify_request query))) in
      Gets-cast keywords query o (receive (some (response_of r.intent (behind_intent r))))
        (ap (λ t. receive (some t)) sent)
        (by_intent keywords query r (receive (some (response_of r.intent (behind_intent r)))) all by
          got)

  same_answer :
      (query : Bytes)
      → length query ≤ 2047
      → intent_client_classify (λ m. some (client_handler atof runtime true keywords m)) query
        ≡ receive (some (client_handler atof runtime true keywords (classify_request query)))
  unfolding intent_client_classify
  same_answer query l =
      ap (λ m. receive (some (client_handler atof runtime true keywords m)))
        (classify_request-fits query l)

  -- While the model runtime is away, `intent_client_classify`, with the classifier's handler at the other end of the socket, gives the
  -- orchestrator the intent of the first of the longest keywords that stand in the query, and fails if none stands there. The query
  -- has at most 2047 bytes, none a quote or a backslash, the classifier may fall back on its keywords, and each of their rules has an
  -- intent of 1 to 63 bytes without quotes and backslashes that is not "unknown".
  pub intent_client_classify-Gets :
      (query : Bytes)
      → IsPlain query
      → length query ≤ 2047
      → runtime (inference_request query) ≡ none
      → All IsSendable keywords
      → Gets keywords query
          (intent_client_classify (λ m. some (client_handler atof runtime true keywords m)) query)
  intent_client_classify-Gets query h l e all =
      let o = receive (some (client_handler atof runtime true keywords (classify_request query))) in
      Gets-cast keywords query
        (intent_client_classify (λ m. some (client_handler atof runtime true keywords m)) query) o
        (same_answer query l) (answered query h l e all)
