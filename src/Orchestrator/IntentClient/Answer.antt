-- ===== src/Orchestrator/IntentClient/Answer.antt =====
-- The classifier's response, as the client reads it.
use khazar_os.Common.{
  ℕ, suc, ◌+◌, ◌-◌, ◌≤◌, ◌≡◌, refl, sym, ap, ◌∙◌, ◌⊎◌, inl, inr, true, false, Option, none, some,
  ◌∷◌, ◌++◌, arith, if◌then◌else◌, length, take, drop, Bool-cases,
}
use khazar_os.CString.{Bytes, lit, str_eq, strncpy, has_prefix, strstr, strchr}
use khazar_os.CString.Laws.{take-append_le}
use khazar_os.CString.Lines.{decimal}
use khazar_os.CString.Quoted.{NoQuote, span_not-value}
use khazar_os.IntentClassifier.Protocol.{
  Classified, escape_quotes, protocol_build_classify_response,
}
use khazar_os.Orchestrator.IntentClient.{quoted, skip_blanks, extract_str, accept, receive}
use khazar_os.Orchestrator.Message.{Intent}
use khazar_os.Orchestrator.IntentClient.Request.{IsPlain, escape_quotes-plain}

-- A quoted value stays whole in a text that is cut behind it.
take-value :
    (n : ℕ) (v s : Bytes)
    → length v + 1 ≤ n
    → take n (v ++ b'"' ∷ s) ≡ v ++ b'"' ∷ take (n - length v - 1) s
take-value n v s l =
    let rest : n - length v ≡ suc (n - length v - 1) = omega (arith, l) in
    take-append_le n v (b'"' ∷ s) (omega (arith, l)) ∙ ap (λ m. v ++ take m (b'"' ∷ s)) rest

take-member :
    (n : ℕ) (p v s : Bytes)
    → length p + length v + 1 ≤ n
    → take n (p ++ (v ++ b'"' ∷ s)) ≡ p ++ (v ++ b'"' ∷ take (n - length p - length v - 1) s)
take-member n p v s l =
    take-append_le n p (v ++ b'"' ∷ s) (omega (arith, l))
    ∙ ap (λ t. p ++ t) (take-value (n - length p) v s (omega (arith, l)))

before_intent : Bytes
before_intent = lit "{\"id\":1,\"type\":\"classify_response\",\"intent\":\""

pub response_of : Bytes → Bytes → Bytes
response_of v rest = before_intent ++ (v ++ b'"' ∷ rest)

response_of-cut :
    (n : ℕ) (v rest : Bytes)
    → length v ≤ 63
    → 200 ≤ n
    → (rest' : Bytes) × (take n (response_of v rest) ≡ response_of v rest')
unfolding response_of
response_of-cut n v rest l m = (
  take (n - length before_intent - length v - 1) rest,
  take-member n before_intent v rest (unfold before_intent in omega (arith, l, m)),
)

intent-response_of :
    (v rest : Bytes)
    → NoQuote v
    → length v ≤ 63
    → extract_str (response_of v rest) (lit "intent") 64 ≡ v
unfolding extract_str strstr has_prefix strchr quoted skip_blanks response_of before_intent
intent-response_of v rest q l = span_not-value 63 v rest q l

pub behind_intent : Classified → Bytes
behind_intent resp =
    lit ",\"target\":\""
    ++ (escape_quotes 254 0 resp.target
        ++ (lit "\",\"confidence\":"
            ++ (resp.confidence
                ++ (lit ",\"fallback\":"
                    ++ ((if resp.fallback then lit "true" else lit "false") ++ lit "}")))))

text_of : ℕ → Bytes → Bytes → Bytes
text_of id intent rest =
    lit "{\"id\":"
    ++ (decimal id
        ++ (lit ",\"type\":\"classify_response\",\"intent\":\"" ++ (intent ++ b'"' ∷ rest)))

text_of-response_of : (v rest : Bytes) → text_of 1 v rest ≡ response_of v rest
unfolding text_of response_of before_intent decimal
text_of-response_of v rest = refl

build-text_of :
    (resp : Classified)
    → protocol_build_classify_response resp
      ≡ text_of resp.id (escape_quotes 126 0 resp.intent) (behind_intent resp)
unfolding protocol_build_classify_response text_of behind_intent
build-text_of resp = refl

pub build-response_of :
    (resp : Classified)
    → resp.id ≡ 1
    → IsPlain resp.intent
    → length resp.intent ≤ 63
    → protocol_build_classify_response resp ≡ response_of resp.intent (behind_intent resp)
build-response_of resp e h l =
    let escaped = escape_quotes-plain 126 0 resp.intent h (omega (arith, l)) in
    build-text_of resp
    ∙ ap (λ id. text_of id (escape_quotes 126 0 resp.intent) (behind_intent resp)) e
    ∙ ap (λ v. text_of 1 v (behind_intent resp)) escaped
    ∙ text_of-response_of resp.intent (behind_intent resp)

abbrev intent_at : Bytes → Intent
intent_at r = record {
  action = extract_str r (lit "action") 64;
  target = extract_str r (lit "target") 128;
  required_capability = extract_str r (lit "intent") 64;
}

receive-cut :
    (c : ℕ) (s r : Bytes)
    → strncpy 65535 (c ∷ s) ≡ r
    → receive (some (c ∷ s)) ≡ accept (intent_at r)
unfolding receive
receive-cut c s r e = ap (λ t. accept (intent_at t)) e

response_of-head : (v rest : Bytes) → (s : Bytes) × (response_of v rest ≡ b'{' ∷ s)
unfolding response_of before_intent
response_of-head v rest = (drop 1 (response_of v rest), refl)

receive-response_of :
    (v rest : Bytes)
    → length v ≤ 63
    → (rest' : Bytes) × (receive (some (response_of v rest))
        ≡ accept (intent_at (response_of v rest')))
receive-response_of v rest l =
    let (s, head) = response_of-head v rest in
    let (rest', cut) = response_of-cut 65535 v rest l (omega arith) in
    (
      rest',
      ap (λ t. receive (some t)) head
          ∙ receive-cut b'{' s (response_of v rest') (ap (take 65535) (sym head) ∙ cut),
    )

-- What the client makes of an intent.
abbrev pub Accepts : Bytes → Option Intent → Type 0
Accepts v o =
    ((str_eq v (lit "unknown") ≡ true) × (o ≡ none))
    ⊎ ((i : Intent) × (str_eq v (lit "unknown") ≡ false)
        × (o ≡ some i)
        × (i.required_capability ≡ v))

accept_cases :
    (i : Intent)
    → 1 ≤ length i.required_capability
    → ((str_eq i.required_capability (lit "unknown") ≡ true) × (accept i ≡ none))
      ⊎ ((str_eq i.required_capability (lit "unknown") ≡ false) × (accept i ≡ some i))
unfolding accept
accept_cases i n = elim (Bool-cases (str_eq i.required_capability (lit "unknown"))) [
  | inl y ↦ inl (y, ground (arith, y, n))
  | inr m ↦ inr (m, ground (arith, m, n))
]

accept-Accepts :
    (i : Intent) (v : Bytes) (o : Option Intent)
    → i.required_capability ≡ v
    → o ≡ accept i
    → 1 ≤ length v
    → Accepts v o
accept-Accepts i v o e a n =
    let known = ap (λ t. str_eq t (lit "unknown")) (sym e) in
    elim (accept_cases i (omega (arith, n, ap length e))) [
      | inl (y, none') ↦ inl (known ∙ y, a ∙ none')
      | inr (m, some') ↦ inr (i, known ∙ m, a ∙ some', e)
    ]

pub receive-Accepts :
    (v rest : Bytes)
    → NoQuote v
    → 1 ≤ length v
    → length v ≤ 63
    → Accepts v (receive (some (response_of v rest)))
receive-Accepts v rest q n l =
    let (rest', e) = receive-response_of v rest l in
    accept-Accepts (intent_at (response_of v rest')) v (receive (some (response_of v rest)))
      (intent-response_of v rest' q l) e n
