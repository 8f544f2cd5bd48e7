-- ===== src/Orchestrator/PolicyClient/Request.antt =====
-- The client's request, as the policy engine reads it.
use khazar_os.Common.{
  ℕ, ◌≤◌, ◌≡◌, refl, ap, ◌∙◌, false, Option, none, some, [], ◌∷◌, ◌++◌, arith, length, drop, ◌>>=◌,
  length-append,
}
use khazar_os.CString.{Bytes, lit, str_eq, strncpy, has_prefix, strstr, strchr}
use khazar_os.CString.Lines.{span_not}
use khazar_os.CString.Quoted.{
  NoQuote, NoQuote-is_quote_free, span_not-value, strstr_member, strstr_value,
}
use khazar_os.CString.Laws.{take-all}
use khazar_os.PolicyEngine.Store.{PolicyRequest}
use khazar_os.PolicyEngine.Protocol.{
  parse_id, check_policy, protocol_parse, protocol_parse_policy_check, copy_plain,
}
use khazar_os.Orchestrator.PolicyClient.{check_request}

-- What `copy_plain` does with the place that the search finds.
abbrev copied : ℕ → Option Bytes → Bytes
copied n found = elim (do p ← found; q ← strchr p b':'; v ← strchr q b'"'; some (drop 1 v)) [
  | none ↦ []
  | some s ↦ (span_not b'"' n s).0
]

copy_plain-strstr :
    (raw key : Bytes) (n : ℕ) (found : Option Bytes)
    → strstr raw (b'"' ∷ (key ++ b'"' ∷ [])) ≡ found
    → copy_plain raw key n ≡ copied n found
unfolding copy_plain
copy_plain-strstr raw key n found e = ap (copied n) e

type_NoQuote : NoQuote (lit "type")
type_NoQuote = NoQuote-is_quote_free (lit "type") refl

module _ (agent capability target : Bytes) (qa : NoQuote agent) (qc : NoQuote capability)
    (qt : NoQuote target) where
  abbrev pub behind_capability : Bytes
  behind_capability = lit ",\"target\":\"" ++ (target ++ lit "\"}")

  abbrev pub behind_agent : Bytes
  behind_agent = lit ",\"capability\":\"" ++ (capability ++ b'"' ∷ behind_capability)

  -- Where the message type named by `p` is not the request's own, the search passes every value.
  no_type :
      (p : Bytes)
      → ((r : Bytes)
          → strstr
              (lit "{\"type\":\"policy_check\",\"id\":1,\"agent\":\"" ++ r)
              (lit "\"type\":" ++ p)
            ≡ strstr (b'"' ∷ r) (lit "\"type\":" ++ p))
      → strstr (check_request agent capability target) (lit "\"type\":" ++ p) ≡ none
  unfolding check_request strstr has_prefix
  no_type p first =
      first (agent ++ b'"' ∷ behind_agent)
      ∙ strstr_member (lit "type") agent p _ b',' b':' type_NoQuote qa refl
      ∙ strstr_member (lit "type") capability p _ b',' b':' type_NoQuote qc refl
      ∙ strstr_member (lit "type") target p [] b'}' b':' type_NoQuote qt refl

  pub protocol_parse-check_request :
      protocol_parse (check_request agent capability target) ≡ check_policy
  unfolding protocol_parse strstr has_prefix
  protocol_parse-check_request =
      rw
        (
          no_type (lit "\"ping\"") (λ r. refl),
          no_type (lit "\"version\"") (λ r. refl),
          no_type (lit "\"reload\"") (λ r. refl),
          no_type (lit "\"add_rule\"") (λ r. refl),
        )
        (unfold check_request in refl)

  -- Past the agent, whose value is not the key.
  strstr-agent :
      (key : Bytes)
      → NoQuote key
      → str_eq agent key ≡ false
      → ((r : Bytes)
          → strstr
              (lit "{\"type\":\"policy_check\",\"id\":1,\"agent\":\"" ++ r)
              (b'"' ∷ (key ++ b'"' ∷ []))
            ≡ strstr (b'"' ∷ r) (b'"' ∷ (key ++ b'"' ∷ [])))
      → strstr (check_request agent capability target) (b'"' ∷ (key ++ b'"' ∷ []))
        ≡ strstr (b'"' ∷ behind_agent) (b'"' ∷ (key ++ b'"' ∷ []))
  unfolding check_request
  strstr-agent key qk ne first =
      first (agent ++ b'"' ∷ behind_agent) ∙ strstr_value key agent behind_agent qk qa ne

  copy_plain-agent :
      length agent ≤ 63
      → copy_plain (check_request agent capability target) (lit "agent") 63 ≡ agent
  unfolding copy_plain check_request strstr has_prefix strchr
  copy_plain-agent l = span_not-value 63 agent behind_agent qa l

  copy_plain-capability :
      length capability ≤ 63
      → str_eq agent (lit "capability") ≡ false
      → copy_plain (check_request agent capability target) (lit "capability") 63 ≡ capability
  copy_plain-capability l ne =
      copy_plain-strstr _ (lit "capability") 63 _ (
        strstr-agent (lit "capability") (NoQuote-is_quote_free (lit "capability") refl) ne
          (λ r. unfold strstr has_prefix in refl))
      ∙ (unfold strstr has_prefix strchr in span_not-value 63 capability behind_capability qc l)

  past_capability :
      NoQuote (lit "target")
      → str_eq capability (lit "target") ≡ false
      → strstr (b'"' ∷ behind_agent) (lit "\"target\"")
        ≡ strstr (b'"' ∷ behind_capability) (lit "\"target\"")
  unfolding strstr has_prefix
  past_capability q ne = strstr_value (lit "target") capability behind_capability q qc ne

  copy_plain-target :
      str_eq agent (lit "target") ≡ false
      → str_eq capability (lit "target") ≡ false
      → length target ≤ 127
      → copy_plain (check_request agent capability target) (lit "target") 127 ≡ target
  copy_plain-target ne ne' l =
      let q = NoQuote-is_quote_free (lit "target") refl in
      copy_plain-strstr _ (lit "target") 127 _ (
        strstr-agent (lit "target") q ne (λ r. unfold strstr has_prefix in refl)
        ∙ past_capability q ne')
      ∙ (unfold strstr has_prefix strchr in span_not-value 127 target (b'}' ∷ []) qt l)

  id-check_request : parse_id (check_request agent capability target) ≡ 1
  unfolding parse_id check_request strstr has_prefix strchr
  id-check_request = refl

module _ (agent capability target : Bytes) (qa : NoQuote agent) (qc : NoQuote capability)
    (qt : NoQuote target) (la : length agent ≤ 63) (lc : length capability ≤ 63)
    (lt : length target ≤ 127) where
  abbrev pub request : PolicyRequest
  request = record { id = 1; agent_name = agent; capability = capability; target = target }

  pub check_request-fits :
      strncpy 4095 (check_request agent capability target) ≡ check_request agent capability target
  unfolding check_request
  check_request-fits = take-all 4095 _ (
      omega (
        arith,
        length-append agent (b'"' ∷ behind_agent agent capability target qa qc qt),
        length-append capability (b'"' ∷ behind_capability agent capability target qa qc qt),
        length-append target (lit "\"}"),
      ))

  module _ (ac : str_eq agent (lit "capability") ≡ false) (at : str_eq agent (lit "target") ≡ false)
      (ct : str_eq capability (lit "target") ≡ false) where
    -- The engine reads back the request that the client wrote.
    pub parse-check_request :
        protocol_parse_policy_check (check_request agent capability target) ≡ request
    unfolding protocol_parse_policy_check
    parse-check_request = cc (
      id-check_request agent capability target qa qc qt,
      copy_plain-agent agent capability target qa qc qt la,
      copy_plain-capability agent capability target qa qc qt lc ac,
      copy_plain-target agent capability target qa qc qt at ct lt,
    )
