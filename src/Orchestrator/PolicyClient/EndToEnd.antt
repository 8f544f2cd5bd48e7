-- ===== src/Orchestrator/PolicyClient/EndToEnd.antt =====
-- The policy client with the policy engine's handler at the other end of the socket.
use khazar_os.Common.{
  ℕ, ◌≤◌, ◌≡◌, refl, ap, ◌∙◌, ◌↔◌, Bool, true, false, Option, some, List, length,
}
use khazar_os.CString.{Bytes, lit, str_eq, strncpy}
use khazar_os.CString.Quoted.{NoQuote}
use khazar_os.PolicyEngine.Store.{allow, PolicyRequest, PolicyResponse, PolicyStore, policy_check}
use khazar_os.PolicyEngine.Load.{File}
use khazar_os.PolicyEngine.Protocol.{
  check_policy, protocol_parse, protocol_parse_policy_check, protocol_build_response,
}
use khazar_os.PolicyEngine.Engine.{client_handler, in_response}
use khazar_os.Orchestrator.PolicyClient.{
  check_request, receive, read_verdict, Verdict, policy_client_check,
}
use khazar_os.Orchestrator.PolicyClient.Request.{
  check_request-fits, protocol_parse-check_request, parse-check_request,
}
use khazar_os.Orchestrator.PolicyClient.Answer.{verdict_iff}
use khazar_os.PolicyEngine.Engine.{handle_type}
use khazar_os.PolicyEngine.Check.{policy_check-IsDecision}

client_handler-check :
    (fnmatch : Bytes → Bytes → Bool) (dir : Option (List File)) (ps : PolicyStore) (raw : Bytes)
    {req : PolicyRequest}
    → protocol_parse raw ≡ check_policy
    → protocol_parse_policy_check raw ≡ req
    → (client_handler fnmatch dir ps raw).1
      ≡ in_response (protocol_build_response (policy_check fnmatch ps req))
unfolding client_handler
client_handler-check fnmatch dir ps raw t p =
    rw (t, handle_type)
      (ap (λ r. in_response (protocol_build_response (policy_check fnmatch ps r))) p)

-- The response is not empty, so the client reads it.
policy_client_check-answer :
    (exchange : Bytes → Option Bytes) (agent capability target : Bytes) (n : ℕ)
    (resp : PolicyResponse)
    → exchange (strncpy 4095 (check_request agent capability target))
      ≡ some (in_response (protocol_build_response resp))
    → policy_client_check exchange agent capability target n
      ≡ some (read_verdict (strncpy 4095 (in_response (protocol_build_response resp))) n)
unfolding policy_client_check
policy_client_check-answer exchange agent capability target n resp e =
    ap (λ o. receive o n) e ∙ (unfold protocol_build_response in refl)

-- A client's check is allowed exactly when the rule store allows it: with the engine's handler at
-- the other end of the socket, `policy_client_check` returns a verdict, and this verdict allows the
-- action if and only if `policy_check` answers `allow` for the same agent, capability and target.
-- The three texts hold no quote and fit the buffers that the engine copies them to, the agent is
-- not named like the keys "capability" and "target", nor the capability like "target".
pub policy_client_check-policy_check :
    (fnmatch : Bytes → Bytes → Bool) (dir : Option (List File)) (ps : PolicyStore)
    → (agent capability target : Bytes) (reason_len : ℕ) → NoQuote agent
    → NoQuote capability
    → NoQuote target
    → length agent ≤ 63
    → length capability ≤ 63
    → length target ≤ 127
    → str_eq agent (lit "capability") ≡ false
    → str_eq agent (lit "target") ≡ false
    → str_eq capability (lit "target") ≡ false
    → (v : Verdict) × (policy_client_check
          (λ m. some (client_handler fnmatch dir ps m).1)
          agent
          capability
          target
          reason_len
        ≡ some v)
      × ((v.allowed ≡ true) ↔ (
          (policy_check fnmatch ps (record {
            id = 1;
            agent_name = agent;
            capability = capability;
            target = target;
          })).action
          ≡ allow))
policy_client_check-policy_check fnmatch dir ps agent capability target n qa qc qt la lc lt ac at
      ct =
    let req : PolicyRequest = record {
      id = 1;
      agent_name = agent;
      capability = capability;
      target = target;
    } in
    let resp = policy_check fnmatch ps req in
    let sent : strncpy 4095 (check_request agent capability target)
        ≡ check_request agent capability target =
      check_request-fits agent capability target qa qc qt la lc lt in
    let answered =
      client_handler-check fnmatch dir ps (check_request agent capability target)
        (protocol_parse-check_request agent capability target qa qc qt)
        (parse-check_request agent capability target qa qc qt la lc lt ac at ct) in
    (
      read_verdict (strncpy 4095 (in_response (protocol_build_response resp))) n,
      policy_client_check-answer _ agent capability target n resp (cc (sent, answered)),
      verdict_iff resp n (policy_check-IsDecision fnmatch req ps).0,
    )
