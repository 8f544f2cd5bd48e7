-- ===== src/Sdk/Agent/Registration.antt =====
-- An agent registers with the orchestrator (khazar/sdk/agent/agent.c and the response of
-- khazar/components/orchestrator/protocol/protocol.c).
use khazar_os.Common.{
  ℕ, ◌≤◌, ◌≡◌, refl, sym, ap, ◌∙◌, Bool, true, ◌||◌, some, [], ◌∷◌, ◌++◌, arith, length, take, drop,
  length-append,
}
use khazar_os.CString.{Bytes, lit, contains}
use khazar_os.Orchestrator.Message.{Response, Status, success, error}
use khazar_os.Sdk.Agent.{
  state_registering, state_registered, IpcClient, ipc_client_connect, ipc_client_recv, Agent,
  Environment, registration, accepts, on_answer, agent_register,
}
use khazar_os.CString.Lines.{decimal, length-decimal_le}
use khazar_os.CString.Laws.{contains-take}
use mathlib.Core.List.{append_assoc}
use khazar_os.Orchestrator.Message.{status_str}
use khazar_os.Orchestrator.Message as Message

abbrev text : Bytes → Bytes → Bytes → Bytes
text id status payload =
    lit "{\"id\":"
    ++ (id
        ++ (lit ",\"status\":\""
            ++ (status ++ (lit "\",\"payload\":{\"message\":\"" ++ (payload ++ lit "\"}}")))))

contains-accepts : (s : Bytes) → contains s (lit "\"status\":\"success\"") ≡ true → accepts s ≡ true
contains-accepts s h = ap (λ b. b || contains s (lit "\"status\": \"success\"")) h

accepts-text :
    (id payload : Bytes)
    → length id ≤ 20
    → accepts (take 4095 (text id (lit "success") payload)) ≡ true
accepts-text id payload h =
    let rest : Bytes = lit ",\"payload\":{\"message\":\"" ++ (payload ++ lit "\"}}") in
    let status : Bytes = lit "\"status\":\"success\"" in
    let front : Bytes = lit "{\"id\":" ++ (id ++ b',' ∷ []) in
    let same : front ++ (status ++ rest) ≡ text id (lit "success") payload =
      ap (λ s. lit "{\"id\":" ++ s) (append_assoc id (b',' ∷ []) (status ++ rest)) in
    let found =
      contains-take 4095 front status rest (omega (arith, h, length-append id (b',' ∷ []))) in
    ap (λ t. accepts (take 4095 t)) (sym same)
    ∙ contains-accepts (take 4095 (front ++ (status ++ rest))) found

accepts-build_response :
    (resp : Response)
    → resp.status ≡ success
    → accepts (take 4095 (Message.protocol_build_response resp)) ≡ true
unfolding Message.protocol_build_response status_str
accepts-build_response resp e =
    ap (λ st. accepts (take 4095 (text (decimal resp.id) (status_str st) resp.payload))) e
    ∙ accepts-text (decimal resp.id) resp.payload (length-decimal_le resp.id)

answered : Environment → Agent → Agent × Bool
answered env a =
    let client = ipc_client_connect a.orch_client true in
    on_answer (record a { state = state_registering; orch_client = client })
      (ipc_client_recv client (env.answers (registration a.config)))

agent_register-answered :
    (env : Environment) (a : Agent)
    → env.connects ≡ true
    → env.sends (registration a.config) ≡ true
    → agent_register env a ≡ answered env a
unfolding agent_register answered
agent_register-answered env a c s = rw (c, s) refl

on_answer-accepts :
    (a : Agent) (client : IpcClient) (c : ℕ) (answer : Bytes)
    → client.has_fd ≡ true
    → accepts (c ∷ answer) ≡ true
    → ((on_answer a (ipc_client_recv client (some (c ∷ answer)))).1 ≡ true)
      × ((on_answer a (ipc_client_recv client (some (c ∷ answer)))).0.state ≡ state_registered)
unfolding on_answer ipc_client_recv
on_answer-accepts a client c answer h e = ground (arith, h, e)

build_response-head :
    (resp : Response) → (s : Bytes) × (take 4095 (Message.protocol_build_response resp) ≡ b'{' ∷ s)
unfolding Message.protocol_build_response
build_response-head resp = (drop 1 (take 4095 (Message.protocol_build_response resp)), refl)

abbrev pub Confirmed : Agent × Bool → Type 0
Confirmed r = (r.1 ≡ true) × (r.0.state ≡ state_registered)

answered-Confirmed :
    (env : Environment) (a : Agent) (c : ℕ) (answer : Bytes)
    → env.answers (registration a.config) ≡ some (c ∷ answer)
    → accepts (c ∷ answer) ≡ true
    → Confirmed (answered env a)
unfolding answered
answered-Confirmed env a c answer e h =
    let client = ipc_client_connect a.orch_client true in
    rw e (
      on_answer-accepts (record a { state = state_registering; orch_client = client }) client c
        answer refl h)

-- A registration that the orchestrator answers with a response of success, of which the agent reads at
-- most 4095 bytes, succeeds: the agent is registered and the call returns 0, if the connection is made
-- and the message is sent, and no heartbeat thread touches the connection during the call.
pub agent_register-success :
    (env : Environment) (a : Agent) (resp : Response)
    → env.connects ≡ true
    → env.sends (registration a.config) ≡ true
    → env.answers (registration a.config) ≡ some (take 4095 (Message.protocol_build_response resp))
    → resp.status ≡ success
    → Confirmed (agent_register env a)
agent_register-success env a resp c s r e =
    let (rest, head) = build_response-head resp in
    rw (agent_register-answered env a c s) (
      answered-Confirmed env a b'{' rest (r ∙ ap some head)
        (sym (ap accepts head) ∙ accepts-build_response resp e))
