-- ===== src/Orchestrator/Handler/Policy.antt =====
-- When the orchestrator hands a request to the client of the agents.
use khazar_os.Common.{
  ◌≤◌, ◌≡◌, ap, ◌∙◌, inl, inr, Bool, true, false, Option, none, some, List, arith, length,
  Option-cases,
}
use khazar_os.CString.{Bytes, lit, str_eq}
use khazar_os.CString.Quoted.{NoQuote}
use khazar_os.PolicyEngine.Store.{PolicyStore, allow, policy_check}
use khazar_os.PolicyEngine.Load.{File}
use khazar_os.PolicyEngine.Engine.{client_handler}
use khazar_os.Orchestrator.Agent.{AgentInfo}
use khazar_os.Orchestrator.Registry.{Registry, registry_find_by_capability}
use khazar_os.Orchestrator.Message.{Request, error, policy_denied, Intent}
use khazar_os.Orchestrator.PolicyClient.{Verdict, policy_client_check}
use khazar_os.Orchestrator.PolicyClient.EndToEnd.{policy_client_check-policy_check}
use khazar_os.Orchestrator.AgentClient.{Exchange}
use khazar_os.Orchestrator.Handler.{
  World, resolve, dispatch, judge, policy_verdict, route, on_request,
}

-- The policy client allows the task, or gives no verdict.
abbrev pub IsPermitted : Option Verdict → Type 0
IsPermitted none = Unit
IsPermitted (some v) = v.allowed ≡ true

-- The request may be dispatched to `agent` for `intent`.
pub record MayGo (w : World) (reg : Registry) (req : Request) (agent : AgentInfo) (intent : Intent)
    : Type 0 where
  pub resolved : resolve w req ≡ some intent
  pub found : registry_find_by_capability reg intent.required_capability ≡ some agent
  pub permitted : IsPermitted (policy_verdict w agent intent)

module _ (w : World) (req : Request) where
  judge-task :
      (a : AgentInfo) (v : Option Verdict) {b : AgentInfo} {r : Request}
      → (judge w req a v).task ≡ some (b, r)
      → IsPermitted v × (a ≡ b) × (req ≡ r)
  unfolding judge dispatch
  judge-task a none e = ground arith
  judge-task a (some v) e = ground arith

  judge-sends :
      (exchange : Bytes → Bytes → Exchange) (a : AgentInfo) (v : Option Verdict)
      → w.agent_client ≡ some exchange
      → IsPermitted v
      → (judge w req a v).task ≡ some (a, req)
  unfolding judge dispatch
  judge-sends exchange a none e p = ground arith
  judge-sends exchange a (some v) e p = ground arith

  -- A request is handed to the client of the agents only for the agent found for its intent, and only
  -- if the policy client gave no verdict or allowed it.
  pub on_request-task :
      (reg : Registry) (agent : AgentInfo) (r : Request)
      → (on_request w reg req).task ≡ some (agent, r)
      → (req ≡ r) × ((intent : Intent) × MayGo w reg req agent intent)
  unfolding on_request
  on_request-task reg agent r e = elim (Option-cases (resolve w req)) [
    | inl n ↦ absurd (ground arith)
    | inr (intent, f) ↦
        elim (Option-cases (registry_find_by_capability reg intent.required_capability)) [
          | inl n ↦ absurd (unfold route in ground arith)
          | inr (a, g) ↦
              let sent : (judge w req a (policy_verdict w a intent)).task ≡ some (agent, r) =
                unfold route in ground arith in
              let (p, x, y) = judge-task a (policy_verdict w a intent) sent in
              (y, (intent, record { resolved = f; found = g ∙ ap some x; permitted = rw x at p }))
        ]
  ]

  -- With a client of the agents, a request whose intent is resolved, for which an agent is found and
  -- which the policy client allows or gives no verdict on, is handed to that client for that agent.
  pub on_request-sends :
      (reg : Registry) (agent : AgentInfo) (intent : Intent) (exchange : Bytes → Bytes → Exchange)
      → w.agent_client ≡ some exchange
      → MayGo w reg req agent intent
      → (on_request w reg req).task ≡ some (agent, req)
  unfolding on_request route
  on_request-sends reg agent intent exchange e m =
      rw (m.resolved, on_request) (rw (m.found, route) (judge-sends exchange agent _ e m.permitted))

  -- A request whose intent is resolved, for which an agent is found and which the policy client
  -- denies is answered with `ERR_POLICY_DENIED` and its own id; no agent gets it, and it is not counted.
  pub on_request_denied :
      (reg : Registry) (agent : AgentInfo) (intent : Intent) (v : Verdict)
      → resolve w req ≡ some intent
      → registry_find_by_capability reg intent.required_capability ≡ some agent
      → policy_verdict w agent intent ≡ some v
      → v.allowed ≡ false
      → ((on_request w reg req).task ≡ none)
        × ((on_request w reg req).counted ≡ false)
        × ((on_request w reg req).reply.status ≡ error)
        × ((on_request w reg req).reply.error_code ≡ policy_denied)
        × ((on_request w reg req).reply.id ≡ req.id)
  unfolding on_request route judge
  on_request_denied reg agent intent v e f g d =
      rw (e, on_request) (rw (f, route) (rw (g, judge) (ground arith)))

verdict_of :
    (w : World) (agent : AgentInfo) (intent : Intent) (client : Bytes → Option Bytes)
    {o : Option Verdict}
    → w.policy_client ≡ some client
    → policy_client_check client agent.name intent.required_capability intent.target 256 ≡ o
    → policy_verdict w agent intent ≡ o
unfolding policy_verdict
verdict_of w agent intent client e f = rw (e, policy_verdict) f

permitted-allowed :
    (v : Verdict) {o : Option Verdict} → o ≡ some v → IsPermitted o → v.allowed ≡ true
permitted-allowed v e p = rw e at p

-- With the policy engine's handler at the other end of the policy client's socket, a request is
-- handed to the client of the agents only if the engine's store allows the agent the capability of the
-- intent that the request resolves to, on its target. For each such intent the agent's name, the
-- capability and the target hold no quote and fit the engine's buffers, the name is neither
-- "capability" nor "target", and the capability is not "target".
pub on_request_allowed :
    (w : World) (reg : Registry) (req r : Request) (agent : AgentInfo)
    → (fnmatch : Bytes → Bytes → Bool) (dir : Option (List File)) (ps : PolicyStore)
    → w.policy_client ≡ some (λ m. some (client_handler fnmatch dir ps m).1)
    → ((intent : Intent)
        → resolve w req ≡ some intent
        → NoQuote agent.name
          × NoQuote intent.required_capability
          × NoQuote intent.target
          × (length agent.name ≤ 63)
          × (length intent.required_capability ≤ 63)
          × (length intent.target ≤ 127)
          × (str_eq agent.name (lit "capability") ≡ false)
          × (str_eq agent.name (lit "target") ≡ false)
          × (str_eq intent.required_capability (lit "target") ≡ false))
    → (on_request w reg req).task ≡ some (agent, r)
    → (intent : Intent) × (resolve w req ≡ some intent)
      × ((policy_check fnmatch ps (record {
        id = 1;
        agent_name = agent.name;
        capability = intent.required_capability;
        target = intent.target;
      })).action
          ≡ allow)
on_request_allowed w reg req r agent fnmatch dir ps engine texts sent =
    let (_, (intent, m)) = on_request-task w req reg agent r sent in
    let (qa, qc, qt, la, lc, lt, ac, at, ct) = texts intent m.resolved in
    let (v, e, i) =
      policy_client_check-policy_check fnmatch dir ps agent.name intent.required_capability
        intent.target 256 qa qc qt la lc lt ac at ct in
    let given : policy_verdict w agent intent ≡ some v = verdict_of w agent intent _ engine e in
    (intent, m.resolved, i.0 (permitted-allowed v given m.permitted))
