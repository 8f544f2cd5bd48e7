-- ===== src/Orchestrator/Handler.antt =====
-- The orchestrator's handler: `on_request_handler` of khazar/components/orchestrator/main.c. It is
-- given one message and returns the new registry, what it sends back, and what it has done besides:
-- the agent for which the request was handed to the client of the agents, and whether the request was
-- counted.
pub mod Policy
pub mod Register
use khazar_os.Common.{
  ℕ, zero, suc, ◌+◌, ◌-◌, ◌*◌, ◌/◌, ◌%◌, ◌^◌, ◌≤◌, ◌<◌, ◌≡◌, refl, sym, ap, ◌∙◌, ◌≢◌, ◌↔◌, ◌⊎◌, inl,
  inr, Bool, true, false, not, ◌&&◌, ◌||◌, Option, none, some, List, [], ◌∷◌, ◌++◌, map, arith, leb,
  ltb, ◌==◌, if◌then◌else◌, length, take, drop, get_or, get_elem?, set, ℤ, pos, negsuc, ltb_ℤ,
  pos_part, neg_part, sub_ℕ, ◌+ℤ◌, ◌≤ℤ◌, ◌<ℤ◌, ◌>>=◌, Bool-cases, Option-cases, length-append,
  length-set, replicate, ltb→lt, lt→ltb,
}
use khazar_os.CString.{
  Bytes, lit, str_eq, strncpy, has_prefix, strstr, is_some, contains, strchr, tolower, isspace,
  skip_spaces,
}
use khazar_os.CString.Lines.{span_not, decimal}
use khazar_os.Orchestrator.Agent.{AgentInfo}
use khazar_os.Orchestrator.Registry.{Registry, registry_register, registry_find_by_capability}
use khazar_os.Orchestrator.Message.{
  Request, Response, success, error, ErrorCode, err_none, agent_unavailable, policy_denied,
  invalid_request, Intent, MessageType, unknown, request, response, ping, register, protocol_parse,
  protocol_build_response,
}
use khazar_os.Orchestrator.Router.{KeywordEntry, router_resolve}
use khazar_os.Orchestrator.RuleClient.{rule_client_query}
use khazar_os.Orchestrator.IntentClient.{intent_client_classify}
use khazar_os.Orchestrator.PolicyClient.{Verdict, policy_client_check}
use khazar_os.Orchestrator.AgentClient.{Exchange, agent_client_dispatch}

-- The clients, with the exchange that each makes; `none` where its `init` failed.
pub record World : Type 0 where
  pub rule_client : Option (Bytes → Option Bytes)
  pub router : Option (List KeywordEntry)
  pub intent_client : Option (Bytes → Option Bytes)
  pub policy_client : Option (Bytes → Option Bytes)
  pub agent_client : Option (Bytes → Bytes → Exchange)

-- What a request leads to.
pub record Outcome : Type 0 where
  pub reply : Response
  pub task : Option (AgentInfo × Request)
  pub counted : Bool

unfoldable pub or_else {ℓ} : {A : Type ℓ} → Option A → Option A → Option A
or_else (some a) o = some a
or_else none o = o

-- The three tiers, each asked where those before found nothing.
unfoldable pub resolve : World → Request → Option Intent
unfolding or_else
resolve w req =
    or_else (do c ← w.rule_client; rule_client_query c req.query)
      (or_else (do r ← w.router; router_resolve r req)
        (do c ← w.intent_client; intent_client_classify c req.query))

abbrev pub answer : ℕ → Bytes → Outcome
answer id text = record {
  reply = record { id = id; status = success; payload = strncpy 65535 text; error_code = err_none };
  task = none;
  counted = false;
}

abbrev pub refuse : ℕ → ErrorCode → Bytes → Outcome
refuse id code text = record {
  reply = record { id = id; status = error; payload = strncpy 65535 text; error_code = code };
  task = none;
  counted = false;
}

unfoldable pub or_text : Bytes → Bytes → Bytes
or_text [] default = default
or_text (c ∷ s) default = c ∷ s

-- Step 4.
unfoldable pub dispatch : World → Request → AgentInfo → Outcome
dispatch w req agent = elim w.agent_client [
  | some exchange ↦ record {
    reply = agent_client_dispatch exchange agent req;
    task = some (agent, req);
    counted = true;
  }
  | none ↦ record (answer req.id (lit "routed to " ++ (agent.name ++ lit " (no agent client)"))) {
    counted = true;
  }
]

-- Step 3, from the verdict of the policy client on.
unfoldable pub judge : World → Request → AgentInfo → Option Verdict → Outcome
unfolding or_text
judge w req agent none = dispatch w req agent
judge w req agent (some v) =
    if not v.allowed
    then refuse req.id policy_denied
        (lit "policy denied: " ++ or_text v.reason (lit "action not permitted"))
    else dispatch w req agent

unfoldable pub policy_verdict : World → AgentInfo → Intent → Option Verdict
policy_verdict w agent intent = do
  c ← w.policy_client
  policy_client_check c agent.name intent.required_capability intent.target 256

-- Steps 2 and 3.
unfoldable pub route : World → Registry → Request → Intent → Outcome
unfolding policy_verdict judge
route w reg req intent = elim (registry_find_by_capability reg intent.required_capability) [
  | none ↦
      refuse req.id agent_unavailable
        (lit "no agent for capability '" ++ (intent.required_capability ++ lit "'"))
  | some agent ↦ judge w req agent (policy_verdict w agent intent)
]

-- `case MSG_REQUEST`
unfoldable pub on_request : World → Registry → Request → Outcome
unfolding resolve route
on_request w reg req = elim (resolve w req) [
  | none ↦ answer req.id (lit "no intent matched for query")
  | some intent ↦ route w reg req intent
]

-- A quoted value behind a key of the registration, at most `n` bytes.
unfoldable pub member : Bytes → Bytes → ℕ → Option Bytes
unfolding strstr strchr span_not
member raw key n = do
  p ← strstr raw (b'"' ∷ (key ++ b'"' ∷ []))
  q ← strchr p b':'
  v ← strchr q b'"'
  some (span_not b'"' n (drop 1 v)).0

unfoldable pub or_empty : Option Bytes → Bytes
or_empty none = []
or_empty (some s) = s

-- The key "socket", or else "socket_path" where the first does not occur.
unfoldable pub socket_member : Bytes → Bytes
unfolding member or_empty strstr
socket_member raw = elim (strstr raw (lit "\"socket\"")) [
  | none ↦ or_empty (member raw (lit "socket_path") 255)
  | some p ↦ or_empty (member raw (lit "socket") 255)
]

-- To the next comma, and past it, or to a closing bracket.
unfoldable pub next_item : Bytes → Bytes
next_item [] = []
next_item (c ∷ s) = if c == b',' then s else if c == b']' then c ∷ s else next_item s

at_end : Bytes → Bool
at_end [] = true
at_end (c ∷ s) = c == b']'

-- The loop over the capabilities, with room for `n` more: each round stores one, unless no quote is
-- left, and then the text has ended.
unfoldable pub capability_items : ℕ → Bytes → List Bytes
unfolding at_end strchr span_not next_item
capability_items zero s = []
capability_items (suc n) s = elim (at_end s) [
  | true ↦ []
  | false ↦ elim (strchr s b'"') [
    | none ↦ []
    | some q ↦
        let (v, rest) = span_not b'"' 63 (drop 1 q) in
        v ∷ capability_items n (next_item (drop 1 rest))
  ]
]

unfoldable pub parse_agent : ℕ → Bytes → AgentInfo
unfolding member or_empty socket_member capability_items strstr strchr
parse_agent now raw = record {
  name = or_empty (member raw (lit "name") 63);
  version = or_empty (member raw (lit "version") 15);
  socket_path = socket_member raw;
  capabilities = elim (do p ← strstr raw (lit "\"capabilities\""); strchr p b'[') [
    | none ↦ []
    | some q ↦ capability_items 32 (drop 1 q)
  ];
  alive = true;
  last_heartbeat = now;
}

-- `case MSG_REGISTER`; the result of `registry_register` is not looked at.
unfoldable pub on_register : ℕ → Registry → AgentInfo → Registry × Outcome
on_register now reg agent =
    if leb (length agent.name) 0
    then (reg, refuse 0 invalid_request (lit "invalid registration"))
    else (
      (registry_register now reg agent).0,
      answer 0 (
          lit "agent "
          ++ (agent.name
              ++ (lit " registered (cap: "
                  ++ (decimal (length agent.capabilities)
                      ++ (lit ", sock: " ++ (agent.socket_path ++ lit ")")))))),
    )

abbrev send_response : Outcome → Bytes
send_response o = strncpy 65535 (protocol_build_response o.reply)

-- The new registry, the bytes sent, and the task.
pub record Handled : Type 0 where
  pub registry : Registry
  pub sent : Bytes
  pub task : Option (AgentInfo × Request)

unfoldable pub handle_type : World → ℕ → Registry → Bytes → MessageType × Request → Handled
handle_type w now reg raw (ping, req) = record {
  registry = reg;
  sent = take 17 (lit "{\"status\":\"alive\"}");
  task = none;
}
handle_type w now reg raw (request, req) =
    let o = on_request w reg req in record { registry = reg; sent = send_response o; task = o.task }
handle_type w now reg raw (register, req) =
    let (reg', o) = on_register now reg (parse_agent now raw) in
    record { registry = reg'; sent = send_response o; task = none }
handle_type w now reg raw (_, req) = record {
  registry = reg;
  sent = send_response (refuse 0 invalid_request (lit "unknown message type"));
  task = none;
}

unfoldable pub on_request_handler : World → ℕ → Registry → Bytes → Handled
unfolding handle_type
on_request_handler w now reg raw = elim (protocol_parse raw) [
  | none ↦ record {
    registry = reg;
    sent = send_response (refuse 0 invalid_request (lit "invalid message format"));
    task = none;
  }
  | some m ↦ handle_type w now reg raw m
]
