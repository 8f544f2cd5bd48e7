-- ===== src/Sdk/Agent.antt =====
-- An agent on its side: khazar/sdk/agent/agent.c, and the client's end of the connection in
-- khazar/sdk/ipc/ipc.c. The results of the system calls are arguments. A call is here a function, which is
-- its run without a step of `heartbeat_loop` in between; Steps has the steps of the calls and of the loop,
-- which the mutex does not keep apart. The operations are called on an agent that exists and that has at most
-- 32 capabilities; a thread is one that runs `heartbeat_loop`.
pub mod States
pub mod Registration
pub mod Steps
use khazar_os.Common.{
  ℕ, zero, suc, ◌+◌, ◌-◌, ◌*◌, ◌/◌, ◌%◌, ◌^◌, ◌≤◌, ◌<◌, ◌≡◌, refl, sym, ap, ◌∙◌, ◌≢◌, ◌↔◌, ◌⊎◌, inl,
  inr, Bool, true, false, not, ◌&&◌, ◌||◌, Option, none, some, List, [], ◌∷◌, ◌++◌, map, arith, leb,
  ltb, ◌==◌, if◌then◌else◌, length, take, drop, get_or, get_elem?, set, ℤ, pos, negsuc, ltb_ℤ,
  pos_part, neg_part, sub_ℕ, ◌+ℤ◌, ◌≤ℤ◌, ◌<ℤ◌, ◌>>=◌, Bool-cases, Option-cases, length-append,
  length-set, replicate, ltb→lt, lt→ltb,
}
use khazar_os.CString.{
  Bytes, lit, str_eq, strncpy, has_prefix, strstr, is_some, contains, strchr, tolower, isspace,
  skip_spaces,
}
use khazar_os.Orchestrator.Agent.{AgentInfo}
use khazar_os.Orchestrator.Message.{
  Status, success, error, ErrorCode, err_none, internal, protocol_error, invalid_request, Request,
  Response,
}
use khazar_os.Sdk.Protocol.{
  MessageType, msg_unknown, msg_request, msg_response, msg_ping, msg_pong, msg_register,
  msg_unregister, msg_heartbeat, msg_event, msg_error, protocol_parse_type, protocol_parse_request,
  protocol_build_response, protocol_build_ping, protocol_build_register, protocol_build_heartbeat,
}

pub data AgentState : Type 0 where
  state_unregistered state_registering state_registered state_running state_error state_shutdown :
      AgentState

-- `connected`, and whether `fd` is 0 or more
pub record IpcClient : Type 0 where
  pub has_fd : Bool
  pub connected : Bool

abbrev pub ipc_client_init : IpcClient
ipc_client_init = record { has_fd = false; connected = false }

-- The new client for what `connect` and the calls before it return: a failure leaves `connected` alone.
abbrev pub ipc_client_connect : IpcClient → Bool → IpcClient
ipc_client_connect client ok =
    if ok then record { has_fd = true; connected = true } else record client { has_fd = false }

-- `none` where the call returns -1 or 0, and the client: `answer` is what `read` gives, `none` for no
-- answer in time and an empty text for an end or an error.
unfoldable pub ipc_client_recv : IpcClient → Option Bytes → IpcClient × Option Bytes
ipc_client_recv client answer =
    let kept : IpcClient × Option Bytes = (client, none) in
    if client.has_fd
    then elim answer [
      | none ↦ kept
      | some [] ↦ (record client { connected = false }, none)
      | some (c ∷ s) ↦ (client, some (c ∷ s))
    ]
    else kept

-- What a task handler makes of a request and the response that it is to fill: the response, and
-- whether it returns less than 0.
abbrev pub TaskHandler : Type 0
TaskHandler = Request → Response → Response × Bool

pub record AgentConfig : Type 0 where
  pub name : Bytes
  pub version : Bytes
  pub capabilities : List Bytes
  pub agent_socket_path : Option Bytes
  pub task_handler : Option TaskHandler

pub record Agent : Type 0 where
  pub config : AgentConfig
  pub state : AgentState
  pub orch_client : IpcClient
  pub task_server : Bool
  pub is_running : Bool
  pub threads : ℕ

-- What the calls of one `agent_start` meet.
pub record Environment : Type 0 where
  pub connects : Bool
  pub sends : Bytes → Bool
  pub answers : Bytes → Option Bytes
  pub serves : Bool
  pub threads : Bool

abbrev pub agent_init : AgentConfig → Agent
agent_init config = record {
  config = record config { capabilities = take 32 config.capabilities };
  state = state_unregistered;
  orch_client = ipc_client_init;
  task_server = false;
  is_running = false;
  threads = 0;
}

unfoldable pub info_of : AgentConfig → AgentInfo
info_of config = record {
  name = strncpy 63 config.name;
  version = strncpy 15 config.version;
  socket_path = elim config.agent_socket_path [ none ↦ [] | some path ↦ strncpy 255 path ];
  capabilities = map (strncpy 63) (take 32 config.capabilities);
  alive = false;
  last_heartbeat = 0;
}

abbrev pub registration : AgentConfig → Bytes
registration config = protocol_build_register (info_of config) 4096

abbrev pub in_state : Agent → AgentState → Agent
in_state a state = record a { state = state }

abbrev pub accepts : Bytes → Bool
accepts answer =
    contains answer (lit "\"status\":\"success\"")
    || contains answer (lit "\"status\": \"success\"")

-- From the answer on: the new agent, and whether the call returns 0, here and below.
unfoldable pub on_answer : Agent → IpcClient × Option Bytes → Agent × Bool
on_answer a (client, none) = (in_state (record a { orch_client = client }) state_error, false)
on_answer a (client, some answer) =
    let a' = record a { orch_client = client } in
    if accepts answer
    then (in_state a' state_registered, true)
    else (in_state a' state_error, false)

unfoldable pub agent_register : Environment → Agent → Agent × Bool
agent_register env a =
    let a' = record a {
      state = state_registering;
      orch_client = ipc_client_connect a.orch_client env.connects;
    } in
    let message = registration a.config in
    if not env.connects
    then (in_state a' state_error, false)
    else if not (env.sends message)
    then (in_state a' state_error, false)
    else on_answer a' (ipc_client_recv a'.orch_client (env.answers message))

-- `a->state == AGENT_STATE_REGISTERED`
unfoldable pub is_registered : AgentState → Bool
is_registered state_registered = true
is_registered _ = false

unfoldable pub ensure_registered : Environment → Agent → Agent × Bool
ensure_registered env a = if is_registered a.state then (a, true) else agent_register env a

-- The thread is created with `running` already set.
unfoldable pub start_thread : Environment → Agent → Agent × Bool
start_thread env a =
    if env.threads
    then (record a { state = state_running; is_running = true; threads = suc a.threads }, true)
    else (record a { is_running = false }, false)

unfoldable pub start_registered : Environment → Agent → Agent × Bool
start_registered env a =
    if is_some a.config.agent_socket_path
    then (if env.serves
        then start_thread env (record a { task_server = true })
        else (record a { task_server = false }, false))
    else start_thread env a

unfoldable pub agent_start : Environment → Agent → Agent × Bool
agent_start env a =
    let (a', ok) = ensure_registered env a in
    let started = start_registered env a' in if ok then started else (a', false)

-- pthread_join waits for the thread that was made last.
abbrev pub agent_stop : Agent → Agent
agent_stop a = record a { state = state_shutdown; is_running = false; threads = a.threads - 1 }

-- The text of an error or of an answer that `agent_send_response` sends.
abbrev pub agent_send_response : Response → Bytes
agent_send_response resp = protocol_build_response resp 65536

abbrev pub error_response : ErrorCode → Bytes → Response
error_response code text = record { id = 0; status = error; payload = text; error_code = code }

unfoldable pub answer_request : Option TaskHandler → Request → Response
answer_request handler req =
    let resp : Response = record {
      id = req.id;
      status = success;
      payload = [];
      error_code = err_none;
    } in
    elim handler [
      | none ↦ record resp {
        status = error;
        payload = lit "no task handler configured";
        error_code = internal;
      }
      | some h ↦
          let (resp', failed) = h req resp in
          if failed
          then record resp' {
            status = error;
            payload = lit "task handler returned error";
            error_code = internal;
          }
          else resp'
    ]

-- The text that the client gets for a message.
unfoldable pub task_handler : Agent → Bytes → Bytes
task_handler a message = elim (protocol_parse_type message) [
  | none ↦ agent_send_response (error_response protocol_error (lit "unknown message type"))
  | some msg_ping ↦ protocol_build_ping 64
  | some msg_request ↦
      agent_send_response (answer_request a.config.task_handler (protocol_parse_request message))
  | some _ ↦ agent_send_response (error_response invalid_request (lit "unsupported message type"))
]
