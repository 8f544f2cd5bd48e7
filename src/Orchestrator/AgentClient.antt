-- ===== src/Orchestrator/AgentClient.antt =====
-- The client of the agents: khazar/components/orchestrator/agent_client/agent_client.c. What happens
-- on the agent's socket is a parameter.
use khazar_os.Common.{ℕ, ◌||◌, none, some, List, [], ◌∷◌, ◌++◌, ◌==◌, if◌then◌else◌, drop, ◌>>=◌}
use khazar_os.CString.{Bytes, lit, str_eq, strncpy, strstr, is_some, contains, strchr}
use khazar_os.CString.Lines.{decimal}
use khazar_os.Orchestrator.Agent.{AgentInfo}
use khazar_os.Orchestrator.Message.{
  Request, Response, success, error, ErrorCode, err_none, agent_unavailable, system,
  agent_disconnected, agent_timeout, internal,
}
use khazar_os.Orchestrator.PolicyClient.{copy_quoted}

-- How one exchange ends: where it fails, or the bytes read.
pub data Exchange : Type 0 where
  no_socket no_connection write_failed no_answer : Exchange
  answer : Bytes → Exchange

unfoldable pub skip_blanks : Bytes → Bytes
skip_blanks [] = []
skip_blanks (c ∷ s) = if c == b' ' || c == b'\t' then skip_blanks s else c ∷ s

unfoldable pub quoted : ℕ → Bytes → Bytes
quoted bufsz [] = []
quoted bufsz (c ∷ s) = if c == b'"' then copy_quoted s bufsz else []

-- The buffer is zeroed before, so a failure leaves the empty text.
unfoldable pub extract_str : Bytes → Bytes → ℕ → Bytes
unfolding strstr strchr skip_blanks quoted
extract_str json key bufsz = elim (do p ← strstr json (b'"' ∷ (key ++ b'"' ∷ [])); strchr p b':') [
  | none ↦ []
  | some q ↦ quoted bufsz (skip_blanks (drop 1 q))
]

unfoldable pub first_capability : List Bytes → Bytes
first_capability [] = []
first_capability (c ∷ cs) = c

-- The text of the task names the agent's first capability.
unfoldable pub task_request : AgentInfo → Request → Bytes
unfolding decimal first_capability
task_request agent req =
    lit "{\"id\":"
    ++ (decimal req.id
        ++ (lit ",\"type\":\"request\",\"query\":\""
            ++ (req.query
                ++ (lit "\",\"capability\":\""
                    ++ (first_capability agent.capabilities ++ lit "\"}")))))

abbrev pub failed : Request → Bytes → ErrorCode → Response
failed req payload code = record {
  id = req.id;
  status = error;
  payload = strncpy 65535 payload;
  error_code = code;
}

unfoldable pub or_text : Bytes → Bytes → Bytes
or_text [] default = default
or_text (c ∷ s) default = c ∷ s

unfoldable pub read_answer : Request → Bytes → Response
unfolding strstr is_some str_eq extract_str or_text
read_answer req response =
    let status = extract_str response (lit "status") 32 in
    let message = extract_str response (lit "message") 65536 in
    if contains response (lit "\"status\":\"success\"") || str_eq status (lit "success")
    then record {
      id = req.id;
      status = success;
      payload = or_text message (lit "task executed successfully");
      error_code = err_none;
    }
    else record {
      id = req.id;
      status = error;
      payload = or_text message (lit "agent returned error");
      error_code = internal;
    }

unfoldable pub after_exchange : AgentInfo → Request → Exchange → Response
unfolding read_answer
after_exchange agent req no_socket = failed req (lit "socket creation failed") system
after_exchange agent req no_connection =
    failed req (lit "cannot connect to agent " ++ (agent.name ++ (lit " at " ++ agent.socket_path)))
      agent_unavailable
after_exchange agent req write_failed =
    failed req (lit "failed to send task to " ++ agent.name) agent_disconnected
after_exchange agent req no_answer =
    failed req (lit "agent " ++ (agent.name ++ lit " did not respond")) agent_timeout
after_exchange agent req (answer []) =
    failed req (lit "agent " ++ (agent.name ++ lit " did not respond")) agent_timeout
after_exchange agent req (answer (c ∷ response)) = read_answer req (strncpy 65535 (c ∷ response))

unfoldable pub dispatch_to : (Bytes → Bytes → Exchange) → AgentInfo → Request → Bytes → Response
unfolding after_exchange task_request
dispatch_to exchange agent req [] =
    failed req (lit "agent " ++ (agent.name ++ lit " has no socket path")) agent_unavailable
dispatch_to exchange agent req (c ∷ path) =
    after_exchange agent req
      (exchange (strncpy 107 (c ∷ path)) (strncpy 65535 (task_request agent req)))

-- The response that the call fills in. The exchange is made only where the agent has a path.
unfoldable pub agent_client_dispatch : (Bytes → Bytes → Exchange) → AgentInfo → Request → Response
unfolding dispatch_to
agent_client_dispatch exchange agent req = dispatch_to exchange agent req agent.socket_path
