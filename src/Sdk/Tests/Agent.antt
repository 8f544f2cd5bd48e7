-- ===== src/Sdk/Tests/Agent.antt =====
-- An agent at concrete answers of the orchestrator.
use khazar_os.Common.{◌≡◌, refl, ◌↔◌, true, false, none, some, List, [], ◌∷◌, ◌++◌, take}
use khazar_os.CString.{Bytes, lit, strstr, is_some}
use khazar_os.Orchestrator.Message.{Response, success, err_none, protocol_build_response}
use khazar_os.Sdk.Agent.{
  AgentConfig, state_registered, state_running, Environment, agent_init, agent_register,
  agent_start, task_handler, registration,
}
use khazar_os.Sdk.Agent.Registration.{Confirmed, agent_register-success}
use khazar_os.Sdk.Agent.States.{agent_start_iff}
use khazar_os.Sdk.Agent.Steps.{Move, register, start, next, look, reconnect, system_init, run}
use khazar_os.Sdk.Agent.Steps.Fits.{Fits}
use khazar_os.Sdk.Agent.Steps.Sound.{run-Fits}
use khazar_os.Sdk.Agent.Steps.Stuck.{run-stuck}
use khazar_os.Sdk.Agent.{
  ensure_registered, info_of, ipc_client_recv, is_registered, on_answer, start_registered,
  start_thread,
}
use khazar_os.Sdk.Protocol.{protocol_build_ping, protocol_build_register, protocol_parse_type}

abbrev config : AgentConfig
config = record {
  name = lit "a";
  version = lit "1";
  capabilities = lit "c" ∷ [];
  agent_socket_path = some (lit "/run/a.sock");
  task_handler = none;
}

abbrev registered_response : Response
registered_response = record {
  id = 0;
  status = success;
  payload = lit "agent a registered";
  error_code = err_none;
}

abbrev all_well : Environment
all_well = record {
  connects = true;
  sends = λ message. true;
  answers = λ message. some (take 4095 (protocol_build_response registered_response));
  serves = true;
  threads = true;
}

agent_register-success_example : Confirmed (agent_register all_well (agent_init config))
agent_register-success_example =
    agent_register-success all_well (agent_init config) registered_response refl refl refl refl

agent_start_iff_example :
    ((agent_start all_well (agent_init config)).1 ≡ true)
    ↔ ((agent_start all_well (agent_init config)).0.state ≡ state_running)
agent_start_iff_example = agent_start_iff all_well (agent_init config)

abbrev confirmation : Bytes
confirmation = lit "{\"status\":\"success\"}"

-- The calls that start the agent, with the orchestrator's confirmation.
abbrev starting : List Move
starting =
    start
    ∷ next true none
    ∷ next true none
    ∷ next true (some confirmation)
    ∷ next true none
    ∷ next true none
    ∷ next true none
    ∷ next true none
    ∷ []

-- A registration meets the end of the connection, which a thread of the loop sees; the next one
-- succeeds; and then the thread tries to connect, in vain.
abbrev losing : List Move
losing =
    starting
    ++ (register
        ∷ next true none
        ∷ next true none
        ∷ next true (some [])
        ∷ next true none
        ∷ look
        ∷ register
        ∷ next true none
        ∷ next true none
        ∷ next true (some confirmation)
        ∷ next true none
        ∷ reconnect false
        ∷ [])

run-Fits_example :
    Fits (run losing (system_init config)).agent.state (run losing (system_init config)).agent
run-Fits_example = run-Fits config losing

running_test : (run starting (system_init config)).agent.state ≡ state_running
unfolding run ipc_client_recv is_some strstr is_registered
running_test = refl

lost_test :
    ((run losing (system_init config)).agent.state ≡ state_registered)
    × ((run losing (system_init config)).agent.orch_client
        ≡ record { has_fd = false; connected = true })
unfolding run ipc_client_recv is_some strstr is_registered
lost_test = (refl, refl)

run-stuck_example :
    run (look ∷ reconnect true ∷ []) (run losing (system_init config))
    ≡ run losing (system_init config)
unfolding run ipc_client_recv is_some strstr is_registered
run-stuck_example = run-stuck config losing (look ∷ reconnect true ∷ []) tt refl (tt, (tt, tt))

started_test : (agent_start all_well (agent_init config)).0.state ≡ state_running
unfolding agent_start ensure_registered is_registered agent_register on_answer ipc_client_recv
    protocol_build_response is_some strstr start_registered start_thread
started_test = refl

-- The registration does not name the socket of the agent.
registration_test :
    registration config
    ≡ lit "{\"type\":\"register\",\"name\":\"a\",\"version\":\"1\",\"capabilities\":[\"c\"]}"
unfolding protocol_build_register info_of
registration_test = refl

-- The answer to a ping is a ping.
ping_test : task_handler (agent_init config) (lit "{\"type\":\"ping\"}") ≡ lit "{\"type\":\"ping\"}"
unfolding task_handler protocol_parse_type protocol_build_ping
ping_test = refl
