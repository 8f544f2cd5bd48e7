-- ===== src/Sdk/Agent/Steps.antt =====
-- The steps of the calls of khazar/sdk/agent/agent.c and of its `heartbeat_loop`, as the threads take turns: a step
-- lies between two points at which the other threads can run. One thread makes the calls, one after the
-- other; any number of threads run the loop.
pub mod Fits
pub mod Sound
pub mod Stuck
pub mod Alone
use khazar_os.Common.{
  ℕ, zero, suc, ◌+◌, ◌-◌, ◌*◌, ◌/◌, ◌%◌, ◌^◌, ◌≤◌, ◌<◌, ◌≡◌, refl, sym, ap, ◌∙◌, ◌≢◌, ◌↔◌, ◌⊎◌, inl,
  inr, Bool, true, false, not, ◌&&◌, ◌||◌, Option, none, some, List, [], ◌∷◌, ◌++◌, map, arith, leb,
  ltb, ◌==◌, if◌then◌else◌, length, take, drop, get_or, get_elem?, set, ℤ, pos, negsuc, ltb_ℤ,
  pos_part, neg_part, sub_ℕ, ◌+ℤ◌, ◌≤ℤ◌, ◌<ℤ◌, ◌>>=◌, Bool-cases, Option-cases, length-append,
  length-set, replicate, ltb→lt, lt→ltb,
}
use khazar_os.CString.{
  Bytes, lit, str_eq, strncpy, has_prefix, strstr, is_some, contains, strchr, tolower, isspace,
  skip_spaces,
}
use khazar_os.Sdk.Agent.{
  AgentState, state_registering, state_registered, state_running, state_error, state_shutdown,
  IpcClient, ipc_client_connect, ipc_client_recv, AgentConfig, Agent, agent_init, accepts, in_state,
  is_registered,
}

-- Where the thread of the calls stands. The argument tells whether `agent_start` made the call of
-- `agent_register`.
pub data Main : Type 0 where
  idle to_fail to_serve to_create to_run to_join : Main
  to_connect to_send to_recv to_confirm : Bool → Main

-- `unconnected` counts the threads of the loop that have read `connected` as false and have not yet tried to
-- connect.
pub record System : Type 0 where
  pub agent : Agent
  pub main : Main
  pub unconnected : ℕ

abbrev pub system_init : AgentConfig → System
system_init config = record { agent = agent_init config; main = idle; unconnected = 0 }

abbrev pub with_client : Agent → IpcClient → Agent
with_client a client = record a { orch_client = client }

unfoldable pub after_recv : Agent → Bool → IpcClient × Option Bytes → Agent × Main
after_recv a starting (client, none) = (with_client a client, to_fail)
after_recv a starting (client, some answer) =
    (with_client a client, if accepts answer then to_confirm starting else to_fail)

-- The next step of the call (that `running` is set before the thread is made is seen by no step): `ok` and `answer` are how its system calls end. A descriptor of -1 cannot be
-- written to.
unfoldable pub advance : Bool → Option Bytes → Agent → Main → Agent × Main
unfolding after_recv ipc_client_recv
advance ok answer a idle = (a, idle)
advance ok answer a (to_connect starting) =
    (with_client a (ipc_client_connect a.orch_client ok), if ok then to_send starting else to_fail)
advance ok answer a (to_send starting) =
    (a, if a.orch_client.has_fd && ok then to_recv starting else to_fail)
advance ok answer a (to_recv starting) =
    after_recv a starting (ipc_client_recv a.orch_client answer)
advance ok answer a (to_confirm starting) =
    (in_state a state_registered, if starting then to_serve else idle)
advance ok answer a to_fail = (in_state a state_error, idle)
advance ok answer a to_serve =
    if is_some a.config.agent_socket_path
    then (record a { task_server = ok }, if ok then to_create else idle)
    else (a, to_create)
advance ok answer a to_create =
    if ok
    then (record a { is_running = true; threads = suc a.threads }, to_run)
    else (record a { is_running = false }, idle)
advance ok answer a to_run = (in_state a state_running, idle)
advance ok answer a to_join = (record a { threads = a.threads - 1 }, idle)

-- The start of a call, between two calls.
unfoldable pub call_register : Agent → Main → Agent × Main
call_register a idle = (in_state a state_registering, to_connect false)
call_register a main = (a, main)

unfoldable pub call_start : Agent → Main → Agent × Main
unfolding is_registered
call_start a idle =
    if is_registered a.state then (a, to_serve) else (in_state a state_registering, to_connect true)
call_start a main = (a, main)

unfoldable pub call_stop : Agent → Main → Agent × Main
call_stop a idle = (record a { state = state_shutdown; is_running = false }, to_join)
call_stop a main = (a, main)

-- What happens next: a step of the calls, or one of a thread of the loop.
pub data Move : Type 0 where
  register start stop : Move
  next : Bool → Option Bytes → Move
  look : Move
  reconnect : Bool → Move

abbrev pub with_main : System → Agent × Main → System
with_main s (a, main) = record s { agent = a; main = main }

-- if (!connected), which is read under the mutex that is then let go. Sending changes nothing of the client,
-- whether it fails or not.
unfoldable pub look_at : System → System
look_at s =
    if ltb 0 s.agent.threads && not s.agent.orch_client.connected
    then record s { unconnected = suc s.unconnected }
    else s

-- The attempt to connect, whatever the client is by then.
unfoldable pub reconnect_at : Bool → Agent → Main → ℕ → System
reconnect_at ok a main zero = record { agent = a; main = main; unconnected = zero }
reconnect_at ok a main (suc n) = record {
  agent = with_client a (ipc_client_connect a.orch_client ok);
  main = main;
  unconnected = n;
}

unfoldable pub step : Move → System → System
unfolding advance call_register call_start call_stop look_at reconnect_at
step register s = with_main s (call_register s.agent s.main)
step start s = with_main s (call_start s.agent s.main)
step stop s = with_main s (call_stop s.agent s.main)
step (next ok answer) s = with_main s (advance ok answer s.agent s.main)
step look s = look_at s
step (reconnect ok) s = reconnect_at ok s.agent s.main s.unconnected

unfoldable pub run : List Move → System → System
unfolding step
run [] s = s
run (m ∷ ms) s = run ms (step m s)
