-- ===== src/Sdk/Agent/Steps/Sound.antt =====
-- What holds of an agent however the threads take turns.
use khazar_os.Common.{
  ℕ, zero, suc, ◌-◌, ◌≡◌, refl, inl, inr, Bool, true, false, not, ◌&&◌, Option, none, some, List,
  [], ◌∷◌, arith, ltb, if◌then◌else◌, Bool-cases,
}
use khazar_os.CString.{Bytes, is_some}
use khazar_os.Sdk.Agent.{
  state_registering, state_registered, state_shutdown, ipc_client_recv, AgentConfig, Agent, accepts,
  is_registered,
}
use khazar_os.Sdk.Agent.Steps.{
  Main, idle, to_fail, to_serve, to_create, to_run, to_join, to_connect, to_send, to_recv,
  to_confirm, System, system_init, after_recv, advance, call_register, call_start, call_stop, Move,
  register, start, stop, next, look, reconnect, look_at, reconnect_at, step, run,
}
use khazar_os.Sdk.Agent.Steps.Fits.{
  Serves, IsFlagged, Beats, Fits, Fits-registered, Fits-shutdown, connect-IsFlagged,
  connected_again, connect-Fits, is_registered-state, Fits-IsFlagged, Fits-registering,
}

-- What holds in front of each step of a call.
unfoldable Holds : Main → Agent → Type 0
unfolding Fits
Holds idle a = Fits a.state a
Holds (to_connect starting) a = a.state ≡ state_registering
Holds to_fail a = a.state ≡ state_registering
Holds (to_send starting) a = (a.state ≡ state_registering) × IsFlagged a
Holds (to_recv starting) a = (a.state ≡ state_registering) × IsFlagged a
Holds (to_confirm starting) a = (a.state ≡ state_registering) × IsFlagged a
Holds to_serve a = (a.state ≡ state_registered) × IsFlagged a
Holds to_create a = (a.state ≡ state_registered) × IsFlagged a × Serves a
Holds to_run a = (a.state ≡ state_registered) × IsFlagged a × Beats a × Serves a
Holds to_join a = a.state ≡ state_shutdown

abbrev HoldsAt : Agent × Main → Type 0
HoldsAt r = Holds r.1 r.0

recv-Holds :
    (a : Agent) (starting : Bool) (answer : Option Bytes)
    → Holds (to_recv starting) a
    → HoldsAt (after_recv a starting (ipc_client_recv a.orch_client answer))
unfolding Holds after_recv ipc_client_recv
recv-Holds a starting answer (e, f) = elim (Bool-cases a.orch_client.has_fd) [
  | inr n ↦ rw n e
  | inl y ↦ rw y (received answer)
]
  where
    received :
        (answer : Option Bytes)
        → HoldsAt (
            after_recv a starting (elim answer [
              | none ↦ (a.orch_client, none)
              | some [] ↦ (record a.orch_client { connected = false }, none)
              | some (c ∷ s) ↦ (a.orch_client, some (c ∷ s))
            ]))
    received none = e
    received (some []) = e
    received (some (c ∷ s)) = elim (Bool-cases (accepts (c ∷ s))) [
      | inl y ↦ rw y (e, f)
      | inr n ↦ rw n e
    ]

advance-Holds :
    (ok : Bool) (answer : Option Bytes) (a : Agent) (main : Main)
    → Holds main a
    → HoldsAt (advance ok answer a main)
unfolding Holds advance Fits
advance-Holds ok answer a idle h = h
advance-Holds true answer a (to_connect starting) h = (h, refl)
advance-Holds false answer a (to_connect starting) h = h
advance-Holds ok answer a (to_send starting) (e, f) =
    elim (Bool-cases (a.orch_client.has_fd && ok)) [ inl y ↦ rw y (e, f) | inr n ↦ rw n e ]
advance-Holds ok answer a (to_recv starting) h = recv-Holds a starting answer h
advance-Holds ok answer a (to_confirm true) (e, f) = (refl, f)
advance-Holds ok answer a (to_confirm false) (e, f) = f
advance-Holds ok answer a to_fail h = tt
advance-Holds ok answer a to_serve (e, f) = elim (Bool-cases (is_some a.config.agent_socket_path)) [
  | inr n ↦ rw n (e, f, rw n refl)
  | inl y ↦ rw y (served ok y)
]
  where
    served :
        (ok : Bool)
        → is_some a.config.agent_socket_path ≡ true
        → HoldsAt (record a { task_server = ok }, if ok then to_create else idle)
    served true y = (e, f, rw y refl)
    served false y = Fits-registered a.state (record a { task_server = false }) e f
advance-Holds true answer a to_create (e, f, s) = (e, f, (refl, omega arith), s)
advance-Holds false answer a to_create (e, f, s) =
    Fits-registered a.state (record a { is_running = false }) e f
advance-Holds ok answer a to_run (e, f, b, s) = (f, b, s)
advance-Holds ok answer a to_join h = Fits-shutdown a.state (record a { threads = a.threads - 1 }) h

module _ (ok : Bool) (a : Agent) where
  connect-Holds : (main : Main) → Holds main a → Holds main (connected_again ok a)
  unfolding Holds
  connect-Holds idle h = connect-Fits ok a a.state h
  connect-Holds (to_connect starting) h = h
  connect-Holds to_fail h = h
  connect-Holds (to_send starting) (e, f) = (e, connect-IsFlagged ok a f)
  connect-Holds (to_recv starting) (e, f) = (e, connect-IsFlagged ok a f)
  connect-Holds (to_confirm starting) (e, f) = (e, connect-IsFlagged ok a f)
  connect-Holds to_serve (e, f) = (e, connect-IsFlagged ok a f)
  connect-Holds to_create (e, f, s) = (e, connect-IsFlagged ok a f, s)
  connect-Holds to_run (e, f, b, s) = (e, connect-IsFlagged ok a f, b, s)
  connect-Holds to_join h = h

call_start-Holds : (a : Agent) (main : Main) → Holds main a → HoldsAt (call_start a main)
unfolding call_start Holds
call_start-Holds a idle h = elim (Bool-cases (is_registered a.state)) [
  | inl y ↦ let e = is_registered-state a.state y in rw y (e, Fits-IsFlagged a.state a e h)
  | inr n ↦ rw n refl
]
call_start-Holds a main h = h

call_register-Holds : (a : Agent) (main : Main) → Holds main a → HoldsAt (call_register a main)
unfolding call_register Holds
call_register-Holds a idle h = refl
call_register-Holds a main h = h

call_stop-Holds : (a : Agent) (main : Main) → Holds main a → HoldsAt (call_stop a main)
unfolding call_stop Holds
call_stop-Holds a idle h = refl
call_stop-Holds a main h = h

abbrev IsSound : System → Type 0
IsSound s = Holds s.main s.agent

look_at-IsSound : (s : System) → IsSound s → IsSound (look_at s)
unfolding look_at
look_at-IsSound s h =
    elim (Bool-cases (ltb 0 s.agent.threads && not s.agent.orch_client.connected)) [
      | inl y ↦ rw y h
      | inr n ↦ rw n h
    ]

reconnect_at-IsSound :
    (ok : Bool) (a : Agent) (main : Main) (n : ℕ)
    → Holds main a
    → IsSound (reconnect_at ok a main n)
unfolding reconnect_at
reconnect_at-IsSound ok a main zero h = h
reconnect_at-IsSound ok a main (suc n) h = connect-Holds ok a main h

step-IsSound : (m : Move) (s : System) → IsSound s → IsSound (step m s)
unfolding step
step-IsSound register s h = call_register-Holds s.agent s.main h
step-IsSound start s h = call_start-Holds s.agent s.main h
step-IsSound stop s h = call_stop-Holds s.agent s.main h
step-IsSound (next ok answer) s h = advance-Holds ok answer s.agent s.main h
step-IsSound look s h = look_at-IsSound s h
step-IsSound (reconnect ok) s h = reconnect_at-IsSound ok s.agent s.main s.unconnected h

run-IsSound : (ms : List Move) (s : System) → IsSound s → IsSound (run ms s)
unfolding run
run-IsSound [] s h = h
run-IsSound (m ∷ ms) s h = run-IsSound ms (step m s) (step-IsSound m s h)

Holds-Fits : (main : Main) (a : Agent) → Holds main a → Fits a.state a
unfolding Holds
Holds-Fits idle a h = h
Holds-Fits (to_connect starting) a h = Fits-registering a.state a h
Holds-Fits to_fail a h = Fits-registering a.state a h
Holds-Fits (to_send starting) a h = Fits-registering a.state a h.0
Holds-Fits (to_recv starting) a h = Fits-registering a.state a h.0
Holds-Fits (to_confirm starting) a h = Fits-registering a.state a h.0
Holds-Fits to_serve a h = Fits-registered a.state a h.0 h.1
Holds-Fits to_create a h = Fits-registered a.state a h.0 h.1
Holds-Fits to_run a h = Fits-registered a.state a h.0 h.1
Holds-Fits to_join a h = Fits-shutdown a.state a h

-- In whatever order the steps of the calls and of the loops come, and however their system calls end: an agent
-- whose state is registered has its flag `connected` set, which does not tell that it has a descriptor; and
-- an agent whose state is running has this flag set, has `running` set with a thread for the loop, and has
-- its server, if the configuration names a path for one.
pub run-Fits :
    (config : AgentConfig) (ms : List Move)
    → Fits (run ms (system_init config)).agent.state (run ms (system_init config)).agent
run-Fits config ms =
    let s = run ms (system_init config) in
    Holds-Fits s.main s.agent
      (run-IsSound ms (system_init config) (unfold Holds in unfold Fits in tt))
