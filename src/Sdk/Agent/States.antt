-- ===== src/Sdk/Agent/States.antt =====
-- The state in which `agent_start` leaves an agent (khazar/sdk/agent/agent.c).
use khazar_os.Common.{
  ◌≡◌, refl, ◌≢◌, ◌↔◌, ◌⊎◌, inl, inr, Bool, true, false, Option, none, some, arith, Bool-cases,
}
use khazar_os.CString.{Bytes, is_some}
use khazar_os.Sdk.Agent.{
  AgentState, state_registered, state_running, state_error, IpcClient, Agent, Environment,
  registration, accepts, on_answer, agent_register, is_registered, ensure_registered, start_thread,
  start_registered, agent_start,
}

-- What `agent_register` leaves.
abbrev Registers : Agent × Bool → Type 0
Registers r =
    ((r.1 ≡ false) × (r.0.state ≡ state_error)) ⊎ ((r.1 ≡ true) × (r.0.state ≡ state_registered))

on_answer-Registers : (a : Agent) (p : IpcClient × Option Bytes) → Registers (on_answer a p)
unfolding on_answer
on_answer-Registers a (client, none) = inl (refl, refl)
on_answer-Registers a (client, some answer) = elim (Bool-cases (accepts answer)) [
  | inl y ↦ rw y (inr (refl, refl))
  | inr n ↦ rw n (inl (refl, refl))
]

agent_register-Registers : (env : Environment) (a : Agent) → Registers (agent_register env a)
unfolding agent_register
agent_register-Registers env a = elim (Bool-cases env.connects) [
  | inr n ↦ rw n (inl (refl, refl))
  | inl y ↦ elim (Bool-cases (env.sends (registration a.config))) [
    | inr n ↦ rw (y, n) (inl (refl, refl))
    | inl z ↦ rw (y, z) (on_answer-Registers _ _)
  ]
]

is_registered-true : (s : AgentState) → is_registered s ≡ true → s ≡ state_registered
unfolding is_registered
is_registered-true state_registered h = refl
is_registered-true _ h = absurd (ground (arith, h))

ensure_registered-Registers : (env : Environment) (a : Agent) → Registers (ensure_registered env a)
unfolding ensure_registered
ensure_registered-Registers env a = elim (Bool-cases (is_registered a.state)) [
  | inl y ↦ rw y (inr (refl, is_registered-true a.state y))
  | inr n ↦ rw n (agent_register-Registers env a)
]

-- What the rest of `agent_start` leaves.
abbrev Starts : Agent × Bool → Type 0
Starts r =
    ((r.1 ≡ false) × (r.0.state ≡ state_registered)) ⊎ ((r.1 ≡ true) × (r.0.state ≡ state_running))

start_thread-Starts :
    (env : Environment) (a : Agent) → a.state ≡ state_registered → Starts (start_thread env a)
unfolding start_thread
start_thread-Starts env a e = elim (Bool-cases env.threads) [
  | inl y ↦ rw y (inr (refl, refl))
  | inr n ↦ rw n (inl (refl, e))
]

start_registered-Starts :
    (env : Environment) (a : Agent) → a.state ≡ state_registered → Starts (start_registered env a)
unfolding start_registered start_thread
start_registered-Starts env a e = elim (Bool-cases (is_some a.config.agent_socket_path)) [
  | inr n ↦ rw n (start_thread-Starts env a e)
  | inl y ↦ elim (Bool-cases env.serves) [
    | inl z ↦ rw (y, z) (start_thread-Starts env (record a { task_server = true }) e)
    | inr n ↦ rw (y, n) (inl (refl, e))
  ]
]

-- What the whole of `agent_start` leaves.
abbrev Ends : Agent × Bool → Type 0
Ends r =
    ((r.1 ≡ false) × (r.0.state ≢ state_running)) ⊎ ((r.1 ≡ true) × (r.0.state ≡ state_running))

Starts-Ends : (r : Agent × Bool) → Starts r → Ends r
Starts-Ends r h = elim h [ inl (f, s) ↦ inl (f, rw s (ground arith)) | inr (t, s) ↦ inr (t, s) ]

agent_start-Ends : (env : Environment) (a : Agent) → Ends (agent_start env a)
unfolding agent_start
agent_start-Ends env a = elim (ensure_registered-Registers env a) [
  | inl (n, s) ↦ rw n (inl (refl, rw s (ground arith)))
  | inr (y, s) ↦ rw y (
      Starts-Ends (start_registered env (ensure_registered env a).0)
        (start_registered-Starts env (ensure_registered env a).0 s))
]

-- `agent_start` returns 0 exactly when it leaves the agent in the state of a running one, whatever the agent before
-- and the results of the system calls, in a call that no heartbeat thread disturbs.
pub agent_start_iff :
    (env : Environment) (a : Agent)
    → ((agent_start env a).1 ≡ true) ↔ ((agent_start env a).0.state ≡ state_running)
agent_start_iff env a = elim (agent_start-Ends env a) [
  | inl (n, s) ↦ (λ h. absurd (ground (arith, n, h)), λ h. absurd (s h))
  | inr (y, s) ↦ (λ h. s, λ h. y)
]
