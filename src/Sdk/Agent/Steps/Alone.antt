-- ===== src/Sdk/Agent/Steps/Alone.antt =====
-- The steps of a call without another thread in between.
use khazar_os.Common.{
  ℕ, ◌≡◌, refl, inl, inr, Bool, true, false, Option, none, some, List, [], ◌∷◌, Bool-cases,
}
use khazar_os.CString.{Bytes}
use khazar_os.Sdk.Agent.{ipc_client_recv, Agent, Environment, accepts, on_answer, agent_register}
use khazar_os.Sdk.Agent.Steps.{
  idle, after_recv, advance, call_register, Move, register, next, step, run,
}

-- How `connect`, `write` and `read` end in the call.
abbrev pub ending : Bool → Bool → Option Bytes → Environment
ending connects sends answer = record {
  connects = connects;
  sends = λ message. sends;
  answers = λ message. answer;
  serves = true;
  threads = true;
}

abbrev pub alone : Bool → Bool → Option Bytes → List Move
alone connects sends answer =
    register ∷ next connects none ∷ next sends none ∷ next true answer ∷ next true none ∷ []

-- `agent_register` is what the steps of the call do if no other thread takes one in between.
pub run-agent_register :
    (connects sends : Bool) (answer : Option Bytes) (a : Agent) (n : ℕ)
    → let s =
        run (alone connects sends answer) (record { agent = a; main = idle; unconnected = n }) in
      (s.agent ≡ (agent_register (ending connects sends answer) a).0) × (s.main ≡ idle)
unfolding run step call_register advance agent_register ipc_client_recv after_recv on_answer
run-agent_register false sends answer a n = (refl, refl)
run-agent_register true false answer a n = (refl, refl)
run-agent_register true true none a n = (refl, refl)
run-agent_register true true (some []) a n = (refl, refl)
run-agent_register true true (some (c ∷ s)) a n = elim (Bool-cases (accepts (c ∷ s))) [
  | inl y ↦ rw y (refl, refl)
  | inr m ↦ rw m (refl, refl)
]
