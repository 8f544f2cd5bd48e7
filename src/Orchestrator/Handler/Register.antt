-- ===== src/Orchestrator/Handler/Register.antt =====
-- What the orchestrator's handler does to the registry.
use khazar_os.Common.{
  ℕ, ◌≤◌, ◌≡◌, refl, inl, inr, none, [], ◌∷◌, arith, leb, length, Bool-cases, Option-cases,
}
use khazar_os.CString.{Bytes}
use khazar_os.Common.{All}
use khazar_os.Orchestrator.Agent.{AgentInfo}
use khazar_os.Orchestrator.Registry.{Registry, max_agents, update, registry_register}
use khazar_os.Orchestrator.Registry.Unique.{IsValid, NotNamed, registry_register-IsValid}
use khazar_os.Orchestrator.Message.{Request, success, MessageType, register, protocol_parse}
use khazar_os.Orchestrator.Handler.{World, on_register, handle_type, on_request_handler}

on_register-IsValid :
    (now : ℕ) (reg : Registry) (agent : AgentInfo)
    → IsValid reg
    → IsValid (on_register now reg agent).0
unfolding on_register
on_register-IsValid now reg agent v = elim (Bool-cases (leb (length agent.name) 0)) [
  | inl y ↦ rw y v
  | inr n ↦ rw n (registry_register-IsValid now reg agent v)
]

handle_type-IsValid :
    (w : World) (now : ℕ) (reg : Registry) (raw : Bytes) (t : MessageType) (req : Request)
    → IsValid reg
    → IsValid (handle_type w now reg raw (t, req)).registry
unfolding handle_type
handle_type-IsValid w now reg raw register req v = on_register-IsValid now reg _ v
handle_type-IsValid w now reg raw _ req v = v

-- Whatever bytes a client sends, the handler keeps the registry valid: no two agents of one name and
-- no more than `MAX_AGENTS`.
pub on_request_handler-IsValid :
    (w : World) (now : ℕ) (reg : Registry) (raw : Bytes)
    → IsValid reg
    → IsValid (on_request_handler w now reg raw).registry
unfolding on_request_handler
on_request_handler-IsValid w now reg raw v = elim (Option-cases (protocol_parse raw)) [
  | inl e ↦ rw (e, on_request_handler) v
  | inr ((t, req), e) ↦ rw (e, on_request_handler) (handle_type-IsValid w now reg raw t req v)
]

update-new :
    (now : ℕ) (agent : AgentInfo) (reg : Registry)
    → All (NotNamed agent.name) reg
    → update now agent reg ≡ none
unfolding update
update-new now agent [] h = refl
update-new now agent (a ∷ reg) h = rw (h.0, update-new now agent reg h.1) refl

-- A named agent that the full registry does not hold is not registered, and the reply is a success
-- all the same.
pub on_register-full :
    (now : ℕ) (reg : Registry) (agent : AgentInfo)
    → 1 ≤ length agent.name
    → max_agents ≤ length reg
    → All (NotNamed agent.name) reg
    → ((on_register now reg agent).0 ≡ reg) × ((on_register now reg agent).1.reply.status ≡ success)
unfolding on_register registry_register
on_register-full now reg agent named full new =
    rw (update-new now agent reg new, registry_register) (ground arith)
