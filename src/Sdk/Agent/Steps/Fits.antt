-- ===== src/Sdk/Agent/Steps/Fits.antt =====
-- What holds of an agent in each of its states.
use khazar_os.Common.{◌<◌, ◌≡◌, refl, Bool, true, false, not, ◌&&◌, arith}
use khazar_os.CString.{is_some}
use khazar_os.Sdk.Agent.{
  AgentState, state_registering, state_registered, state_running, state_shutdown,
  ipc_client_connect, Agent, is_registered,
}
use khazar_os.Sdk.Agent.Steps.{with_client}

-- The agent has its server, if it has a path for one.
abbrev pub Serves : Agent → Type 0
Serves a = (is_some a.config.agent_socket_path && not a.task_server) ≡ false

abbrev pub IsFlagged : Agent → Type 0
IsFlagged a = a.orch_client.connected ≡ true

abbrev pub Beats : Agent → Type 0
Beats a = (a.is_running ≡ true) × (0 < a.threads)

-- What holds of an agent in a state.
unfoldable pub Fits : AgentState → Agent → Type 0
Fits state_registered a = IsFlagged a
Fits state_running a = IsFlagged a × Beats a × Serves a
Fits _ a = Unit

pub Fits-registered : (t : AgentState) (a : Agent) → t ≡ state_registered → IsFlagged a → Fits t a
unfolding Fits
Fits-registered state_running a e f = absurd (ground (arith, e))
Fits-registered state_registered a e f = f
Fits-registered _ a e f = tt

pub Fits-shutdown : (t : AgentState) (a : Agent) → t ≡ state_shutdown → Fits t a
unfolding Fits
Fits-shutdown state_running a e = absurd (ground (arith, e))
Fits-shutdown state_registered a e = absurd (ground (arith, e))
Fits-shutdown _ a e = tt

-- An attempt to connect does not clear the flag.
pub connect-IsFlagged :
    (ok : Bool) (a : Agent)
    → IsFlagged a
    → IsFlagged (with_client a (ipc_client_connect a.orch_client ok))
connect-IsFlagged true a f = refl
connect-IsFlagged false a f = f

module _ (ok : Bool) (a : Agent) where
  abbrev pub connected_again : Agent
  connected_again = with_client a (ipc_client_connect a.orch_client ok)

  pub connect-Fits : (t : AgentState) → Fits t a → Fits t connected_again
  unfolding Fits
  connect-Fits state_registered f = connect-IsFlagged ok a f
  connect-Fits state_running (f, b, s) = (connect-IsFlagged ok a f, b, s)
  connect-Fits _ f = tt

pub is_registered-state : (t : AgentState) → is_registered t ≡ true → t ≡ state_registered
unfolding is_registered
is_registered-state state_registered h = refl
is_registered-state _ h = absurd (cc)

pub Fits-IsFlagged : (t : AgentState) (a : Agent) → t ≡ state_registered → Fits t a → IsFlagged a
unfolding Fits
Fits-IsFlagged state_registered a e f = f
Fits-IsFlagged state_running a e f = f.0
Fits-IsFlagged _ a e f = absurd (ground (arith, e))

pub Fits-registering : (t : AgentState) (a : Agent) → t ≡ state_registering → Fits t a
unfolding Fits
Fits-registering state_running a e = absurd (ground (arith, e))
Fits-registering state_registered a e = absurd (ground (arith, e))
Fits-registering _ a e = tt
