-- ===== src/Sdk/Agent/Steps/Stuck.antt =====
-- An agent that has lost its connection.
use khazar_os.Common.{◌≡◌, refl, ap, ◌∙◌, List, [], ◌∷◌, arith}
use khazar_os.Sdk.Agent.{AgentState, state_registered, state_running, AgentConfig, Agent}
use khazar_os.Sdk.Agent.Steps.{
  System, system_init, Move, look, reconnect, look_at, reconnect_at, step, run,
}
use khazar_os.Common.{All}
use khazar_os.Sdk.Agent.Steps.Fits.{IsFlagged, Fits}
use khazar_os.Sdk.Agent.Steps.Sound.{run-Fits}

-- A step of a thread of the loop.
abbrev pub IsLoop : Move → Type 0
IsLoop look = Unit
IsLoop (reconnect ok) = Unit
IsLoop _ = ⊥

-- The states of an agent that the orchestrator has accepted.
abbrev pub IsAccepted : AgentState → Type 0
IsAccepted state_registered = Unit
IsAccepted state_running = Unit
IsAccepted _ = ⊥

Fits-IsFlagged : (t : AgentState) (a : Agent) → IsAccepted t → Fits t a → IsFlagged a
unfolding Fits
Fits-IsFlagged state_registered a i f = f
Fits-IsFlagged state_running a i f = f.0
Fits-IsFlagged _ a i f = absurd i

step-same :
    (m : Move) (s : System) → IsLoop m → IsFlagged s.agent → s.unconnected ≡ 0 → step m s ≡ s
unfolding step look_at reconnect_at
step-same look s l f u = rw f (ground arith)
step-same (reconnect ok) s l f u = rw u refl
step-same _ s l f u = absurd l

run-same :
    (loops : List Move) (s : System)
    → All IsLoop loops
    → IsFlagged s.agent
    → s.unconnected ≡ 0
    → run loops s ≡ s
unfolding run
run-same [] s l f u = refl
run-same (m ∷ ms) s (l, ls) f u = ap (run ms) (step-same m s l f u) ∙ run-same ms s ls f u

-- However an agent came to be registered or running: if no thread of the loop is about to connect, then no number of
-- steps of the loop changes anything, so a connection that is lost by then, or whose descriptor is -1, is
-- not made again by the loop.
pub run-stuck :
    (config : AgentConfig) (ms loops : List Move)
    → IsAccepted (run ms (system_init config)).agent.state
    → (run ms (system_init config)).unconnected ≡ 0
    → All IsLoop loops
    → run loops (run ms (system_init config)) ≡ run ms (system_init config)
run-stuck config ms loops i u l =
    let s = run ms (system_init config) in
    run-same loops s l (Fits-IsFlagged s.agent.state s.agent i (run-Fits config ms)) u
