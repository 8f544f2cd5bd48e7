-- ===== src/Orchestrator.antt =====
-- The orchestrator (khazar/components/orchestrator): the registry of agents, the sessions, the
-- keyword router, the clients of the other daemons, and the handler of a request.
pub mod Agent
pub mod Registry
pub mod Session
pub mod Message
pub mod Router
pub mod PolicyClient
pub mod RuleClient
pub mod IntentClient
pub mod AgentClient
pub mod Handler
pub mod Config
mod Tests
