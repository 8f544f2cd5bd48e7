-- ===== src/Agents.antt =====
-- The agents (khazar/agents): the daemons that carry out the tasks.
pub mod PackageManager
pub mod Task
pub mod Daemon
pub mod Package
pub mod Power
pub mod Network
pub mod Audio
pub mod Desktop
mod Tests
