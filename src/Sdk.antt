-- ===== src/Sdk.antt =====
-- The library that agents are built on (khazar/sdk).
pub mod Json
pub mod Events
pub mod Protocol
pub mod Agent
pub mod Ipc
mod Tests
