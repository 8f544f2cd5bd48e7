-- ===== src/PolicyEngine.antt =====
-- The policy engine (khazar/components/policy-engine): the rule store and the decision, the rule
-- files, the messages, and the handler that joins them.
pub mod Store
pub mod Check
pub mod Load
pub mod Protocol
pub mod Engine
pub mod Config
mod Tests
