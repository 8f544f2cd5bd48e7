-- ===== src/RuleEngine.antt =====
-- The rule engine (khazar/components/rule-engine): the intents and the tables that a query is looked
-- up in.
pub mod Intent
pub mod Result
pub mod Tokens
pub mod Matcher
pub mod Intents
pub mod Cache
pub mod Alias
pub mod Fuzzy
pub mod Pipeline
pub mod Rules
pub mod AddRule
pub mod Metrics
pub mod Multi
pub mod Config
mod Tests
