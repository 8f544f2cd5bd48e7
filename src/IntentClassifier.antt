-- ===== src/IntentClassifier.antt =====
-- The intent classifier (khazar/components/intent-classifier).
pub mod Protocol
pub mod Keywords
pub mod Classify
pub mod Config
mod Tests
