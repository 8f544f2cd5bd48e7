-- ===== src/ModelRuntime.antt =====
-- The model runtime (khazar/components/model-runtime): its configuration, its messages, the engine and the
-- handler that joins them.
pub mod Config
pub mod Protocol
pub mod Inference
pub mod Engine
mod Tests
