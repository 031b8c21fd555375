-- ===== src/Engine.antt =====
-- decision-engine/internal/engine/engine.go and engine_testing.go.
pub mod Interface
pub mod Evaluate
pub mod Mirror
pub mod Events
pub mod Throttle
pub mod FailOpen
pub mod Limit
