-- ===== src/Resilience.antt =====
-- crates/turbovault-core/src/resilience.rs.
pub mod Breaker
pub mod Retry
