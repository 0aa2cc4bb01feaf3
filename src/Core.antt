-- ===== src/Core.antt =====
-- The types that the write path shares: crates/turbovault-core/src/{error, precondition,
-- change_plan}.rs.
pub mod Error
pub mod Plan
