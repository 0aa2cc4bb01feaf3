-- ===== src/Direct.antt =====
-- `DirectSubstrate` of crates/turbovault-vault/src/substrate.rs: the write path without git.
pub mod Disk
pub mod Audit
pub mod Apply
pub mod Gate
pub mod Steps
pub mod Changes
pub mod Loop
pub mod Refines
