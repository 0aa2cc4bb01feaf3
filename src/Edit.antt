-- ===== src/Edit.antt =====
-- crates/turbovault-vault/src/edit.rs: edits given as SEARCH/REPLACE blocks.
pub mod Fence
pub mod Parse
pub mod Markers
pub mod Body
pub mod RoundTrip
pub mod Distance
pub mod EditDistance
pub mod Apply
pub mod Exact
pub mod Refused
