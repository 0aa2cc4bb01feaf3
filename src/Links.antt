-- ===== src/Links.antt =====
-- crates/turbovault-graph/src/graph.rs: the graph of links between the notes of a vault.
pub mod Digraph
pub mod Resolve
pub mod Index
pub mod Graph
pub mod Update
pub mod Invariant
pub mod Resolved
pub mod Edges
pub mod Sound
pub mod Removed
pub mod Aliases
pub mod Runs
pub mod Queries
pub mod Related
pub mod Visits
pub mod Complete
pub mod Outgoing
