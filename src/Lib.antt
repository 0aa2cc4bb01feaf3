-- ===== src/Lib.antt =====
-- Verification of turbovault, a server that gives programs access to vaults of Markdown notes.
--
-- The files follow the crates. `Common` holds what all share: Boolean tests on the native numbers,
-- lists, and `HashMap<String, _>` as an association list (`Common.Table`).
-- - Core.Error: crates/turbovault-core/src/error.rs, without the texts of the messages.
-- - Core.Plan: crates/turbovault-core/src/{precondition, change_plan}.rs, the plan of changes and
--   preconditions that every write is. Core.Plan.Laws has the proofs on its builders.
-- - Direct: `DirectSubstrate` of crates/turbovault-vault/src/substrate.rs. Direct.Disk is the
--   interface to the file system, to random ids and to the digests, with the documented behaviour
--   that is assumed, where a path on the disk stands for the file that it leads to, and links to
--   files are left out; Direct.Audit is `record_audit` and the snapshot store of
--   crates/turbovault-audit/src/snapshot.rs; Direct.Apply is `apply` with all that it calls.
--   Direct.Gate, Steps, Changes, Loop and Refines hold the proofs.
-- - Rollback: crates/turbovault-audit/src/rollback.rs, on the disk of Direct; Rollback.Restores has the
--   proofs.
-- - Git: crates/turbovault-git/src/{error, cas, plumbing, occ, materialize, changeset}.rs. Git.Repo
--   is the interface to libgit2 with the documented behaviour that is assumed (the working tree is a
--   `Disk` on the same state; other processes may move a reference until it is locked); Git.Cas,
--   Plumbing, Occ, Materialize and Changeset follow the files of the crate. Git.Cas.Laws,
--   Git.Cas.Bound, Tree, Built, Fold, Landed, Attempt, Reveal, Refines and Committed hold the proofs.
-- - Core.Plan.Effect: what a plan means for the files of a vault, the specification that both
--   backends implement.
-- - Vaults: `MultiVaultManager` of crates/turbovault-core/src/multi_vault.rs, with its invariant
--   (Invariant), its calls (Contract) and the two critical sections of `add_vault` (Race).
-- - Resilience: `CircuitBreaker` and `retry_with_backoff` of
--   crates/turbovault-core/src/resilience.rs.
-- - Batch: `BatchOperation` of crates/turbovault-batch/src/lib.rs.
-- - Text: what the source uses of `str`, on texts as lists of characters.
-- - Links: `LinkGraph` of crates/turbovault-graph/src/graph.rs, and the links' targets of
--   crates/turbovault-core/src/okf.rs. Links.Digraph is the interface to petgraph and to paths;
--   Links.Resolve reads a target; Links.Index is a map to node indices; Links.Graph and Links.Update
--   are the operations that change a graph, Links.Queries those that read it. Links.Invariant,
--   Edges, Sound, Removed, Runs, Aliases, Resolved, Outgoing, Related, Visits and Complete
--   hold the proofs.
-- - Edit: crates/turbovault-vault/src/edit.rs. Edit.Fence and Parse read the blocks, Edit.Distance is
--   the fuzzy search, Edit.Apply the other searches and the replacing. Edit.Markers, Body, RoundTrip
--   and Refused have the proofs on parsing, Edit.EditDistance and Exact those on searching.
-- - Reindex: crates/turbovault-vault/src/reindex.rs and `first_parent_range` of
--   crates/turbovault-git/src/repo.rs. A pass over the queue changes a graph of Links. Reindex.Range and
--   Drain hold the proofs.
-- - Tests: concrete inputs, among them a disk and a graph in memory that satisfy the assumed laws.
--
-- State is passed explicitly: an operation takes a state and returns a result and a new state, and
-- what was written before an error stays written. A method that runs under one lock is one step.
-- The loop of `commit_with_retry_n` recurs on the number of turns that are left, `max_retries + 1`,
-- and answers with the tip of its last turn too, which the source's closure keeps for itself.
-- The loop of `retry_with_backoff` takes one unit of fuel for each attempt and is given
-- `max_attempts + 1`, which is always enough. The search of `related_notes` takes one unit for each
-- node it takes from its queue and is given the number of nodes. The walk of `first_parent_range`
-- takes one unit for each commit, and more than the height of the tip is enough. Counters of 32 bits
-- wrap. Times are numbers that the caller gives. Positions in a text count bytes, and a slice
-- elsewhere than between two characters is a panic.
--
-- Not modelled: the caching of git handles, the texts of error messages, tracing and logging, the
-- floating-point arithmetic of the backoff, of the similarity of an edit (parameters) and of the
-- average in `stats`, petgraph's algorithms for cycles and components, previews of differences, the
-- format of the audit log's file (one operation of
-- the disk), and the parts of the repository that are protocol glue, third-party calls or input and
-- output. The metadata of a plan and the settings of a vault that the code only carries are values
-- of a type parameter.
pub mod Common
pub mod Text
pub mod Links
pub mod Edit
pub mod Core
pub mod Vaults
pub mod Resilience
pub mod Batch
pub mod Direct
pub mod Rollback
pub mod Git
pub mod Reindex
mod Tests
