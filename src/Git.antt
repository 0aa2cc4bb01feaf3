-- ===== src/Git.antt =====
-- crates/turbovault-git: the write path over the objects and the references of a git repository.
pub mod Error
pub mod Repo
pub mod Cas
pub mod Plumbing
pub mod Occ
pub mod Tree
pub mod Built
pub mod Fold
pub mod Materialize
pub mod Changeset
pub mod Landed
pub mod Attempt
pub mod Reveal
pub mod Refines
pub mod Committed
