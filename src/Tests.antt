-- ===== src/Tests.antt =====
-- Concrete inputs for the theorems, and runs of the definitions.
mod Memory
mod MemoryGraph
mod Links
mod Rollback
mod Edit
mod Reindex
mod Repository
mod RepositoryLaws
mod Direct
mod Git
mod Core
mod Resilience
