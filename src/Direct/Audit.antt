-- ===== src/Direct/Audit.antt =====
-- The audit trail of a direct write: `SnapshotStore` of crates/turbovault-audit/src/snapshot.rs and
-- `record_audit` of crates/turbovault-vault/src/substrate.rs.
use turbovault.Common.{String, Bool, true, false, Option, none, some, if◌then◌else◌}
use turbovault.Core.Error.{io, other_kind, not_found_in_graph, Result, ok, err}
use turbovault.Core.Plan.{Bytes}
use turbovault.Direct.Disk.{Io, done, fail, OperationType, AuditEntry, Disk}

abbrev pub of_io {ℓ κ} : {A : Type ℓ} {S : Type κ} → Io A × S → Result A × S
of_io (done a, s) = (ok a, s)
of_io (fail e, s) = (err (io e), s)

module _ {Json : Type 0} where
  -- AuditEntry::new, with_new_path and with_metadata
  abbrev pub new_entry : String → OperationType → Option String → Option Json → AuditEntry Json
  new_entry path operation new_path metadata = record {
    operation = operation;
    path = path;
    new_path = new_path;
    before_hash = none;
    after_hash = none;
    before_snapshot_id = none;
    after_snapshot_id = none;
    metadata = metadata;
  }

  abbrev pub with_before : AuditEntry Json → String → String → AuditEntry Json
  with_before e hash id = record e { before_hash = some hash; before_snapshot_id = some id }

  abbrev pub with_after : AuditEntry Json → String → String → AuditEntry Json
  with_after e hash id = record e { after_hash = some hash; after_snapshot_id = some id }

module _ {Json : Type 0} (d : Disk Json) where
  -- SnapshotStore::store
  unfoldable pub store : Bytes → d.State → Result String × d.State
  store content s =
      let id = d.sha256_hex content in
      let path = d.snapshot_path id in
      let (r, s') = d.write path content s in
      if d.exists path s
      then (ok id, s)
      else elim r [ done _ ↦ (ok id, s') | fail e ↦ (err (io e), s') ]

  -- SnapshotStore::retrieve
  unfoldable pub retrieve : String → d.State → Result Bytes
  retrieve id s =
      if d.exists (d.snapshot_path id) s
      then elim (d.read (d.snapshot_path id) s) [
        | done b ↦ if d.is_utf8 b then ok b else err (io other_kind)
        | fail e ↦ err (io e)
      ]
      else err not_found_in_graph

  -- One `if let` of `record_audit`: store the text and note its hash and id; a failure is logged.
  unfoldable pub snapshot :
      (AuditEntry Json → String → String → AuditEntry Json)
      → Option Bytes
      → AuditEntry Json
      → d.State
      → AuditEntry Json × d.State
  unfolding store
  snapshot note none e s = (e, s)
  snapshot note (some b) e s =
      let (r, s') = store b s in
      if d.is_utf8 b
      then elim r [ ok id ↦ (note e (d.sha256_hex b) id, s') | err x ↦ (e, s') ]
      else (e, s)

  -- DirectSubstrate::record_audit. Its result is not used: a failure never fails the write.
  unfoldable pub record_audit :
      Bool
      → String
      → OperationType
      → Option Bytes
      → Option Bytes
      → Option String
      → Option Json
      → d.State
      → d.State
  unfolding snapshot
  record_audit false path operation before after new_path metadata s = s
  record_audit true path operation before after new_path metadata s =
      let (e1, s1) = snapshot with_before before (new_entry path operation new_path metadata) s in
      let (e2, s2) = snapshot with_after after e1 s1 in (d.record_entry e2 s2).1
