-- ===== src/Rollback.antt =====
-- crates/turbovault-audit/src/rollback.rs: undoing one recorded operation. It works on the disk of the
-- direct writes, with the snapshot store of the audit trail.
use turbovault.Common.{
  String, Bool, true, false, Option, none, some, ◌&&◌, ◌||◌, not, if◌then◌else◌,
}
use turbovault.Core.Error.{io, other_kind, not_found_in_graph, other, Result, ok, err, ◌>>=◌}
use turbovault.Core.Plan.{Bytes}
use turbovault.Direct.Disk.{
  Io, done, fail, OperationType, create_op, update_op, delete_op, move_op, rollback_op, AuditEntry,
  Disk, Exec,
}
use turbovault.Direct.Audit.{of_io, new_entry, store, retrieve}
pub mod Restores

-- `AuditLog::get_entry`, `PathValidator::validate_path_in_vault`, `with_extension("tmp")`, and the JSON
-- that names the operation in the new entry
pub record RollbackOps {Json : Type 0} (d : Disk Json) : Type 0 where
  pub get_entry : String → d.State → Result (Option (AuditEntry Json))
  pub validate : String → Result String
  pub with_tmp : String → String
  pub metadata : String → OperationType → Json

pub data Action : Type 0 where
  deleted already_absent : Action
  restored : String → Action

-- RollbackPreview, as far as it says what would happen
pub record RollbackPreview : Type 0 where
  pub current_exists : Bool
  pub current_hash : Option String
  pub would_create : Bool
  pub would_delete : Bool
  pub would_modify : Bool

abbrev pub has_snapshot : Option String → Bool
has_snapshot none = false
has_snapshot (some id) = true

module _ {Json : Type 0} (d : Disk Json) (ops : RollbackOps d) where
  -- `tokio::fs::read_to_string`
  abbrev pub read_to_string : String → d.State → Result Bytes
  read_to_string path s = elim (d.read path s) [
    | done b ↦ if d.is_utf8 b then ok b else err (io other_kind)
    | fail e ↦ err (io e)
  ]

  infixl 5 ◌and_next◌
  abbrev pub ◌and_next◌ :
      {A : Type 0}
      → Result (Unit {0}) × d.State
      → (d.State → Result A × d.State)
      → Result A × d.State
  (ok tt, s) and_next next = next s
  (err e, s) and_next next = (err e, s)

  -- what a rollback of this operation would do to the file
  abbrev pub would : OperationType → Bool → Bool → Bool × Bool × Bool
  would create_op exists before = (false, exists, false)
  would update_op exists before = (not exists && before, false, exists && before)
  would delete_op exists before = (not exists && before, false, exists && before)
  would move_op exists before = (false, false, false)
  would rollback_op exists before = (false, false, false)

  unfoldable pub preview_entry : AuditEntry Json → String → d.State → Result RollbackPreview
  preview_entry entry path s =
      let exists = d.exists path s in
      let (create, delete, modify) =
        would entry.operation exists (has_snapshot entry.before_snapshot_id) in
      (if exists then read_to_string path s >>= (λ b. ok (some (d.sha256_hex b))) else ok none)
      >>= λ hash. ok (record {
        current_exists = exists;
        current_hash = hash;
        would_create = create;
        would_delete = delete;
        would_modify = modify;
      })

  -- RollbackEngine::preview
  unfoldable pub preview : String → d.State → Result RollbackPreview
  unfolding preview_entry
  preview id s = ops.get_entry id s >>= λ found. elim found [
    | none ↦ err not_found_in_graph
    | some entry ↦ ops.validate entry.path >>= λ path. preview_entry entry path s
  ]

  -- the snapshot of the current state, if there is a file
  unfoldable pub save_current : String → Exec d (Unit {0})
  unfolding store
  save_current path s =
      if d.exists path s
      then elim (read_to_string path s) [
        | err e ↦ (err e, s)
        | ok b ↦
            let (stored, s') = store d b s in
            elim stored [ ok id ↦ (ok tt, s') | err e ↦ (err e, s') ]
      ]
      else (ok tt, s)

  abbrev pub make_dirs : String → Exec d (Unit {0})
  make_dirs path s = elim (d.parent path) [
    | none ↦ (ok tt, s)
    | some dir ↦ of_io (d.create_dir_all dir s)
  ]

  -- the write to a temporary file, and the renaming
  unfoldable pub write_over : String → Bytes → Exec d (Unit {0})
  write_over path b s = make_dirs path s and_next λ s1.
      of_io (d.write (ops.with_tmp path) b s1) and_next λ s2.
      of_io (d.rename (ops.with_tmp path) path s2)

  unfoldable pub restore : String → Option String → Exec d Action
  unfolding retrieve write_over
  restore path none s = (err other, s)
  restore path (some id) s = elim (retrieve d id s) [
    | err e ↦ (err e, s)
    | ok b ↦ write_over path b s and_next λ s'. (ok (restored id), s')
  ]

  unfoldable pub undo : AuditEntry Json → String → Exec d Action
  unfolding restore
  undo entry path s = elim entry.operation [
    | create_op ↦
        if d.exists path s
        then (of_io (d.remove_file path s) and_next λ s'. (ok deleted, s'))
        else (ok already_absent, s)
    | update_op ↦ restore path entry.before_snapshot_id s
    | delete_op ↦ restore path entry.before_snapshot_id s
    | move_op ↦ (err other, s)
    | rollback_op ↦ (err other, s)
  ]

  abbrev pub is_supported : OperationType → Bool
  is_supported move_op = false
  is_supported rollback_op = false
  is_supported _ = true

  -- the rollback's own entry, whose failure is only logged
  abbrev pub log_rollback :
      String → AuditEntry Json → Result Action × d.State → Result Action × d.State
  log_rollback id entry (err e, s) = (err e, s)
  log_rollback id entry (ok action, s) = (
    ok action,
    (d.record_entry (new_entry entry.path rollback_op none (some (ops.metadata id entry.operation)))
        s).1,
  )

  unfoldable pub execute_entry : String → AuditEntry Json → String → Exec d Action
  unfolding save_current undo
  execute_entry id entry path s =
      if is_supported entry.operation
      then (save_current path s and_next λ s1. log_rollback id entry (undo entry path s1))
      else (err other, s)

  -- RollbackEngine::execute
  unfoldable pub execute : String → Exec d Action
  unfolding execute_entry
  execute id s = elim (ops.get_entry id s) [
    | err e ↦ (err e, s)
    | ok none ↦ (err not_found_in_graph, s)
    | ok (some entry) ↦ elim (ops.validate entry.path) [
      | err e ↦ (err e, s)
      | ok path ↦ execute_entry id entry path s
    ]
  ]
