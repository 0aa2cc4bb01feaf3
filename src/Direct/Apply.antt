-- ===== src/Direct/Apply.antt =====
-- `DirectSubstrate::apply` of crates/turbovault-vault/src/substrate.rs. The write lock is held from
-- the first check to the last change, so one `apply` is one step for other writers of the process.
use turbovault.Common.{
  ℕ, suc, String, Bool, true, false, Option, none, some, List, [], ◌∷◌, ◌==◌, leb, if◌then◌else◌,
  length, take,
}
use turbovault.Core.Error.{
  not_found, crosses_devices, Error, io, concurrency_error, Result, ok, err, ◌>>=◌, ◌>>◌,
}
use turbovault.Core.Plan.{
  Bytes, Precondition, expect_blob, expect_absent, expect_exists, blind, Change, upsert, remove,
  rename, ChangePlan,
}
use turbovault.Direct.Disk.{
  Io, done, fail, OperationType, create_op, update_op, delete_op, move_op, Disk, content, Exec,
}
use turbovault.Direct.Audit.{record_audit}

-- ApplyOutcome
pub record ApplyOutcome : Type 0 where
  pub changed : List (String × Bool)
  pub commit : Option String
  pub atomic : Bool
  pub failed_at : Option ℕ
  pub error : Option Error

-- ApplyOutcome::into_result
unfoldable pub into_result : ApplyOutcome → Result ApplyOutcome
into_result o = elim o.error [ some e ↦ err e | none ↦ ok o ]

abbrev pub create_or_update : Option Bytes → OperationType
create_or_update none = create_op
create_or_update (some b) = update_op

-- changes_to_outcome
unfoldable pub changes_to_outcome : List Change → List (String × Bool)
changes_to_outcome [] = []
changes_to_outcome (upsert p c ∷ cs) = (p, true) ∷ changes_to_outcome cs
changes_to_outcome (remove p ∷ cs) = (p, false) ∷ changes_to_outcome cs
changes_to_outcome (rename from to ∷ cs) = (from, false) ∷ (to, true) ∷ changes_to_outcome cs

abbrev read_before : Io Bytes → Result (Option Bytes)
read_before (done b) = ok (some b)
read_before (fail not_found) = ok none
read_before (fail e) = err (io e)

-- The two returns of `apply`, after the loop over the changes.
unfoldable pub outcome : List Change → Option (ℕ × Error) → ApplyOutcome
outcome changes none = record {
  changed = changes_to_outcome changes;
  commit = none;
  atomic = leb (length changes) 1;
  failed_at = none;
  error = none;
}
outcome changes (some (idx, e)) = record {
  changed = changes_to_outcome (take idx changes);
  commit = none;
  atomic = leb (length changes) 1;
  failed_at = some idx;
  error = some e;
}

module _ {Json : Type 0} (d : Disk Json) where
  -- hash_bytes
  unfoldable pub hash_bytes : Bytes → String
  hash_bytes b = if d.is_utf8 b then d.compute_hash b else d.sha256_hex b

  -- DirectSubstrate::check_precondition
  unfoldable pub check_precondition : Precondition → Option Bytes → Result (Unit {0})
  unfolding hash_bytes
  check_precondition blind before = ok tt
  check_precondition expect_absent none = ok tt
  check_precondition expect_absent (some b) = err concurrency_error
  check_precondition expect_exists (some b) = ok tt
  check_precondition expect_exists none = err concurrency_error
  check_precondition (expect_blob t) (some b) =
      if hash_bytes b == t then ok tt else err concurrency_error
  check_precondition (expect_blob t) none = err concurrency_error

  -- The body of the loop over the preconditions, on what reading the path gave.
  unfoldable pub check_one : Precondition → Io Bytes → Result (Unit {0})
  unfolding check_precondition
  check_one pc r = read_before r >>= check_precondition pc

  -- The loop over the preconditions; it only reads.
  unfoldable pub check_all : List (String × Precondition) → d.State → Result (Unit {0})
  unfolding check_one
  check_all [] s = ok tt
  check_all ((path, pc) ∷ pcs) s =
      let rest = check_all pcs s in check_one pc (d.read (d.join path) s) >> rest

  -- `if let Some(parent) = path.parent() { create_dir_all(parent)? }`
  unfoldable pub make_parent : String → Exec d (Unit {0})
  make_parent path s = elim (d.parent path) [
    | none ↦ (ok tt, s)
    | some dir ↦
        let (r, s') = d.create_dir_all dir s in
        elim r [ done _ ↦ (ok tt, s') | fail e ↦ (err (io e), s') ]
  ]

  -- `rename(&temp, &full)`, with the temporary file removed if that fails
  unfoldable pub rename_or_clean : String → String → Exec d (Unit {0})
  rename_or_clean temp full s =
      let (r, s') = d.rename temp full s in
      elim r [ done _ ↦ (ok tt, s') | fail e ↦ (err (io e), (d.remove_file temp s').1) ]

  unfoldable pub write_temp : String → Bytes → Exec d (Unit {0})
  unfolding rename_or_clean
  write_temp full new s0 =
      let (uuid, s1) = d.new_v4 s0 in
      let temp = d.temp_path full uuid in
      let (r, s2) = d.write temp new s1 in
      let rest = rename_or_clean temp full s2 in
      elim r [ fail e ↦ (err (io e), s2) | done _ ↦ rest ]

  -- Run `k` if the step before it went well.
  infixl 5 ◌then_do◌
  abbrev pub ◌then_do◌ :
      Result (Unit {0}) × d.State → Exec d (Unit {0}) → Result (Unit {0}) × d.State
  (ok _, s) then_do k = k s
  (err e, s) then_do k = (err e, s)

  -- DirectSubstrate::upsert
  unfoldable pub do_upsert : Bool → String → Bytes → Option Json → Exec d (Unit {0})
  do_upsert audit path new metadata s =
      let full = d.join path in
      let before = content d s full in
      make_parent full s then_do write_temp full new then_do λ t.
      (ok tt, record_audit d audit path (create_or_update before) before (some new) none metadata t)

  -- DirectSubstrate::remove
  unfoldable pub do_remove : Bool → String → Option Json → Exec d (Unit {0})
  do_remove audit path metadata s =
      let full = d.join path in
      let before = content d s full in
      let (r, s') = d.remove_file full s in
      elim r [
        | fail e ↦ (err (io e), s')
        | done _ ↦ (ok tt, record_audit d audit path delete_op before none none metadata s')
      ]

  -- The copy that `rename` falls back to between devices.
  unfoldable pub copy_over : String → String → Exec d (Unit {0})
  copy_over from to s =
      let (r, s1) = d.copy from to s in
      let (q, s2) = d.remove_file from s1 in
      elim r [
        | fail e ↦ (err (io e), s1)
        | done _ ↦ elim q [ done _ ↦ (ok tt, s2) | fail e ↦ (err (io e), (d.remove_file to s2).1) ]
      ]

  unfoldable pub rename_or_copy : String → String → Exec d (Unit {0})
  unfolding copy_over
  rename_or_copy from to s =
      let (r, s') = d.rename from to s in
      let copied = copy_over from to s' in
      elim r [ done _ ↦ (ok tt, s') | fail crosses_devices ↦ copied | fail e ↦ (err (io e), s') ]

  -- DirectSubstrate::rename
  unfoldable pub do_rename : Bool → String → String → Option Json → Exec d (Unit {0})
  do_rename audit from to metadata s = elim (d.read (d.join from) s) [
    | fail e ↦ (err (io e), s)
    | done b ↦
        make_parent (d.join to) s then_do rename_or_copy (d.join from) (d.join to) then_do λ t.
        (ok tt, record_audit d audit from move_op (some b) (some b) (some to) metadata t)
  ]

  unfoldable pub do_change : Bool → Option Json → Change → Exec d (Unit {0})
  do_change audit metadata (upsert path new) = do_upsert audit path new metadata
  do_change audit metadata (remove path) = do_remove audit path metadata
  do_change audit metadata (rename from to) = do_rename audit from to metadata

  -- The loop over the changes, from index `idx`: the index and the error of the change that
  -- stopped it, if one did.
  unfoldable pub apply_loop :
      Bool → Option Json → ℕ → List Change → d.State → Option (ℕ × Error) × d.State
  apply_loop audit metadata idx [] s = (none, s)
  apply_loop audit metadata idx (c ∷ cs) s =
      let (r, s') = do_change audit metadata c s in
      let rest = apply_loop audit metadata (suc idx) cs s' in
      elim r [ err e ↦ (some (idx, e), s') | ok _ ↦ rest ]

  -- DirectSubstrate::apply
  unfoldable pub apply : Bool → ChangePlan Json → Exec d ApplyOutcome
  apply audit plan s =
      let (stop, s') = apply_loop audit plan.metadata 0 plan.changes s in
      elim (check_all plan.preconditions s) [
        | err e ↦ (err e, s)
        | ok _ ↦ (ok (outcome plan.changes stop), s')
      ]
