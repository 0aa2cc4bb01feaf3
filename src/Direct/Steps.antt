-- ===== src/Direct/Steps.antt =====
-- What each step of the direct write path (crates/turbovault-vault/src/substrate.rs) does to the
-- files that the audit log does not own.
use turbovault.Common.{
  String, ◌≡◌, refl, ◌∙◌, inl, inr, Bool, true, false, Option, none, some, arith, ◌==◌, eq_iff,
  eq_refl, if◌then◌else◌, Option-cases,
}
use turbovault.Core.Error.{not_found, crosses_devices, other_kind, Error, ok, err}
use turbovault.Core.Plan.{Bytes}
use turbovault.Direct.Disk.{OperationType, AuditEntry, Disk, DiskLaws, content}
use turbovault.Direct.Audit.{store, snapshot, record_audit, new_entry, with_before, with_after}
use turbovault.Direct.Apply.{make_parent, write_temp}

module _ {Json : Type 0} (d : Disk Json) (laws : DiskLaws d) where
  store-content :
      (b : Bytes) (q : String) (s : d.State)
      → laws.is_own q ≡ false
      → content d (store d b s).1 q ≡ content d s q
  unfolding store
  store-content b q s h = ground (
    arith,
    laws.read_write_ne (d.snapshot_path (d.sha256_hex b)) q b s,
    eq_iff (d.snapshot_path (d.sha256_hex b)) q,
    laws.own_snapshot (d.sha256_hex b),
  )

  snapshot-content :
      (note : AuditEntry Json → String → String → AuditEntry Json) (o : Option Bytes)
      (e : AuditEntry Json) (q : String) (s : d.State)
      → laws.is_own q ≡ false
      → content d (snapshot d note o e s).1 q ≡ content d s q
  unfolding snapshot
  snapshot-content note none e q s h = refl
  snapshot-content note (some b) e q s h = ground (arith, store-content b q s h)

  pub record_audit-content :
      (audit : Bool) (path : String) (op : OperationType) (before after : Option Bytes)
      (new_path : Option String) (metadata : Option Json) (q : String) (s : d.State)
      → laws.is_own q ≡ false
      → content d (record_audit d audit path op before after new_path metadata s) q ≡ content d s q
  unfolding record_audit
  record_audit-content false path op before after new_path metadata q s h = refl
  record_audit-content true path op before after new_path metadata q s h =
      let first = snapshot d with_before before (new_entry path op new_path metadata) s in
      let second = snapshot d with_after after first.0 first.1 in
      laws.read_record_entry second.0 q second.1 h
      ∙ snapshot-content with_after after first.0 q first.1 h
      ∙ snapshot-content with_before before (new_entry path op new_path metadata) q s h

  pub make_parent-content :
      (p q : String) (s : d.State) → content d (make_parent d p s).1 q ≡ content d s q
  unfolding make_parent
  make_parent-content p q s = elim (Option-cases (d.parent p)) [
    | inl e ↦ rw (e, make_parent)
    | inr (dir, e) ↦ ground (arith, laws.read_create_dir_all dir q s)
  ]

  -- `write_temp` puts the new bytes at its target, or fails and leaves every file that there was.
  pub write_temp-ok :
      (p : String) (c : Bytes) (q : String) (s : d.State)
      → (write_temp d (d.join p) c s).0 ≡ ok tt
      → content d (write_temp d (d.join p) c s).1 q
        ≡ (if d.join p == q then some c else content d s q)
  unfolding write_temp
  write_temp-ok p c q s h =
      let s1 = (d.new_v4 s).1 in
      let temp = d.temp_path (d.join p) (d.new_v4 s).0 in
      let s2 = (d.write temp c s1).1 in
      ground (
        arith,
        laws.read_new_v4 q s,
        laws.read_write temp q c s1,
        laws.read_write temp temp c s1,
        laws.read_rename temp (d.join p) q c s2,
        laws.temp_path_fresh (d.join p) s,
        eq_iff temp q,
        eq_refl temp,
      )

  pub write_temp-err :
      (p : String) (c b : Bytes) (q : String) (s : d.State) (e : Error)
      → (write_temp d (d.join p) c s).0 ≡ err e
      → content d s q ≡ some b
      → content d (write_temp d (d.join p) c s).1 q ≡ some b
  unfolding write_temp
  write_temp-err p c b q s e h old =
      let s1 = (d.new_v4 s).1 in
      let temp = d.temp_path (d.join p) (d.new_v4 s).0 in
      let s2 = (d.write temp c s1).1 in
      let s3 = (d.rename temp (d.join p) s2).1 in
      ground (
        arith,
        laws.read_new_v4 q s,
        laws.read_write_ne temp q c s1,
        laws.read_rename_fail temp (d.join p) q crosses_devices s2,
        laws.read_rename_fail temp (d.join p) q not_found s2,
        laws.read_rename_fail temp (d.join p) q other_kind s2,
        laws.read_remove_file temp q s3,
        laws.read_remove_file_fail temp q crosses_devices s3,
        laws.read_remove_file_fail temp q not_found s3,
        laws.read_remove_file_fail temp q other_kind s3,
        laws.temp_path_fresh (d.join p) s,
        eq_iff temp q,
      )
