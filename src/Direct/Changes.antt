-- ===== src/Direct/Changes.antt =====
-- What one change of a plan does to the vault's files on the direct write path
-- (crates/turbovault-vault/src/substrate.rs), when it succeeds and when it fails.
use turbovault.Common.{
  String, ◌≡◌, ◌≢◌, ◌∙◌, inl, inr, Bool, false, Option, none, some, arith, ◌==◌, eq_iff,
  if◌then◌else◌,
}
use turbovault.Core.Error.{crosses_devices, Error, ok, err}
use turbovault.Core.Plan.{Bytes}
use turbovault.Direct.Disk.{done, Io-cases, move_op, delete_op, Disk, DiskLaws, content}
use turbovault.Direct.Apply.{
  make_parent, write_temp, do_upsert, do_remove, rename_or_copy, do_rename, create_or_update,
}
use turbovault.Direct.Steps.{
  record_audit-content, make_parent-content, write_temp-ok, write_temp-err,
}

module _ {Json : Type 0} (d : Disk Json) (laws : DiskLaws d) where
  pub do_upsert-ok :
      (audit : Bool) (p : String) (c : Bytes) (m : Option Json) (q : String) (s : d.State)
      → laws.is_own q ≡ false
      → (do_upsert d audit p c m s).0 ≡ ok tt
      → content d (do_upsert d audit p c m s).1 q
        ≡ (if d.join p == q then some c else content d s q)
  unfolding do_upsert
  do_upsert-ok audit p c m q s own h =
      let before = content d s (d.join p) in
      let s1 = (make_parent d (d.join p) s).1 in
      let s2 = (write_temp d (d.join p) c s1).1 in
      ground (
        arith,
        make_parent-content d laws (d.join p) q s,
        write_temp-ok d laws p c q s1,
        record_audit-content d laws audit p (create_or_update before) before (some c) none m q s2
            own,
      )

  pub do_upsert-err :
      (audit : Bool) (p : String) (c b : Bytes) (m : Option Json) (q : String) (s : d.State)
      (e : Error)
      → (do_upsert d audit p c m s).0 ≡ err e
      → content d s q ≡ some b
      → content d (do_upsert d audit p c m s).1 q ≡ some b
  unfolding do_upsert
  do_upsert-err audit p c b m q s e h old =
      let s1 = (make_parent d (d.join p) s).1 in
      ground (arith, make_parent-content d laws (d.join p) q s, write_temp-err d laws p c b q s1 e)

  pub do_remove-ok :
      (audit : Bool) (p : String) (m : Option Json) (q : String) (s : d.State)
      → laws.is_own q ≡ false
      → (do_remove d audit p m s).0 ≡ ok tt
      → content d (do_remove d audit p m s).1 q ≡ (if d.join p == q then none else content d s q)
  unfolding do_remove
  do_remove-ok audit p m q s own h =
      let s1 = (d.remove_file (d.join p) s).1 in
      ground (
        arith,
        laws.read_remove_file (d.join p) q s,
        record_audit-content d laws audit p delete_op (content d s (d.join p)) none none m q s1 own,
      )

  pub do_remove-err :
      (audit : Bool) (p : String) (m : Option Json) (q : String) (s : d.State) (e : Error)
      → (do_remove d audit p m s).0 ≡ err e
      → content d (do_remove d audit p m s).1 q ≡ content d s q
  unfolding do_remove
  do_remove-err audit p m q s e h = elim (Io-cases (d.remove_file (d.join p) s).0) [
    | inl (u, x) ↦ ground arith
    | inr (x, r) ↦ ground (arith, laws.read_remove_file_fail (d.join p) q x s r)
  ]

  rename_or_copy-ok :
      (p r q : String) (b : Bytes) (s : d.State)
      → content d s p ≡ some b
      → (rename_or_copy d p r s).0 ≡ ok tt
      → content d (rename_or_copy d p r s).1 q
        ≡ (if r == q then content d s p else if p == q then none else content d s q)
  unfolding rename_or_copy
  rename_or_copy-ok p r q b s old h =
      let s1 = (d.rename p r s).1 in
      let s2 = (d.copy p r s1).1 in
      ground (
        arith,
        laws.read_rename p r q b s old,
        laws.read_rename_fail p r q crosses_devices s,
        laws.read_rename_fail p r p crosses_devices s,
        laws.rename_same_device p s,
        laws.read_copy p r q s1,
        laws.read_remove_file p q s2,
        eq_iff r q,
        eq_iff p q,
      )

  -- The laws on a failed call, for whatever error.
  rename_fails :
      (p r q : String) (s : d.State)
      → (d.rename p r s).0 ≢ done tt
      → content d (d.rename p r s).1 q ≡ content d s q
  rename_fails p r q s h = elim (Io-cases (d.rename p r s).0) [
    | inl (u, e) ↦ absurd (h e)
    | inr (x, e) ↦ laws.read_rename_fail p r q x s e
  ]

  remove_fails :
      (p q : String) (s : d.State)
      → (d.remove_file p s).0 ≢ done tt
      → content d (d.remove_file p s).1 q ≡ content d s q
  remove_fails p q s h = elim (Io-cases (d.remove_file p s).0) [
    | inl (u, e) ↦ absurd (h e)
    | inr (x, e) ↦ laws.read_remove_file_fail p q x s e
  ]

  remove_ne :
      (p q : String) (s : d.State)
      → (p == q) ≡ false
      → content d (d.remove_file p s).1 q ≡ content d s q
  remove_ne p q s ne = elim (Io-cases (d.remove_file p s).0) [
    | inl (u, e) ↦ laws.read_remove_file p q s e ∙ rw ne
    | inr (x, e) ↦ laws.read_remove_file_fail p q x s e
  ]

  -- A failed move may spoil its target, and nothing else.
  rename_or_copy-err :
      (p r q : String) (s : d.State) (e : Error)
      → (rename_or_copy d p r s).0 ≡ err e
      → (r == q) ≡ false
      → content d (rename_or_copy d p r s).1 q ≡ content d s q
  unfolding rename_or_copy
  rename_or_copy-err p r q s e h ne =
      let s1 = (d.rename p r s).1 in
      let s2 = (d.copy p r s1).1 in
      let s3 = (d.remove_file p s2).1 in
      ground (
        arith,
        rename_fails p r q s,
        laws.read_copy_ne p r q s1 ne,
        remove_fails p q s2,
        remove_ne r q s3 ne,
      )

  pub do_rename-ok :
      (audit : Bool) (from to : String) (m : Option Json) (q : String) (s : d.State)
      → laws.is_own q ≡ false
      → (do_rename d audit from to m s).0 ≡ ok tt
      → content d (do_rename d audit from to m s).1 q ≡ (
          if d.join to == q
          then content d s (d.join from)
          else if d.join from == q
          then none
          else content d s q)
  unfolding do_rename
  do_rename-ok audit from to m q s own h = elim (Io-cases (d.read (d.join from) s)) [
    | inr (x, r) ↦ ground arith
    | inl (b, r) ↦
        let s1 = (make_parent d (d.join to) s).1 in
        let s2 = (rename_or_copy d (d.join from) (d.join to) s1).1 in
        ground (
          arith,
          make_parent-content d laws (d.join to) q s,
          make_parent-content d laws (d.join to) (d.join from) s,
          rename_or_copy-ok (d.join from) (d.join to) q b s1,
          record_audit-content d laws audit from move_op (some b) (some b) (some to) m q s2 own,
        )
  ]

  pub do_rename-err :
      (audit : Bool) (from to : String) (m : Option Json) (q : String) (s : d.State) (e : Error)
      → (do_rename d audit from to m s).0 ≡ err e
      → (d.join to == q) ≡ false
      → content d (do_rename d audit from to m s).1 q ≡ content d s q
  unfolding do_rename
  do_rename-err audit from to m q s e h ne = elim (Io-cases (d.read (d.join from) s)) [
    | inr (x, r) ↦ ground arith
    | inl (b, r) ↦
        let s1 = (make_parent d (d.join to) s).1 in
        ground (
          arith,
          make_parent-content d laws (d.join to) q s,
          rename_or_copy-err (d.join from) (d.join to) q s1 e,
        )
  ]
