-- ===== src/Rollback/Restores.antt =====
-- crates/turbovault-audit/src/rollback.rs, `RollbackEngine::execute`: what a rollback leaves on the disk.
use turbovault.Common.{
  String, ◌≡◌, refl, sym, ◌∙◌, ap, true, false, Option, none, some, ◌==◌, eq_iff, eq_refl,
  if◌then◌else◌, inl, inr, ◌⊎◌, arith, Bool-cases, Option-cases,
}
use turbovault.Core.Error.{Result, ok, err, Result-cases}
use turbovault.Core.Plan.{Bytes}
use turbovault.Direct.Disk.{
  Io, done, fail, Io-cases, update_op, delete_op, rollback_op, AuditEntry, Disk, DiskLaws, content,
}
use turbovault.Direct.Audit.{of_io, new_entry, store, retrieve}
use turbovault.Rollback.{
  RollbackOps, Action, restored, ◌and_next◌, read_to_string, save_current, make_dirs, write_over,
  restore, undo, is_supported, log_rollback, execute_entry, execute,
}

module _ {Json : Type 0} (d : Disk Json) (ops : RollbackOps d) (laws : DiskLaws d) where
  -- the text that was restored, and the files after it
  record Wrote (path : String) (b : Bytes) (s after : d.State) : Type 0 where
    target : content d after path ≡ some b
    temporary : content d after (ops.with_tmp path) ≡ none
    others :
        (q : String)
        → (path == q) ≡ false
        → (ops.with_tmp path == q) ≡ false
        → content d after q ≡ content d s q

  -- A step that succeeds, after one that has.
  and_next-ok :
      {A : Type 0} (first : Result (Unit {0}) × d.State) (next : d.State → Result A × d.State)
      (a : A) (Holds : d.State → Type 0)
      → (◌and_next◌ d ops first next).0 ≡ ok a
      → (first.0 ≡ ok tt → (next first.1).0 ≡ ok a → Holds (next first.1).1)
      → Holds (◌and_next◌ d ops first next).1
  and_next-ok (ok v, s) next a Holds h then_holds = then_holds refl h
  and_next-ok (err e, s) next a Holds h then_holds = absurd (ground (arith, h))

  of_io-done : (r : Io (Unit {0}) × d.State) → (of_io r).0 ≡ ok tt → r.0 ≡ done tt
  of_io-done (done v, s) h = refl
  of_io-done (fail e, s) h = absurd (ground (arith, h))

  of_io-state : (r : Io (Unit {0}) × d.State) → (of_io r).1 ≡ r.1
  of_io-state (done v, s) = refl
  of_io-state (fail e, s) = refl

  make_dirs-content :
      (path q : String) (s : d.State) → content d (make_dirs d ops path s).1 q ≡ content d s q
  make_dirs-content path q s = elim (Option-cases (d.parent path)) [
    | inl e ↦ rw (e, make_dirs) refl
    | inr (dir, e) ↦
        rw (e, make_dirs)
          (ap (λ (t : d.State). content d t q) (of_io-state (d.create_dir_all dir s))
            ∙ laws.read_create_dir_all dir q s)
  ]

  -- the writing and the renaming, on what was read before
  renamed-Wrote :
      (path : String) (b : Bytes) (s s1 : d.State)
      → (path == ops.with_tmp path) ≡ false
      → ((q : String) → content d s1 q ≡ content d s q)
      → (of_io (d.write (ops.with_tmp path) b s1)).0 ≡ ok tt
      → (of_io (d.rename (ops.with_tmp path) path (of_io (d.write (ops.with_tmp path) b s1)).1)).0
        ≡ ok tt
      → Wrote path b s
          (of_io (d.rename (ops.with_tmp path) path (of_io (d.write (ops.with_tmp path) b s1)).1)).1
  renamed-Wrote path b s s1 apart same written moved =
      let tmp = ops.with_tmp path in
      let s2 = (of_io (d.write tmp b s1)).1 in
      let final = (of_io (d.rename tmp path s2)).1 in
      let c2 : (q : String) → content d s2 q ≡ (if tmp == q then some b else content d s q) = λ q.
        ap (λ (t : d.State). content d t q) (of_io-state (d.write tmp b s1))
        ∙ laws.read_write tmp q b s1 (of_io-done (d.write tmp b s1) written)
        ∙ ap (λ (x : Option Bytes). if tmp == q then some b else x) (same q) in
      let c3 : (q : String)
          → content d final q
            ≡ (if path == q then content d s2 tmp else if tmp == q then none else content d s2 q) =
        λ q.
          ap (λ (t : d.State). content d t q) (of_io-state (d.rename tmp path s2))
          ∙ laws.read_rename tmp path q b s2 (c2 tmp ∙ rw (eq_refl tmp))
              (of_io-done (d.rename tmp path s2) moved) in
      record {
        target = ground (arith, c3 path, c2 tmp, eq_refl path, eq_refl tmp);
        temporary = ground (arith, c3 tmp, apart, eq_refl tmp);
        others = λ q h k. ground (arith, c3 q, c2 q, h, k);
      }

  write_over-Wrote :
      (path : String) (b : Bytes) (s : d.State)
      → (path == ops.with_tmp path) ≡ false
      → (write_over d ops path b s).0 ≡ ok tt
      → Wrote path b s (write_over d ops path b s).1
  unfolding write_over
  write_over-Wrote path b s apart h =
      let tmp = ops.with_tmp path in
      and_next-ok (make_dirs d ops path s) _ tt (Wrote path b s) h (λ made h1.
        and_next-ok (of_io (d.write tmp b (make_dirs d ops path s).1)) _ tt (Wrote path b s) h1
          (λ written h2.
            renamed-Wrote path b s (make_dirs d ops path s).1 apart
              (λ q. make_dirs-content path q s) written h2))

  store-content :
      (b : Bytes) (q : String) (s : d.State)
      → laws.is_own q ≡ false
      → content d (store d b s).1 q ≡ content d s q
  unfolding store
  store-content b q s not_own =
      let path = d.snapshot_path (d.sha256_hex b) in
      let apart : (path == q) ≡ false =
        ground (arith, eq_iff path q, laws.own_snapshot (d.sha256_hex b), not_own) in
      let same = laws.read_write_ne path q b s apart in
      elim (Bool-cases (d.exists path s)) [
        | inl e ↦ rw (e, store) refl
        | inr e ↦ elim (Io-cases (d.write path b s).0) [
          | inl (v, f) ↦ rw (e, f, store) same
          | inr (x, f) ↦ rw (e, f, store) same
        ]
      ]

  save_current-content :
      (path q : String) (s : d.State)
      → laws.is_own q ≡ false
      → content d (save_current d ops path s).1 q ≡ content d s q
  unfolding save_current
  save_current-content path q s not_own = elim (Bool-cases (d.exists path s)) [
    | inr e ↦ rw (e, save_current) refl
    | inl e ↦ elim (Result-cases (read_to_string d ops path s)) [
      | inr (x, f) ↦ rw (e, f, save_current) refl
      | inl (b, f) ↦
          let same = store-content b q s not_own in
          elim (Result-cases (store d b s).0) [
            | inl (i, g) ↦ rw (e, f, g, save_current) same
            | inr (x, g) ↦ rw (e, f, g, save_current) same
          ]
    ]
  ]

  -- the content of the snapshot that was asked for, and the files after a rollback to it
  pub record Restored (entry : AuditEntry Json) (path : String) (s after : d.State) : Type 0 where
    pub snapshot_id : String
    pub before : Bytes
    pub named : entry.before_snapshot_id ≡ some snapshot_id
    pub retrieved : retrieve d snapshot_id (save_current d ops path s).1 ≡ ok before
    pub target : content d after path ≡ some before
    pub temporary : content d after (ops.with_tmp path) ≡ none
    pub others :
        (q : String)
        → laws.is_own q ≡ false
        → (path == q) ≡ false
        → (ops.with_tmp path == q) ≡ false
        → content d after q ≡ content d s q

  opened :
      (path snap : String) (b : Bytes) (s : d.State) (entry : AuditEntry Json)
      → entry.before_snapshot_id ≡ some snap
      → retrieve d snap s ≡ ok b
      → restore d ops path entry.before_snapshot_id s
        ≡ ◌and_next◌ d ops (write_over d ops path b s) (λ t. (ok (restored snap), t))
  unfolding restore
  opened path snap b s entry e f = rw (e, restore, f) refl

  restore-Restored :
      (entry : AuditEntry Json) (path : String) (action : Action) (s : d.State)
      → (path == ops.with_tmp path) ≡ false
      → (restore d ops path entry.before_snapshot_id (save_current d ops path s).1).0 ≡ ok action
      → Restored entry path s
          (restore d ops path entry.before_snapshot_id (save_current d ops path s).1).1
  unfolding restore
  restore-Restored entry path action s apart h =
      let s1 = (save_current d ops path s).1 in
      elim (Option-cases entry.before_snapshot_id) [
        | inl e ↦ absurd (ground (arith, h, e))
        | inr (snap, e) ↦ elim (Result-cases (retrieve d snap s1)) [
          | inr (x, f) ↦ absurd (ground (arith, h, e, f))
          | inl (b, f) ↦
              let went : (◌and_next◌ d ops (write_over d ops path b s1)
                    (λ t. (ok (restored snap), t))).0
                  ≡ ok action =
                sym (ap (λ (r : Result Action × d.State). r.0) (opened path snap b s1 entry e f))
                ∙ h in
              rw (opened path snap b s1 entry e f) (
                and_next-ok (write_over d ops path b s1) _ action (Restored entry path s) went
                  (λ wrote done_it.
                    let w = write_over-Wrote path b s1 apart wrote in
                    record {
                      snapshot_id = snap;
                      before = b;
                      named = e;
                      retrieved = f;
                      target = w.target;
                      temporary = w.temporary;
                      others = λ q own p t. w.others q p t ∙ save_current-content path q s own;
                    }))
        ]
      ]

  -- the rollback's own entry changes no other file
  logged-Restored :
      (id : String) (entry : AuditEntry Json) (path : String) (action : Action) (s : d.State)
      (r : Result Action × d.State)
      → laws.is_own path ≡ false
      → laws.is_own (ops.with_tmp path) ≡ false
      → (log_rollback d ops id entry r).0 ≡ ok action
      → (r.0 ≡ ok action → Restored entry path s r.1)
      → Restored entry path s (log_rollback d ops id entry r).1
  logged-Restored id entry path action s (err e, t) own own_tmp h before =
      absurd (ground (arith, h))
  logged-Restored id entry path action s (ok a, t) own own_tmp h before =
      let done_before = before h in
      let note = new_entry entry.path rollback_op none (some (ops.metadata id entry.operation)) in
      record {
        snapshot_id = done_before.snapshot_id;
        before = done_before.before;
        named = done_before.named;
        retrieved = done_before.retrieved;
        target = laws.read_record_entry note path t own ∙ done_before.target;
        temporary =
            laws.read_record_entry note (ops.with_tmp path) t own_tmp ∙ done_before.temporary;
        others =
            λ q own_q p w. laws.read_record_entry note q t own_q ∙ done_before.others q own_q p w;
      }

  undo-restore :
      (entry : AuditEntry Json) (path : String) (s : d.State)
      → (entry.operation ≡ update_op) ⊎ (entry.operation ≡ delete_op)
      → undo d ops entry path s ≡ restore d ops path entry.before_snapshot_id s
  unfolding undo
  undo-restore entry path s (inl e) = rw (e, undo) refl
  undo-restore entry path s (inr e) = rw (e, undo) refl

  supported :
      (entry : AuditEntry Json)
      → (entry.operation ≡ update_op) ⊎ (entry.operation ≡ delete_op)
      → is_supported d ops entry.operation ≡ true
  supported entry (inl e) = rw e refl
  supported entry (inr e) = rw e refl

  execute_entry-Restored :
      (id : String) (entry : AuditEntry Json) (path : String) (action : Action) (s : d.State)
      → (entry.operation ≡ update_op) ⊎ (entry.operation ≡ delete_op)
      → (path == ops.with_tmp path) ≡ false
      → laws.is_own path ≡ false
      → laws.is_own (ops.with_tmp path) ≡ false
      → (execute_entry d ops id entry path s).0 ≡ ok action
      → Restored entry path s (execute_entry d ops id entry path s).1
  unfolding execute_entry
  execute_entry-Restored id entry path action s kind apart own own_tmp h =
      let s1 = (save_current d ops path s).1 in
      let next = λ (t : d.State). log_rollback d ops id entry (undo d ops entry path t) in
      let whole : execute_entry d ops id entry path s
          ≡ ◌and_next◌ d ops (save_current d ops path s) next =
        rw (supported entry kind, execute_entry) refl in
      let went = sym (ap (λ (r : Result Action × d.State). r.0) whole) ∙ h in
      rw whole (
        and_next-ok (save_current d ops path s) next action (Restored entry path s) went
          (λ saved logged.
            logged-Restored id entry path action s (undo d ops entry path s1) own own_tmp logged
              (λ undone. rw (undo-restore entry path s1 kind) (
                restore-Restored entry path action s apart (
                  sym (ap (λ (r : Result Action × d.State). r.0) (undo-restore entry path s1 kind))
                  ∙ undone)))))

  -- If a rollback of an update or of a deletion succeeds, the recorded snapshot was found, its content
  -- is now the file's, and every file but this one, the audit's own and the one under the temporary
  -- name is as it was; whatever stood under the temporary name is gone. The temporary name is not the
  -- path, and neither is the audit's own.
  pub execute-Restored :
      (id : String) (entry : AuditEntry Json) (path : String) (action : Action) (s : d.State)
      → ops.get_entry id s ≡ ok (some entry)
      → ops.validate entry.path ≡ ok path
      → (entry.operation ≡ update_op) ⊎ (entry.operation ≡ delete_op)
      → (path == ops.with_tmp path) ≡ false
      → laws.is_own path ≡ false
      → laws.is_own (ops.with_tmp path) ≡ false
      → (execute d ops id s).0 ≡ ok action
      → Restored entry path s (execute d ops id s).1
  unfolding execute
  execute-Restored id entry path action s found valid kind apart own own_tmp h =
      let whole : execute d ops id s ≡ execute_entry d ops id entry path s =
        rw (found, execute, valid) refl in
      rw whole (
        execute_entry-Restored id entry path action s kind apart own own_tmp
          (sym (ap (λ (r : Result Action × d.State). r.0) whole) ∙ h))
