-- ===== src/Direct/Refines.antt =====
-- `DirectSubstrate::apply` (crates/turbovault-vault/src/substrate.rs) implements the abstract
-- application of a plan to the files of the vault.
use turbovault.Common.{
  ℕ, String, ◌≡◌, ◌≢◌, ap, ◌∙◌, inl, inr, Bool, false, none, some, List, ◌∷◌, arith, Option-cases,
  take, drop, All,
}
use turbovault.Core.Error.{ok}
use turbovault.Core.Plan.{Bytes, Change, touched, ChangePlan}
use turbovault.Direct.Disk.{Disk, DiskLaws, content}
use turbovault.Direct.Apply.{apply_loop, apply, ApplyOutcome, outcome, changes_to_outcome}
use turbovault.Core.Plan.Effect.{apply_changes}
use turbovault.Direct.Loop.{may_spoil, locate, located, IsNote, Stopped, loop_done, loop-Stopped}

module _ {Json : Type 0} (d : Disk Json) (laws : DiskLaws d) where
  apply-ok :
      (audit : Bool) (plan : ChangePlan Json) (s : d.State) (o : ApplyOutcome)
      → (apply d audit plan s).0 ≡ ok o
      → (o ≡ outcome plan.changes (apply_loop d audit plan.metadata 0 plan.changes s).0)
        × ((apply d audit plan s).1 ≡ (apply_loop d audit plan.metadata 0 plan.changes s).1)
  unfolding apply
  apply-ok audit plan s o h = ground arith

  -- If `apply` answers that no change failed, then what it reports as changed is the whole plan,
  -- with no error, and every file on the disk but the audit log's own reads as after the abstract
  -- run of the plan on the files before, each path of the plan taken as the file that it leads to:
  -- paths may repeat, and two of them (`a.md` and `./a.md`) may lead to one file. The plan may touch
  -- no file of the audit log itself.
  pub apply-refines :
      (audit : Bool) (plan : ChangePlan Json) (s : d.State) (o : ApplyOutcome)
      → All (IsNote d laws) (touched (located d.join plan.changes))
      → (apply d audit plan s).0 ≡ ok o
      → o.failed_at ≡ none
      → (o.changed ≡ changes_to_outcome plan.changes)
        × (o.error ≡ none)
        × ((q : String)
            → IsNote d laws q
            → content d (apply d audit plan s).1 q
              ≡ apply_changes (content d s) (located d.join plan.changes) q)
  unfolding outcome
  apply-refines audit plan s o n h f =
      let loop = apply_loop d audit plan.metadata 0 plan.changes s in
      let (shape, final) = apply-ok audit plan s o h in
      let none_stopped : loop.0 ≡ none = ground arith in
      (
        ground arith,
        ground arith,
        (λ q own.
            ap (λ t. content d t q) final
            ∙ loop_done d laws audit plan.metadata 0 plan.changes s n none_stopped q own),
      )

  -- If `apply` answers that the change at some index failed, then the error is reported, what it
  -- reports as changed is exactly the changes before that index, and every file on the disk that the
  -- abstract run of those changes leaves, each path taken as the file that it leads to, still has
  -- that content, but for the target of a failed move and the audit log's own files. The plan may
  -- touch no file of the audit log itself.
  pub apply_partial :
      (audit : Bool) (plan : ChangePlan Json) (s : d.State) (o : ApplyOutcome) (i : ℕ)
      → All (IsNote d laws) (touched (located d.join plan.changes))
      → (apply d audit plan s).0 ≡ ok o
      → o.failed_at ≡ some i
      → (o.changed ≡ changes_to_outcome (take i plan.changes))
        × (o.error ≢ none)
        × ((c : Change) × (rest : List Change) × (drop i plan.changes ≡ c ∷ rest)
            × ((q : String) (b : Bytes)
                → IsNote d laws q
                → may_spoil (locate d.join c) q ≡ false
                → apply_changes (content d s) (located d.join (take i plan.changes)) q ≡ some b
                → content d (apply d audit plan s).1 q ≡ some b))
  unfolding outcome Stopped
  apply_partial audit plan s o i n h f =
      let loop = apply_loop d audit plan.metadata 0 plan.changes s in
      let (shape, final) = apply-ok audit plan s o h in
      elim (Option-cases loop.0) [
        | inl e ↦ absurd (ground arith)
        | inr (x, e) ↦
            let (k, c, rest, at, split, kept) =
              loop-Stopped d laws audit plan.metadata 0 plan.changes s x n e in
            let index : k ≡ i = ground arith in
            (
              ground arith,
              (λ z. ground arith),
              (
                c,
                rest,
                rw (← index) split,
                (λ q b own ne old. ap (λ t. content d t q) final ∙ kept q b own ne (rw index old)),
              ),
            )
      ]
