-- ===== src/Tests/Direct.antt =====
-- The direct write path on a disk in memory: runs, and the theorems at these inputs.
use turbovault.Common.{◌⊎◌, ℕ, String, ◌≡◌, refl, true, false, none, some, [], ◌∷◌, All, take}
use turbovault.Common.Table.{lookup, insert, remove as remove_key, contains_key}
use turbovault.Core.Error.{Error, ok, err, io, not_found}
use turbovault.Core.Plan.{
  upsert, rename, remove, ChangePlan, expect_absent, expect_blob, expect_exists, touched,
}
use turbovault.Direct.Disk.{content}
use turbovault.Direct.Apply.{
  ApplyOutcome, apply, check_all, apply_loop, do_change, do_upsert, do_rename, do_remove,
  make_parent, write_temp, rename_or_copy, outcome, changes_to_outcome, hash_bytes,
}
use turbovault.Direct.Audit.{record_audit}
use turbovault.Direct.Gate.{HoldsAt, apply_gate}
use turbovault.Core.Plan.Effect.{apply_changes}
use turbovault.Direct.Loop.{located, IsNote}
use turbovault.Direct.Refines.{apply-refines, apply_partial}
use turbovault.Tests.Memory.{
  Memory, memory_disk, memory_laws, at_vault, read_file, write_file, move_file, copy_file,
  delete_file, xs, total,
}

abbrev start : Memory
start = record { files = (at_vault "a.md", 1 ∷ 2 ∷ []) ∷ []; log = [] }

-- Creates b.md and moves a.md to c.md.
abbrev good_plan : ChangePlan ℕ
good_plan = record {
  message = "move";
  changes = upsert "b.md" (3 ∷ []) ∷ rename "a.md" "c.md" ∷ [];
  preconditions = ("b.md", expect_absent) ∷ ("a.md", expect_blob "xx") ∷ [];
  metadata = none;
}

-- The second change removes a file that is not there.
abbrev bad_plan : ChangePlan ℕ
bad_plan = record good_plan {
  changes = upsert "b.md" (3 ∷ []) ∷ remove "gone.md" ∷ rename "a.md" "c.md" ∷ [];
}

abbrev stale_plan : ChangePlan ℕ
stale_plan = record good_plan { preconditions = ("b.md", expect_exists) ∷ [] }

abbrev good_outcome : ApplyOutcome
good_outcome = record {
  changed = ("b.md", true) ∷ ("a.md", false) ∷ ("c.md", true) ∷ [];
  commit = none;
  atomic = false;
  failed_at = none;
  error = none;
}

abbrev bad_outcome : ApplyOutcome
bad_outcome = record good_outcome {
  changed = ("b.md", true) ∷ [];
  failed_at = some 1;
  error = some (io not_found);
}

good_run : (apply memory_disk true good_plan start).0 ≡ ok good_outcome
unfolding apply check_all apply_loop do_change do_upsert do_rename do_remove make_parent write_temp
    rename_or_copy record_audit outcome changes_to_outcome read_file write_file move_file copy_file
    delete_file lookup insert remove_key contains_key xs total
good_run = refl

bad_run : (apply memory_disk true bad_plan start).0 ≡ ok bad_outcome
unfolding apply check_all apply_loop do_change do_upsert do_rename do_remove make_parent write_temp
    rename_or_copy record_audit outcome changes_to_outcome read_file write_file move_file copy_file
    delete_file lookup insert remove_key contains_key xs total
bad_run = refl

-- The move of the third change is not made after the second fails.
bad_run_files :
    (content memory_disk (apply memory_disk true bad_plan start).1 (at_vault "b.md")
      ≡ some (3 ∷ []))
    × (content memory_disk (apply memory_disk true bad_plan start).1 (at_vault "c.md") ≡ none)
unfolding apply check_all apply_loop do_change do_upsert do_rename do_remove make_parent write_temp
    rename_or_copy record_audit outcome changes_to_outcome read_file write_file move_file copy_file
    delete_file lookup insert remove_key contains_key xs total
bad_run_files = (refl, refl)

good_checks : All (HoldsAt memory_disk start) good_plan.preconditions
unfolding apply check_all apply_loop do_change do_upsert do_rename do_remove make_parent write_temp
    rename_or_copy record_audit outcome changes_to_outcome read_file write_file move_file copy_file
    delete_file lookup insert remove_key contains_key xs total hash_bytes
good_checks = (refl, (refl, tt))

stale_checks : ¬ All (HoldsAt memory_disk start) stale_plan.preconditions
unfolding apply check_all apply_loop do_change do_upsert do_rename do_remove make_parent write_temp
    rename_or_copy record_audit outcome changes_to_outcome read_file write_file move_file copy_file
    delete_file lookup insert remove_key contains_key xs total
stale_checks h = absurd h.0

apply_gate_example :
    (All (HoldsAt memory_disk start) good_plan.preconditions
      × ((apply memory_disk true good_plan start).0
          ≡ ok (
              outcome good_plan.changes
                (apply_loop memory_disk true none 0 good_plan.changes start).0))
      × ((apply memory_disk true good_plan start).1
          ≡ (apply_loop memory_disk true none 0 good_plan.changes start).1))
    ⊎ ((¬ All (HoldsAt memory_disk start) good_plan.preconditions)
        × ((e : Error) × (apply memory_disk true good_plan start ≡ (err e, start))))
apply_gate_example = apply_gate memory_disk true good_plan start

notes : All (IsNote memory_disk memory_laws) (touched (located at_vault good_plan.changes))
unfolding touched memory_laws
notes = (refl, (refl, (refl, tt)))

apply-refines_example :
    (good_outcome.changed ≡ changes_to_outcome good_plan.changes)
    × (good_outcome.error ≡ none)
    × ((q : String)
        → IsNote memory_disk memory_laws q
        → content memory_disk (apply memory_disk true good_plan start).1 q
          ≡ apply_changes (content memory_disk start) (located at_vault good_plan.changes) q)
apply-refines_example =
    apply-refines memory_disk memory_laws true good_plan start good_outcome notes good_run refl

bad_notes : All (IsNote memory_disk memory_laws) (touched (located at_vault bad_plan.changes))
unfolding touched memory_laws
bad_notes = (refl, (refl, (refl, (refl, tt))))

apply_partial_example : bad_outcome.changed ≡ changes_to_outcome (take 1 bad_plan.changes)
apply_partial_example =
    (apply_partial memory_disk memory_laws true bad_plan start bad_outcome 1 bad_notes bad_run
      refl).0
