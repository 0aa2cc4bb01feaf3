-- ===== src/Tests/Rollback.antt =====
-- A rollback on a disk in memory.
use turbovault.Common.{ℕ, ◌≡◌, refl, true, false, none, some, [], ◌∷◌, inl}
use turbovault.Common.Table.{contains_key, lookup, insert, remove}
use turbovault.Core.Error.{ok}
use turbovault.Direct.Disk.{AuditEntry, update_op, content}
use turbovault.Rollback.{RollbackOps, restored, execute, preview}
use turbovault.Rollback.Restores.{Restored, execute-Restored}
use turbovault.Tests.Memory.{
  Memory, memory_disk, memory_laws, at_vault, read_file, write_file, move_file, xs,
}

abbrev entry : AuditEntry ℕ
entry = record {
  operation = update_op;
  path = "a.md";
  new_path = none;
  before_hash = none;
  after_hash = none;
  before_snapshot_id = some "k";
  after_snapshot_id = none;
  metadata = none;
}

abbrev ops : RollbackOps memory_disk
ops = record {
  get_entry = λ id s. ok (some entry);
  validate = λ p. ok (at_vault p);
  with_tmp = λ p. "wa.tmp";
  metadata = λ id operation. 0;
}

-- The file, the snapshot `k`, and a file of the user's under the temporary name.
abbrev start : Memory
start = record {
  files = ("va.md", 9 ∷ []) ∷ ("sk", 1 ∷ 2 ∷ []) ∷ ("wa.tmp", 7 ∷ []) ∷ [];
  log = [];
}

abbrev after : Memory
unfolding execute
after = (execute memory_disk ops "op" start).1

succeeds : (execute memory_disk ops "op" start).0 ≡ ok (restored "k")
unfolding execute read_file write_file move_file contains_key lookup xs insert
succeeds = refl

not_own : memory_laws.is_own "va.md" ≡ false
unfolding memory_laws
not_own = refl

not_own_tmp : memory_laws.is_own "wa.tmp" ≡ false
unfolding memory_laws
not_own_tmp = refl

execute-Restored_example :
    Restored memory_disk ops memory_laws entry "va.md" start (execute memory_disk ops "op" start).1
execute-Restored_example =
    execute-Restored memory_disk ops memory_laws "op" entry "va.md" (restored "k") start refl refl
      (inl refl) refl not_own not_own_tmp succeeds

user_file_lost : content memory_disk after "wa.tmp" ≡ none
unfolding after execute read_file write_file move_file lookup contains_key xs insert remove
user_file_lost = refl

previewed :
    preview memory_disk ops "op" start
    ≡ ok (record {
      current_exists = true;
      current_hash = some "x";
      would_create = false;
      would_delete = false;
      would_modify = true;
    })
unfolding preview read_file contains_key lookup xs
previewed = refl
