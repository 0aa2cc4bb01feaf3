-- ===== src/Tests/Git.antt =====
-- The theorems on the git backend at concrete inputs.
use turbovault.Common.{ℕ, ◌≡◌, ◌≢◌, refl, false, Option, none, some, [], ◌∷◌, All, ◌↔◌, arith}
use turbovault.Common.Table.{Table, lookup, insert, remove as remove_key, contains_key}
use turbovault.Core.Error.{ok, err}
use turbovault.Core.Plan.{
  Bytes, ChangePlan, upsert, rename, expect_exists, expect_absent, touched_paths, touched,
  change_paths,
}
use turbovault.Git.Error.{concurrency, other_error, got, Exec}
use turbovault.Git.Repo.{Repo}
use turbovault.Git.Cas.{cas_ref, commit_loop, commit_with_retry_n, swap}
use turbovault.Git.Cas.Laws.{cas_ref-conflict, Ended, commit_with_retry_n-Ended}
use turbovault.Git.Cas.Bound.{
  nothing_lost, lose, commit_with_retry_n-wins, commit_with_retry_n-exhausted,
}
use turbovault.Git.Occ.{
  HoldsIn, check_preconditions, check_preconditions_iff, check_found, found_at,
}
use turbovault.Git.Plumbing.{
  blob_oid_at, read_blob, seed, stage, build_tree, find_commits, commit_tree,
}
use turbovault.Git.Materialize.{
  bytes_eq, expected_at, actual_at, all_match, base_tree, ensure_worktree_matches_commit,
}
use turbovault.Git.Changeset.{has_duplicate, resolve_tree_changes, commit_if_changed, attempt}
use turbovault.Git.Committed.{Committed, commit_changeset-Committed}
use turbovault.Direct.Apply.{make_parent, rename_or_clean}
use turbovault.Git.Changeset.{
  ChangesetResult, commit_changeset, with_commit_lock, run_locked, publish,
}
use turbovault.Git.Cas.{commit_with_retry}
use turbovault.Git.Materialize.{
  materialize, find_commit_tree, materialize_tree, materialize_all, materialize_one, sync, reveal,
  clear,
}
use turbovault.Tests.Memory.{read_file, write_file, move_file, delete_file, xs, total}
use turbovault.Tests.Repository.{Oid, commit_id, World, same_oid, list_eq, pair_eq}
use turbovault.Tests.RepositoryLaws.{repository, repository_laws}

abbrev files : Table Bytes
files = ("a.md", 1 ∷ []) ∷ []

abbrev base : Oid
base = commit_id files

-- A branch with one note, which the working tree has too.
abbrev start : World
start = record {
  memory = record { files = ("va.md", 1 ∷ []) ∷ []; log = [] };
  tip = some base;
  pending = none;
}

-- Move the note, and write another one.
abbrev plan : ChangePlan ℕ
plan = record {
  message = "move";
  changes = rename "a.md" "b.md" ∷ upsert "c.md" (2 ∷ []) ∷ [];
  preconditions = ("a.md", expect_exists) ∷ ("b.md", expect_absent) ∷ [];
  metadata = none;
}

abbrev next : Oid
next = commit_id (("b.md", 1 ∷ []) ∷ ("c.md", 2 ∷ []) ∷ [])

abbrev landed : World
landed = record start { tip = some next }

runs :
    commit_with_retry_n repository "main" 8 (attempt repository plan) start
    ≡ (ok (some base, some next), landed)
unfolding commit_with_retry_n commit_loop cas_ref swap attempt ensure_worktree_matches_commit
    all_match expected_at actual_at base_tree bytes_eq touched_paths touched change_paths
    check_preconditions check_found found_at blob_oid_at read_blob resolve_tree_changes build_tree
    seed stage commit_if_changed commit_tree find_commits same_oid list_eq pair_eq lookup insert
    remove_key contains_key read_file
runs = refl

notes : All repository_laws.IsFile (touched_paths plan)
unfolding repository_laws touched_paths touched change_paths
notes = (tt, (tt, (tt, tt)))

commit_with_retry_n-Ended_example :
    Ended repository repository_laws "main" (attempt repository plan) (some base) (some next) landed
commit_with_retry_n-Ended_example =
    commit_with_retry_n-Ended repository repository_laws "main" 8 (attempt repository plan)
      (some base) (some next) start landed runs

abbrev answer : ChangesetResult Oid
answer = record { commit = next; paths = "a.md" ∷ "b.md" ∷ "c.md" ∷ []; no_op = false }

abbrev revealed : World
revealed = (commit_changeset repository plan start).1

answers : commit_changeset repository plan start ≡ (ok answer, revealed)
unfolding commit_changeset with_commit_lock run_locked commit_with_retry publish materialize
    find_commit_tree materialize_tree materialize_all materialize_one sync reveal clear
    rename_or_clean make_parent has_duplicate commit_with_retry_n commit_loop cas_ref swap attempt
    ensure_worktree_matches_commit all_match expected_at actual_at base_tree bytes_eq touched_paths
    touched change_paths check_preconditions check_found found_at blob_oid_at read_blob
    resolve_tree_changes build_tree seed stage commit_if_changed commit_tree find_commits same_oid
    list_eq pair_eq lookup insert remove_key contains_key read_file write_file move_file delete_file
    xs total
answers = refl

commit_changeset-Committed_example :
    (has_duplicate [] (touched_paths plan) ≡ false)
    × Committed repository repository_laws plan answer start revealed
commit_changeset-Committed_example =
    commit_changeset-Committed repository repository_laws plan answer start revealed notes answers

differs : some base ≢ none
differs e = cc

cas_ref-conflict_example :
    ((cas_ref repository "main" none next start).0 ≡ err concurrency)
    × (repository.refname_to_id "main" (cas_ref repository "main" none next start).1 ≡ got base)
cas_ref-conflict_example =
    cas_ref-conflict repository repository_laws "main" none (some base) next start start refl refl
      refl differs

-- A builder that always has the same commit, and a repository where another process moves the branch
-- whenever the lock is taken.
abbrev fixed : Option Oid → Exec World (Option Oid)
fixed tip w = (ok (some next), w)

abbrev contested : Repo ℕ
contested = record repository { lock_ref = λ r w. (got tt, record w { tip = some (commit_id []) }) }

won : cas_ref repository "main" (some base) next start ≡ (ok tt, landed)
unfolding cas_ref swap same_oid list_eq pair_eq bytes_eq
won = refl

abbrev overtaken : World
overtaken = record start { tip = some (commit_id []) }

lost : cas_ref contested "main" (some base) next start ≡ (err concurrency, overtaken)
unfolding cas_ref swap same_oid list_eq pair_eq bytes_eq
lost = refl

commit_with_retry_n-wins_example :
    commit_with_retry_n repository "main" 8 fixed start ≡ (ok (some base, some next), landed)
commit_with_retry_n-wins_example =
    commit_with_retry_n-wins repository "main" 8 0 fixed (some base) next start start landed
      (omega arith) nothing_lost (start, refl, refl, won)

commit_with_retry_n-exhausted_example :
    commit_with_retry_n contested "main" 0 fixed start ≡ (err other_error, overtaken)
commit_with_retry_n-exhausted_example =
    commit_with_retry_n-exhausted contested "main" 0 fixed start overtaken
      (lose (some base) next (start, refl, refl, lost) nothing_lost)

check_preconditions_iff_example :
    (check_preconditions repository none plan.preconditions start ≡ ok tt)
    ↔ All (HoldsIn repository none start) plan.preconditions
check_preconditions_iff_example =
    check_preconditions_iff repository repository_laws none plan.preconditions start
