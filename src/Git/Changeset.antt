-- ===== src/Git/Changeset.antt =====
-- crates/turbovault-git/src/changeset.rs: a plan becomes one commit.
use turbovault.Common.{
  String, Bool, true, false, Option, none, some, List, [], ◌∷◌, contains, if◌then◌else◌,
}
use turbovault.Core.Error.{Fallible, ok, err, ◌>>=◌}
use turbovault.Core.Plan.{Change, upsert, remove, rename, ChangePlan, touched_paths}
use turbovault.Direct.Disk.{done, fail}
use turbovault.Git.Error.{GitError, other_error, from_io, Git2, lift, Exec, ◌and_then◌}
use turbovault.Git.Repo.{Repo, State}
use turbovault.Git.Plumbing
use turbovault.Git.Plumbing.{TreeChange, read_blob, build_tree, commit_tree}
use turbovault.Git.Occ.{found_at, check_preconditions}
use turbovault.Git.Cas.{option_eq, commit_with_retry}
use turbovault.Git.Materialize.{ensure_worktree_matches_commit, materialize}

pub record ChangesetResult (Oid : Type 0) : Type 0 where
  pub commit : Oid
  pub paths : List String
  pub no_op : Bool

-- The loop over `touched_paths` with the set `seen`: whether some path comes twice.
unfoldable pub has_duplicate : List String → List String → Bool
has_duplicate seen [] = false
has_duplicate seen (p ∷ ps) =
    let rest = has_duplicate (p ∷ seen) ps in if contains seen p then true else rest

module _ {Json : Type 0} (g : Repo Json) where
  -- VaultRepo::resolve_tree_changes: a rename is folded to a removal and an upsert of the bytes
  -- that the base tree has.
  unfoldable pub resolve_tree_changes :
      Option g.Oid → List Change → State g → Fallible GitError (List TreeChange)
  resolve_tree_changes base [] s = ok []
  resolve_tree_changes base (upsert path content ∷ cs) s =
      resolve_tree_changes base cs s >>= λ out. ok (Plumbing.upsert path content ∷ out)
  resolve_tree_changes base (remove path ∷ cs) s =
      resolve_tree_changes base cs s >>= λ out. ok (Plumbing.remove path ∷ out)
  resolve_tree_changes base (rename from to ∷ cs) s =
      let rest = resolve_tree_changes base cs s in
      found_at g base from s >>= λ found.
      (elim found [ some oid ↦ ok oid | none ↦ err other_error ]) >>= λ oid.
      read_blob g oid s >>= λ content.
      rest >>= λ out. ok (Plumbing.remove from ∷ Plumbing.upsert to content ∷ out)

  abbrev pub tree_of : Option g.Oid → State g → Fallible GitError (Option g.Oid)
  tree_of none s = ok none
  tree_of (some c) s = lift (g.find_commit c s) >>= λ x. ok (some (g.tree_id x))

  abbrev pub as_list : Option g.Oid → List g.Oid
  as_list none = []
  as_list (some o) = o ∷ []

  -- The end of the closure: a tree that is the base's own is not committed.
  unfoldable pub commit_if_changed :
      String → Option g.Oid → Option g.Oid → g.Oid → Exec (State g) (Option g.Oid)
  commit_if_changed message tip base tree s =
      if option_eq g (some tree) base
      then (ok none, s)
      else (commit_tree g tree (as_list tip) message s and_then λ c s1. (ok (some c), s1))

  -- The closure that `commit_changeset` gives to `commit_with_retry`.
  unfoldable pub attempt : ChangePlan Json → Option g.Oid → Exec (State g) (Option g.Oid)
  attempt plan tip s =
      (ensure_worktree_matches_commit g tip (touched_paths plan) s, s) and_then λ u1 s1.
      (tree_of tip s1, s1) and_then λ base s2.
      (check_preconditions g base plan.preconditions s2, s2) and_then λ u3 s3.
      (resolve_tree_changes base plan.changes s3, s3) and_then λ changes s4.
      build_tree g base changes s4 and_then λ tree. commit_if_changed plan.message tip base tree

  -- VaultRepo::with_commit_lock; the mutex of the process is the step itself.
  unfoldable pub with_commit_lock : {T : Type 0} → Exec (State g) T → Exec (State g) T
  with_commit_lock f s =
      let (locked, s1) = g.lock_file s in
      let (r, s2) = f s1 in
      let (unlocked, s3) = g.unlock_file s2 in
      elim locked [
        | fail e ↦ (err (from_io e), s1)
        | done _ ↦ elim unlocked [ done _ ↦ (r, s3) | fail e ↦ (err (from_io e), s3) ]
      ]

  -- What `commit_changeset` does with the answer of `commit_with_retry`.
  unfoldable pub publish :
      List String → Option g.Oid × Option g.Oid → Exec (State g) (ChangesetResult g.Oid)
  publish changed (parent_at_apply, some commit) s = materialize g commit changed s and_then λ u s1.
      (
        ok (record { commit = commit; paths = changed; no_op = false }),
        g.commit_hook parent_at_apply commit s1,
      )
  publish changed (some tip, none) s = (ok (record { commit = tip; paths = []; no_op = true }), s)
  publish changed (none, none) s = (err other_error, s)

  unfoldable pub run_locked : ChangePlan Json → String → Exec (State g) (ChangesetResult g.Oid)
  unfolding publish
  run_locked plan refname s =
      commit_with_retry g refname (attempt plan) s and_then publish (touched_paths plan)

  abbrev branch_of : Git2 (Option String) → Fallible GitError String
  branch_of r =
      lift r >>= λ target. elim target [ some refname ↦ ok refname | none ↦ err other_error ]

  abbrev pub is_empty : List Change → Bool
  is_empty [] = true
  is_empty (c ∷ cs) = false

  -- VaultRepo::commit_changeset
  unfoldable pub commit_changeset : ChangePlan Json → Exec (State g) (ChangesetResult g.Oid)
  commit_changeset plan s =
      if is_empty plan.changes
      then (err other_error, s)
      else if has_duplicate [] (touched_paths plan)
      then (err other_error, s)
      else ((branch_of (g.head_ref s), s) and_then λ refname.
          with_commit_lock (run_locked plan refname))
