-- ===== src/Git/Refines.antt =====
-- A plan as one commit (crates/turbovault-git/src/changeset.rs) implements the abstract application
-- of the plan, on whatever commit the branch had when it was moved.
use turbovault.Common.{ℕ, String, ◌≡◌, false, Option, none, some, [], All}
use turbovault.Core.Error.{ok}
use turbovault.Core.Plan.{ChangePlan, touched_paths}
use turbovault.Core.Plan.Effect.{apply_changes, Agree}
use turbovault.Git.Error.{got, optional}
use turbovault.Git.Repo.{Repo, RepoLaws, State, Grows}
use turbovault.Git.Cas.{commit_with_retry_n}
use turbovault.Git.Cas.Laws.{Grows-trans, Ended, commit_with_retry_n-Ended}
use turbovault.Git.Occ.{HoldsIn}
use turbovault.Git.Fold.{has_duplicate-Distinct}
use turbovault.Git.Landed.{commit_files, next_tip}
use turbovault.Git.Attempt.{Applied, attempt-Applied}
use turbovault.Git.Changeset.{has_duplicate, tree_of, attempt}

module _ {Json : Type 0} (g : Repo Json) (laws : RepoLaws g) where
  -- The branch after the loop: it had the tip that the plan was applied to when it was locked, and
  -- it has the new commit; or nothing was committed.
  abbrev pub Moved : String → Option g.Oid → Option g.Oid → State g → Type 0
  Moved r tip none s' = Unit {0}
  Moved r tip (some new) s' =
      (locked : State g) × (optional (g.refname_to_id r locked) ≡ ok tip)
      × (g.refname_to_id r s' ≡ got new)

  -- What the loop leaves: the second state stands for the one after it, or any later one.
  abbrev pub Refined :
      String → ChangePlan Json → Option g.Oid → Option g.Oid → State g → State g → Type 0
  Refined r plan tip out s' final =
      (start : State g) × (optional (g.refname_to_id r start) ≡ ok tip)
      × ((base : Option g.Oid) × (tree_of g tip start ≡ ok base)
          × All (HoldsIn g base start) plan.preconditions)
      × Moved r tip out s'
      × Agree laws.IsFile (commit_files g (next_tip g tip out) final)
          (apply_changes (commit_files g tip start) plan.changes)

  refine :
      (r : String) (plan : ChangePlan Json) (tip out : Option g.Oid) (s' final : State g)
      → Ended g laws r (attempt g plan) tip out s'
      → ((s t : State g) (o : Option g.Oid)
          → attempt g plan tip s ≡ (ok o, t)
          → Applied g laws plan tip o s t)
      → Grows g s' final
      → Refined r plan tip out s' final
  refine r plan tip none s' final (start, read, built) turn later =
      let (base, grows, files) = turn start s' none built in
      (start, read, base, tt, files final later)
  refine r plan tip (some new) s' final (start, mid, read, built, (locked, lock, was, moved, grows))
        turn later =
      let (base, before, files) = turn start mid (some new) built in
      (
        start,
        read,
        base,
        (locked, was, moved),
        files final (Grows-trans g laws mid s' final grows later),
      )

  -- The loop applies a plan that names no path twice to the commit that the branch still had when
  -- it was locked.
  pub refine_later :
      (r : String) (max : ℕ) (plan : ChangePlan Json) (tip out : Option g.Oid)
      (s s' final : State g)
      → has_duplicate [] (touched_paths plan) ≡ false
      → All laws.IsFile (touched_paths plan)
      → commit_with_retry_n g r max (attempt g plan) s ≡ (ok (tip, out), s')
      → Grows g s' final
      → Refined r plan tip out s' final
  unfolding touched_paths
  refine_later r max plan tip out s s' final once files h later =
      refine r plan tip out s' final
        (commit_with_retry_n-Ended g laws r max (attempt g plan) tip out s s' h)
        (λ s t o turn.
          attempt-Applied g laws plan tip o s t turn
            (has_duplicate-Distinct [] (touched_paths plan) once).1 files)
        later
