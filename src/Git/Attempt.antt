-- ===== src/Git/Attempt.antt =====
-- One turn of `commit_changeset` (crates/turbovault-git/src/changeset.rs): what its commit holds.
use turbovault.Common.{String, ◌≡◌, refl, ap, ◌∙◌, inl, inr, Option, List, [], ◌∷◌, arith, All}
use turbovault.Core.Error.{ok, Result-cases}
use turbovault.Core.Plan.{Bytes, ChangePlan, touched, touched_paths}
use turbovault.Core.Plan.Effect.{apply_changes, Agree, apply_changes-Agree}
use turbovault.Git.Error.{got}
use turbovault.Git.Repo.{Repo, RepoLaws, State, Grows}
use turbovault.Git.Cas.Laws.{Grows-trans}
use turbovault.Git.Occ.{check_preconditions, HoldsIn, check_preconditions_iff}
use turbovault.Git.Plumbing.{TreeChange, build_tree}
use turbovault.Git.Tree.{base_files, tree_files}
use turbovault.Git.Built.{build_tree-base, build_tree-files}
use turbovault.Git.Fold.{Distinct, touched-resolve_tree_changes, resolve_tree_changes-effect}
use turbovault.Git.Materialize.{ensure_worktree_matches_commit}
use turbovault.Git.Changeset.{resolve_tree_changes, tree_of, attempt}
use turbovault.Git.Landed.{commit_files, next_tip, tree_of-files, commit_if_changed-files}

All-same : {A : Type 0} (f : A → Option Bytes) (xs : List A) → All (λ x. f x ≡ f x) xs
All-same f [] = tt
All-same f (x ∷ xs) = (refl, All-same f xs)

module _ {Json : Type 0} (g : Repo Json) (laws : RepoLaws g) where
  -- What a turn promises: the preconditions hold in the base that it found, and from now on the
  -- files of the next tip are those of the base after the plan.
  abbrev pub Applied : ChangePlan Json → Option g.Oid → Option g.Oid → State g → State g → Type 0
  Applied plan tip out s s' =
      ((base : Option g.Oid) × (tree_of g tip s ≡ ok base)
        × All (HoldsIn g base s) plan.preconditions)
      × Grows g s s'
      × ((final : State g)
          → Grows g s' final
          → Agree laws.IsFile (commit_files g (next_tip g tip out) final)
              (apply_changes (commit_files g tip s) plan.changes))

  -- The tree that a turn builds on its base.
  built-files :
      (plan : ChangePlan Json) (tip base : Option g.Oid) (changes : List TreeChange) (t : g.Oid)
      (x : g.Tree) (s s' : State g) (q : String)
      → tree_of g tip s ≡ ok base
      → resolve_tree_changes g base plan.changes s ≡ ok changes
      → build_tree g base changes s ≡ (ok t, s')
      → g.find_tree t s' ≡ got x
      → Distinct (touched plan.changes)
      → All laws.IsFile (touched plan.changes)
      → laws.IsFile q
      → tree_files g x s' q ≡ apply_changes (commit_files g tip s) plan.changes q
  built-files plan tip base changes t x s s' q at resolved built found distinct files own =
      let same = touched-resolve_tree_changes g base plan.changes changes s resolved in
      (build_tree-files g laws base changes t s s' built (rw same files)).1 x found q own
      ∙ resolve_tree_changes-effect g base plan.changes changes (base_files g base s) s resolved
          distinct (All-same (base_files g base s) (touched plan.changes)) q
      ∙ apply_changes-Agree laws.IsFile (base_files g base s) (commit_files g tip s) plan.changes
          files (λ p own. tree_of-files g tip base s p at) q own

  pub attempt-Applied :
      (plan : ChangePlan Json) (tip out : Option g.Oid) (s s' : State g)
      → attempt g plan tip s ≡ (ok out, s')
      → Distinct (touched plan.changes)
      → All laws.IsFile (touched plan.changes)
      → Applied plan tip out s s'
  unfolding attempt
  attempt-Applied plan tip out s s' h distinct files =
      elim (Result-cases (ensure_worktree_matches_commit g tip (touched_paths plan) s)) [
        | inr (e, f) ↦ absurd (ground arith)
        | inl (u, clean) ↦ elim (Result-cases (tree_of g tip s)) [
          | inr (e, f) ↦ absurd (ground arith)
          | inl (base, at) ↦ elim (Result-cases (check_preconditions g base plan.preconditions s)) [
            | inr (e, f) ↦ absurd (ground arith)
            | inl (v, checked) ↦ elim (Result-cases (resolve_tree_changes g base plan.changes s)) [
              | inr (e, f) ↦ absurd (ground arith)
              | inl (changes, resolved) ↦ elim (Result-cases (build_tree g base changes s).0) [
                | inr (e, f) ↦ absurd (ground arith)
                | inl (t, b) ↦
                    let s1 = (build_tree g base changes s).1 in
                    let built : build_tree g base changes s ≡ (ok t, s1) = ap (λ r. (r, s1)) b in
                    let same =
                      touched-resolve_tree_changes g base plan.changes changes s resolved in
                    let grows =
                      (build_tree-files g laws base changes t s s1 built (rw same files)).0 in
                    let (more, (x, tree, next)) =
                      commit_if_changed-files g laws plan.message tip base out t s s1 s'
                        (ground arith) at grows
                        (λ o e. build_tree-base g laws o t changes s s1 (rw (← e) built)) in
                    (
                      (
                        base,
                        at,
                        (check_preconditions_iff g laws base plan.preconditions s).0 checked,
                      ),
                      Grows-trans g laws s s1 s' grows more,
                      (λ final later q own.
                          next final later q own
                          ∙ built-files plan tip base changes t x s s1 q at resolved built tree
                              distinct files own),
                    )
              ]
            ]
          ]
        ]
      ]
