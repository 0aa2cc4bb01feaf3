-- ===== src/Git/Committed.antt =====
-- `commit_changeset` (crates/turbovault-git/src/changeset.rs) as a whole: the guards, the lock, the
-- loop, and what is revealed and answered.
use turbovault.Common.{
  String, ◌≡◌, ap, sym, true, false, Option, none, some, [], All, arith, inl, inr, Bool-cases,
}
use turbovault.Core.Error.{Fallible, ok, Result-cases}
use turbovault.Core.Plan.{ChangePlan, touched_paths}
use turbovault.Direct.Disk.{Io-cases}
use turbovault.Git.Error.{GitError, got, Git2-cases}
use turbovault.Git.Repo.{Repo, RepoLaws, State, Grows}
use turbovault.Git.Cas.{default_max_retries, commit_with_retry, commit_with_retry_n}
use turbovault.Git.Cas.Laws.{Grows-refl, Grows-trans}
use turbovault.Git.Materialize.{materialize}
use turbovault.Git.Reveal.{materialize-Grows}
use turbovault.Git.Refines.{Refined, refine_later}
use turbovault.Git.Changeset.{
  ChangesetResult, has_duplicate, attempt, is_empty, publish, with_commit_lock, run_locked,
  commit_changeset,
}

module _ {Json : Type 0} (g : Repo Json) (laws : RepoLaws g) where
  -- What the answer says of what was done.
  abbrev pub Reported :
      ChangePlan Json → Option g.Oid → Option g.Oid → ChangesetResult g.Oid → Type 0
  Reported plan tip none r = (tip ≡ some r.commit) × (r.no_op ≡ true) × (r.paths ≡ [])
  Reported plan tip (some new) r =
      (new ≡ r.commit) × (r.no_op ≡ false) × (r.paths ≡ touched_paths plan)

  publish-Reported :
      (plan : ChangePlan Json) (tip out : Option g.Oid) (r : ChangesetResult g.Oid) (s s' : State g)
      → publish g (touched_paths plan) (tip, out) s ≡ (ok r, s')
      → Reported plan tip out r × Grows g s s'
  unfolding publish
  publish-Reported plan none none r s s' h = cc
  publish-Reported plan (some tip) none r s s' h =
      let at : s' ≡ s = ground arith in
      let (c, p, n) : (r.commit ≡ tip) × (r.paths ≡ []) × (r.no_op ≡ true) =
        (ground arith, ground arith, ground arith) in
      ((ap some (sym c), n, p), rw at (Grows-refl g laws s))
  publish-Reported plan tip (some new) r s s' h =
      let (done, s1) = materialize g new (touched_paths plan) s in
      elim (Result-cases done) [
        | inr (e, f) ↦ absurd (ground arith)
        | inl (u, f) ↦
            let at : s' ≡ g.commit_hook tip new s1 = ground arith in
            let (c, p, n) : (new ≡ r.commit) × (r.paths ≡ touched_paths plan) × (r.no_op ≡ false) =
              (ground arith, ground arith, ground arith) in
            (
              (c, n, p),
              rw at (
                  Grows-trans g laws s s1 (g.commit_hook tip new s1)
                    (materialize-Grows g laws new (touched_paths plan) s)
                    (laws.commit_hook-Grows tip new s1)),
            )
      ]

  with_commit_lock-ok :
      {T : Type 0} (f : State g → Fallible GitError T × State g) (r : T) (s s' : State g)
      → with_commit_lock g f s ≡ (ok r, s')
      → (s1 : State g) × (s2 : State g) × (f s1 ≡ (ok r, s2)) × Grows g s2 s'
  unfolding with_commit_lock
  with_commit_lock-ok f r s s' h =
      let s1 = (g.lock_file s).1 in
      let s2 = (f s1).1 in
      elim (Io-cases (g.lock_file s).0) [
        | inr (e, a) ↦ absurd (ground arith)
        | inl (u, a) ↦ elim (Io-cases (g.unlock_file s2).0) [
          | inr (e, b) ↦ absurd (ground arith)
          | inl (v, b) ↦
              let at : s' ≡ (g.unlock_file s2).1 = ground arith in
              let answer : (f s1).0 ≡ ok r = ground arith in
              (s1, s2, ap (λ x. (x, s2)) answer, rw at (laws.unlock_file-Grows s2))
        ]
      ]

  abbrev pub Committed : ChangePlan Json → ChangesetResult g.Oid → State g → State g → Type 0
  Committed plan r s s' =
      (branch : String) × (tip : Option g.Oid) × (out : Option g.Oid) × (landed : State g)
      × (g.head_ref s ≡ got (some branch))
      × Reported plan tip out r
      × Refined g laws branch plan tip out landed s'

  run_locked-Committed :
      (plan : ChangePlan Json) (branch : String) (r : ChangesetResult g.Oid) (s s1 s2 s' : State g)
      → g.head_ref s ≡ got (some branch)
      → has_duplicate [] (touched_paths plan) ≡ false
      → All laws.IsFile (touched_paths plan)
      → run_locked g plan branch s1 ≡ (ok r, s2)
      → Grows g s2 s'
      → Committed plan r s s'
  unfolding run_locked commit_with_retry
  run_locked-Committed plan branch r s s1 s2 s' head once files h later =
      let loop = commit_with_retry_n g branch default_max_retries (attempt g plan) s1 in
      elim (Result-cases loop.0) [
        | inr (e, f) ↦ absurd (ground arith)
        | inl ((tip, out), f) ↦
            let published : publish g (touched_paths plan) (tip, out) loop.1 ≡ (ok r, s2) =
              ground arith in
            let (said, more) = publish-Reported plan tip out r loop.1 s2 published in
            (
              branch,
              tip,
              out,
              loop.1,
              head,
              said,
              refine_later g laws branch default_max_retries plan tip out s1 loop.1 s' once files
                  (ap (λ x. (x, loop.1)) f) (Grows-trans g laws loop.1 s2 s' more later),
            )
      ]

  -- When `commit_changeset` answers ok for a plan (on paths none of which is a directory of
  -- another), then HEAD names a branch, the plan named no path twice, its preconditions held in the
  -- commit that was the branch's tip and still was when the branch was locked, the branch got the
  -- commit that is answered, and from then to the end the files of that commit are those that the
  -- abstract run of the plan leaves of the files of the tip. If there was nothing to commit, the
  -- answer is the tip itself, with `no_op` set and no paths.
  pub commit_changeset-Committed :
      (plan : ChangePlan Json) (r : ChangesetResult g.Oid) (s s' : State g)
      → All laws.IsFile (touched_paths plan)
      → commit_changeset g plan s ≡ (ok r, s')
      → (has_duplicate [] (touched_paths plan) ≡ false) × Committed plan r s s'
  unfolding commit_changeset
  commit_changeset-Committed plan r s s' files h = elim (Bool-cases (is_empty g plan.changes)) [
    | inl none_given ↦ absurd (ground arith)
    | inr given ↦ elim (Bool-cases (has_duplicate [] (touched_paths plan))) [
      | inl twice ↦ absurd (ground arith)
      | inr once ↦ elim (Git2-cases (g.head_ref s)) [
        | inr z ↦ elim z [ inl e ↦ absurd (ground arith) | inr e ↦ absurd (ground arith) ]
        | inl (none, e) ↦ absurd (ground arith)
        | inl (some branch, e) ↦
            let locked : with_commit_lock g (run_locked g plan branch) s ≡ (ok r, s') =
              ground arith in
            let (s1, s2, ran, later) =
              with_commit_lock-ok (run_locked g plan branch) r s s' locked in
            (once, run_locked-Committed plan branch r s s1 s2 s' e once files ran later)
      ]
    ]
  ]
