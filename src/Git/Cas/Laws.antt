-- ===== src/Git/Cas/Laws.antt =====
-- No update is lost by the compare-and-swap of crates/turbovault-git/src/cas.rs, whatever other
-- processes do to the reference before the lock is taken.
use turbovault.Common.{
  ℕ, zero, suc, ◌+◌, String, ◌≡◌, ◌≢◌, refl, ap, ◌∙◌, true, Option, none, some, inl, inr, arith,
  Bool-cases,
}
use turbovault.Core.Error.{ok, err, Result-cases}
use turbovault.Git.Error.{concurrency, got, lift, optional, Exec, lift-ok}
use turbovault.Git.Repo.{Repo, RepoLaws, State, Grows}
use turbovault.Git.Cas.{option_eq, swap, cas_ref, is_concurrency, commit_loop, commit_with_retry_n}

module _ {Json : Type 0} (g : Repo Json) (laws : RepoLaws g) where
  pub option_eq-eq : (a b : Option g.Oid) → option_eq g a b ≡ true → a ≡ b
  option_eq-eq none none h = refl
  option_eq-eq (some a) (some b) h = ap some ((laws.oid_eq_iff a b).0 h)
  option_eq-eq none (some b) h = cc
  option_eq-eq (some a) none h = cc

  pub option_eq_refl : (a b : Option g.Oid) → a ≡ b → option_eq g a b ≡ true
  option_eq_refl none none h = refl
  option_eq_refl (some a) (some b) h = (laws.oid_eq_iff a b).1 (cc)
  option_eq_refl none (some b) h = cc
  option_eq_refl (some a) none h = cc

  pub Grows-refl : (s : State g) → Grows g s s
  Grows-refl s = record { blobs = λ o x h. h; trees = λ o x h. h; commits = λ o x h. h }

  pub Grows-trans : (s t u : State g) → Grows g s t → Grows g t u → Grows g s u
  Grows-trans s t u a b = record {
    blobs = λ o x h. b.blobs o x (a.blobs o x h);
    trees = λ o x h. b.trees o x (a.trees o x h);
    commits = λ o x h. b.commits o x (a.commits o x h);
  }

  -- The reference moved from `old` to `new` while the lock was held.
  abbrev pub Advanced : String → Option g.Oid → g.Oid → State g → State g → Type 0
  Advanced r old new s s' =
      (locked : State g) × (g.lock_ref r s ≡ (got tt, locked))
      × (optional (g.refname_to_id r locked) ≡ ok old)
      × (g.refname_to_id r s' ≡ got new)
      × Grows g s s'

  swap-ok :
      (r : String) (old cur : Option g.Oid) (new : g.Oid) (s s' : State g)
      → swap g r old new cur s ≡ (ok tt, s')
      → (cur ≡ old) × (g.refname_to_id r s' ≡ got new) × Grows g s s'
  unfolding swap
  swap-ok r old cur new s s' h =
      let (set, s1) = g.set_target r new s in
      let (done, s2) = g.commit_tx s1 in
      let same : option_eq g cur old ≡ true = ground arith in
      let was_set : lift set ≡ ok tt = ground arith in
      let was_done : lift done ≡ ok tt = ground arith in
      let at : s' ≡ s2 = ground arith in
      (
        option_eq-eq cur old same,
        ap (g.refname_to_id r) at
            ∙ laws.read_commit_tx r new s s1 s2 (ap (λ x. (x, s1)) (lift-ok set was_set))
                (ap (λ x. (x, s2)) (lift-ok done was_done)),
        rw at (Grows-trans s s1 s2 (laws.set_target-Grows r new s) (laws.commit_tx-Grows s1)),
      )

  -- If `cas_ref` answers ok, then while it held the lock the reference had the expected value, and
  -- it has the new one afterwards; every object that there was is still there.
  pub cas_ref-ok :
      (r : String) (old : Option g.Oid) (new : g.Oid) (s s' : State g)
      → cas_ref g r old new s ≡ (ok tt, s')
      → Advanced r old new s s'
  unfolding cas_ref
  cas_ref-ok r old new s s' h =
      let (locked, s1) = g.lock_ref r s in
      let has_lock : lift locked ≡ ok tt = ground arith in
      elim (Result-cases (optional (g.refname_to_id r s1))) [
        | inr (e, f) ↦ absurd (ground arith)
        | inl (cur, f) ↦
            let swapped : swap g r old new cur s1 ≡ (ok tt, s') = ground arith in
            let (same, moved, grows) = swap-ok r old cur new s1 s' swapped in
            (
              s1,
              ap (λ x. (x, s1)) (lift-ok locked has_lock),
              f ∙ ap ok same,
              moved,
              Grows-trans s s1 s' (laws.lock_ref-Grows r s) grows,
            )
      ]

  -- If the reference does not have the expected value once it is locked, then `cas_ref` answers
  -- with a concurrency error, and the reference keeps the value that the other writer gave it.
  pub cas_ref-conflict :
      (r : String) (old cur : Option g.Oid) (new : g.Oid) (s locked : State g)
      → g.transaction s ≡ got tt
      → g.lock_ref r s ≡ (got tt, locked)
      → optional (g.refname_to_id r locked) ≡ ok cur
      → cur ≢ old
      → ((cas_ref g r old new s).0 ≡ err concurrency)
        × (g.refname_to_id r (cas_ref g r old new s).1 ≡ g.refname_to_id r locked)
  unfolding cas_ref swap
  cas_ref-conflict r old cur new s locked tx lock read ne =
      elim (Bool-cases (option_eq g cur old)) [
        | inl e ↦ absurd (ne (option_eq-eq cur old e))
        | inr e ↦
            let whole : cas_ref g r old new s ≡ (err concurrency, g.drop_tx locked) =
              ground arith in
            (
              ap (λ x. x.0) whole,
              ap (λ x. g.refname_to_id r x.1) whole ∙ laws.read_drop_tx r locked,
            )
      ]

  -- A turn of the loop that ended it, with a commit or without one.
  abbrev pub Ended :
      String
      → (Option g.Oid → Exec (State g) (Option g.Oid))
      → Option g.Oid
      → Option g.Oid
      → State g
      → Type 0
  Ended r build tip (some new) s' =
      (start : State g) × (built : State g) × (optional (g.refname_to_id r start) ≡ ok tip)
      × (build tip start ≡ (ok (some new), built))
      × Advanced r tip new built s'
  Ended r build tip none s' =
      (start : State g) × (optional (g.refname_to_id r start) ≡ ok tip)
      × (build tip start ≡ (ok none, s'))

  loop-Ended :
      (r : String) (n : ℕ) (build : Option g.Oid → Exec (State g) (Option g.Oid))
      (tip out : Option g.Oid) (s s' : State g)
      → commit_loop g r n build s ≡ (ok (tip, out), s')
      → Ended r build tip out s'
  unfolding commit_loop
  loop-Ended r zero build tip out s s' h = cc
  loop-Ended r (suc n) build tip out s s' h = elim (Result-cases (optional (g.refname_to_id r s))) [
    | inr (e, read) ↦ absurd (ground arith)
    | inl (first, read) ↦ elim (Result-cases (build first s).0) [
      | inr (e, b) ↦ absurd (ground arith)
      | inl (none, b) ↦
          let at : s' ≡ (build first s).1 = ground arith in
          let same : tip ≡ first = ground arith in
          let empty : out ≡ none = ground arith in
          rw (same, empty, at) (s, read, ap (λ x. (x, (build first s).1)) b)
      | inl (some this, b) ↦
          let built = (build first s).1 in
          let (swapped, after) = cas_ref g r first this built in
          elim (Result-cases swapped) [
            | inl (u, c) ↦
                let at : s' ≡ after = ground arith in
                let same : tip ≡ first = ground arith in
                let new : out ≡ some this = ground arith in
                rw (same, new, at)
                  (
                    s,
                    built,
                    read,
                    ap (λ x. (x, built)) b,
                    cas_ref-ok r first this built after (ap (λ x. (x, after)) c),
                  )
            | inr (e, c) ↦ elim (Bool-cases (is_concurrency e)) [
              | inr f ↦ absurd (ground arith)
              | inl f ↦ loop-Ended r n build tip out after s' (ground arith)
            ]
          ]
    ]
  ]

  -- When `commit_with_retry_n` answers with a commit, then that commit was built in some turn on
  -- the tip that was read, the reference still had that tip when it was locked, and it has the new
  -- commit now: what another process had made of the reference is never overwritten unseen. When it
  -- answers without a commit, then the last thing done was a turn that built none.
  pub commit_with_retry_n-Ended :
      (r : String) (max : ℕ) (build : Option g.Oid → Exec (State g) (Option g.Oid))
      (tip out : Option g.Oid) (s s' : State g)
      → commit_with_retry_n g r max build s ≡ (ok (tip, out), s')
      → Ended r build tip out s'
  unfolding commit_with_retry_n
  commit_with_retry_n-Ended r max build tip out s s' h = loop-Ended r (max + 1) build tip out s s' h
