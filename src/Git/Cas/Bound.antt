-- ===== src/Git/Cas/Bound.antt =====
-- How often the loop of `commit_with_retry_n` (crates/turbovault-git/src/cas.rs) turns.
use turbovault.Common.{ℕ, zero, suc, ◌+◌, ◌-◌, ◌≤◌, String, ◌≡◌, refl, ap, ◌∙◌, Option, some, arith}
use turbovault.Core.Error.{Fallible, ok, err}
use turbovault.Git.Error.{GitError, concurrency, other_error, optional, Exec}
use turbovault.Git.Repo.{Repo, State}
use turbovault.Git.Cas.{cas_ref, commit_loop, commit_with_retry_n}

module _ {Json : Type 0} (g : Repo Json) where
  abbrev pub Turn :
      String
      → (Option g.Oid → Exec (State g) (Option g.Oid))
      → Option g.Oid
      → g.Oid
      → State g
      → Fallible GitError (Unit {0})
      → State g
      → Type 0
  Turn r build tip new s answer t =
      (built : State g) × (optional (g.refname_to_id r s) ≡ ok tip)
      × (build tip s ≡ (ok (some new), built))
      × (cas_ref g r tip new built ≡ (answer, t))

  -- A number of turns that built a commit and then lost the race for the reference.
  pub data Lost (r : String) (build : Option g.Oid → Exec (State g) (Option g.Oid))
      : ℕ → State g → State g → Type 0 where
    nothing_lost : {s : State g} → Lost r build zero s s
    lose :
        {n : ℕ} {s m t : State g} (tip : Option g.Oid) (new : g.Oid)
        → Turn r build tip new s (err concurrency) m
        → Lost r build n m t
        → Lost r build (suc n) s t

  loop-Turn :
      (r : String) (n : ℕ) (build : Option g.Oid → Exec (State g) (Option g.Oid))
      (tip : Option g.Oid) (new : g.Oid) (s m : State g)
      → Turn r build tip new s (err concurrency) m
      → commit_loop g r (suc n) build s ≡ commit_loop g r n build m
  unfolding commit_loop
  loop-Turn r n build tip new s m (built, read, b, lost) = ground arith

  loop-Lost :
      (r : String) (build : Option g.Oid → Exec (State g) (Option g.Oid)) (n k : ℕ) (s t : State g)
      → Lost r build k s t
      → commit_loop g r (k + n) build s ≡ commit_loop g r n build t
  loop-Lost r build n k s t nothing_lost = ap (λ i. commit_loop g r i build s) (omega arith)
  loop-Lost r build n k s t (lose {n = j} {m = m} tip new turn rest) =
      ap (λ i. commit_loop g r i build s) (omega arith)
      ∙ loop-Turn r (j + n) build tip new s m turn
      ∙ loop-Lost r build n j m t rest

  loop-won :
      (r : String) (n : ℕ) (build : Option g.Oid → Exec (State g) (Option g.Oid))
      (tip : Option g.Oid) (new : g.Oid) (s t : State g)
      → Turn r build tip new s (ok tt) t
      → commit_loop g r (suc n) build s ≡ (ok (tip, some new), t)
  unfolding commit_loop
  loop-won r n build tip new s t (built, read, b, won) = ground arith

  -- After `k` lost turns, `k` at most `max_retries`, a turn that wins the reference ends the loop
  -- with its commit, and the loop answers with the tip and the commit of that turn.
  pub commit_with_retry_n-wins :
      (r : String) (max k : ℕ) (build : Option g.Oid → Exec (State g) (Option g.Oid))
      (tip : Option g.Oid) (new : g.Oid) (s t u : State g)
      → k ≤ max
      → Lost r build k s t
      → Turn r build tip new t (ok tt) u
      → commit_with_retry_n g r max build s ≡ (ok (tip, some new), u)
  unfolding commit_with_retry_n
  commit_with_retry_n-wins r max k build tip new s t u le lost won =
      ap (λ n. commit_loop g r n build s) (omega arith)
      ∙ loop-Lost r build (suc (max - k)) k s t lost
      ∙ loop-won r (max - k) build tip new t u won

  -- After `max_retries + 1` lost turns the loop gives up with an error: it never builds more often.
  pub commit_with_retry_n-exhausted :
      (r : String) (max : ℕ) (build : Option g.Oid → Exec (State g) (Option g.Oid)) (s t : State g)
      → Lost r build (suc max) s t
      → commit_with_retry_n g r max build s ≡ (err other_error, t)
  unfolding commit_with_retry_n
  commit_with_retry_n-exhausted r max build s t lost =
      ap (λ n. commit_loop g r n build s) (omega arith)
      ∙ loop-Lost r build 0 (suc max) s t lost
      ∙ unfold commit_loop in refl
