-- ===== src/Git/Cas.antt =====
-- crates/turbovault-git/src/cas.rs: the compare-and-swap of a reference under git's lock, and the
-- loop that rebuilds when another writer was first.
pub mod Bound
pub mod Laws
use turbovault.Common.{
  ℕ, zero, suc, ◌+◌, String, Bool, true, false, Option, none, some, if◌then◌else◌,
}
use turbovault.Core.Error.{concurrency_error, Fallible, ok, err}
use turbovault.Git.Error.{
  GitError, core, concurrency, other_error, lift, optional, Exec, ◌and_then◌,
}
use turbovault.Git.Repo.{Repo, State}

-- DEFAULT_MAX_RETRIES
abbrev pub default_max_retries : ℕ
default_max_retries = 8

-- `Error::Core(ConcurrencyError { .. })`
abbrev pub is_concurrency : GitError → Bool
is_concurrency (core concurrency_error) = true
is_concurrency e = false

module _ {Json : Type 0} (g : Repo Json) where
  -- `==` on `Option<Oid>`
  abbrev pub option_eq : Option g.Oid → Option g.Oid → Bool
  option_eq none none = true
  option_eq (some a) (some b) = g.oid_eq a b
  option_eq none (some b) = false
  option_eq (some a) none = false

  -- An answer of git2 about the state as it is, with `?`.
  abbrev pub call : {T : Type 0} → Fallible GitError T → Exec (State g) T
  call r s = (r, s)

  -- What follows the read under the lock; `tx` is dropped on every return but the last.
  unfoldable pub swap : String → Option g.Oid → g.Oid → Option g.Oid → Exec (State g) (Unit {0})
  swap refname expected_old new current s =
      let (set, s1) = g.set_target refname new s in
      let (done, s2) = g.commit_tx s1 in
      if option_eq current expected_old
      then (elim (lift set) [ ok u ↦ (lift done, s2) | err e ↦ (err e, g.drop_tx s1) ])
      else (err concurrency, g.drop_tx s)

  -- VaultRepo::cas_ref
  unfoldable pub cas_ref : String → Option g.Oid → g.Oid → Exec (State g) (Unit {0})
  cas_ref refname expected_old new s0 = call (lift (g.transaction s0)) s0 and_then λ u s.
      let (locked, s1) = g.lock_ref refname s in
      (lift locked, s1) and_then λ v s2. elim (optional (g.refname_to_id refname s2)) [
        | err e ↦ (err e, g.drop_tx s2)
        | ok current ↦ swap refname expected_old new current s2
      ]

  -- What the loop answers: the tip that `build` was last given, which the caller's closure keeps
  -- for itself, and the commit.
  abbrev pub Built : Type 0
  Built = Option g.Oid × Option g.Oid

  -- VaultRepo::commit_with_retry_n, on the number of turns that are left
  unfoldable pub commit_loop :
      String → ℕ → (Option g.Oid → Exec (State g) (Option g.Oid)) → Exec (State g) Built
  commit_loop refname zero build s = (err other_error, s)
  commit_loop refname (suc n) build s =
      call (optional (g.refname_to_id refname s)) s and_then λ tip s1.
      build tip s1 and_then λ built s2. elim built [
        | none ↦ (ok (tip, none), s2)
        | some new ↦
            let (swapped, s3) = cas_ref refname tip new s2 in
            let again = commit_loop refname n build s3 in
            elim swapped [
              | ok u ↦ (ok (tip, some new), s3)
              | err e ↦ if is_concurrency e then again else (err e, s3)
            ]
      ]

  unfoldable pub commit_with_retry_n :
      String → ℕ → (Option g.Oid → Exec (State g) (Option g.Oid)) → Exec (State g) Built
  commit_with_retry_n refname max_retries build = commit_loop refname (max_retries + 1) build

  -- VaultRepo::commit_with_retry
  unfoldable pub commit_with_retry :
      String → (Option g.Oid → Exec (State g) (Option g.Oid)) → Exec (State g) Built
  unfolding commit_with_retry_n
  commit_with_retry refname build = commit_with_retry_n refname default_max_retries build
