-- ===== src/Direct/Gate.antt =====
-- The gate of `DirectSubstrate::apply` (crates/turbovault-vault/src/substrate.rs): nothing is
-- written before every precondition has been found to hold.
use turbovault.Common.{
  String, ◌≡◌, refl, inl, inr, ◌⊎◌, Bool, List, [], ◌∷◌, arith, eq_iff, eq_refl, All, ◌↔◌,
}
use turbovault.Core.Error.{not_found, Error, Result, ok, err, ◌>>◌, Result-cases}
use turbovault.Core.Plan.{
  Bytes, Precondition, expect_blob, expect_absent, expect_exists, blind, ChangePlan,
}
use turbovault.Direct.Disk.{Io, done, fail, Disk}
use turbovault.Direct.Apply.{hash_bytes, check_one, check_all, apply_loop, outcome, apply}

>>-iff : (m k : Result (Unit {0})) → ((m >> k) ≡ ok tt) ↔ ((m ≡ ok tt) × (k ≡ ok tt))
>>-iff (ok tt) k = ((λ e. (refl, e)), (λ h. h.1))
>>-iff (err x) k = ((λ e. cc), (λ h. cc))

module _ {Json : Type 0} (d : Disk Json) where
  -- What a precondition says of the answer to reading its path.
  abbrev pub Holds : Precondition → Io Bytes → Type 0
  Holds blind (done b) = Unit {0}
  Holds blind (fail e) = e ≡ not_found
  Holds expect_absent (done b) = ⊥
  Holds expect_absent (fail e) = e ≡ not_found
  Holds expect_exists (done b) = Unit {0}
  Holds expect_exists (fail e) = ⊥
  Holds (expect_blob t) (done b) = hash_bytes d b ≡ t
  Holds (expect_blob t) (fail e) = ⊥

  abbrev pub HoldsAt : d.State → String × Precondition → Type 0
  HoldsAt s (path, pc) = Holds pc (d.read (d.join path) s)

  check_one_iff : (pc : Precondition) (r : Io Bytes) → (check_one d pc r ≡ ok tt) ↔ Holds pc r
  unfolding check_one
  check_one_iff blind (done b) = ((λ e. tt), (λ h. refl))
  check_one_iff blind (fail not_found) = ((λ e. refl), (λ h. refl))
  check_one_iff blind (fail x) = ((λ e. cc), (λ h. cc))
  check_one_iff expect_absent (done b) = ((λ e. cc), (λ h. absurd h))
  check_one_iff expect_absent (fail not_found) = ((λ e. refl), (λ h. refl))
  check_one_iff expect_absent (fail x) = ((λ e. cc), (λ h. cc))
  check_one_iff expect_exists (done b) = ((λ e. tt), (λ h. refl))
  check_one_iff expect_exists (fail not_found) = ((λ e. cc), (λ h. absurd h))
  check_one_iff expect_exists (fail x) = ((λ e. cc), (λ h. absurd h))
  check_one_iff (expect_blob t) (done b) = (
    (λ e. ground (arith, eq_iff (hash_bytes d b) t)),
    (λ h. ground (arith, eq_iff (hash_bytes d b) t, eq_refl t)),
  )
  check_one_iff (expect_blob t) (fail not_found) = ((λ e. cc), (λ h. absurd h))
  check_one_iff (expect_blob t) (fail x) = ((λ e. cc), (λ h. absurd h))

  check_all_iff :
      (pcs : List (String × Precondition)) (s : d.State)
      → (check_all d pcs s ≡ ok tt) ↔ All (HoldsAt s) pcs
  unfolding check_all
  check_all_iff [] s = ((λ e. tt), (λ h. refl))
  check_all_iff ((path, pc) ∷ pcs) s =
      let one = check_one_iff pc (d.read (d.join path) s) in
      let rest = check_all_iff pcs s in
      let both = >>-iff (check_one d pc (d.read (d.join path) s)) (check_all d pcs s) in
      ((λ e. (one.0 (both.0 e).0, rest.0 (both.0 e).1)), (λ h. both.1 (one.1 h.0, rest.1 h.1)))

  -- If every precondition holds of what its path reads as at the start, then `apply` runs the loop
  -- over all the changes from there: the disk ends as the loop leaves it, and the answer is the
  -- outcome that the loop's result makes. If one does not hold (or its path cannot be read), the
  -- answer is an error and the disk is as it was.
  pub apply_gate :
      (audit : Bool) (plan : ChangePlan Json) (s : d.State)
      → (All (HoldsAt s) plan.preconditions
          × ((apply d audit plan s).0
              ≡ ok (outcome plan.changes (apply_loop d audit plan.metadata 0 plan.changes s).0))
          × ((apply d audit plan s).1 ≡ (apply_loop d audit plan.metadata 0 plan.changes s).1))
        ⊎ ((¬ All (HoldsAt s) plan.preconditions)
            × ((e : Error) × (apply d audit plan s ≡ (err e, s))))
  unfolding apply
  apply_gate audit plan s =
      let iff = check_all_iff plan.preconditions s in
      elim (Result-cases (check_all d plan.preconditions s)) [
        | inl (u, e) ↦ inl (iff.0 e, rw (e, apply) refl, rw (e, apply) refl)
        | inr (x, e) ↦ inr ((λ h. let q = iff.1 h in cc), (x, rw (e, apply) refl))
      ]
