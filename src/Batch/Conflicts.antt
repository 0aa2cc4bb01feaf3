-- ===== src/Batch/Conflicts.antt =====
-- When two operations of crates/turbovault-batch/src/lib.rs conflict.
use turbovault.Common.{
  String, ◌≡◌, refl, Bool, false, not, ◌&&◌, ◌||◌, List, [], ◌∷◌, arith, eq_iff, contains,
}
use turbovault.Batch.{
  BatchOperation, affected_files, is_update_links, conflict_loop, conflicts_with,
}

-- Some text stands in both lists.
abbrev pub overlaps : List String → List String → Bool
overlaps [] ys = false
overlaps (x ∷ xs) ys = contains ys x || overlaps xs ys

overlaps-cons :
    (xs ys : List String) (y : String) → overlaps xs (y ∷ ys) ≡ (contains xs y || overlaps xs ys)
overlaps-cons [] ys y = refl
overlaps-cons (x ∷ xs) ys y = ground (arith, overlaps-cons xs ys y, eq_iff x y, eq_iff y x)

overlaps-nil : (xs : List String) → overlaps xs [] ≡ false
overlaps-nil [] = refl
overlaps-nil (x ∷ xs) = overlaps-nil xs

overlaps_comm : (xs ys : List String) → overlaps xs ys ≡ overlaps ys xs
overlaps_comm xs [] = overlaps-nil xs
overlaps_comm xs (y ∷ ys) = ground (arith, overlaps-cons xs ys y, overlaps_comm xs ys)

conflict_loop-eq :
    (both : Bool) (xs ys : List String) → conflict_loop both xs ys ≡ (overlaps xs ys && not both)
unfolding conflict_loop
conflict_loop-eq both [] ys = refl
conflict_loop-eq both (x ∷ xs) ys = ground (arith, conflict_loop-eq both xs ys)

module _ {J : Type 0} where
  -- Two operations conflict exactly when they affect a common file and are not both updates of
  -- links; so the relation is symmetric.
  pub conflicts_with_iff :
      (a b : BatchOperation J)
      → (conflicts_with a b ≡ (
          overlaps (affected_files a) (affected_files b)
          && not (is_update_links a && is_update_links b)))
        × (conflicts_with a b ≡ conflicts_with b a)
  unfolding conflicts_with
  conflicts_with_iff a b = (
    conflict_loop-eq _ (affected_files a) (affected_files b),
    ground (
      arith,
      conflict_loop-eq (is_update_links a && is_update_links b) (affected_files a)
          (affected_files b),
      conflict_loop-eq (is_update_links b && is_update_links a) (affected_files b)
          (affected_files a),
      overlaps_comm (affected_files a) (affected_files b),
    ),
  )
