-- ===== src/Core/Plan/Effect.antt =====
-- What a plan (crates/turbovault-core/src/change_plan.rs) means for the files of a vault, whatever
-- backend carries it out.
use turbovault.Common.{
  String, ◌≡◌, Option, none, some, List, [], ◌∷◌, ◌==◌, if◌then◌else◌, arith, All, All-split,
}
use turbovault.Core.Plan.{Bytes, Change, upsert, remove, rename, change_paths, touched}

abbrev pub Files : Type 0
Files = String → Option Bytes

-- The abstract effect of one change on the files of the vault.
unfoldable pub apply_change : Files → Change → Files
apply_change v (upsert p c) q = if p == q then some c else v q
apply_change v (remove p) q = if p == q then none else v q
apply_change v (rename from to) q = if to == q then v from else if from == q then none else v q

-- The abstract effect of a list of changes, in order.
unfoldable pub apply_changes : Files → List Change → Files
apply_changes v [] = v
apply_changes v (c ∷ cs) = apply_changes (apply_change v c) cs

module _ {κ} (P : String → Type κ) where
  -- The same files, at the paths that satisfy `P`.
  abbrev pub Agree : Files → Files → Type κ
  Agree v w = (q : String) → P q → v q ≡ w q

  apply_change-Agree :
      (v w : Files) (c : Change)
      → All P (change_paths c)
      → Agree v w
      → Agree (apply_change v c) (apply_change w c)
  unfolding apply_change change_paths
  apply_change-Agree v w (upsert p c) n a q own = ground (arith, a q own)
  apply_change-Agree v w (remove p) n a q own = ground (arith, a q own)
  apply_change-Agree v w (rename from to) n a q own = ground (arith, a q own, a from n.0)

  pub apply_changes-Agree :
      (v w : Files) (cs : List Change)
      → All P (touched cs)
      → Agree v w
      → Agree (apply_changes v cs) (apply_changes w cs)
  unfolding apply_changes touched
  apply_changes-Agree v w [] n a = a
  apply_changes-Agree v w (c ∷ cs) n a =
      let (here, later) = All-split P (change_paths c) (touched cs) n in
      apply_changes-Agree (apply_change v c) (apply_change w c) cs later
        (apply_change-Agree v w c here a)
