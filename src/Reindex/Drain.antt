-- ===== src/Reindex/Drain.antt =====
-- crates/turbovault-vault/src/reindex.rs, `ReindexQueue::drain_through`: a pass over the queue.
use turbovault.Common.{
  ℕ, String, ◌≡◌, refl, Bool, true, false, Option, some, List, [], ◌∷◌, inl, inr,
}
use turbovault.Core.Error.{Result-cases}
use turbovault.Links.Digraph.{PathOps, Digraph, DigraphLaws}
use turbovault.Links.Graph.{LinkGraph}
use turbovault.Links.Edges.{IsConsistent}
use turbovault.Links.Sound.{add_file-IsConsistent, update_links-IsConsistent}
use turbovault.Links.Removed.{remove_file-IsConsistent}
use turbovault.Reindex.{
  PendingCommit, ReindexQueue, Sources, apply_change, apply_changes, apply_commit_diff, drain_one,
  drain_pending, drain_through,
}

-- the commit of the last entry, or what the cursor was
abbrev pub last_oid : Option ℕ → List PendingCommit → Option ℕ
last_oid cursor [] = cursor
last_oid cursor (next ∷ rest) = last_oid (some next.oid) rest

module _ {E C : Type 0} (from : Sources E C) (o : PathOps) (d : Digraph C)
    (laws : DigraphLaws d) where
  apply_change-IsConsistent :
      (commit : ℕ) (change : String × Bool) (lg : LinkGraph C d)
      → IsConsistent o d lg
      → IsConsistent o d (apply_change from o d commit change lg)
  unfolding apply_change
  apply_change-IsConsistent commit (path, false) lg inv =
      remove_file-IsConsistent o d laws (from.full_path path) lg inv
  apply_change-IsConsistent commit (path, true) lg inv =
      elim (Result-cases (from.parse_file commit path)) [
        | inr (error, e) ↦ rw (e, apply_change) inv
        | inl (file, e) ↦
            rw (e, apply_change)
              (update_links-IsConsistent o d laws file _ (
                add_file-IsConsistent o d laws file _
                  (remove_file-IsConsistent o d laws (from.full_path path) lg inv)))
      ]

  apply_changes-IsConsistent :
      (commit : ℕ) (changes : List (String × Bool)) (lg : LinkGraph C d)
      → IsConsistent o d lg
      → IsConsistent o d (apply_changes from o d commit changes lg)
  unfolding apply_changes
  apply_changes-IsConsistent commit [] lg inv = inv
  apply_changes-IsConsistent commit (change ∷ changes) lg inv =
      apply_changes-IsConsistent commit changes _ (apply_change-IsConsistent commit change lg inv)

  drain_one-IsConsistent :
      (next : PendingCommit) (lg : LinkGraph C d)
      → IsConsistent o d lg
      → IsConsistent o d (drain_one from o d next lg).1
  unfolding drain_one apply_commit_diff
  drain_one-IsConsistent next lg inv = elim (Result-cases (from.first_parent next.oid)) [
    | inr (error, e) ↦ rw (e, drain_one) inv
    | inl (parent, e) ↦ elim (Result-cases (from.diff_path_statuses parent next.oid)) [
      | inr (error, f) ↦ rw (e, f, drain_one, apply_commit_diff) inv
      | inl (changes, f) ↦
          rw (e, f, drain_one, apply_commit_diff)
            (apply_changes-IsConsistent next.oid changes lg inv)
    ]
  ]

  drain_pending-IsConsistent :
      (pending : List PendingCommit) (cursor : Option ℕ) (lg : LinkGraph C d)
      → IsConsistent o d lg
      → ((drain_pending from o d pending cursor lg).1.pending ≡ [])
        × ((drain_pending from o d pending cursor lg).1.cursor ≡ last_oid cursor pending)
        × IsConsistent o d (drain_pending from o d pending cursor lg).2
  unfolding drain_pending
  drain_pending-IsConsistent [] cursor lg inv = (refl, refl, inv)
  drain_pending-IsConsistent (next ∷ rest) cursor lg inv =
      drain_pending-IsConsistent rest (some next.oid) _ (drain_one-IsConsistent next lg inv)

  -- Whatever git and the files answer, errors included: a pass empties the queue, leaves the cursor at
  -- the last commit that was queued, and keeps the maps and the edges of the link graph right.
  pub drain_through-IsConsistent :
      (q : ReindexQueue) (lg : LinkGraph C d)
      → IsConsistent o d lg
      → ((drain_through from o d q lg).1.pending ≡ [])
        × ((drain_through from o d q lg).1.cursor ≡ last_oid q.cursor q.pending)
        × IsConsistent o d (drain_through from o d q lg).2
  unfolding drain_through
  drain_through-IsConsistent q lg inv = drain_pending-IsConsistent q.pending q.cursor lg inv
