-- ===== src/Reindex.antt =====
-- crates/turbovault-vault/src/reindex.rs: the queue of commits whose files the link graph does not know
-- yet, with the walk over first parents of crates/turbovault-git/src/repo.rs. A commit is a number.
use turbovault.Common.{
  ℕ, zero, suc, String, Bool, true, false, Option, none, some, List, [], ◌∷◌, ◌++◌, eqb, length,
  if◌then◌else◌,
}
use turbovault.Core.Error.{Fallible, ok, err}
use turbovault.Links.Digraph.{VaultFile, PathOps, Digraph}
use turbovault.Links.Graph.{LinkGraph, add_file}
use turbovault.Links.Update.{remove_file, update_links}
pub mod Range
pub mod Drain

pub data CommitOrigin : Type 0 where
  local external : CommitOrigin

pub record PendingCommit : Type 0 where
  pub oid : ℕ
  pub origin : CommitOrigin

-- ReindexQueue; its notifier and the lock around a pass are not part of the state
pub record ReindexQueue : Type 0 where
  pub pending : List PendingCommit
  pub cursor : Option ℕ

-- What is asked of git and of the vault: the calls of libgit2, and `parse_file`, which reads the
-- working tree as it is while that commit is applied. An error is of some type.
pub record Sources (E C : Type 0) : Type 0 where
  -- VaultRepo::git_commit_first_parent
  pub first_parent : ℕ → Fallible E (Option ℕ)
  -- VaultRepo::diff_path_statuses
  pub diff_path_statuses : Option ℕ → ℕ → Fallible E (List (String × Bool))
  pub parse_file : ℕ → String → Fallible E (VaultFile C)
  -- `vault_root.join(rel_path)`
  pub full_path : String → String

-- ReindexQueue::new
abbrev pub new : ReindexQueue
new = record { pending = []; cursor = none }

unfoldable pub push_with_origin : ℕ → CommitOrigin → ReindexQueue → ReindexQueue
push_with_origin oid origin q = record q {
  pending = q.pending ++ (record { oid = oid; origin = origin } ∷ []);
}

-- ReindexQueue::push
unfoldable pub push : ℕ → ReindexQueue → ReindexQueue
unfolding push_with_origin
push oid q = push_with_origin oid local q

-- ReindexQueue::push_external
unfoldable pub push_external : ℕ → ReindexQueue → ReindexQueue
unfolding push_with_origin
push_external oid q = push_with_origin oid external q

-- ReindexQueue::pending_count
abbrev pub pending_count : ReindexQueue → ℕ
pending_count q = length q.pending

-- ReindexQueue::pop_front
unfoldable pub pop_front : ReindexQueue → Option PendingCommit × ReindexQueue
pop_front q = elim q.pending [
  | [] ↦ (none, q)
  | first ∷ rest ↦ (some first, record q { pending = rest })
]

-- ReindexQueue::advance_cursor
unfoldable pub advance_cursor : ℕ → ReindexQueue → ReindexQueue
advance_cursor commit q = record q { cursor = some commit }

abbrev pub is_commit : ℕ → Option ℕ → Bool
is_commit c none = false
is_commit c (some stop) = eqb c stop

module _ {E C : Type 0} (from : Sources E C) where
  -- the `while` loop of `first_parent_range`, on fuel; the chain is kept oldest first, as `reverse`
  -- leaves it
  unfoldable pub range_loop :
      ℕ → Option ℕ → Option ℕ → List ℕ → Option (Fallible E (Option (List ℕ)))
  range_loop fuel none none chain = some (ok (some chain))
  range_loop fuel (some stop) none chain = some (ok none)
  range_loop zero stop (some c) chain = none
  range_loop (suc fuel) stop (some c) chain =
      if is_commit c stop then some (ok (some chain)) else elim (from.first_parent c) [
        | err e ↦ some (err e)
        | ok parent ↦ range_loop fuel stop parent (c ∷ chain)
      ]

  -- VaultRepo::first_parent_range
  unfoldable pub first_parent_range : ℕ → Option ℕ → ℕ → Option (Fallible E (Option (List ℕ)))
  unfolding range_loop
  first_parent_range fuel stop tip = range_loop fuel stop (some tip) []

  -- first_parent_range_or_tip: the range if there is one and it is not empty
  abbrev range_or_tip : ℕ → Option (Fallible E (Option (List ℕ))) → List ℕ
  range_or_tip tip (some (ok (some (c ∷ cs)))) = c ∷ cs
  range_or_tip tip other = tip ∷ []

  unfoldable pub first_parent_range_or_tip : ℕ → Option ℕ → ℕ → List ℕ
  unfolding first_parent_range
  first_parent_range_or_tip fuel stop tip = range_or_tip tip (first_parent_range fuel stop tip)

  unfoldable pub push_all : List ℕ → ReindexQueue → ReindexQueue
  unfolding push_external
  push_all [] q = q
  push_all (oid ∷ oids) q = push_all oids (push_external oid q)

  -- one turn of the loop of `watch_ref_changes`, with what `read_head_oid` answers and `last_oid`
  unfoldable pub watch_turn : ℕ → Option ℕ → Option ℕ × ReindexQueue → Option ℕ × ReindexQueue
  unfolding first_parent_range_or_tip push_all
  watch_turn fuel none (last, q) = (none, q)
  watch_turn fuel (some current) (last, q) =
      if is_commit current last
      then (some current, q)
      else (some current, push_all (first_parent_range_or_tip fuel last current) q)

  module _ (o : PathOps) (d : Digraph C) where
    -- one turn of the loop of `apply_commit_diff`
    unfoldable pub apply_change : ℕ → String × Bool → LinkGraph C d → LinkGraph C d
    unfolding add_file remove_file update_links
    apply_change commit (path, true) lg = elim (from.parse_file commit path) [
      | ok file ↦
          update_links o d file (add_file o d file (remove_file o d (from.full_path path) lg))
      | err e ↦ lg
    ]
    apply_change commit (path, false) lg = remove_file o d (from.full_path path) lg

    unfoldable pub apply_changes : ℕ → List (String × Bool) → LinkGraph C d → LinkGraph C d
    unfolding apply_change
    apply_changes commit [] lg = lg
    apply_changes commit (change ∷ changes) lg =
        apply_changes commit changes (apply_change commit change lg)

    -- apply_commit_diff
    unfoldable pub apply_commit_diff :
        Option ℕ → ℕ → LinkGraph C d → Fallible E (List (String × Bool)) × LinkGraph C d
    unfolding apply_changes
    apply_commit_diff parent commit lg = elim (from.diff_path_statuses parent commit) [
      | err e ↦ (err e, lg)
      | ok changes ↦ (ok changes, apply_changes commit changes lg)
    ]

    abbrev pub tagged :
        CommitOrigin → Fallible E (List (String × Bool)) → List (String × Bool × CommitOrigin)
    tagged origin (err e) = []
    tagged origin (ok changes) = tag changes
      where
        tag : List (String × Bool) → List (String × Bool × CommitOrigin)
        tag [] = []
        tag ((path, present) ∷ rest) = (path, present, origin) ∷ tag rest

    -- the turn of `drain_through` for a commit that was taken from the queue
    unfoldable pub drain_one :
        PendingCommit → LinkGraph C d → List (String × Bool × CommitOrigin) × LinkGraph C d
    unfolding apply_commit_diff
    drain_one pending lg = elim (from.first_parent pending.oid) [
      | err e ↦ ([], lg)
      | ok parent ↦
          let (applied, after) = apply_commit_diff parent pending.oid lg in
          (tagged pending.origin applied, after)
    ]

    -- ReindexQueue::drain_through, when nothing is pushed meanwhile: what changed, and the queue and
    -- the graph afterwards
    unfoldable pub drain_pending :
        List PendingCommit
        → Option ℕ
        → LinkGraph C d
        → List (String × Bool × CommitOrigin) × ReindexQueue × LinkGraph C d
    unfolding drain_one advance_cursor
    drain_pending [] cursor lg = ([], record { pending = []; cursor = cursor }, lg)
    drain_pending (next ∷ rest) cursor lg =
        let (changed, after) = drain_one next lg in
        let (later, queue, final) = drain_pending rest (some next.oid) after in
        (changed ++ later, queue, final)

    unfoldable pub drain_through :
        ReindexQueue
        → LinkGraph C d
        → List (String × Bool × CommitOrigin) × ReindexQueue × LinkGraph C d
    unfolding drain_pending
    drain_through q lg = drain_pending q.pending q.cursor lg
