-- ===== src/Git/Materialize.antt =====
-- crates/turbovault-git/src/materialize.rs: the working tree is made to match a commit.
use turbovault.Common.{
  String, Bool, true, false, Option, none, some, List, [], ◌∷◌, ◌&&◌, eqb, if◌then◌else◌,
}
use turbovault.Core.Error.{not_found, Error, Fallible, ok, err, ◌>>=◌, ◌>>◌}
use turbovault.Core.Plan.{Bytes}
use turbovault.Direct.Disk.{done, fail}
use turbovault.Direct.Apply.{make_parent, rename_or_clean}
use turbovault.Git.Error.{
  GitError, core, git, other_error, from_io, got, missing, broken, lift, Exec, ◌and_then◌,
}
use turbovault.Git.Repo.{Repo, State}

-- `==` on `Vec<u8>` and on `Option<Vec<u8>>`
unfoldable pub bytes_eq : Bytes → Bytes → Bool
bytes_eq [] [] = true
bytes_eq (b ∷ bs) (c ∷ cs) = eqb b c && bytes_eq bs cs
bytes_eq [] (c ∷ cs) = false
bytes_eq (b ∷ bs) [] = false

abbrev pub same_bytes : Option Bytes → Option Bytes → Bool
same_bytes none none = true
same_bytes (some b) (some c) = bytes_eq b c
same_bytes none (some c) = false
same_bytes (some b) none = false

-- `From<turbovault_core::Error>`
abbrev pub bridge : {S T : Type 0} → Fallible Error T × S → Fallible GitError T × S
bridge (ok t, s) = (ok t, s)
bridge (err e, s) = (err (core e), s)

module _ {Json : Type 0} (g : Repo Json) where
  abbrev some_bytes : Fallible GitError Bytes → Fallible GitError (Option Bytes)
  some_bytes (ok b) = ok (some b)
  some_bytes (err e) = err e

  unfoldable pub expected_at : Option g.Tree → String → State g → Fallible GitError (Option Bytes)
  expected_at none rel s = ok none
  expected_at (some tree) rel s = elim (g.get_path tree rel) [
    | got entry ↦ some_bytes (lift (g.find_blob entry s))
    | missing ↦ ok none
    | broken ↦ err git
  ]

  unfoldable pub actual_at : String → State g → Fallible GitError (Option Bytes)
  actual_at rel s = elim (g.is_regular (g.disk.join rel) s) [
    | done true ↦ elim (g.disk.read (g.disk.join rel) s) [
      | done b ↦ ok (some b)
      | fail e ↦ err (from_io e)
    ]
    | done false ↦ err other_error
    | fail not_found ↦ ok none
    | fail e ↦ err (from_io e)
  ]

  -- The loop over the paths.
  unfoldable pub all_match : Option g.Tree → List String → State g → Fallible GitError (Unit {0})
  unfolding expected_at actual_at
  all_match tree [] s = ok tt
  all_match tree (rel ∷ rels) s =
      let rest = all_match tree rels s in
      expected_at tree rel s >>= λ expected.
      actual_at rel s >>= λ actual. if same_bytes actual expected then rest else err other_error

  unfoldable pub base_tree : Option g.Oid → State g → Fallible GitError (Option g.Tree)
  base_tree none s = ok none
  base_tree (some oid) s =
      lift (g.find_commit oid s) >>= λ c. lift (g.find_tree (g.tree_id c) s) >>= λ t. ok (some t)

  -- VaultRepo::ensure_worktree_matches_commit
  unfoldable pub ensure_worktree_matches_commit :
      Option g.Oid → List String → State g → Fallible GitError (Unit {0})
  unfolding all_match base_tree
  ensure_worktree_matches_commit base paths s = lift (g.any_staged s) >>= λ staged.
      if staged
      then err other_error
      else if g.is_bare
      then err other_error
      else base_tree base s >>= λ tree. all_match tree paths s

  -- The write of one blob: a temporary file, and a rename onto the target.
  unfoldable pub reveal : String → Bytes → Exec (State g) (Unit {0})
  unfolding rename_or_clean
  reveal target content s0 =
      let (uuid, s1) = g.disk.new_v4 s0 in
      let tmp = g.disk.temp_path target uuid in
      let (r, s2) = g.disk.write tmp content s1 in
      let rest = bridge (rename_or_clean g.disk tmp target s2) in
      elim r [ done _ ↦ rest | fail e ↦ (err (from_io e), (g.disk.remove_file tmp s2).1) ]

  unfoldable pub clear : String → Exec (State g) (Unit {0})
  clear target s =
      let (r, s1) = g.disk.remove_file target s in
      if g.disk.exists target s
      then (elim r [ done _ ↦ (ok tt, s1) | fail e ↦ (err (from_io e), s1) ])
      else (ok tt, s)

  -- The body of the loop over the paths.
  unfoldable pub materialize_one : g.Tree → String → Exec (State g) (Unit {0})
  materialize_one tree rel s =
      let target = g.disk.join rel in
      elim (g.get_path tree rel) [
        | got entry ↦ (lift (g.find_blob entry s), s) and_then λ content s1.
            bridge (make_parent g.disk target s1) and_then λ u. reveal target content
        | missing ↦ clear target s
        | broken ↦ (err git, s)
      ]

  unfoldable pub materialize_all : g.Tree → List String → Exec (State g) (Unit {0})
  materialize_all tree [] s = (ok tt, s)
  materialize_all tree (rel ∷ rels) s =
      materialize_one tree rel s and_then λ u s1. materialize_all tree rels s1

  -- The shared index is made to match the tree.
  unfoldable pub sync : g.Tree → Exec (State g) (Unit {0})
  sync tree s = let (synced, s1) = g.sync_index tree s in (lift synced, s1)

  unfoldable pub materialize_tree : List String → g.Tree → Exec (State g) (Unit {0})
  materialize_tree paths tree s = materialize_all tree paths s and_then λ v. sync tree

  unfoldable pub find_commit_tree : g.Oid → State g → Fallible GitError g.Tree
  find_commit_tree commit s =
      (if g.is_bare then err other_error else ok tt)
      >> (lift (g.find_commit commit s) >>= λ c. lift (g.find_tree (g.tree_id c) s))

  -- VaultRepo::materialize
  unfoldable pub materialize : g.Oid → List String → Exec (State g) (Unit {0})
  materialize commit paths s = (find_commit_tree commit s, s) and_then materialize_tree paths
