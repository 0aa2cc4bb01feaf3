-- ===== src/Git/Plumbing.antt =====
-- crates/turbovault-git/src/plumbing.rs: trees and commits are written to the object database from
-- an index in memory.
use turbovault.Common.{String, Option, none, some, List, [], ◌∷◌, ◌%◌, ◌^◌, length}
use turbovault.Core.Error.{Fallible, ok, ◌>>=◌}
use turbovault.Core.Plan.{Bytes}
use turbovault.Git.Error.{GitError, lift, optional, Exec, ◌and_then◌}
use turbovault.Git.Repo.{Repo, State}

pub data TreeChange : Type 0 where
  upsert : String → Bytes → TreeChange
  remove : String → TreeChange

-- TreeChange::path
unfoldable pub path : TreeChange → String
path (upsert p content) = p
path (remove p) = p

module _ {Json : Type 0} (g : Repo Json) where
  -- VaultRepo::blob_oid_at
  unfoldable pub blob_oid_at : g.Oid → String → State g → Fallible GitError (Option g.Oid)
  blob_oid_at tree p s = lift (g.find_tree tree s) >>= λ t. optional (g.get_path t p)

  -- VaultRepo::read_blob
  unfoldable pub read_blob : g.Oid → State g → Fallible GitError Bytes
  read_blob oid s = lift (g.find_blob oid s)

  -- `Index::new()?`, and `read_tree` of the base if there is one
  unfoldable pub seed : Option g.Oid → State g → Fallible GitError g.Index
  seed none s = lift g.index_new
  seed (some base) s =
      lift g.index_new >>= λ i. lift (g.find_tree base s) >>= λ t. lift (g.read_tree t i)

  -- The loop over the changes.
  unfoldable pub stage : List TreeChange → g.Index → Exec (State g) g.Index
  stage [] i s = (ok i, s)
  stage (upsert p content ∷ cs) i s =
      let (written, s1) = g.blob content s in
      (lift written, s1) and_then λ id s2.
      (
        lift (
            g.add (record { mode = 33188; file_size = length content % 2 ^ 32; id = id; path = p })
              i),
        s2,
      )
      and_then λ j s3. stage cs j s3
  stage (remove p ∷ cs) i s = (lift (g.remove_path p i), s) and_then λ j s1. stage cs j s1

  -- VaultRepo::build_tree
  unfoldable pub build_tree : Option g.Oid → List TreeChange → Exec (State g) g.Oid
  unfolding seed stage
  build_tree base changes s = (seed base s, s) and_then λ i s1. stage changes i s1 and_then λ j s2.
      let (written, s3) = g.write_tree_to j s2 in (lift written, s3)

  -- `parents.iter().map(|oid| repo.find_commit(*oid)).collect()`
  unfoldable pub find_commits : List g.Oid → State g → Fallible GitError (List g.Commit)
  find_commits [] s = ok []
  find_commits (o ∷ os) s =
      let rest = find_commits os s in lift (g.find_commit o s) >>= λ c. rest >>= λ cs. ok (c ∷ cs)

  -- VaultRepo::commit_tree
  unfoldable pub commit_tree : g.Oid → List g.Oid → String → Exec (State g) g.Oid
  unfolding find_commits
  commit_tree tree parents message s = (lift (g.signature s), s) and_then λ sig s1.
      (lift (g.find_tree tree s1), s1) and_then λ t s2.
      (find_commits parents s2, s2) and_then λ cs s3.
      let (written, s4) = g.commit sig message t cs s3 in (lift written, s4)
