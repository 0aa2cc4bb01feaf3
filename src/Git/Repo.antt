-- ===== src/Git/Repo.antt =====
-- What crates/turbovault-git uses of libgit2 (`git2`), as an interface with the documented
-- behaviour that the theorems on it rest on. The working tree is a `Disk` on the same state.
use turbovault.Common.{ℕ, String, ◌≡◌, Bool, true, Option, none, some, List, ◌==◌, if◌then◌else◌}
use turbovault.Core.Plan.{Bytes}
use turbovault.Direct.Disk.{Io, Disk}
use turbovault.Git.Error.{Git2, got, missing, broken}

-- git2::IndexEntry, without the fields that the source sets to zero
pub record IndexEntry (Oid : Type 0) : Type 0 where
  pub mode : ℕ
  pub file_size : ℕ
  pub id : Oid
  pub path : String

pub record Repo (Json : Type 0) : Type 1 where
  -- the working tree: the paths that `workdir().join(rel)` gives, and the calls of `std::fs`
  pub disk : Disk Json
  pub Oid : Type 0
  pub oid_eq : Oid → Oid → Bool
  pub from_str : String → Git2 Oid
  pub hash_object : Bytes → Git2 Oid
  -- the object database
  pub Tree : Type 0
  pub Commit : Type 0
  pub find_blob : Oid → disk.State → Git2 Bytes
  pub find_tree : Oid → disk.State → Git2 Tree
  pub find_commit : Oid → disk.State → Git2 Commit
  pub tree_id : Commit → Oid
  pub get_path : Tree → String → Git2 Oid
  pub blob : Bytes → disk.State → Git2 Oid × disk.State
  -- an index in memory
  pub Index : Type 0
  pub index_new : Git2 Index
  pub read_tree : Tree → Index → Git2 Index
  pub add : IndexEntry Oid → Index → Git2 Index
  pub remove_path : String → Index → Git2 Index
  pub write_tree_to : Index → disk.State → Git2 Oid × disk.State
  -- `Signature::now` with the fixed author, and `commit(None, ...)`
  pub Signature : Type 0
  pub signature : disk.State → Git2 Signature
  pub commit : Signature → String → Tree → List Commit → disk.State → Git2 Oid × disk.State
  -- references, and transactions on them: `lock_ref` may find that other processes have moved on
  pub refname_to_id : String → disk.State → Git2 Oid
  pub head_ref : disk.State → Git2 (Option String)
  pub transaction : disk.State → Git2 (Unit {0})
  pub lock_ref : String → disk.State → Git2 (Unit {0}) × disk.State
  pub set_target : String → Oid → disk.State → Git2 (Unit {0}) × disk.State
  pub commit_tx : disk.State → Git2 (Unit {0}) × disk.State
  pub drop_tx : disk.State → disk.State
  -- `repository.index()?.read_tree(..)?.write()?` on the shared index of the working tree
  pub sync_index : Tree → disk.State → Git2 (Unit {0}) × disk.State
  -- some entry of `statuses(None)` is staged
  pub any_staged : disk.State → Git2 Bool
  pub is_bare : Bool
  -- `symlink_metadata(path)`: whether it is a regular file
  pub is_regular : String → disk.State → Io Bool
  -- `.git/turbovault-write.lock`
  pub lock_file : disk.State → Io (Unit {0}) × disk.State
  pub unlock_file : disk.State → Io (Unit {0}) × disk.State
  -- the callback that is told of a commit and its first parent
  pub commit_hook : Option Oid → Oid → disk.State → disk.State

abbrev pub git2_value : {T : Type 0} → Git2 T → Option T
git2_value (got t) = some t
git2_value missing = none
git2_value broken = none

module _ {Json : Type 0} (g : Repo Json) where
  abbrev pub State : Type 0
  State = g.disk.State

  -- Objects are never changed nor lost: what can be read in the first state reads the same in the
  -- second.
  pub record Grows (s t : State) : Type 0 where
    pub blobs : (o : g.Oid) (b : Bytes) → g.find_blob o s ≡ got b → g.find_blob o t ≡ got b
    pub trees : (o : g.Oid) (x : g.Tree) → g.find_tree o s ≡ got x → g.find_tree o t ≡ got x
    pub commits : (o : g.Oid) (c : g.Commit) → g.find_commit o s ≡ got c → g.find_commit o t ≡ got c

-- The documented behaviour. `IsFile` names the paths that the laws speak of, such that none is a
-- directory of another (a path that ends in a slash, or `a.md` beside `a.md/b.md`, is excluded).
pub record RepoLaws {Json : Type 0} (g : Repo Json) : Type 1 where
  pub IsFile : String → Type 0
  pub oid_eq_iff : (a b : g.Oid) → (g.oid_eq a b ≡ true → a ≡ b) × (a ≡ b → g.oid_eq a b ≡ true)
  -- the entry that an index holds at a path
  pub entry : g.Index → String → Option g.Oid
  pub entry_new : (i : g.Index) (q : String) → g.index_new ≡ got i → IsFile q → entry i q ≡ none
  pub entry_read_tree :
      (x : g.Tree) (i j : g.Index) (q : String)
      → g.read_tree x i ≡ got j
      → IsFile q
      → entry j q ≡ git2_value (g.get_path x q)
  pub entry_add :
      (e : IndexEntry g.Oid) (i j : g.Index) (q : String)
      → g.add e i ≡ got j
      → IsFile e.path
      → IsFile q
      → entry j q ≡ (if e.path == q then some e.id else entry i q)
  pub entry_remove_path :
      (p : String) (i j : g.Index) (q : String)
      → g.remove_path p i ≡ got j
      → IsFile p
      → IsFile q
      → entry j q ≡ (if p == q then none else entry i q)
  pub read_blob :
      (b : Bytes) (o : g.Oid) (s s' : State g) → g.blob b s ≡ (got o, s') → g.find_blob o s' ≡ got b
  pub read_write_tree_to :
      (i : g.Index) (o : g.Oid) (x : g.Tree) (q : String) (s s' : State g)
      → g.write_tree_to i s ≡ (got o, s')
      → g.find_tree o s' ≡ got x
      → IsFile q
      → git2_value (g.get_path x q) ≡ entry i q
  -- `commit` stores the tree that it is given.
  pub read_commit :
      (sig : g.Signature) (m : String) (t o : g.Oid) (x : g.Tree) (ps : List g.Commit)
      (s s' : State g)
      → g.find_tree t s ≡ got x
      → g.commit sig m x ps s ≡ (got o, s')
      → (c : g.Commit) × (g.find_commit o s' ≡ got c) × (g.tree_id c ≡ t)
  -- A repository holds the blobs of its trees.
  pub blob_of_tree :
      (t o : g.Oid) (x : g.Tree) (q : String) (s : State g)
      → g.find_tree t s ≡ got x
      → IsFile q
      → g.get_path x q ≡ got o
      → (b : Bytes) × (g.find_blob o s ≡ got b)
  pub blob-Grows : (b : Bytes) (s : State g) → Grows g s (g.blob b s).1
  pub write_tree_to-Grows : (i : g.Index) (s : State g) → Grows g s (g.write_tree_to i s).1
  pub commit-Grows :
      (sig : g.Signature) (m : String) (x : g.Tree) (ps : List g.Commit) (s : State g)
      → Grows g s (g.commit sig m x ps s).1
  pub lock_ref-Grows : (r : String) (s : State g) → Grows g s (g.lock_ref r s).1
  pub set_target-Grows : (r : String) (o : g.Oid) (s : State g) → Grows g s (g.set_target r o s).1
  pub commit_tx-Grows : (s : State g) → Grows g s (g.commit_tx s).1
  pub drop_tx-Grows : (s : State g) → Grows g s (g.drop_tx s)
  -- A transaction that is committed moves the reference to the target that was set; one that is
  -- dropped leaves the references as they are.
  pub read_commit_tx :
      (r : String) (o : g.Oid) (s s1 s2 : State g)
      → g.set_target r o s ≡ (got tt, s1)
      → g.commit_tx s1 ≡ (got tt, s2)
      → g.refname_to_id r s2 ≡ got o
  pub read_drop_tx :
      (r : String) (s : State g) → g.refname_to_id r (g.drop_tx s) ≡ g.refname_to_id r s
  -- The working tree, its index and the lock file are no objects.
  pub create_dir_all-Grows : (p : String) (s : State g) → Grows g s (g.disk.create_dir_all p s).1
  pub write-Grows : (p : String) (b : Bytes) (s : State g) → Grows g s (g.disk.write p b s).1
  pub rename-Grows : (p r : String) (s : State g) → Grows g s (g.disk.rename p r s).1
  pub remove_file-Grows : (p : String) (s : State g) → Grows g s (g.disk.remove_file p s).1
  pub new_v4-Grows : (s : State g) → Grows g s (g.disk.new_v4 s).1
  pub sync_index-Grows : (x : g.Tree) (s : State g) → Grows g s (g.sync_index x s).1
  pub unlock_file-Grows : (s : State g) → Grows g s (g.unlock_file s).1
  pub commit_hook-Grows :
      (p : Option g.Oid) (c : g.Oid) (s : State g) → Grows g s (g.commit_hook p c s)
