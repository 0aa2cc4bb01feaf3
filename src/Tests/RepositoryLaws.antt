-- ===== src/Tests/RepositoryLaws.antt =====
-- The repository in memory as the interface that the git backend uses, with its laws.
use turbovault.Common.{
  ℕ, String, ◌≡◌, refl, ap, sym, ◌∙◌, true, false, Option, none, some, [], arith, ◌==◌, Bool-cases,
  inl, inr, if◌then◌else◌,
}
use turbovault.Common.Table.{
  Table, lookup, contains_key, insert, remove, lookup-insert, lookup-remove,
}
use turbovault.Core.Error.{not_found}
use turbovault.Core.Plan.{Bytes}
use turbovault.Direct.Disk.{done, fail}
use turbovault.Git.Error.{Git2, got, missing, broken}
use turbovault.Git.Repo.{Repo, RepoLaws, Grows, git2_value}
use turbovault.Tests.Repository.{
  Oid, blob_id, tree_id, commit_id, World, same_oid, same_oid-eq, same_oid_refl, world_disk,
}

abbrev answer : {A : Type 0} → Option A → Git2 A
answer none = missing
answer (some a) = got a

abbrev as_entry : Option Bytes → Option Oid
as_entry none = none
as_entry (some b) = some (blob_id b)

abbrev blob_of : Oid → Git2 Bytes
blob_of (blob_id b) = got b
blob_of (tree_id x) = missing
blob_of (commit_id x) = missing

abbrev tree_at : Oid → Git2 (Table Bytes)
tree_at (blob_id b) = missing
tree_at (tree_id x) = got x
tree_at (commit_id x) = missing

abbrev commit_at : Oid → Git2 (Table Bytes)
commit_at (blob_id b) = missing
commit_at (tree_id x) = missing
commit_at (commit_id x) = got x

abbrev add_entry : String → Oid → Table Bytes → Git2 (Table Bytes)
add_entry p (blob_id b) i = got (insert p b i)
add_entry p (tree_id x) i = broken
add_entry p (commit_id x) i = broken

abbrev pub repository : Repo ℕ
repository = record {
  disk = world_disk;
  Oid = Oid;
  oid_eq = same_oid;
  from_str = λ hex. missing;
  hash_object = λ b. got (blob_id b);
  Tree = Table Bytes;
  Commit = Table Bytes;
  find_blob = λ o w. blob_of o;
  find_tree = λ o w. tree_at o;
  find_commit = λ o w. commit_at o;
  tree_id = tree_id;
  get_path = λ x q. answer (as_entry (lookup q x));
  blob = λ b w. (got (blob_id b), w);
  Index = Table Bytes;
  index_new = got [];
  read_tree = λ x i. got x;
  add = λ e. add_entry e.path e.id;
  remove_path = λ p i. got (remove p i);
  write_tree_to = λ i w. (got (tree_id i), w);
  Signature = Unit;
  signature = λ w. got tt;
  commit = λ sig m x ps w. (got (commit_id x), w);
  refname_to_id = λ r w. answer w.tip;
  head_ref = λ w. got (some "refs/heads/main");
  transaction = λ w. got tt;
  lock_ref = λ r w. (got tt, w);
  set_target = λ r o w. (got tt, record w { pending = some o });
  commit_tx = λ w. (got tt, record w { tip = w.pending; pending = none });
  drop_tx = λ w. record w { pending = none };
  sync_index = λ x w. (got tt, w);
  any_staged = λ w. got false;
  is_bare = false;
  is_regular = λ p w. if contains_key p w.memory.files then done true else fail not_found;
  lock_file = λ w. (done tt, w);
  unlock_file = λ w. (done tt, w);
  commit_hook = λ p c w. w;
}

abbrev same : (w v : World) → Grows repository w v
same w v = record { blobs = λ o b h. h; trees = λ o x h. h; commits = λ o c h. h }

pub got-inj : {A : Type 0} {a b : A} → got a ≡ got b → a ≡ b
got-inj h = cc

pub value-entry : (e : Option Bytes) → as_entry e ≡ git2_value (answer (as_entry e))
value-entry none = refl
value-entry (some b) = refl

pub add_entry-lookup :
    (p : String) (id : Oid) (i j : Table Bytes) (q : String)
    → add_entry p id i ≡ got j
    → as_entry (lookup q j) ≡ (if p == q then some id else as_entry (lookup q i))
add_entry-lookup p (blob_id b) i j q h =
    let this : j ≡ insert p b i = sym (got-inj h) in
    ap (λ m. as_entry (lookup q m)) this ∙ elim (Bool-cases (p == q)) [
      | inl e ↦ ground (arith, lookup-insert p q b i)
      | inr e ↦ ground (arith, lookup-insert p q b i)
    ]
add_entry-lookup p (tree_id x) i j q h = cc
add_entry-lookup p (commit_id x) i j q h = cc

pub remove-lookup :
    (p : String) (i j : Table Bytes) (q : String)
    → got (remove p i) ≡ got j
    → as_entry (lookup q j) ≡ (if p == q then none else as_entry (lookup q i))
remove-lookup p i j q h =
    ap (λ m. as_entry (lookup q m)) (sym (got-inj h)) ∙ elim (Bool-cases (p == q)) [
      | inl e ↦ ground (arith, lookup-remove p q i)
      | inr e ↦ ground (arith, lookup-remove p q i)
    ]

pub commit-found :
    (t o : Oid) (x : Table Bytes)
    → tree_at t ≡ got x
    → got (commit_id x) ≡ got o
    → (c : Table Bytes) × (commit_at o ≡ got c) × (tree_id c ≡ t)
commit-found (blob_id b) o x f h = cc
commit-found (tree_id y) o x f h =
    let this : commit_id x ≡ o = got-inj h in (x, rw (← this) refl, ap tree_id (sym (got-inj f)))
commit-found (commit_id y) o x f h = cc

pub blob-found :
    (e : Option Bytes) (o : Oid) (s : World)
    → answer (as_entry e) ≡ got o
    → (b : Bytes) × (blob_of o ≡ got b)
blob-found none o s h = cc
blob-found (some b) o s h = let this : blob_id b ≡ o = got-inj h in (b, rw (← this) refl)

unfoldable pub repository_laws : RepoLaws repository
unfolding lookup
repository_laws = record {
  IsFile = λ q. Unit {0};
  oid_eq_iff = λ a b. (same_oid-eq a b, (λ e. rw e (same_oid_refl b)));
  entry = λ i q. as_entry (lookup q i);
  entry_new = λ i q h f. ap (λ j. as_entry (lookup q j)) (sym (got-inj h)) ∙ refl;
  entry_read_tree =
      λ x i j q h f. ap (λ j. as_entry (lookup q j)) (sym (got-inj h)) ∙ value-entry (lookup q x);
  entry_add = λ e i j q h p f. add_entry-lookup e.path e.id i j q h;
  entry_remove_path = λ p i j q h a b. remove-lookup p i j q h;
  read_blob = λ b o s t h. rw (← got-inj (ap (λ r. r.0) h)) refl;
  read_write_tree_to = λ i o x q s t h f own.
      ap (λ m. git2_value (answer (as_entry (lookup q m))))
        (sym (got-inj (ap (λ r. tree_at r) (got-inj (ap (λ r. r.0) h)) ∙ f)))
      ∙ sym (value-entry (lookup q i));
  read_commit = λ sig m t o x ps s t' f h. commit-found t o x f (ap (λ r. r.0) h);
  blob_of_tree = λ t o x q s f own h. blob-found (lookup q x) o s h;
  blob-Grows = λ b s. same s s;
  write_tree_to-Grows = λ i s. same s s;
  commit-Grows = λ sig m x ps s. same s s;
  lock_ref-Grows = λ r s. same s s;
  set_target-Grows = λ r o s. same s (repository.set_target r o s).1;
  commit_tx-Grows = λ s. same s (repository.commit_tx s).1;
  drop_tx-Grows = λ s. same s (repository.drop_tx s);
  read_commit_tx = λ r o s s1 s2 h k.
      ap (λ (w : World). answer w.tip) (sym (ap (λ r. r.1) k))
      ∙ ap (λ (w : World). answer w.pending) (sym (ap (λ r. r.1) h));
  read_drop_tx = λ r s. refl;
  create_dir_all-Grows = λ p s. same s s;
  write-Grows = λ p b s. same s (repository.disk.write p b s).1;
  rename-Grows = λ p r s. same s (repository.disk.rename p r s).1;
  remove_file-Grows = λ p s. same s (repository.disk.remove_file p s).1;
  new_v4-Grows = λ s. same s (repository.disk.new_v4 s).1;
  sync_index-Grows = λ x s. same s s;
  unlock_file-Grows = λ s. same s s;
  commit_hook-Grows = λ p c s. same s s;
}
