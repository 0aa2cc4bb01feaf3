-- ===== src/Tests/Repository.antt =====
-- A git repository in memory that satisfies the laws which the git backend assumes. An object's id
-- is its content, so objects are found in every state; there is one branch.
use turbovault.Common.{
  ℕ, String, ◌≡◌, refl, ap, Bool, true, false, Option, none, List, [], ◌∷◌, ◌&&◌, arith, ◌==◌,
  eq_iff, eq_refl,
}
use turbovault.Common.Table.{Table, contains_key}
use turbovault.Core.Plan.{Bytes}
use turbovault.Direct.Disk.{done, Disk}
use turbovault.Git.Materialize.{bytes_eq}
use turbovault.Tests.Memory.{
  Memory, memory_disk, at_vault, read_file, write_file, move_file, copy_file, delete_file,
}

pub data Oid : Type 0 where
  blob_id : Bytes → Oid
  tree_id commit_id : Table Bytes → Oid

pub record World : Type 0 where
  pub memory : Memory
  pub tip : Option Oid
  pub pending : Option Oid

unfoldable pub list_eq : {A : Type 0} → (A → A → Bool) → List A → List A → Bool
list_eq f [] [] = true
list_eq f (x ∷ xs) (y ∷ ys) = f x y && list_eq f xs ys
list_eq f [] (y ∷ ys) = false
list_eq f (x ∷ xs) [] = false

list_eq-eq :
    {A : Type 0} (f : A → A → Bool) (xs ys : List A)
    → ((x y : A) → f x y ≡ true → x ≡ y)
    → list_eq f xs ys ≡ true
    → xs ≡ ys
unfolding list_eq
list_eq-eq f [] [] sound h = refl
list_eq-eq f (x ∷ xs) (y ∷ ys) sound h =
    let here : x ≡ y = sound x y (ground arith) in
    let rest : xs ≡ ys = list_eq-eq f xs ys sound (ground arith) in cc
list_eq-eq f [] (y ∷ ys) sound h = cc
list_eq-eq f (x ∷ xs) [] sound h = cc

list_eq_refl :
    {A : Type 0} (f : A → A → Bool) (xs : List A)
    → ((x : A) → f x x ≡ true)
    → list_eq f xs xs ≡ true
unfolding list_eq
list_eq_refl f [] r = refl
list_eq_refl f (x ∷ xs) r = ground (arith, r x, list_eq_refl f xs r)

bytes_eq-eq : (b c : Bytes) → bytes_eq b c ≡ true → b ≡ c
unfolding bytes_eq
bytes_eq-eq [] [] h = refl
bytes_eq-eq (b ∷ bs) (c ∷ cs) h =
    let here : b ≡ c = ground arith in let rest : bs ≡ cs = bytes_eq-eq bs cs (ground arith) in cc
bytes_eq-eq [] (c ∷ cs) h = cc
bytes_eq-eq (b ∷ bs) [] h = cc

bytes_eq_refl : (b : Bytes) → bytes_eq b b ≡ true
unfolding bytes_eq
bytes_eq_refl [] = refl
bytes_eq_refl (b ∷ bs) = ground (arith, bytes_eq_refl bs)

unfoldable pub pair_eq : String × Bytes → String × Bytes → Bool
pair_eq (p, b) (q, c) = p == q && bytes_eq b c

pair_eq-eq : (x y : String × Bytes) → pair_eq x y ≡ true → x ≡ y
unfolding pair_eq
pair_eq-eq (p, b) (q, c) h =
    let here : p ≡ q = (eq_iff p q).0 (ground arith) in
    let rest : b ≡ c = bytes_eq-eq b c (ground arith) in cc

pair_eq_refl : (x : String × Bytes) → pair_eq x x ≡ true
unfolding pair_eq
pair_eq_refl (p, b) = ground (arith, eq_refl p, bytes_eq_refl b)

unfoldable pub same_oid : Oid → Oid → Bool
unfolding list_eq pair_eq
same_oid (blob_id b) (blob_id c) = bytes_eq b c
same_oid (tree_id x) (tree_id y) = list_eq pair_eq x y
same_oid (commit_id x) (commit_id y) = list_eq pair_eq x y
same_oid a b = false

pub same_oid-eq : (a b : Oid) → same_oid a b ≡ true → a ≡ b
unfolding same_oid
same_oid-eq (blob_id b) (blob_id c) h = ap blob_id (bytes_eq-eq b c h)
same_oid-eq (tree_id x) (tree_id y) h = ap tree_id (list_eq-eq pair_eq x y pair_eq-eq h)
same_oid-eq (commit_id x) (commit_id y) h = ap commit_id (list_eq-eq pair_eq x y pair_eq-eq h)
same_oid-eq (blob_id b) (tree_id y) h = cc
same_oid-eq (blob_id b) (commit_id y) h = cc
same_oid-eq (tree_id x) (blob_id c) h = cc
same_oid-eq (tree_id x) (commit_id y) h = cc
same_oid-eq (commit_id x) (blob_id c) h = cc
same_oid-eq (commit_id x) (tree_id y) h = cc

pub same_oid_refl : (a : Oid) → same_oid a a ≡ true
unfolding same_oid
same_oid_refl (blob_id b) = bytes_eq_refl b
same_oid_refl (tree_id x) = list_eq_refl pair_eq x pair_eq_refl
same_oid_refl (commit_id x) = list_eq_refl pair_eq x pair_eq_refl

abbrev pub on_memory : {T : Type 0} → (Memory → T × Memory) → World → T × World
on_memory f w = let (t, m) = f w.memory in (t, record w { memory = m })

abbrev pub world_disk : Disk ℕ
world_disk = record {
  State = World;
  read = λ p w. read_file p w.memory;
  exists = λ p w. contains_key p w.memory.files;
  create_dir_all = λ p w. (done tt, w);
  write = λ p c. on_memory (write_file p c);
  rename = λ p r. on_memory (move_file p r);
  copy = λ p r. on_memory (copy_file p r);
  remove_file = λ p. on_memory (delete_file p);
  new_v4 = on_memory memory_disk.new_v4;
  record_entry = λ e. on_memory (memory_disk.record_entry e);
  parent = λ p. none;
  join = at_vault;
  temp_path = memory_disk.temp_path;
  snapshot_path = memory_disk.snapshot_path;
  is_utf8 = λ b. true;
  sha256_hex = memory_disk.sha256_hex;
  compute_hash = memory_disk.compute_hash;
}
