-- ===== src/Tests/Memory.antt =====
-- A disk in memory that satisfies the laws which the direct write path assumes.
use Prim.Native.Char.{Char, code}
use turbovault.Common.{
  ℕ, zero, suc, ◌+◌, ◌≤◌, ◌<◌, String, ◌≡◌, ◌≢◌, refl, ap, Bool, true, false, Option, none, some,
  List, [], ◌∷◌, ◌++◌, arith, ◌==◌, eq_iff, eqb, length, Bool-cases, inl, inr, Option-cases,
}
use turbovault.Common.Table.{
  Table, lookup, contains_key, insert, remove, lookup-insert, lookup-remove,
}
use turbovault.Core.Error.{not_found}
use turbovault.Core.Plan.{Bytes}
use turbovault.Direct.Disk.{Io, done, fail, AuditEntry, Disk, DiskLaws, opt_of_io}

pub record Memory : Type 0 where
  pub files : Table Bytes
  pub log : List (AuditEntry ℕ)

-- The code of the first character, the rest, and the number of characters.
abbrev first : String → ℕ
first String.[] = 0
first (String.◌∷◌ c s) = code c

abbrev rest : String → String
rest String.[] = ""
rest (String.◌∷◌ c s) = s

abbrev size : String → ℕ
size String.[] = 0
size (String.◌∷◌ c s) = suc (size s)

abbrev pub letter : Char
letter = "x"

unfoldable pub xs : ℕ → String
xs zero = ""
xs (suc n) = String.◌∷◌ letter (xs n)

-- A number above the sizes of all keys.
unfoldable pub total : Table Bytes → ℕ
total [] = 1
total ((j, b) ∷ m) = size j + total m

abbrev pub at_vault : String → String
at_vault p = String.◌∷◌ "v" p

abbrev at_temp : String → String → String
at_temp p u = String.◌∷◌ "t" u

abbrev at_snapshot : String → String
at_snapshot id = String.◌∷◌ "s" id

abbrev found : Option Bytes → Io Bytes
found none = fail not_found
found (some b) = done b

unfoldable pub read_file : String → Memory → Io Bytes
read_file p m = found (lookup p m.files)

unfoldable pub write_file : String → Bytes → Memory → Io (Unit {0}) × Memory
write_file p c m = (done tt, record m { files = insert p c m.files })

unfoldable pub move_file : String → String → Memory → Io (Unit {0}) × Memory
move_file p r m = elim (lookup p m.files) [
  | none ↦ (fail not_found, m)
  | some b ↦ (done tt, record m { files = insert r b (remove p m.files) })
]

unfoldable pub copy_file : String → String → Memory → Io (Unit {0}) × Memory
copy_file p r m = elim (lookup p m.files) [
  | none ↦ (fail not_found, m)
  | some b ↦ (done tt, record m { files = insert r b m.files })
]

unfoldable pub delete_file : String → Memory → Io (Unit {0}) × Memory
delete_file p m = elim (lookup p m.files) [
  | none ↦ (fail not_found, m)
  | some b ↦ (done tt, record m { files = remove p m.files })
]

abbrev pub memory_disk : Disk ℕ
memory_disk = record {
  State = Memory;
  read = read_file;
  exists = λ p m. contains_key p m.files;
  create_dir_all = λ p m. (done tt, m);
  write = write_file;
  rename = move_file;
  copy = copy_file;
  remove_file = delete_file;
  new_v4 = λ m. (xs (total m.files), m);
  record_entry = λ e m. (done tt, record m { log = m.log ++ e ∷ [] });
  parent = λ p. none;
  join = at_vault;
  temp_path = at_temp;
  snapshot_path = at_snapshot;
  is_utf8 = λ b. true;
  sha256_hex = λ b. xs (length b);
  compute_hash = λ b. xs (length b);
}

pub size-xs : (n : ℕ) → size (xs n) ≡ n
unfolding xs
size-xs zero = refl
size-xs (suc n) = ap suc (size-xs n)

total-pos : (m : Table Bytes) → 0 < total m
unfolding total
total-pos [] = omega arith
total-pos ((j, b) ∷ m) = omega (arith, total-pos m)

pub long_absent : (u : String) (m : Table Bytes) → total m ≤ size u → lookup u m ≡ none
unfolding total lookup
long_absent u [] h = refl
long_absent u ((j, b) ∷ m) h = elim (Bool-cases (j == u)) [
  | inl e ↦ absurd (omega (arith, total-pos m, ap size ((eq_iff j u).0 e)))
  | inr e ↦ rw e (long_absent u m (omega arith))
]

pub heads_differ : (p q : String) → first p ≢ first q → (p == q) ≡ false
heads_differ p q h = elim (Bool-cases (p == q)) [
  | inl e ↦ absurd (h (ap first ((eq_iff p q).0 e)))
  | inr e ↦ e
]

abbrev pub memory_own : String → Bool
memory_own q = eqb (first q) b's'

unfoldable pub memory_laws : DiskLaws memory_disk
unfolding read_file write_file move_file copy_file delete_file
memory_laws = record {
  is_own = memory_own;
  read_create_dir_all = λ p q s. refl;
  read_write = λ p q c s h. ground (arith, lookup-insert p q c s.files);
  read_write_ne = λ p q c s h. ground (arith, lookup-insert p q c s.files);
  read_rename = λ p r q x s f h. elim (Option-cases (lookup p s.files)) [
    | inl e ↦ ground arith
    | inr (b, e) ↦ ground (arith, lookup-insert r q b (remove p s.files), lookup-remove p q s.files)
  ];
  read_rename_fail = λ p r q e s h. ground arith;
  rename_same_device = λ p s h. ground arith;
  read_copy = λ p r q s h. elim (Option-cases (lookup p s.files)) [
    | inl e ↦ ground arith
    | inr (b, e) ↦ ground (arith, lookup-insert r q b s.files)
  ];
  read_copy_ne = λ p r q s h. elim (Option-cases (lookup p s.files)) [
    | inl e ↦ ground arith
    | inr (b, e) ↦ ground (arith, lookup-insert r q b s.files)
  ];
  read_remove_file = λ p q s h. ground (arith, lookup-remove p q s.files);
  read_remove_file_fail = λ p q e s h. ground arith;
  read_new_v4 = λ q s. refl;
  temp_path_fresh = λ p s.
      ap (λ (o : Option Bytes). opt_of_io (found o))
        (long_absent (at_temp p (xs (total s.files))) s.files
          (omega (arith, size-xs (total s.files))));
  read_record_entry = λ e q s h. refl;
  own_snapshot = λ id. refl;
}
