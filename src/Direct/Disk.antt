-- ===== src/Direct/Disk.antt =====
-- What the direct write path uses of the file system (`tokio::fs`), of random ids (`Uuid`) and of
-- the digest crates, as an interface with the documented behaviour that its theorems rest on.
use turbovault.Common.{
  String, ◌≡◌, ◌≢◌, ◌⊎◌, inl, inr, refl, Bool, true, false, Option, none, some, ◌==◌, if◌then◌else◌,
}
use turbovault.Core.Error.{IoError, crosses_devices, Result}
use turbovault.Core.Plan.{Bytes}

-- `std::io::Result<T>`
pub data Io {ℓ} (A : Type ℓ) : Type ℓ where
  done : A → Io A
  fail : IoError → Io A

-- OperationType of crates/turbovault-audit/src/log.rs
pub data OperationType : Type 0 where
  create_op update_op delete_op move_op rollback_op : OperationType

-- AuditEntry, without its random id and its time stamp
pub record AuditEntry (Json : Type 0) : Type 0 where
  pub operation : OperationType
  pub path : String
  pub new_path : Option String
  pub before_hash : Option String
  pub after_hash : Option String
  pub before_snapshot_id : Option String
  pub after_snapshot_id : Option String
  pub metadata : Option Json

pub record Disk (Json : Type 0) : Type 1 where
  pub State : Type 0
  pub read : String → State → Io Bytes
  pub exists : String → State → Bool
  pub create_dir_all : String → State → Io (Unit {0}) × State
  pub write : String → Bytes → State → Io (Unit {0}) × State
  pub rename : String → String → State → Io (Unit {0}) × State
  pub copy : String → String → State → Io (Unit {0}) × State
  pub remove_file : String → State → Io (Unit {0}) × State
  -- `Uuid::new_v4`
  pub new_v4 : State → String × State
  -- `AuditLog::record`: one JSON line, appended to the log's file
  pub record_entry : AuditEntry Json → State → Io (Unit {0}) × State
  -- `Path::parent`, `Path::join` on the vault's root, and `with_extension(format!("tmp.{uuid}"))`
  pub parent : String → Option String
  pub join : String → String
  pub temp_path : String → String → String
  -- the file of a snapshot: `snapshot_dir.join(id)`
  pub snapshot_path : String → String
  -- `str::from_utf8` succeeds; SHA-256, and SHA-256 after NFC, as lowercase hexadecimal
  pub is_utf8 : Bytes → Bool
  pub sha256_hex : Bytes → String
  pub compute_hash : Bytes → String

abbrev pub opt_of_io {ℓ} : {A : Type ℓ} → Io A → Option A
opt_of_io (done a) = some a
opt_of_io (fail e) = none

pub Io-cases {ℓ} :
    {A : Type ℓ} (r : Io A) → ((a : A) × (r ≡ done a)) ⊎ ((e : IoError) × (r ≡ fail e))
Io-cases (done a) = inl (a, refl)
Io-cases (fail e) = inr (e, refl)

module _ {Json : Type 0} (d : Disk Json) where
  -- `fs::read(path).ok()`
  abbrev pub content : d.State → String → Option Bytes
  content s p = opt_of_io (d.read p s)

-- The documented effect of each call on what is read afterwards. A path on the disk stands for the
-- file that it leads to: `join` is `Path::join` on the root followed by the file system's own
-- resolution of the path, so that `a.md`, `./a.md` and an absolute path to the same file may all
-- give one disk path, and nothing is said of which do. Two disk paths are two files: links to
-- files are left out, hard ones and symbolic ones (`rename` and `remove_file` act on the link
-- itself). A call that fails leaves every file but its target as it was; a failed `rename` or
-- `remove_file` leaves the target too. The law on `rename` is for a source that reads as a file,
-- since a directory would take the files under it along. `is_own` names the files that the audit
-- log keeps for itself.
pub record DiskLaws {Json : Type 0} (d : Disk Json) : Type 0 where
  pub is_own : String → Bool
  pub read_create_dir_all :
      (p q : String) (s : d.State) → content d (d.create_dir_all p s).1 q ≡ content d s q
  pub read_write :
      (p q : String) (c : Bytes) (s : d.State)
      → (d.write p c s).0 ≡ done tt
      → content d (d.write p c s).1 q ≡ (if p == q then some c else content d s q)
  pub read_write_ne :
      (p q : String) (c : Bytes) (s : d.State)
      → (p == q) ≡ false
      → content d (d.write p c s).1 q ≡ content d s q
  pub read_rename :
      (p r q : String) (b : Bytes) (s : d.State)
      → content d s p ≡ some b
      → (d.rename p r s).0 ≡ done tt
      → content d (d.rename p r s).1 q
        ≡ (if r == q then content d s p else if p == q then none else content d s q)
  pub read_rename_fail :
      (p r q : String) (e : IoError) (s : d.State)
      → (d.rename p r s).0 ≡ fail e
      → content d (d.rename p r s).1 q ≡ content d s q
  pub rename_same_device : (p : String) (s : d.State) → (d.rename p p s).0 ≢ fail crosses_devices
  pub read_copy :
      (p r q : String) (s : d.State)
      → (d.copy p r s).0 ≡ done tt
      → content d (d.copy p r s).1 q ≡ (if r == q then content d s p else content d s q)
  pub read_copy_ne :
      (p r q : String) (s : d.State)
      → (r == q) ≡ false
      → content d (d.copy p r s).1 q ≡ content d s q
  pub read_remove_file :
      (p q : String) (s : d.State)
      → (d.remove_file p s).0 ≡ done tt
      → content d (d.remove_file p s).1 q ≡ (if p == q then none else content d s q)
  pub read_remove_file_fail :
      (p q : String) (e : IoError) (s : d.State)
      → (d.remove_file p s).0 ≡ fail e
      → content d (d.remove_file p s).1 q ≡ content d s q
  pub read_new_v4 : (q : String) (s : d.State) → content d (d.new_v4 s).1 q ≡ content d s q
  -- A random id has not been used: no file's name carries it.
  pub temp_path_fresh :
      (p : String) (s : d.State) → content d s (d.temp_path p (d.new_v4 s).0) ≡ none
  pub read_record_entry :
      (e : AuditEntry Json) (q : String) (s : d.State)
      → is_own q ≡ false
      → content d (d.record_entry e s).1 q ≡ content d s q
  pub own_snapshot : (id : String) → is_own (d.snapshot_path id) ≡ true

-- Steps of the program on the disk: what was written before an error stays written.
module _ {Json : Type 0} (d : Disk Json) where
  abbrev pub Exec : Type 0 → Type 0
  Exec A = d.State → Result A × d.State
