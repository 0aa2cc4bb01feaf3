-- ===== src/Vaults.antt =====
-- crates/turbovault-core/src/multi_vault.rs: the registry of vaults and its default. The two
-- `RwLock`s are the two fields; each operation below is the sequential run of its critical
-- sections, and Vaults/Race takes the one operation that releases a lock between two of them.
pub mod Invariant
pub mod Race
pub mod Contract
use Prim.Native.Nat.{Ordering}
use Prim.Native.String.{compare}
use turbovault.Common.{
  ℕ, String, ◌≡◌, Bool, true, false, not, ◌&&◌, Option, none, some, List, [], ◌∷◌, ◌==◌, ◌||◌, leb,
  if◌then◌else◌, map, length,
}
use turbovault.Common.Table.{Table, lookup, contains_key, insert, remove, keys}
use turbovault.Core.Error.{
  Error, Result, ok, err, config_error, invalid_path, not_found_in_graph, ◌>>=◌,
}

pub data WriteBackend : Type 0 where
  direct git : WriteBackend

-- The fields of `VaultGitConfig` that the registry reads or that are plain switches.
pub record VaultGitConfig : Type 0 where
  pub branch : Option String
  pub include_ignored : Bool
  pub require_commit_message : Bool

-- The fields of `VaultConfig` that the registry reads; it stores and returns the others unread, and
-- they stand here as one value of a type that is a parameter.
pub record VaultConfig (Settings : Type 0) : Type 0 where
  pub name : String
  pub path : String
  pub is_default : Bool
  pub write_backend : WriteBackend
  pub git_config : Option VaultGitConfig
  pub settings : Settings

pub record VaultInfo (Settings : Type 0) : Type 0 where
  pub name : String
  pub path : String
  pub is_default : Bool
  pub write_backend : String
  pub require_commit_message : Bool
  pub config : VaultConfig Settings

pub record Manager (Settings : Type 0) : Type 0 where
  pub vaults : Table (VaultConfig Settings)
  pub default_vault : String

abbrev pub max_vaults : ℕ
max_vaults = 50

-- `keys().min()`: the least name in the order of `str`.
unfoldable pub min_name : List String → Option String
min_name [] = none
min_name (k ∷ ks) = elim (min_name ks) [
  | none ↦ some k
  | some m ↦ elim (compare k m) [ Ordering.gt ↦ some m | _ ↦ some k ]
]

abbrev pub backend_name : WriteBackend → String
backend_name direct = "direct"
backend_name git = "git"

abbrev pub needs_message : WriteBackend → Option VaultGitConfig → Bool
needs_message git (some g) = g.require_commit_message
needs_message git none = false
needs_message direct c = false

module _ {S : Type 0} where
  -- `.iter().map(|v| (v.name.clone(), v.clone())).collect()`: a later entry replaces an earlier one.
  unfoldable pub collect : Table (VaultConfig S) → List (VaultConfig S) → Table (VaultConfig S)
  collect m [] = m
  collect m (v ∷ vs) = collect (insert v.name v m) vs

  -- `.iter().find(|v| v.is_default)`
  unfoldable pub find_default : List (VaultConfig S) → Option (VaultConfig S)
  find_default [] = none
  find_default (v ∷ vs) = if v.is_default then some v else find_default vs

  unfoldable pub initial_default : List (VaultConfig S) → String
  unfolding find_default
  initial_default [] = ""
  initial_default (v ∷ vs) = elim (find_default (v ∷ vs)) [ some w ↦ w.name | none ↦ v.name ]

  -- MultiVaultManager::new
  unfoldable pub new : List (VaultConfig S) → Manager S
  unfolding collect initial_default
  new configs = record { vaults = collect [] configs; default_vault = initial_default configs }

  -- MultiVaultManager::empty
  unfoldable pub empty : Manager S
  empty = record { vaults = []; default_vault = "" }

  -- The checks and the insertion of `add_vault`, under the lock on `vaults`. The second part of
  -- the result says whether the default is still to be set.
  unfoldable pub add_insert : Manager S → VaultConfig S → Result (Manager S × Bool)
  add_insert m v =
      if leb max_vaults (length m.vaults)
      then err config_error
      else if contains_key v.name m.vaults
      then err invalid_path
      else ok (
        record m { vaults = insert v.name v m.vaults },
        elim m.vaults [ [] ↦ true | _ ∷ _ ↦ false ],
      )

  -- `*self.default_vault.write().await = vault_config.name`, after the lock on `vaults` is released.
  unfoldable pub add_finish : Manager S → VaultConfig S → Bool → Manager S
  add_finish m v first = if first then record m { default_vault = v.name } else m

  -- MultiVaultManager::add_vault
  unfoldable pub add_vault : Manager S → VaultConfig S → Result (Manager S)
  unfolding add_insert add_finish
  add_vault m v = add_insert m v >>= λ r. ok (add_finish r.0 v r.1)

  -- MultiVaultManager::remove_vault
  unfoldable pub remove_vault : Manager S → String → Result (Manager S)
  unfolding min_name
  remove_vault m name =
      let rest = remove name m.vaults in
      if not (contains_key name m.vaults)
      then err not_found_in_graph
      else if m.default_vault == name
      then ok (record {
        vaults = rest;
        default_vault = elim (min_name (keys rest)) [ some first ↦ first | none ↦ "" ];
      })
      else ok (record m { vaults = rest })

  -- MultiVaultManager::get_vault_config, and get_effective_vault_settings, which returns the same
  unfoldable pub get_vault_config : Manager S → String → Result (VaultConfig S)
  get_vault_config m name = elim (lookup name m.vaults) [
    | some v ↦ ok v
    | none ↦ err not_found_in_graph
  ]

  -- MultiVaultManager::set_active_vault
  unfoldable pub set_active_vault : Manager S → String → Result (Manager S)
  set_active_vault m name =
      if not (contains_key name m.vaults)
      then err not_found_in_graph
      else ok (record m { default_vault = name })

  -- MultiVaultManager::get_active_vault_config
  unfoldable pub get_active_vault_config : Manager S → Result (VaultConfig S)
  unfolding get_vault_config
  get_active_vault_config m =
      if m.default_vault == "" then err not_found_in_graph else get_vault_config m m.default_vault

  unfoldable pub vault_info : String → String → VaultConfig S → VaultInfo S
  vault_info default name v = record {
    name = name;
    path = v.path;
    is_default = name == default;
    write_backend = backend_name v.write_backend;
    require_commit_message = needs_message v.write_backend v.git_config;
    config = v;
  }

  -- MultiVaultManager::list_vaults
  unfoldable pub list_vaults : Manager S → List (VaultInfo S)
  unfolding vault_info
  list_vaults m = map (λ (e : String × VaultConfig S). vault_info m.default_vault e.0 e.1) m.vaults
