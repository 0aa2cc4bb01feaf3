-- ===== src/Vaults/Race.antt =====
-- `add_vault` of crates/turbovault-core/src/multi_vault.rs releases the lock on `vaults` before it
-- takes the one on `default_vault`: calls of other tasks can come in between.
use turbovault.Common.{◌≡◌, ◌≢◌, refl, inr, true, [], ◌∷◌, arith, eq_iff, eq_refl}
use turbovault.Common.Table.{contains_key, insert, remove, lookup, keys}
use turbovault.Core.Error.{ok, err, not_found_in_graph}
use turbovault.Vaults.{
  VaultConfig, Manager, empty, add_insert, add_finish, remove_vault, get_vault_config,
  get_active_vault_config, min_name,
}
use turbovault.Vaults.Invariant.{IsUsable}

module _ {S : Type 0} where
  -- The registry after the first vault is added, with a removal of it run between the two
  -- critical sections.
  abbrev pub raced : VaultConfig S → Manager S
  raced v = record { vaults = []; default_vault = v.name }

  race :
      (v : VaultConfig S)
      → (m : Manager S) × (n : Manager S) × (add_insert (empty {S = S}) v ≡ ok (m, true))
        × (remove_vault m v.name ≡ ok n)
        × (add_finish n v true ≡ raced v)
  unfolding empty add_insert remove_vault add_finish insert remove contains_key min_name keys
  race v = (
    record { vaults = (v.name, v) ∷ []; default_vault = "" },
    empty,
    refl,
    ground (arith, eq_refl v.name, eq_iff "" v.name),
    refl,
  )

  -- The task that adds the first vault can be overtaken, between its two critical sections, by one
  -- that removes that vault: both calls succeed, and the default is left naming a vault that is
  -- not registered, so that no active vault's configuration is found. That is so for every vault
  -- whose name is not the empty text.
  pub add_overtaken :
      (v : VaultConfig S)
      → v.name ≢ ""
      → (m : Manager S) × (n : Manager S) × (add_insert (empty {S = S}) v ≡ ok (m, true))
        × (remove_vault m v.name ≡ ok n)
        × (¬ IsUsable (add_finish n v true))
        × (get_active_vault_config (add_finish n v true) ≡ err not_found_in_graph)
  unfolding contains_key get_active_vault_config get_vault_config lookup
  add_overtaken v h =
      let (m, n, added, removed, end) = race v in
      (
        m,
        n,
        added,
        removed,
        rw end (λ u. ground (arith, u)),
        rw end (ground (arith, eq_iff v.name "")),
      )

  -- When nothing comes in between but calls after which the vault is still registered, the
  -- default is usable.
  pub add_finish-IsUsable :
      (m : Manager S) (v : VaultConfig S)
      → contains_key v.name m.vaults ≡ true
      → IsUsable (add_finish m v true)
  unfolding add_finish
  add_finish-IsUsable m v h = inr h
