-- ===== src/Vaults/Contract.antt =====
-- What the calls of crates/turbovault-core/src/multi_vault.rs promise on success and on failure.
use turbovault.Common.{
  suc, ◌≤◌, ◌<◌, String, ◌≡◌, ◌≢◌, refl, true, false, none, some, List, [], ◌∷◌, arith, ◌==◌,
  eq_iff, length, if◌then◌else◌, inl, inr, ◌⊎◌, Option, Bool-cases, Option-cases,
}
use turbovault.Common.Table.{
  Table, lookup, contains_key, keys, insert, remove, lookup-insert, lookup-remove,
}
use turbovault.Core.Error.{ok, err, not_found_in_graph}
use turbovault.Vaults.{
  VaultConfig, Manager, max_vaults, min_name, add_vault, remove_vault, set_active_vault,
  get_active_vault_config,
}
use turbovault.Vaults.Invariant.{IsUsable, Call, adds, removes, activates, step, run}

module _ {ℓ} {V : Type ℓ} where
  length-insert_new :
      (k : String) (v : V) (m : Table V)
      → contains_key k m ≡ false
      → length (insert k v m) ≡ suc (length m)
  unfolding insert contains_key
  length-insert_new k v [] h = refl
  length-insert_new k v ((j, w) ∷ m) h = ground (arith, length-insert_new k v m)

  length-remove-le : (k : String) (m : Table V) → length (remove k m) ≤ length m
  unfolding remove
  length-remove-le k [] = omega arith
  length-remove-le k ((j, w) ∷ m) = ground (arith, length-remove-le k m)

  lookup_of_contains_key :
      (k : String) (m : Table V) → contains_key k m ≡ true → (v : V) × (lookup k m ≡ some v)
  unfolding lookup contains_key
  lookup_of_contains_key k [] h = cc
  lookup_of_contains_key k ((j, w) ∷ m) h = elim (Bool-cases (j == k)) [
    | inl e ↦ (w, rw e)
    | inr e ↦
        let r : (v : V) × (lookup k m ≡ some v) = lookup_of_contains_key k m (ground arith) in
        (r.0, rw e r.1)
  ]

abbrev pub or_empty : Option String → String
or_empty (some k) = k
or_empty none = ""

module _ {S : Type 0} where
  -- `add_vault` succeeds only below the limit and under a new name. Then one more vault is
  -- registered, found under its name, every other name keeps its vault, and the default changes
  -- only if nothing was registered before, to the new vault.
  pub add_vault_contract :
      (m n : Manager S) (v : VaultConfig S)
      → add_vault m v ≡ ok n
      → (length m.vaults < max_vaults)
        × (contains_key v.name m.vaults ≡ false)
        × (length n.vaults ≡ suc (length m.vaults))
        × ((j : String) → lookup j n.vaults ≡ (if v.name == j then some v else lookup j m.vaults))
        × (n.default_vault ≡ elim m.vaults [ [] ↦ v.name | _ ∷ _ ↦ m.default_vault ])
  unfolding add_vault
  add_vault_contract m n v h = (
    ground arith,
    ground arith,
    ground (arith, length-insert_new v.name v m.vaults),
    (λ j. ground (arith, lookup-insert v.name j v m.vaults)),
    ground arith,
  )

  -- On a registered name `remove_vault` succeeds: that name is gone, every other name keeps its
  -- vault, and the default stays unless it was the removed one, when it becomes the least name that
  -- is left, or the empty text if none is. On any other name it fails with the error for a missing
  -- vault.
  pub remove_vault_contract :
      (m : Manager S) (name : String)
      → ((contains_key name m.vaults ≡ true)
          × ((n : Manager S) × (remove_vault m name ≡ ok n)
              × ((j : String) → lookup j n.vaults ≡ (if name == j then none else lookup j m.vaults))
              × (n.default_vault ≡ (
                  if m.default_vault == name
                  then or_empty (min_name (keys n.vaults))
                  else m.default_vault))))
        ⊎ ((contains_key name m.vaults ≡ false) × (remove_vault m name ≡ err not_found_in_graph))
  unfolding remove_vault
  remove_vault_contract m name = elim (Bool-cases (contains_key name m.vaults)) [
    | inr e ↦ inr (e, rw (e, remove_vault))
    | inl e ↦ inl (
      e,
      (
        record {
          vaults = remove name m.vaults;
          default_vault =
              if m.default_vault == name
              then or_empty (min_name (keys (remove name m.vaults)))
              else m.default_vault;
        },
        ground (arith, Option-cases (min_name (keys (remove name m.vaults)))),
        (λ j. lookup-remove name j m.vaults),
        refl,
      ),
    )
  ]

  -- With a usable default that is not the empty text, the active vault's configuration is found
  -- under it.
  pub get_active_vault_config_total :
      (m : Manager S)
      → IsUsable m
      → m.default_vault ≢ ""
      → (v : VaultConfig S) × (lookup m.default_vault m.vaults ≡ some v)
        × (get_active_vault_config m ≡ ok v)
  unfolding get_active_vault_config
  get_active_vault_config_total m (inl (e, d)) h = absurd (h d)
  get_active_vault_config_total m (inr c) h =
      let r : (v : VaultConfig S) × (lookup m.default_vault m.vaults ≡ some v) =
        lookup_of_contains_key m.default_vault m.vaults c in
      (r.0, r.1, ground (arith, eq_iff m.default_vault "", r.1))

  add_vault-le :
      (m : Manager S) (v : VaultConfig S)
      → length m.vaults ≤ max_vaults
      → length (step m (adds v)).vaults ≤ max_vaults
  unfolding step add_vault
  add_vault-le m v h = ground (arith, length-insert_new v.name v m.vaults)

  remove_vault-le :
      (m : Manager S) (name : String)
      → length m.vaults ≤ max_vaults
      → length (step m (removes name)).vaults ≤ max_vaults
  unfolding step remove_vault
  remove_vault-le m name h = ground (arith, length-remove-le name m.vaults)

  set_active_vault-le :
      (m : Manager S) (name : String)
      → length m.vaults ≤ max_vaults
      → length (step m (activates name)).vaults ≤ max_vaults
  unfolding step set_active_vault
  set_active_vault-le m name h = ground arith

  -- From a registry within the limit, no sequence of calls passes the limit of fifty vaults.
  pub length-run-le :
      (m : Manager S) (cs : List (Call S))
      → length m.vaults ≤ max_vaults
      → length (run m cs).vaults ≤ max_vaults
  unfolding run
  length-run-le m [] h = h
  length-run-le m (adds v ∷ cs) h = length-run-le (step m (adds v)) cs (add_vault-le m v h)
  length-run-le m (removes n ∷ cs) h = length-run-le (step m (removes n)) cs (remove_vault-le m n h)
  length-run-le m (activates n ∷ cs) h =
      length-run-le (step m (activates n)) cs (set_active_vault-le m n h)
