-- ===== src/Tests/Core.antt =====
-- The theorems on plans, vaults, the circuit breaker, retries and batches at concrete inputs.
use turbovault.Common.{
  ℕ, String, ◌≡◌, ◌≢◌, refl, true, false, none, some, List, [], ◌∷◌, ◌≤◌, arith, eq_iff, length,
  inr, ◌⊎◌, ◌==◌, if◌then◌else◌,
}
use turbovault.Common.Table.{lookup, insert, remove as remove_key, contains_key, keys}
use turbovault.Core.Error.{ok, err, not_found_in_graph}
use turbovault.Core.Plan.{new as new_plan, touched_paths}
use turbovault.Core.Plan.Laws.{
  Op, create_op, move_op, delete_op, build, op_paths, IsGuarded, build-IsGuarded,
}
use turbovault.Vaults.{
  VaultConfig, Manager, direct, new, empty, add_insert, add_finish, add_vault, remove_vault,
  get_active_vault_config, min_name, collect, find_default, initial_default,
}
use turbovault.Vaults.Invariant.{IsUsable, adds, removes, run, run-new-IsUsable, step}
use turbovault.Vaults.Race.{add_overtaken}
use turbovault.Vaults.Contract.{
  or_empty, add_vault_contract, remove_vault_contract, get_active_vault_config_total, length-run-le,
}
use turbovault.Batch.{BatchOperation, write_note, move_note, conflicts_with}
use turbovault.Batch.Conflicts.{conflicts_with_iff}

abbrev ops : List Op
ops = create_op "a.md" (1 ∷ []) ∷ move_op "b.md" "c.md" "t" ∷ delete_op "d.md" "u" ∷ []

build-IsGuarded_example :
    IsGuarded (build (new_plan {Json = ℕ} "batch") ops)
    × (touched_paths (build (new_plan {Json = ℕ} "batch") ops) ≡ op_paths ops)
build-IsGuarded_example = build-IsGuarded ℕ "batch" ops

abbrev vault : String → VaultConfig ℕ
vault name = record {
  name = name;
  path = "/vaults";
  is_default = false;
  write_backend = direct;
  git_config = none;
  settings = 0;
}

run-new-IsUsable_example :
    IsUsable (run (new (vault "b" ∷ [])) (adds (vault "a") ∷ removes "b" ∷ []))
run-new-IsUsable_example = run-new-IsUsable (vault "b" ∷ []) (adds (vault "a") ∷ removes "b" ∷ [])

-- The least remaining name becomes the default.
replaced :
    (run
      (new (vault "b" ∷ []))
      (adds (vault "c") ∷ adds (vault "a") ∷ removes "b" ∷ [])).default_vault
    ≡ "a"
unfolding run step new add_vault add_insert add_finish remove_vault min_name collect initial_default
    find_default insert remove_key contains_key keys
replaced = refl

abbrev alone : Manager ℕ
alone = record { vaults = ("a", vault "a") ∷ []; default_vault = "a" }

abbrev alone_unset : Manager ℕ
alone_unset = record alone { default_vault = "" }

abbrev empty_manager : Manager ℕ
empty_manager = record { vaults = []; default_vault = "" }

abbrev both : Manager ℕ
both = record { vaults = ("a", vault "a") ∷ ("b", vault "b") ∷ []; default_vault = "a" }

added : add_vault alone (vault "b") ≡ ok both
unfolding add_vault add_insert add_finish insert contains_key
added = refl

removed : remove_vault both "b" ≡ ok alone
unfolding remove_vault contains_key remove_key
removed = refl

alone-IsUsable : IsUsable alone
unfolding contains_key
alone-IsUsable = inr refl

add_vault_contract_example : lookup "b" both.vaults ≡ some (vault "b")
add_vault_contract_example = (add_vault_contract alone both (vault "b") added).3 "b"

remove_vault_contract_example :
    ((contains_key "b" both.vaults ≡ true)
      × ((n : Manager ℕ) × (remove_vault both "b" ≡ ok n)
          × ((j : String) → lookup j n.vaults ≡ (if "b" == j then none else lookup j both.vaults))
          × (n.default_vault ≡ (
              if both.default_vault == "b"
              then or_empty (min_name (keys n.vaults))
              else both.default_vault))))
    ⊎ ((contains_key "b" both.vaults ≡ false) × (remove_vault both "b" ≡ err not_found_in_graph))
remove_vault_contract_example = remove_vault_contract both "b"

a_named : ◌≢◌ {A = String} "a" ""
a_named e = ground (arith, eq_iff "a" "")

get_active_vault_config_total_example :
    (v : VaultConfig ℕ) × (lookup "a" alone.vaults ≡ some v)
    × (get_active_vault_config alone ≡ ok v)
get_active_vault_config_total_example = get_active_vault_config_total alone alone-IsUsable a_named

length-run-le_example : length (run alone (adds (vault "b") ∷ removes "x" ∷ [])).vaults ≤ 50
length-run-le_example = length-run-le alone (adds (vault "b") ∷ removes "x" ∷ []) (omega arith)

add_overtaken_example :
    (m : Manager ℕ) × (n : Manager ℕ) × (add_insert (empty {S = ℕ}) (vault "a") ≡ ok (m, true))
    × (remove_vault m "a" ≡ ok n)
    × (¬ IsUsable (add_finish n (vault "a") true))
    × (get_active_vault_config (add_finish n (vault "a") true) ≡ err not_found_in_graph)
add_overtaken_example = add_overtaken (vault "a") a_named

abbrev write : BatchOperation ℕ
write = write_note "a.md" "text" (some "t")

abbrev move : BatchOperation ℕ
move = move_note "b.md" "a.md" none none

conflicts_with_iff_example : conflicts_with write move ≡ conflicts_with move write
conflicts_with_iff_example = (conflicts_with_iff write move).1
