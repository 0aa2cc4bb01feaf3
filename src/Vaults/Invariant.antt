-- ===== src/Vaults/Invariant.antt =====
-- The registry of crates/turbovault-core/src/multi_vault.rs always has a usable default.
use turbovault.Common.{
  String, ◌≡◌, refl, ◌⊎◌, inl, inr, true, false, none, some, List, [], ◌∷◌, arith, eq_iff, eq_refl,
  Option-cases, contains,
}
use turbovault.Common.Table.{
  Table, contains_key, insert, remove, keys, contains_key-insert, contains_key-remove,
  contains-keys,
}
use turbovault.Core.Error.{Result, ok, err}
use turbovault.Vaults.{
  VaultConfig, Manager, min_name, collect, find_default, initial_default, new, add_vault,
  remove_vault, set_active_vault,
}

-- Either nothing is registered and the default is the empty text, or the default is registered.
abbrev pub IsUsable : {S : Type 0} → Manager S → Type 0
IsUsable m =
    ((m.vaults ≡ []) × (m.default_vault ≡ "")) ⊎ (contains_key m.default_vault m.vaults ≡ true)

min_name-contains : (ks : List String) (k : String) → min_name ks ≡ some k → contains ks k ≡ true
unfolding min_name
min_name-contains [] k h = cc
min_name-contains (j ∷ ks) k h = elim (Option-cases (min_name ks)) [
  | inl e ↦ ground (arith, eq_refl k)
  | inr (m, e) ↦ ground (arith, eq_refl k, min_name-contains ks m e)
]

min_name-none : (ks : List String) → min_name ks ≡ none → ks ≡ []
unfolding min_name
min_name-none [] h = refl
min_name-none (j ∷ ks) h = ground arith

keys-nil {ℓ} : {V : Type ℓ} (m : Table V) → keys m ≡ [] → m ≡ []
unfolding keys
keys-nil [] h = refl
keys-nil ((j, v) ∷ m) h = cc

contains_key-nil {ℓ} : {V : Type ℓ} (k : String) (m : Table V) → m ≡ [] → contains_key k m ≡ false
unfolding contains_key
contains_key-nil k [] h = refl
contains_key-nil k (e ∷ m) h = cc

module _ {S : Type 0} where
  contains_key-collect :
      (k : String) (m : Table (VaultConfig S)) (vs : List (VaultConfig S))
      → contains_key k m ≡ true
      → contains_key k (collect m vs) ≡ true
  unfolding collect
  contains_key-collect k m [] h = h
  contains_key-collect k m (v ∷ vs) h =
      contains_key-collect k (insert v.name v m) vs
        (ground (arith, contains_key-insert v.name k v m))

  find_default-collect :
      (m : Table (VaultConfig S)) (vs : List (VaultConfig S)) (w : VaultConfig S)
      → find_default vs ≡ some w
      → contains_key w.name (collect m vs) ≡ true
  unfolding find_default collect
  find_default-collect m [] w h = cc
  find_default-collect m (v ∷ vs) w h = ground (
    arith,
    contains_key-collect v.name (insert v.name v m) vs,
    contains_key-insert v.name v.name v m,
    eq_refl v.name,
    find_default-collect (insert v.name v m) vs w,
  )

  new-IsUsable : (vs : List (VaultConfig S)) → IsUsable (new vs)
  unfolding new initial_default
  new-IsUsable [] = inl (refl, refl)
  new-IsUsable (v ∷ vs) = inr (elim (Option-cases (find_default (v ∷ vs))) [
    | inl e ↦ ground (
      arith,
      contains_key-collect v.name (insert v.name v []) vs,
      contains_key-insert v.name v.name v [],
      eq_refl v.name,
    )
    | inr (w, e) ↦ ground (arith, find_default-collect [] (v ∷ vs) w e)
  ])

  add_vault-IsUsable :
      (m n : Manager S) (v : VaultConfig S) → IsUsable m → add_vault m v ≡ ok n → IsUsable n
  unfolding add_vault
  add_vault-IsUsable m n v u h = ground (
    arith,
    contains_key-insert v.name v.name v m.vaults,
    contains_key-insert v.name m.default_vault v m.vaults,
    eq_refl v.name,
  )

  remove_vault-IsUsable :
      (m n : Manager S) (name : String) → IsUsable m → remove_vault m name ≡ ok n → IsUsable n
  unfolding remove_vault
  remove_vault-IsUsable m n name u h =
      elim (Option-cases (min_name (keys (remove name m.vaults)))) [
        | inl e ↦ ground (
          arith,
          keys-nil (remove name m.vaults),
          min_name-none (keys (remove name m.vaults)) e,
          contains_key-remove name m.default_vault m.vaults,
          contains_key-nil name m.vaults,
          eq_iff name m.default_vault,
          eq_iff m.default_vault name,
        )
        | inr (k, e) ↦ ground (
          arith,
          min_name-contains (keys (remove name m.vaults)) k e,
          contains-keys k (remove name m.vaults),
          contains_key-remove name m.default_vault m.vaults,
          contains_key-nil name m.vaults,
          eq_iff name m.default_vault,
          eq_iff m.default_vault name,
        )
      ]

  set_active_vault-IsUsable :
      (m n : Manager S) (name : String) → IsUsable m → set_active_vault m name ≡ ok n → IsUsable n
  unfolding set_active_vault
  set_active_vault-IsUsable m n name u h = ground arith

-- Calls of the registry. One that fails leaves it as it was.
pub data Call (S : Type 0) : Type 0 where
  adds : VaultConfig S → Call S
  removes activates : String → Call S

abbrev pub after : {S : Type 0} → Manager S → Result (Manager S) → Manager S
after m (ok n) = n
after m (err e) = m

module _ {S : Type 0} where
  unfoldable pub step : Manager S → Call S → Manager S
  step m (adds v) = after m (add_vault m v)
  step m (removes name) = after m (remove_vault m name)
  step m (activates name) = after m (set_active_vault m name)

  unfoldable pub run : Manager S → List (Call S) → Manager S
  run m [] = m
  run m (c ∷ cs) = run (step m c) cs

  after-IsUsable :
      (m : Manager S) (r : Result (Manager S))
      → IsUsable m
      → ((n : Manager S) → r ≡ ok n → IsUsable n)
      → IsUsable (after m r)
  after-IsUsable m (ok n) u h = h n refl
  after-IsUsable m (err e) u h = u

  step-IsUsable : (m : Manager S) (c : Call S) → IsUsable m → IsUsable (step m c)
  unfolding step
  step-IsUsable m (adds v) u =
      after-IsUsable m (add_vault m v) u (λ n e. add_vault-IsUsable m n v u e)
  step-IsUsable m (removes name) u =
      after-IsUsable m (remove_vault m name) u (λ n e. remove_vault-IsUsable m n name u e)
  step-IsUsable m (activates name) u =
      after-IsUsable m (set_active_vault m name) u (λ n e. set_active_vault-IsUsable m n name u e)

  run-IsUsable : (m : Manager S) (cs : List (Call S)) → IsUsable m → IsUsable (run m cs)
  unfolding run
  run-IsUsable m [] u = u
  run-IsUsable m (c ∷ cs) u = run-IsUsable (step m c) cs (step-IsUsable m c u)

  -- Whatever vaults the server starts with, and whatever calls of `add_vault`, `remove_vault` and
  -- `set_active_vault` follow one after the other, failing ones included: the default is
  -- registered, or nothing is registered and the default is the empty text.
  pub run-new-IsUsable :
      (vs : List (VaultConfig S)) (cs : List (Call S)) → IsUsable (run (new vs) cs)
  run-new-IsUsable vs cs = run-IsUsable (new vs) cs (new-IsUsable vs)
