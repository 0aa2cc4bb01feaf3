-- ===== src/Common/Table.antt =====
-- `HashMap<String, V>` as an association list. The source never depends on its order but where it
-- takes the least key, so the laws below are all that a client uses.
use turbovault.Common.{
  String, ◌≡◌, refl, Bool, false, Option, none, some, List, [], ◌∷◌, arith, ◌==◌, eq_iff,
  if◌then◌else◌, contains, ◌||◌,
}

abbrev pub Table {ℓ} : Type ℓ → Type ℓ
Table V = List (String × V)

module _ {ℓ} {V : Type ℓ} where
  -- m.get(k)
  unfoldable pub lookup : String → Table V → Option V
  lookup k [] = none
  lookup k ((j, v) ∷ m) = if j == k then some v else lookup k m

  -- m.contains_key(k)
  unfoldable pub contains_key : String → Table V → Bool
  contains_key k [] = false
  contains_key k ((j, v) ∷ m) = j == k || contains_key k m

  -- m.insert(key, new): an entry under the key is replaced.
  unfoldable pub insert : String → V → Table V → Table V
  insert key new [] = (key, new) ∷ []
  insert key new ((at, old) ∷ rest) =
      if at == key then (key, new) ∷ rest else (at, old) ∷ insert key new rest

  -- m.remove(k)
  unfoldable pub remove : String → Table V → Table V
  remove k [] = []
  remove k ((j, v) ∷ m) = let rest = remove k m in if j == k then rest else (j, v) ∷ rest

  -- m.keys()
  unfoldable pub keys : Table V → List String
  keys [] = []
  keys ((j, v) ∷ m) = j ∷ keys m

  pub lookup-insert :
      (key at : String) (new : V) (m : Table V)
      → lookup at (insert key new m) ≡ (if key == at then some new else lookup at m)
  unfolding insert lookup
  lookup-insert key at new [] = refl
  lookup-insert key at new ((here, old) ∷ rest) =
      let later = lookup-insert key at new rest in
      ground (arith, later, eq_iff here at, eq_iff here key, eq_iff key at)

  pub lookup-remove :
      (k j : String) (m : Table V) → lookup j (remove k m) ≡ (if k == j then none else lookup j m)
  unfolding lookup remove
  lookup-remove k j [] = ground arith
  lookup-remove k j ((i, w) ∷ m) =
      ground (arith, eq_iff k j, eq_iff i k, eq_iff i j, lookup-remove k j m)

  pub contains_key-insert :
      (k j : String) (v : V) (m : Table V)
      → contains_key j (insert k v m) ≡ (k == j || contains_key j m)
  unfolding contains_key insert
  contains_key-insert k j v [] = refl
  contains_key-insert k j v ((i, w) ∷ m) =
      ground (arith, eq_iff k j, eq_iff i k, eq_iff i j, contains_key-insert k j v m)

  pub contains_key-remove :
      (k j : String) (m : Table V)
      → contains_key j (remove k m) ≡ (if k == j then false else contains_key j m)
  unfolding contains_key remove
  contains_key-remove k j [] = ground arith
  contains_key-remove k j ((i, w) ∷ m) =
      ground (arith, eq_iff k j, eq_iff i k, eq_iff i j, contains_key-remove k j m)

  pub contains-keys : (j : String) (m : Table V) → contains (keys m) j ≡ contains_key j m
  unfolding contains_key keys
  contains-keys j [] = refl
  contains-keys j ((i, w) ∷ m) = ground (arith, contains-keys j m)
