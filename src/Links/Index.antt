-- ===== src/Links/Index.antt =====
-- The `HashMap<_, Vec<NodeIndex>>` of crates/turbovault-graph/src/graph.rs, as functions of the key:
-- what the source does to them, and what is found afterwards. `eq` is the equality of keys.
use turbovault.Common.{
  ℕ, ◌≡◌, refl, Bool, Option, none, some, List, [], ◌∷◌, ◌++◌, ◌&&◌, ◌||◌, not, eqb, if◌then◌else◌,
  arith,
}
use turbovault.Links.Digraph.{has}

-- `indices.retain(|&i| i != n)`
unfoldable pub without : ℕ → List ℕ → List ℕ
without n [] = []
without n (i ∷ is) = let rest = without n is in if eqb i n then rest else i ∷ rest

-- `if *node_idx == last { *node_idx = n }` over a vector
unfoldable pub renamed : ℕ → ℕ → List ℕ → List ℕ
renamed last n [] = []
renamed last n (i ∷ is) = (if eqb i last then n else i) ∷ renamed last n is

has-snoc : (i n : ℕ) (is : List ℕ) → has i (is ++ (n ∷ [])) ≡ (has i is || eqb i n)
has-snoc i n [] = ground arith
has-snoc i n (j ∷ js) = ground (arith, has-snoc i n js)

has-without : (i n : ℕ) (is : List ℕ) → has i (without n is) ≡ (not (eqb i n) && has i is)
unfolding without
has-without i n [] = ground arith
has-without i n (j ∷ js) = ground (arith, has-without i n js)

has-renamed :
    (i last n : ℕ) (is : List ℕ)
    → has i (renamed last n is)
      ≡ ((eqb i n && (has last is || has n is)) || (not (eqb i n) && not (eqb i last) && has i is))
unfolding renamed
has-renamed i last n [] = ground arith
has-renamed i last n (j ∷ js) = ground (arith, has-renamed i last n js)

abbrev kept : List ℕ → Option (List ℕ)
kept [] = none
kept (i ∷ is) = some (i ∷ is)

abbrev pub Index : Type 0 → Type 0
Index K = K → Option (List ℕ)

abbrev pub listed : Option (List ℕ) → List ℕ
listed none = []
listed (some is) = is

has-kept : (i : ℕ) (is : List ℕ) → has i (listed (kept is)) ≡ has i is
has-kept i [] = refl
has-kept i (j ∷ js) = refl

abbrev cleared : ℕ → Option (List ℕ) → Option (List ℕ)
cleared n none = none
cleared n (some is) = kept (without n is)

has-cleared :
    (i n : ℕ) (o : Option (List ℕ))
    → has i (listed (cleared n o)) ≡ (not (eqb i n) && has i (listed o))
has-cleared i n none = ground arith
has-cleared i n (some is) = ground (arith, has-kept i (without n is), has-without i n is)

abbrev moved : ℕ → ℕ → Option (List ℕ) → Option (List ℕ)
moved last n none = none
moved last n (some is) = some (renamed last n is)

has-moved :
    (i last n : ℕ) (o : Option (List ℕ))
    → has i (listed (moved last n o)) ≡ (
        (eqb i n && (has last (listed o) || has n (listed o)))
        || (not (eqb i n) && not (eqb i last) && has i (listed o)))
has-moved i last n none = ground arith
has-moved i last n (some is) = has-renamed i last n is

module _ {K : Type 0} where
  abbrev pub entries : K → Index K → List ℕ
  entries k m = listed (m k)

  module _ (eq : K → K → Bool) where
    -- `m.entry(k).or_default().push(n)`
    unfoldable pub push : K → ℕ → Index K → Index K
    push k n m = λ j. if eq j k then some (listed (m j) ++ (n ∷ [])) else m j

    -- the same, unless `entries.contains(&n)`
    unfoldable pub push_new : K → ℕ → Index K → Index K
    push_new k n m = λ j.
        if eq j k
        then some (if has n (listed (m j)) then listed (m j) else listed (m j) ++ (n ∷ []))
        else m j

    -- `retain(|&i| i != n)` on the vector under one key, which is removed if it is empty then
    unfoldable pub retain_at : K → ℕ → Index K → Index K
    unfolding without
    retain_at k n m = λ j. if eq j k then cleared n (m j) else m j

    -- the replacement of an index in the vector under one key
    unfoldable pub rename_at : K → ℕ → ℕ → Index K → Index K
    unfolding renamed
    rename_at k last n m = λ j. if eq j k then moved last n (m j) else m j

    pub has-push :
        (k j : K) (i n : ℕ) (m : Index K)
        → has i (entries j (push k n m)) ≡ (has i (entries j m) || (eq j k && eqb i n))
    unfolding push
    has-push k j i n m = ground (arith, has-snoc i n (listed (m j)))

    pub has-push_new :
        (k j : K) (i n : ℕ) (m : Index K)
        → has i (entries j (push_new k n m)) ≡ (has i (entries j m) || (eq j k && eqb i n))
    unfolding push_new
    has-push_new k j i n m = ground (arith, has-snoc i n (listed (m j)))

    pub has-retain_at :
        (k j : K) (i n : ℕ) (m : Index K)
        → has i (entries j (retain_at k n m)) ≡ (not (eq j k && eqb i n) && has i (entries j m))
    unfolding retain_at
    has-retain_at k j i n m = ground (arith, has-cleared i n (m j))

    pub has-rename_at :
        (k j : K) (i last n : ℕ) (m : Index K)
        → has i (entries j (rename_at k last n m)) ≡ (
            if eq j k
            then ((eqb i n && (has last (entries j m) || has n (entries j m)))
                || (not (eqb i n) && not (eqb i last) && has i (entries j m)))
            else has i (entries j m))
    unfolding rename_at
    has-rename_at k j i last n m = ground (arith, has-moved i last n (m j))

  -- `retain` on every vector of the map, and the removal of those that are empty then
  unfoldable pub retain_all : ℕ → Index K → Index K
  unfolding without
  retain_all n m = λ j. cleared n (m j)

  unfoldable pub rename_all : ℕ → ℕ → Index K → Index K
  unfolding renamed
  rename_all last n m = λ j. moved last n (m j)

  pub has-retain_all :
      (j : K) (i n : ℕ) (m : Index K)
      → has i (entries j (retain_all n m)) ≡ (not (eqb i n) && has i (entries j m))
  unfolding retain_all
  has-retain_all j i n m = has-cleared i n (m j)

  pub has-rename_all :
      (j : K) (i last n : ℕ) (m : Index K)
      → has i (entries j (rename_all last n m)) ≡ (
          (eqb i n && (has last (entries j m) || has n (entries j m)))
          || (not (eqb i n) && not (eqb i last) && has i (entries j m)))
  unfolding rename_all
  has-rename_all j i last n m = has-moved i last n (m j)
