-- ===== src/Links/Outgoing.antt =====
-- crates/turbovault-graph/src/graph.rs, `LinkGraph::update_links`: the edges that leave a file afterwards.
-- The ids of the old ones are collected first and removed one by one, while each removal gives the
-- last edge another id.
use turbovault.Common.{
  ℕ, ◌-◌, ◌<◌, ◌≡◌, sym, ◌∙◌, true, false, List, [], ◌∷◌, eqb, arith, inl, inr, Bool-cases,
  Option-cases, All,
}
use turbovault.Links.Digraph.{PathOps, Digraph, DigraphLaws, has, leaves}
use turbovault.Links.Update.{remove_edges}

abbrev pub Descending : List ℕ → Type 0
Descending [] = Unit {0}
Descending (i ∷ is) = All (λ j. j < i) is × Descending is

lt_of_has : (i k : ℕ) (js : List ℕ) → All (λ j. j < i) js → has k js ≡ true → k < i
lt_of_has i k [] every h = absurd (ground arith)
lt_of_has i k (j ∷ js) every h = elim (Bool-cases (eqb k j)) [
  | inl e ↦ ground (arith, every.0)
  | inr e ↦ lt_of_has i k js every.1 (ground arith)
]

module _ {C : Type 0} (o : PathOps) (d : Digraph C) (laws : DigraphLaws d) where
  remove_head :
      (n i k : ℕ) (js : List ℕ) (g : d.G)
      → All (λ j. j < i) js
      → ((m : ℕ) → has m (i ∷ js) ≡ leaves n (d.edge m g))
      → has k js ≡ leaves n (d.edge k (d.remove_edge i g))
  remove_head n i k js g below listed = elim (Option-cases (d.edge i g)) [
    | inl e ↦ absurd (ground (arith, listed i))
    | inr (edge, e) ↦
        let lt = laws.edge_lt i edge g e in
        let last = d.edge_count g - 1 in
        rw (laws.edge_remove_edge i k g) (
          ground
            (arith, lt, listed k, listed last, lt_of_has i k js below, lt_of_has i last js below))
  ]

  -- With the ids in descending order every old edge goes.
  remove_all :
      (n : ℕ) (js : List ℕ) (g : d.G)
      → Descending js
      → ((m : ℕ) → has m js ≡ leaves n (d.edge m g))
      → (k : ℕ) → leaves n (d.edge k (remove_edges o d js g)) ≡ false
  unfolding remove_edges
  remove_all n [] g down listed k = sym (listed k)
  remove_all n (i ∷ js) g down listed k =
      remove_all n js (d.remove_edge i g) down.1 (λ m. remove_head n i m js g down.0 listed) k

  -- If the graph lists the edges of a node in descending order of their ids, the loop at the start
  -- of `update_links` leaves no edge that leaves the node.
  pub remove_edges-all :
      (n : ℕ) (g : d.G)
      → Descending (d.edges n g)
      → (k : ℕ) → leaves n (d.edge k (remove_edges o d (d.edges n g) g)) ≡ false
  remove_edges-all n g down k = remove_all n (d.edges n g) g down (λ m. laws.has_edges n m g) k

  -- If it lists two edges of a node, and the second of them is the last edge of the graph, the loop
  -- removes only the first: the second takes the id of the first, and stays.
  pub remove_edges-stale :
      (n i j : ℕ) (g : d.G)
      → d.edges n g ≡ i ∷ j ∷ []
      → i < j
      → j ≡ d.edge_count g - 1
      → (d.edge i (remove_edges o d (d.edges n g) g) ≡ d.edge j g) × (leaves n (d.edge j g) ≡ true)
  unfolding remove_edges
  remove_edges-stale n i j g listed lt last =
      let left : leaves n (d.edge j g) ≡ true =
        sym (laws.has_edges n j g) ∙ rw listed (ground arith) in
      let rest = d.remove_edge i g in
      let count : d.edge_count rest ≡ j =
        rw (laws.edge_count_remove_edge i g) (ground (arith, lt, last)) in
      (
        rw
            (
              listed,
              remove_edges,
              laws.edge_remove_edge j i rest,
              count,
              laws.edge_remove_edge i i g,
            )
            (ground (arith, last, lt)),
        left,
      )
