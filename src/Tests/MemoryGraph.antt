-- ===== src/Tests/MemoryGraph.antt =====
-- A graph in memory, with the operations that crates/turbovault-graph uses of petgraph: nodes and edges
-- numbered below a count, a removal moving the last one into the free place.
use turbovault.Common.{
  ℕ, zero, suc, ◌-◌, ◌<◌, String, ◌≡◌, refl, Bool, false, Option, none, some, List, [], ◌∷◌, ◌++◌,
  ◌||◌, eqb, ltb, length, if◌then◌else◌, arith, inl, inr, Bool-cases, subst, All, ◌≤◌,
}
use turbovault.Links.Digraph.{wiki_link, Edge, Digraph, DigraphLaws, has}

pub record Memory : Type 0 where
  pub nodes : ℕ
  pub path_at : ℕ → String
  pub edges : ℕ
  pub edge_at : ℕ → Edge (Unit {0})

abbrev no_edge : Edge (Unit {0})
no_edge = record {
  source = 0;
  target = 0;
  link = record { type_ = wiki_link; target = []; is_valid = false; carried = tt };
}

abbrev node_of : ℕ → Memory → Option String
node_of i g = if ltb i g.nodes then some (g.path_at i) else none

abbrev edge_of : ℕ → Memory → Option (Edge (Unit {0}))
edge_of i g = if ltb i g.edges then some (g.edge_at i) else none

-- the numbers below `n` that pass a test, the lowest or the highest first
abbrev below : Bool → (ℕ → Bool) → ℕ → List ℕ
below lowest test zero = []
below lowest test (suc n) =
    let rest = below lowest test n in
    if test n then (if lowest then rest ++ (n ∷ []) else n ∷ rest) else rest

abbrev renamed_end : ℕ → ℕ → ℕ → ℕ
renamed_end last n i = if eqb i last then n else i

-- the edges below `m` that do not touch `n`, with their ends renamed
abbrev kept_edges : ℕ → ℕ → ℕ → (ℕ → Edge (Unit {0})) → List (Edge (Unit {0}))
kept_edges n last zero at = []
kept_edges n last (suc m) at =
    let rest = kept_edges n last m at in
    if eqb (at m).source n || eqb (at m).target n
    then rest
    else record {
      source = renamed_end last n (at m).source;
      target = renamed_end last n (at m).target;
      link = (at m).link;
    }
      ∷ rest

abbrev get_or : ℕ → List (Edge (Unit {0})) → Edge (Unit {0})
get_or i [] = no_edge
get_or zero (e ∷ es) = e
get_or (suc i) (e ∷ es) = get_or i es

abbrev drop_node : ℕ → Memory → Memory
drop_node n g =
    let kept = kept_edges n (g.nodes - 1) g.edges g.edge_at in
    record {
      nodes = g.nodes - 1;
      path_at = λ j. if eqb j n then g.path_at (g.nodes - 1) else g.path_at j;
      edges = length kept;
      edge_at = λ i. get_or i kept;
    }

abbrev drop_edge : ℕ → Memory → Memory
drop_edge i g =
    if ltb i g.edges
    then record g {
      edges = g.edges - 1;
      edge_at = λ j. if eqb j i then g.edge_at (g.edges - 1) else g.edge_at j;
    }
    else g

abbrev pub memory : Bool → Digraph (Unit {0})
memory lowest = record {
  G = Memory;
  empty = record { nodes = 0; path_at = λ i. ""; edges = 0; edge_at = λ i. no_edge };
  node_count = λ g. g.nodes;
  node = node_of;
  add_node = λ p g. (
    g.nodes,
    record g { nodes = suc g.nodes; path_at = λ j. if eqb j g.nodes then p else g.path_at j },
  );
  remove_node = drop_node;
  edge_count = λ g. g.edges;
  edge = edge_of;
  add_edge = λ a b l g. record g {
    edges = suc g.edges;
    edge_at =
        λ j. if eqb j g.edges then record { source = a; target = b; link = l } else g.edge_at j;
  };
  remove_edge = drop_edge;
  edges = λ n g. below lowest (λ i. eqb (g.edge_at i).source n) g.edges;
  edges_incoming = λ n g. below lowest (λ i. eqb (g.edge_at i).target n) g.edges;
}

has-last : (i n : ℕ) (is : List ℕ) → has i (is ++ (n ∷ [])) ≡ (has i is || eqb i n)
has-last i n [] = ground arith
has-last i n (j ∷ js) = ground (arith, has-last i n js)

has-below :
    (lowest : Bool) (test : ℕ → Bool) (i n : ℕ)
    → has i (below lowest test n) ≡ (if ltb i n then test i else false)
has-below lowest test i zero = ground arith
has-below lowest test i (suc n) =
    let later = has-below lowest test i n in
    let final = has-last i n (below lowest test n) in
    elim (Bool-cases (eqb i n)) [
      | inl e ↦ ground (arith, later, final)
      | inr e ↦ ground (arith, later, final)
    ]

-- what a kept edge was
abbrev Was : ℕ → ℕ → ℕ → (ℕ → Edge (Unit {0})) → Edge (Unit {0}) → Type 0
Was n last m at e =
    (j : ℕ) × (j < m)
    × (eqb (at j).source n ≡ false)
    × (eqb (at j).target n ≡ false)
    × (e.source ≡ renamed_end last n (at j).source)
    × (e.target ≡ renamed_end last n (at j).target)

kept_edges-Was :
    (n last count m : ℕ) (at : ℕ → Edge (Unit {0}))
    → m ≤ count
    → All (Was n last count at) (kept_edges n last m at)
kept_edges-Was n last count zero at le = tt
kept_edges-Was n last count (suc m) at le =
    let rest = kept_edges-Was n last count m at (omega arith) in
    elim (Bool-cases (eqb (at m).source n || eqb (at m).target n)) [
      | inl e ↦ rw e rest
      | inr e ↦ rw e ((m, omega arith, ground arith, ground arith, refl, refl), rest)
    ]

get_or-All :
    (Holds : Edge (Unit {0}) → Type 0) (i : ℕ) (es : List (Edge (Unit {0})))
    → i < length es
    → All Holds es
    → Holds (get_or i es)
get_or-All Holds i [] lt every = absurd (ground arith)
get_or-All Holds zero (e ∷ es) lt every = every.0
get_or-All Holds (suc i) (e ∷ es) lt every = get_or-All Holds i es (ground arith) every.1

edge_drop_node :
    (n i : ℕ) (e : Edge (Unit {0})) (g : Memory)
    → edge_of i (drop_node n g) ≡ some e
    → Was n (g.nodes - 1) g.edges g.edge_at e
edge_drop_node n i e g h =
    let kept = kept_edges n (g.nodes - 1) g.edges g.edge_at in
    let was =
      get_or-All (Was n (g.nodes - 1) g.edges g.edge_at) i kept (ground (arith, h))
        (kept_edges-Was n (g.nodes - 1) g.edges g.edges g.edge_at (omega arith)) in
    let same : get_or i kept ≡ e = ground (arith, h) in
    subst (Was n (g.nodes - 1) g.edges g.edge_at) same was

pub memory-laws : (lowest : Bool) → DigraphLaws (memory lowest)
memory-laws lowest = record {
  node_lt = λ i p g h. ground arith;
  node_some = λ i g lt. (g.path_at i, ground arith);
  node_empty = λ i. ground arith;
  fst_add_node = λ p g. refl;
  node_add_node = λ p j g. ground arith;
  node_remove_node = λ i j g lt. ground arith;
  node_add_edge = λ a b j l g. refl;
  node_remove_edge = λ i j g. ground arith;
  edge_add_node = λ p i g. refl;
  edge_remove_node = λ n i e g lt h.
      let was = edge_drop_node n i e g h in
      (was.0, g.edge_at was.0, ground (arith, was.1), was.2, was.3, was.4, was.5);
  edge_count_empty = refl;
  edge_lt = λ i e g h. ground arith;
  edge_count_remove_edge = λ i g. ground arith;
  edge_remove_edge = λ i j g. ground arith;
  edge_add_edge = λ a b j l g. ground arith;
  has_edges = λ n i g. ground (arith, has-below lowest (λ i. eqb (g.edge_at i).source n) i g.edges);
  has_edges_incoming =
      λ n i g. ground (arith, has-below lowest (λ i. eqb (g.edge_at i).target n) i g.edges);
}
