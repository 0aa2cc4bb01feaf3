-- ===== src/Links/Queries.antt =====
-- crates/turbovault-graph/src/graph.rs: the operations of `LinkGraph` that read it. An index that the
-- graph lists has its node and its edge, so where one is missing below the source would panic.
use turbovault.Common.{
  ℕ, zero, suc, ◌+◌, String, Bool, true, Option, none, some, List, [], ◌∷◌, ◌++◌, ◌&&◌, ltb, length,
  if◌then◌else◌,
}
use turbovault.Common.Table.{Table, lookup, insert}
use turbovault.Links.Digraph.{Link, Edge, Digraph, has}
use turbovault.Links.Resolve.{is_empty}
use turbovault.Links.Graph.{LinkGraph}

abbrev pub opt_cons {ℓ} : {A : Type ℓ} → Option A → List A → List A
opt_cons none xs = xs
opt_cons (some x) xs = x ∷ xs

-- `acc.entry(path).or_insert_with(Vec::new).push(link)`
abbrev pub add_link : {C : Type 0} → String → Link C → Table (List (Link C)) → Table (List (Link C))
add_link path link acc = elim (lookup path acc) [
  | some links ↦ insert path (links ++ (link ∷ [])) acc
  | none ↦ insert path (link ∷ []) acc
]

pub record GraphStats : Type 0 where
  pub total_files : ℕ
  pub total_links : ℕ
  pub orphaned_files : ℕ

module _ {C : Type 0} (d : Digraph C) where
  -- the edges of these ids
  unfoldable pub edges_of : List ℕ → d.G → List (Edge C)
  edges_of [] g = []
  edges_of (i ∷ is) g = opt_cons (d.edge i g) (edges_of is g)

  abbrev pub links_of : List (Edge C) → List (Link C)
  links_of [] = []
  links_of (e ∷ es) = e.link ∷ links_of es

  abbrev pub targets_of : List (Edge C) → List ℕ
  targets_of [] = []
  targets_of (e ∷ es) = e.target ∷ targets_of es

  abbrev pub sources_of : List (Edge C) → List ℕ
  sources_of [] = []
  sources_of (e ∷ es) = e.source ∷ sources_of es

  -- the fold of `backlinks` and `forward_links`, by the path of the other end
  unfoldable pub grouped :
      (Edge C → ℕ) → List (Edge C) → d.G → Table (List (Link C)) → Table (List (Link C))
  unfolding lookup insert
  grouped end [] g acc = acc
  grouped end (e ∷ es) g acc =
      grouped end es g
        (elim (d.node (end e) g) [ some path ↦ add_link path e.link acc | none ↦ acc ])

  -- LinkGraph::backlinks
  unfoldable pub backlinks : String → LinkGraph C d → Table (List (Link C))
  unfolding edges_of grouped
  backlinks path lg = elim (lg.path_index path) [
    | some i ↦ grouped (λ e. e.source) (edges_of (d.edges_incoming i lg.graph) lg.graph) lg.graph []
    | none ↦ []
  ]

  -- LinkGraph::forward_links
  unfoldable pub forward_links : String → LinkGraph C d → Table (List (Link C))
  unfolding edges_of grouped
  forward_links path lg = elim (lg.path_index path) [
    | some i ↦ grouped (λ e. e.target) (edges_of (d.edges i lg.graph) lg.graph) lg.graph []
    | none ↦ []
  ]

  -- LinkGraph::incoming_links
  unfoldable pub incoming_links : String → LinkGraph C d → List (Link C)
  unfolding edges_of
  incoming_links path lg = elim (lg.path_index path) [
    | some i ↦ links_of (edges_of (d.edges_incoming i lg.graph) lg.graph)
    | none ↦ []
  ]

  -- LinkGraph::outgoing_links
  unfoldable pub outgoing_links : String → LinkGraph C d → List (Link C)
  unfolding edges_of
  outgoing_links path lg = elim (lg.path_index path) [
    | some i ↦ links_of (edges_of (d.edges i lg.graph) lg.graph)
    | none ↦ []
  ]

  abbrev pub is_orphan : ℕ → d.G → Bool
  is_orphan i g = is_empty (d.edges_incoming i g) && is_empty (d.edges i g)

  -- the paths of the nodes below a bound that pass a test, in the order of their indices
  unfoldable pub paths_below : (ℕ → Bool) → ℕ → d.G → List String
  paths_below test zero g = []
  paths_below test (suc i) g =
      let before = paths_below test i g in
      if test i then before ++ opt_cons (d.node i g) [] else before

  -- LinkGraph::orphaned_notes
  unfoldable pub orphaned_notes : LinkGraph C d → List String
  unfolding paths_below
  orphaned_notes lg = paths_below (λ i. is_orphan i lg.graph) (d.node_count lg.graph) lg.graph

  -- LinkGraph::all_files
  unfoldable pub all_files : LinkGraph C d → List String
  unfolding paths_below
  all_files lg = paths_below (λ i. true) (d.node_count lg.graph) lg.graph

  -- LinkGraph::stats, without the average, a floating-point number
  unfoldable pub stats : LinkGraph C d → GraphStats
  unfolding orphaned_notes
  stats lg = record {
    total_files = d.node_count lg.graph;
    total_links = d.edge_count lg.graph;
    orphaned_files = length (orphaned_notes lg);
  }

  -- LinkGraph::unresolved_link_count
  unfoldable pub unresolved_link_count : Table (List (Link C)) → ℕ
  unresolved_link_count [] = 0
  unresolved_link_count ((path, links) ∷ rest) = length links + unresolved_link_count rest

  abbrev pub Search : Type 0
  Search = List ℕ × List (ℕ × ℕ)

  -- `if visited.insert(neighbor_idx) { queue.push_back((neighbor_idx, hops + 1)); }`
  unfoldable pub visit : ℕ → List ℕ → Search → Search
  visit hops [] search = search
  visit hops (i ∷ is) (visited, queue) =
      visit hops is
        (if has i visited then (visited, queue) else (i ∷ visited, queue ++ ((i, hops) ∷ [])))

  -- both inner loops of one turn
  unfoldable pub expand : ℕ → ℕ → ℕ → d.G → Search → Search
  unfolding visit edges_of
  expand max_hops i hops g search =
      if ltb hops max_hops
      then visit (suc hops) (sources_of (edges_of (d.edges_incoming i g) g))
          (visit (suc hops) (targets_of (edges_of (d.edges i g) g)) search)
      else search

  -- the `while` loop of `related_notes`, on fuel
  unfoldable pub related_loop : ℕ → ℕ → d.G → Search → List String → Option (List String)
  unfolding expand
  related_loop fuel max_hops g (visited, []) related = some related
  related_loop zero max_hops g (visited, next ∷ queue) related = none
  related_loop (suc fuel) max_hops g (visited, (i, hops) ∷ queue) related =
      related_loop fuel max_hops g (expand max_hops i hops g (visited, queue))
        (if ltb 0 hops then related ++ opt_cons (d.node i g) [] else related)

  -- LinkGraph::related_notes; each node is taken from the queue once at most
  unfoldable pub related_notes : String → ℕ → LinkGraph C d → Option (List String)
  unfolding related_loop
  related_notes path max_hops lg = elim (lg.path_index path) [
    | some start ↦
        related_loop (d.node_count lg.graph) max_hops lg.graph (start ∷ [], (start, 0) ∷ []) []
    | none ↦ some []
  ]
