-- ===== src/Links/Related.antt =====
-- crates/turbovault-graph/src/graph.rs, `LinkGraph::related_notes`: the search ends, and what it finds.
use turbovault.Common.{
  ℕ, zero, suc, ◌+◌, ◌≤◌, ◌<◌, String, ◌≡◌, refl, sym, ◌∙◌, ap, true, false, Option, none, some,
  List, [], ◌∷◌, ◌++◌, eqb, ltb, length, if◌then◌else◌, arith, inl, inr, Bool-cases, Option-cases,
  All, All-append, length-append,
}
use turbovault.Text.{is_some}
use turbovault.Links.Digraph.{Edge, PathOps, Digraph, DigraphLaws, has, leaves, enters}
use turbovault.Links.Graph.{LinkGraph}
use turbovault.Links.Queries.{
  opt_cons, edges_of, targets_of, sources_of, Search, visit, expand, related_loop, related_notes,
}
use turbovault.Links.Invariant.{node_of_path}
use turbovault.Links.Edges.{IsConsistent}

-- how many numbers below `n` are not in the list
unfoldable unseen : ℕ → List ℕ → ℕ
unseen zero is = 0
unseen (suc n) is = let rest = unseen n is in if has n is then rest else suc rest

unseen_high : (n i : ℕ) (is : List ℕ) → n ≤ i → unseen n (i ∷ is) ≡ unseen n is
unfolding unseen
unseen_high zero i is le = refl
unseen_high (suc n) i is le = ground (arith, unseen_high n i is (omega arith))

unseen_new :
    (n i : ℕ) (is : List ℕ) → i < n → has i is ≡ false → suc (unseen n (i ∷ is)) ≡ unseen n is
unfolding unseen
unseen_new zero i is lt h = absurd (omega arith)
unseen_new (suc n) i is lt h = elim (Bool-cases (eqb n i)) [
  | inl e ↦ ground (arith, unseen_high n i is (ground arith))
  | inr e ↦ ground (arith, unseen_new n i is (ground arith) h)
]

unseen_none : (n : ℕ) → unseen n [] ≡ n
unfolding unseen
unseen_none zero = refl
unseen_none (suc n) = ap (λ (m : ℕ). suc m) (unseen_none n)

unseen_one : (n i : ℕ) → i < n → suc (unseen n (i ∷ [])) ≡ n
unseen_one n i lt = unseen_new n i [] lt refl ∙ unseen_none n

module _ {C : Type 0} (d : Digraph C) where
  -- An edge joins two nodes, in either direction.
  pub data Joined (g : d.G) : ℕ → ℕ → Type 0 where
    forwards : (k : ℕ) (e : Edge C) → d.edge k g ≡ some e → Joined g e.source e.target
    backwards : (k : ℕ) (e : Edge C) → d.edge k g ≡ some e → Joined g e.target e.source

  -- A walk of so many edges from one node to another.
  pub data Walk (g : d.G) (start : ℕ) : ℕ → ℕ → Type 0 where
    stays : Walk g start 0 start
    hops : (k i j : ℕ) → Walk g start k i → Joined g i j → Walk g start (suc k) j

  -- the path of a node that a walk of one to `max` edges reaches
  abbrev pub Near : d.G → ℕ → ℕ → String → Type 0
  Near g start max path =
      (k : ℕ) × (i : ℕ) × Walk g start k i × (0 < k) × (k ≤ max) × (d.node i g ≡ some path)

  abbrev Queued : d.G → ℕ → ℕ → ℕ × ℕ → Type 0
  Queued g start max (i, k) = Walk g start k i × (k ≤ max) × (i < d.node_count g)

  abbrev Fresh : d.G → ℕ → ℕ → ℕ → Type 0
  Fresh g start k i = Walk g start k i × (i < d.node_count g)

  measure : d.G → Search d → ℕ
  measure g (visited, queue) = unseen (d.node_count g) visited + length queue

  visit-Queued :
      (g : d.G) (start max k : ℕ) (is : List ℕ) (search : Search d)
      → k ≤ max
      → All (Fresh g start k) is
      → All (Queued g start max) search.1
      → All (Queued g start max) (visit d k is search).1
        × (measure g (visit d k is search) ≡ measure g search)
  unfolding visit measure
  visit-Queued g start max k [] search le fresh queued = (queued, refl)
  visit-Queued g start max k (i ∷ is) (visited, queue) le fresh queued =
      elim (Bool-cases (has i visited)) [
        | inl e ↦ rw (e, visit) (visit-Queued g start max k is (visited, queue) le fresh.1 queued)
        | inr e ↦
            let next =
              visit-Queued g start max k is (i ∷ visited, queue ++ ((i, k) ∷ [])) le fresh.1
                (All-append (Queued g start max) queue ((i, k) ∷ []) queued
                  ((fresh.0.0, le, fresh.0.1), tt)) in
            rw (e, visit)
              (
                next.0,
                ground (
                  arith,
                  next.1,
                  unseen_new (d.node_count g) i visited fresh.0.1 e,
                  length-append queue ((i, k) ∷ []),
                ),
              )
      ]

  abbrev Linked : d.G → Type 0
  Linked g =
      (i : ℕ) (e : Edge C)
      → d.edge i g ≡ some e
      → (eqb e.source e.target ≡ false)
        × (is_some (d.node e.source g) ≡ true)
        × (is_some (d.node e.target g) ≡ true)

  node_lt : (g : d.G) (i : ℕ) → DigraphLaws d → is_some (d.node i g) ≡ true → i < d.node_count g
  node_lt g i laws h = elim (Option-cases (d.node i g)) [
    | inl e ↦ absurd (ground arith)
    | inr (p, e) ↦ laws.node_lt i p g e
  ]

  -- what one turn adds to the result
  listed-Near :
      (g : d.G) (start max i k : ℕ) (related : List String)
      → Walk g start k i
      → k ≤ max
      → All (Near g start max) related
      → All (Near g start max) (if ltb 0 k then related ++ opt_cons (d.node i g) [] else related)
  listed-Near g start max i zero related walk le near = near
  listed-Near g start max i (suc k) related walk le near =
      let some_hops : ltb 0 (suc k) ≡ true = ground arith in
      rw some_hops (
        All-append (Near g start max) related (opt_cons (d.node i g) []) near
          (last-Near (d.node i g) refl))
    where
      last-Near : (n : Option String) → d.node i g ≡ n → All (Near g start max) (opt_cons n [])
      last-Near none e = tt
      last-Near (some path) e = ((suc k, i, walk, omega arith, le, e), tt)

  targets-Fresh :
      (g : d.G) (start k i : ℕ) (is : List ℕ)
      → DigraphLaws d
      → Linked g
      → Walk g start k i
      → ((m : ℕ) → has m is ≡ true → leaves i (d.edge m g) ≡ true)
      → All (Fresh g start (suc k)) (targets_of d (edges_of d is g))
  unfolding edges_of
  targets-Fresh g start k i [] laws inv walk listed = tt
  targets-Fresh g start k i (m ∷ ms) laws inv walk listed =
      let rest = targets-Fresh g start k i ms laws inv walk (λ l h. listed l (ground (arith, h))) in
      elim (Option-cases (d.edge m g)) [
        | inl e ↦ rw (e, edges_of) rest
        | inr (edge, e) ↦
            let from : edge.source ≡ i = ground (arith, listed m, e) in
            rw (e, edges_of)
              (
                (
                  hops k edge.source edge.target (rw from walk) (forwards m edge e),
                  node_lt g edge.target laws (inv m edge e).2,
                ),
                rest,
              )
      ]

  sources-Fresh :
      (g : d.G) (start k i : ℕ) (is : List ℕ)
      → DigraphLaws d
      → Linked g
      → Walk g start k i
      → ((m : ℕ) → has m is ≡ true → enters i (d.edge m g) ≡ true)
      → All (Fresh g start (suc k)) (sources_of d (edges_of d is g))
  unfolding edges_of
  sources-Fresh g start k i [] laws inv walk listed = tt
  sources-Fresh g start k i (m ∷ ms) laws inv walk listed =
      let rest = sources-Fresh g start k i ms laws inv walk (λ l h. listed l (ground (arith, h))) in
      elim (Option-cases (d.edge m g)) [
        | inl e ↦ rw (e, edges_of) rest
        | inr (edge, e) ↦
            let to : edge.target ≡ i = ground (arith, listed m, e) in
            rw (e, edges_of)
              (
                (
                  hops k edge.target edge.source (rw to walk) (backwards m edge e),
                  node_lt g edge.source laws (inv m edge e).1,
                ),
                rest,
              )
      ]

  expand-Queued :
      (g : d.G) (start max i k : ℕ) (search : Search d)
      → DigraphLaws d
      → Linked g
      → Walk g start k i
      → All (Queued g start max) search.1
      → All (Queued g start max) (expand d max i k g search).1
        × (measure g (expand d max i k g search) ≡ measure g search)
  unfolding expand
  expand-Queued g start max i k search laws inv walk queued = elim (Bool-cases (ltb k max)) [
    | inr e ↦ rw (e, expand) (queued, refl)
    | inl e ↦
        let le : suc k ≤ max = ground (arith, e) in
        let out =
          visit-Queued g start max (suc k) (targets_of d (edges_of d (d.edges i g) g)) search le
            (targets-Fresh g start k i (d.edges i g) laws inv walk
              (λ m h. sym (laws.has_edges i m g) ∙ h))
            queued in
        let into =
          visit-Queued g start max (suc k) (sources_of d (edges_of d (d.edges_incoming i g) g)) _ le
            (sources-Fresh g start k i (d.edges_incoming i g) laws inv walk
              (λ m h. sym (laws.has_edges_incoming i m g) ∙ h))
            out.0 in
        rw (e, expand) (into.0, into.1 ∙ out.1)
  ]

  abbrev pub Found : d.G → ℕ → ℕ → Option (List String) → Type 0
  Found g start max result =
      (paths : List String) × (result ≡ some paths) × All (Near g start max) paths

  start_measure :
      (g : d.G) (start : ℕ)
      → start < d.node_count g
      → measure g (start ∷ [], (start, 0) ∷ []) ≤ d.node_count g
  unfolding measure
  start_measure g start lt = ground (arith, unseen_one (d.node_count g) start lt)

  related_loop-Found :
      (fuel max : ℕ) (g : d.G) (start : ℕ) (search : Search d) (related : List String)
      → DigraphLaws d
      → Linked g
      → measure g search ≤ fuel
      → All (Queued g start max) search.1
      → All (Near g start max) related
      → Found g start max (related_loop d fuel max g search related)
  unfolding related_loop measure
  related_loop-Found fuel max g start (visited, []) related laws inv le queued near =
      (related, refl, near)
  related_loop-Found zero max g start (visited, next ∷ queue) related laws inv le queued near =
      absurd (ground arith)
  related_loop-Found (suc fuel) max g start (visited, (i, k) ∷ queue) related laws inv le queued
        near =
      let walk = queued.0.0 in
      let grown = expand-Queued g start max i k (visited, queue) laws inv walk queued.1 in
      related_loop-Found fuel max g start (expand d max i k g (visited, queue)) _ laws inv
        (ground (arith, grown.1, le)) grown.0
        (listed-Near g start max i k related walk queued.0.1 near)

  module _ (o : PathOps) (laws : DigraphLaws d) where
    -- In a graph whose maps and edges are right, the search for the notes related to a path that has a
    -- node ends with a list, and every path in it is that of a node that a walk of one to `max_hops`
    -- edges, each taken in either direction, joins to the start.
    pub related_notes-Found :
        (path : String) (start max_hops : ℕ) (lg : LinkGraph C d)
        → IsConsistent o d lg
        → lg.path_index path ≡ some start
        → Found lg.graph start max_hops (related_notes d path max_hops lg)
    unfolding related_notes
    related_notes-Found path start max_hops lg inv e =
        let g = lg.graph in
        let lt = laws.node_lt start path g (node_of_path o d laws lg path start inv.indexed e) in
        rw (e, related_notes)
          (related_loop-Found (d.node_count g) max_hops g start _ [] laws inv.linked
            (start_measure g start lt) ((stays, omega arith, lt), tt) tt)
