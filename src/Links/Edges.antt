-- ===== src/Links/Edges.antt =====
-- crates/turbovault-graph/src/graph.rs: the loops of `add_file` and `update_links` that add and drop
-- edges and unresolved links keep the maps and the nodes as they are.
use Prim.Native.Char.{Char}
use turbovault.Common.{
  ℕ, String, ◌≡◌, refl, sym, ◌∙◌, true, false, some, List, [], ◌∷◌, eqb, if◌then◌else◌, arith, inl,
  inr, Bool-cases, Option-cases,
}
use turbovault.Common.Table.{Table}
use turbovault.Text.{is_some}
use turbovault.Links.Digraph.{Link, PathOps, Digraph, DigraphLaws}
use turbovault.Links.Resolve.{is_empty}
use turbovault.Links.Graph.{
  LinkGraph, connect, resolve_link, reconcile_source, set_unresolved, reconcile_each,
  reconcile_unresolved_links,
}
use turbovault.Links.Update.{add_unresolved}
use turbovault.Links.Invariant.{IsIndexed, IsLinked, node_of_path}
use turbovault.Links.Resolved.{resolve_link-matches}

module _ {C : Type 0} (o : PathOps) (d : Digraph C) where
  pub record IsConsistent (lg : LinkGraph C d) : Type 0 where
    pub indexed : IsIndexed o d lg
    pub linked : IsLinked o d lg.graph

  -- The maps are right afterwards, and the nodes and the aliases are those of before.
  pub record Keeps (lg after : LinkGraph C d) : Type 0 where
    pub sound : IsConsistent after
    pub nodes : (i : ℕ) → d.node i after.graph ≡ d.node i lg.graph
    pub names : after.alias_index ≡ lg.alias_index

  pub Keeps-trans : (a b c : LinkGraph C d) → Keeps a b → Keeps b c → Keeps a c
  Keeps-trans a b c ab bc = record {
    sound = bc.sound;
    nodes = λ i. bc.nodes i ∙ ab.nodes i;
    names = bc.names ∙ ab.names;
  }

  -- a change of the edges and of the unresolved links only
  pub regraph :
      (lg : LinkGraph C d) (g : d.G) (u : Table (List (Link C)))
      → IsIndexed o d lg
      → ((i : ℕ) → d.node i g ≡ d.node i lg.graph)
      → IsLinked o d g
      → Keeps lg (record lg { graph = g; unresolved_links = u })
  regraph lg g u inv same linked = record {
    sound = record {
      indexed = record {
        paths = λ p i. rw (same i) (inv.paths p i);
        stems = λ k i. rw (same i) (inv.stems k i);
        suffixed = λ k i. rw (same i) (inv.suffixed k i);
        aliases = λ k i h. rw (same i) (inv.aliases k i h);
      };
      linked = linked;
    };
    nodes = same;
    names = refl;
  }

  set_unresolved-Keeps :
      (lg : LinkGraph C d) (path : String) (links : List (Link C))
      → IsConsistent lg
      → Keeps lg (set_unresolved o d path links lg)
  unfolding set_unresolved
  set_unresolved-Keeps lg path links inv = regraph lg lg.graph _ inv.indexed (λ i. refl) inv.linked

  pub add_unresolved-Keeps :
      (lg : LinkGraph C d) (path : String) (link : Link C)
      → IsConsistent lg
      → Keeps lg (add_unresolved o d path link lg)
  unfolding add_unresolved
  add_unresolved-Keeps lg path link inv = regraph lg lg.graph _ inv.indexed (λ i. refl) inv.linked

  unresolved_rest :
      (path : String) (links : List (Link C)) (lg : LinkGraph C d)
      → IsConsistent lg
      → Keeps lg (if is_empty links then lg else set_unresolved o d path links lg)
  unresolved_rest path [] lg inv = record { sound = inv; nodes = λ i. refl; names = refl }
  unresolved_rest path (link ∷ links) lg inv = set_unresolved-Keeps lg path (link ∷ links) inv

  module _ (laws : DigraphLaws d) where
    add_edge-IsLinked :
        (s t : ℕ) (link : Link C) (g : d.G)
        → IsLinked o d g
        → eqb t s ≡ false
        → is_some (d.node s g) ≡ true
        → is_some (d.node t g) ≡ true
        → IsLinked o d (d.add_edge s t link g)
    add_edge-IsLinked s t link g inv apart here there i e h =
        elim (Bool-cases (eqb i (d.edge_count g))) [
          | inl f ↦
              let same : (if eqb i (d.edge_count g)
                    then some (record { source = s; target = t; link = link })
                    else d.edge i g)
                  ≡ some e =
                sym (laws.edge_add_edge s t i link g) ∙ h in
              (
                ground (arith, same),
                rw (laws.node_add_edge s t e.source link g) (ground (arith, same)),
                rw (laws.node_add_edge s t e.target link g) (ground (arith, same)),
              )
          | inr f ↦
              let same : (if eqb i (d.edge_count g)
                    then some (record { source = s; target = t; link = link })
                    else d.edge i g)
                  ≡ some e =
                sym (laws.edge_add_edge s t i link g) ∙ h in
              let old = inv i e (ground (arith, same)) in
              (
                old.0,
                rw (laws.node_add_edge s t e.source link g) old.1,
                rw (laws.node_add_edge s t e.target link g) old.2,
              )
        ]

    pub connect-Keeps :
        (s t : ℕ) (link : Link C) (lg : LinkGraph C d)
        → IsConsistent lg
        → is_some (d.node s lg.graph) ≡ true
        → is_some (d.node t lg.graph) ≡ true
        → Keeps lg (connect o d s t link lg)
    unfolding connect
    connect-Keeps s t link lg inv here there = elim (Bool-cases (eqb t s)) [
      | inl e ↦ rw (e, connect) (record { sound = inv; nodes = λ i. refl; names = refl })
      | inr e ↦
          rw (e, connect)
            (regraph lg (d.add_edge s t link lg.graph) lg.unresolved_links inv.indexed
              (λ i. laws.node_add_edge s t i link lg.graph)
              (add_edge-IsLinked s t link lg.graph inv.linked e here there))
    ]

    -- the node a link resolves to exists
    pub resolved_exists :
        (target : List Char) (t : ℕ) (lg : LinkGraph C d)
        → IsConsistent lg
        → resolve_link o d target lg ≡ some t
        → is_some (d.node t lg.graph) ≡ true
    resolved_exists target t lg inv h =
        let found = resolve_link-matches o d target t lg inv.indexed h in ground (arith, found.3)

    pub reconcile_source-Keeps :
        (source : ℕ) (links : List (Link C)) (lg : LinkGraph C d)
        → IsConsistent lg
        → is_some (d.node source lg.graph) ≡ true
        → Keeps lg (reconcile_source o d source links lg).1
    unfolding reconcile_source
    reconcile_source-Keeps source [] lg inv here = record {
      sound = inv;
      nodes = λ i. refl;
      names = refl;
    }
    reconcile_source-Keeps source (link ∷ links) lg inv here =
        elim (Option-cases (resolve_link o d link.target lg)) [
          | inl e ↦ rw (e, reconcile_source) (reconcile_source-Keeps source links lg inv here)
          | inr (t, e) ↦
              let next = connect o d source t (record link { is_valid = true }) lg in
              let step : Keeps lg next =
                connect-Keeps source t (record link { is_valid = true }) lg inv here
                  (resolved_exists link.target t lg inv e) in
              rw (e, reconcile_source)
                (Keeps-trans lg next _ step (
                  reconcile_source-Keeps source links next step.sound
                    (rw (step.nodes source) here)))
        ]

    -- where a path leads to a node, the node exists
    path_exists :
        (path : String) (i : ℕ) (lg : LinkGraph C d)
        → IsConsistent lg
        → lg.path_index path ≡ some i
        → is_some (d.node i lg.graph) ≡ true
    path_exists path i lg inv e = rw (node_of_path o d laws lg path i inv.indexed e) refl

    pub reconcile_each-Keeps :
        (table : Table (List (Link C))) (lg : LinkGraph C d)
        → IsConsistent lg
        → Keeps lg (reconcile_each o d table lg)
    unfolding reconcile_each
    reconcile_each-Keeps [] lg inv = record { sound = inv; nodes = λ i. refl; names = refl }
    reconcile_each-Keeps ((path, links) ∷ rest) lg inv = elim (Option-cases (lg.path_index path)) [
      | inl e ↦
          let next = set_unresolved o d path links lg in
          let step = set_unresolved-Keeps lg path links inv in
          rw (e, reconcile_each)
            (Keeps-trans lg next _ step (reconcile_each-Keeps rest next step.sound))
      | inr (s, e) ↦
          let remaining = (reconcile_source o d s links lg).0 in
          let after = (reconcile_source o d s links lg).1 in
          let next =
            if is_empty remaining then after else set_unresolved o d path remaining after in
          let first = reconcile_source-Keeps s links lg inv (path_exists path s lg inv e) in
          let step : Keeps lg next =
            Keeps-trans lg after next first (unresolved_rest path remaining after first.sound) in
          rw (e, reconcile_each)
            (Keeps-trans lg next _ step (reconcile_each-Keeps rest next step.sound))
    ]

    pub reconcile_unresolved_links-Keeps :
        (lg : LinkGraph C d) → IsConsistent lg → Keeps lg (reconcile_unresolved_links o d lg)
    unfolding reconcile_unresolved_links
    reconcile_unresolved_links-Keeps lg inv =
        let cleared = record lg { unresolved_links = [] } in
        let step : Keeps lg cleared = regraph lg lg.graph [] inv.indexed (λ i. refl) inv.linked in
        Keeps-trans lg cleared _ step (reconcile_each-Keeps lg.unresolved_links cleared step.sound)
