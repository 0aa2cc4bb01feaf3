-- ===== src/Links/Sound.antt =====
-- crates/turbovault-graph/src/graph.rs: `add_file`, `update_links` and `remove_file` keep the maps and the
-- edges of a `LinkGraph` right.
use turbovault.Common.{
  ℕ, ◌-◌, String, ◌≡◌, refl, sym, ◌∙◌, Bool, true, false, Option, none, some, List, [], ◌∷◌, ◌&&◌,
  eqb, ltb, if◌then◌else◌, arith, inl, inr, Bool-cases, Option-cases,
}
use turbovault.Text.{is_some, trim, before}
use turbovault.Links.Digraph.{Link, VaultFile, PathOps, Digraph, DigraphLaws}
use turbovault.Links.Resolve.{is_hash, is_empty, is_note_reference}
use turbovault.Links.Graph.{
  LinkGraph, connect, resolve_link, index_file, add_file, aliases_of, push_aliases,
}
use turbovault.Links.Update.{
  can_be_edge, remove_edges, add_unresolved, update_link, update_each, forget_links, update_links,
}
use turbovault.Links.Invariant.{IsLinked, index_file-IsIndexed, index_file-node, push_aliases-exist}
use turbovault.Links.Edges.{
  IsConsistent, Keeps, Keeps-trans, regraph, add_unresolved-Keeps, connect-Keeps, resolved_exists,
  reconcile_unresolved_links-Keeps,
}

module _ {C : Type 0} (o : PathOps) (d : Digraph C) (laws : DigraphLaws d) where
  remove_edge-IsLinked : (j : ℕ) (g : d.G) → IsLinked o d g → IsLinked o d (d.remove_edge j g)
  remove_edge-IsLinked j g inv i e h =
      let moved = sym (laws.edge_remove_edge j i g) ∙ h in
      let old : (k : ℕ) × (d.edge k g ≡ some e) =
        elim (Bool-cases (ltb j (d.edge_count g) && eqb i j)) [
          | inl f ↦ (d.edge_count g - 1, ground (arith, moved))
          | inr f ↦ (i, ground (arith, moved))
        ] in
      let fine = inv old.0 e old.1 in
      (
        fine.0,
        rw (laws.node_remove_edge j e.source g) fine.1,
        rw (laws.node_remove_edge j e.target g) fine.2,
      )

  remove_edges-nodes :
      (js : List ℕ) (g : d.G) (i : ℕ) → d.node i (remove_edges o d js g) ≡ d.node i g
  unfolding remove_edges
  remove_edges-nodes [] g i = refl
  remove_edges-nodes (j ∷ js) g i =
      remove_edges-nodes js (d.remove_edge j g) i ∙ laws.node_remove_edge j i g

  remove_edges-IsLinked :
      (js : List ℕ) (g : d.G) → IsLinked o d g → IsLinked o d (remove_edges o d js g)
  unfolding remove_edges
  remove_edges-IsLinked [] g inv = inv
  remove_edges-IsLinked (j ∷ js) g inv =
      remove_edges-IsLinked js (d.remove_edge j g) (remove_edge-IsLinked j g inv)

  forget_links-Keeps :
      (path : String) (source : ℕ) (lg : LinkGraph C d)
      → IsConsistent o d lg
      → Keeps o d lg (forget_links o d path source lg)
  unfolding forget_links
  forget_links-Keeps path source lg inv =
      regraph o d lg _ _ inv.indexed (remove_edges-nodes (d.edges source lg.graph) lg.graph)
        (remove_edges-IsLinked (d.edges source lg.graph) lg.graph inv.linked)

  -- what a link becomes, given what it resolves to
  resolved_link-Keeps :
      (path : String) (source : ℕ) (link : Link C) (lg : LinkGraph C d)
      → IsConsistent o d lg
      → is_some (d.node source lg.graph) ≡ true
      → (r : Option ℕ) → resolve_link o d link.target lg ≡ r
      → Keeps o d lg (elim r [
        | some target ↦ connect o d source target link lg
        | none ↦ add_unresolved o d path (record link { is_valid = false }) lg
      ])
  resolved_link-Keeps path source link lg inv here none e = add_unresolved-Keeps o d lg path _ inv
  resolved_link-Keeps path source link lg inv here (some t) e =
      connect-Keeps o d laws source t link lg inv here
        (resolved_exists o d laws link.target t lg inv e)

  choice-Keeps :
      (b c : Bool) (lg next : LinkGraph C d)
      → IsConsistent o d lg
      → Keeps o d lg next
      → Keeps o d lg (if b then (if c then lg else next) else lg)
  choice-Keeps true false lg next inv step = step
  choice-Keeps true true lg next inv step = record { sound = inv; nodes = λ i. refl; names = refl }
  choice-Keeps false c lg next inv step = record { sound = inv; nodes = λ i. refl; names = refl }

  update_link-Keeps :
      (path : String) (source : ℕ) (link : Link C) (lg : LinkGraph C d)
      → IsConsistent o d lg
      → is_some (d.node source lg.graph) ≡ true
      → Keeps o d lg (update_link o d path source link lg)
  unfolding update_link
  update_link-Keeps path source link lg inv here =
      choice-Keeps (can_be_edge link.type_ && is_note_reference o link.target)
        (is_empty (trim o.is_whitespace (before is_hash link.target))) lg _ inv
        (resolved_link-Keeps path source link lg inv here _ refl)

  update_each-Keeps :
      (path : String) (source : ℕ) (links : List (Link C)) (lg : LinkGraph C d)
      → IsConsistent o d lg
      → is_some (d.node source lg.graph) ≡ true
      → Keeps o d lg (update_each o d path source links lg)
  unfolding update_each
  update_each-Keeps path source [] lg inv here = record {
    sound = inv;
    nodes = λ i. refl;
    names = refl;
  }
  update_each-Keeps path source (link ∷ links) lg inv here =
      let next = update_link o d path source link lg in
      let step = update_link-Keeps path source link lg inv here in
      Keeps-trans o d lg next _ step
        (update_each-Keeps path source links next step.sound (rw (step.nodes source) here))

  index_file-edge :
      (path : String) (lg : LinkGraph C d) (i : ℕ)
      → d.edge i (index_file o d path lg).1.graph ≡ d.edge i lg.graph
  unfolding index_file
  index_file-edge path lg i = elim (Option-cases (lg.path_index path)) [
    | inr (j, e) ↦ rw (e, index_file) refl
    | inl e ↦ rw (e, index_file) (laws.edge_add_node path i lg.graph)
  ]

  index_file-IsConsistent :
      (path : String) (lg : LinkGraph C d)
      → IsConsistent o d lg
      → IsConsistent o d (index_file o d path lg).1
  index_file-IsConsistent path lg inv = record {
    indexed = index_file-IsIndexed o d laws lg path inv.indexed;
    linked = λ i e h.
        let fine = inv.linked i e (sym (index_file-edge path lg i) ∙ h) in
        let grown = (index_file-node o d laws lg path inv.indexed).1 in
        (fine.0, grown e.source fine.1, grown e.target fine.2);
  }

  pub update_links-Keeps :
      (file : VaultFile C) (lg : LinkGraph C d)
      → IsConsistent o d lg
      → Keeps o d (index_file o d file.path lg).1 (update_links o d file lg)
  unfolding update_links
  update_links-Keeps file lg inv =
      let source = (index_file o d file.path lg).0 in
      let indexed = (index_file o d file.path lg).1 in
      let sound = index_file-IsConsistent file.path lg inv in
      let cut = forget_links-Keeps file.path source indexed sound in
      let here = (index_file-node o d laws lg file.path inv.indexed).0 in
      let there : is_some (d.node source (forget_links o d file.path source indexed).graph) ≡ true =
        rw (cut.nodes source, here) refl in
      Keeps-trans o d indexed _ _ cut
        (update_each-Keeps file.path source file.links _ cut.sound there)

  pub update_links-IsConsistent :
      (file : VaultFile C) (lg : LinkGraph C d)
      → IsConsistent o d lg
      → IsConsistent o d (update_links o d file lg)
  update_links-IsConsistent file lg inv = (update_links-Keeps file lg inv).sound

  -- The graph of `add_file` before the unresolved links are looked at again.
  abbrev pub with_aliases : VaultFile C → LinkGraph C d → LinkGraph C d
  with_aliases file lg =
      let (idx, indexed) = index_file o d file.path lg in
      record indexed {
        alias_index = push_aliases o d (aliases_of o d file) idx indexed.alias_index;
      }

  pub add_file-Keeps :
      (file : VaultFile C) (lg : LinkGraph C d)
      → IsConsistent o d lg
      → Keeps o d (with_aliases file lg) (add_file o d file lg)
  unfolding add_file
  add_file-Keeps file lg inv =
      let idx = (index_file o d file.path lg).0 in
      let indexed = (index_file o d file.path lg).1 in
      let sound = index_file-IsConsistent file.path lg inv in
      let here = (index_file-node o d laws lg file.path inv.indexed).0 in
      reconcile_unresolved_links-Keeps o d laws (with_aliases file lg) (record {
        indexed = record {
          paths = sound.indexed.paths;
          stems = sound.indexed.stems;
          suffixed = sound.indexed.suffixed;
          aliases =
              push_aliases-exist o d laws (aliases_of o d file) idx indexed.alias_index
                (λ i. is_some (d.node i indexed.graph)) (rw here refl) sound.indexed.aliases;
        };
        linked = sound.linked;
      })

  pub add_file-IsConsistent :
      (file : VaultFile C) (lg : LinkGraph C d)
      → IsConsistent o d lg
      → IsConsistent o d (add_file o d file lg)
  add_file-IsConsistent file lg inv = (add_file-Keeps file lg inv).sound
