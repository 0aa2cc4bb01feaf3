-- ===== src/Links/Update.antt =====
-- crates/turbovault-graph/src/graph.rs: `LinkGraph::remove_file` and `LinkGraph::update_links`.
use Prim.Native.Char.{Char}
use turbovault.Common.{
  ℕ, ◌-◌, String, Bool, true, false, Option, none, some, List, [], ◌∷◌, ◌++◌, ◌&&◌, eqb,
  if◌then◌else◌,
}
use turbovault.Common.Table.{lookup, insert, remove}
use turbovault.Text.{equal, before, trim}
use turbovault.Links.Digraph.{LinkType, anchor, external_link, Link, VaultFile, PathOps, Digraph}
use turbovault.Links.Resolve.{is_hash, is_empty, is_note_reference}
use turbovault.Links.Index.{Index, retain_at, rename_at, retain_all, rename_all}
use turbovault.Links.Graph.{
  LinkGraph, insert_path, remove_path, stem_key, index_file, resolve_link, connect,
}

abbrev pub retain_stem : Option (List Char) → ℕ → Index (List Char) → Index (List Char)
retain_stem none n m = m
retain_stem (some k) n m = retain_at equal k n m

abbrev pub rename_stem : Option (List Char) → ℕ → ℕ → Index (List Char) → Index (List Char)
rename_stem none last n m = m
rename_stem (some k) last n m = rename_at equal k last n m

abbrev or_default : {A : Type 0} → Option (List A) → List A
or_default none = []
or_default (some xs) = xs

-- the links of the note types: not `Anchor` and `ExternalLink`
abbrev pub can_be_edge : LinkType → Bool
can_be_edge anchor = false
can_be_edge external_link = false
can_be_edge _ = true

module _ {C : Type 0} (o : PathOps) (d : Digraph C) where
  -- the first part of `remove_file`: the node `idx` of the path leaves every map
  unfoldable pub unindex : String → ℕ → LinkGraph C d → LinkGraph C d
  unfolding remove_path remove retain_at retain_all
  unindex path idx lg = record lg {
    path_index = remove_path path lg.path_index;
    unresolved_links = remove path lg.unresolved_links;
    file_index = retain_stem (stem_key o d path) idx lg.file_index;
    alias_index = retain_all idx lg.alias_index;
    path_suffix_index = retain_all idx lg.path_suffix_index;
  }

  -- the last part: the last node, of path `swapped`, has become node `idx`
  unfoldable pub reindex : String → ℕ → ℕ → LinkGraph C d → LinkGraph C d
  unfolding insert_path rename_at rename_all
  reindex swapped last idx lg = record lg {
    path_index = insert_path swapped idx lg.path_index;
    file_index = rename_stem (stem_key o d swapped) last idx lg.file_index;
    alias_index = rename_all last idx lg.alias_index;
    path_suffix_index = rename_all last idx lg.path_suffix_index;
  }

  -- LinkGraph::remove_file; the last node exists, since the node `idx` does
  unfoldable pub remove_file : String → LinkGraph C d → LinkGraph C d
  unfolding unindex reindex
  remove_file path lg = elim (lg.path_index path) [
    | none ↦ lg
    | some idx ↦
        let last = d.node_count lg.graph - 1 in
        let cut = record (unindex path idx lg) { graph = d.remove_node idx lg.graph } in
        if eqb last idx then cut else elim (d.node last lg.graph) [
          | some swapped ↦ reindex swapped last idx cut
          | none ↦ cut
        ]
  ]

  -- `for edge_id in outgoing { self.graph.remove_edge(edge_id); }`
  unfoldable pub remove_edges : List ℕ → d.G → d.G
  remove_edges [] g = g
  remove_edges (i ∷ is) g = remove_edges is (d.remove_edge i g)

  -- `entry(source_path).or_default().push(broken)`
  unfoldable pub add_unresolved : String → Link C → LinkGraph C d → LinkGraph C d
  unfolding lookup insert
  add_unresolved path link lg =
      let links = or_default (lookup path lg.unresolved_links) ++ (link ∷ []) in
      record lg { unresolved_links = insert path links lg.unresolved_links }

  -- one turn of the loop over the links of the file
  unfoldable pub update_link : String → ℕ → Link C → LinkGraph C d → LinkGraph C d
  unfolding is_note_reference before trim resolve_link connect add_unresolved
  update_link path source link lg =
      if can_be_edge link.type_ && is_note_reference o link.target
      then (if is_empty (trim o.is_whitespace (before is_hash link.target))
          then lg
          else elim (resolve_link o d link.target lg) [
            | some target ↦ connect o d source target link lg
            | none ↦ add_unresolved path (record link { is_valid = false }) lg
          ])
      else lg

  unfoldable pub update_each : String → ℕ → List (Link C) → LinkGraph C d → LinkGraph C d
  unfolding update_link
  update_each path source [] lg = lg
  update_each path source (link ∷ links) lg =
      update_each path source links (update_link path source link lg)

  -- the old edges and unresolved links of the source are dropped
  unfoldable pub forget_links : String → ℕ → LinkGraph C d → LinkGraph C d
  unfolding remove remove_edges
  forget_links path source lg = record lg {
    graph = remove_edges (d.edges source lg.graph) lg.graph;
    unresolved_links = remove path lg.unresolved_links;
  }

  -- LinkGraph::update_links
  unfoldable pub update_links : VaultFile C → LinkGraph C d → LinkGraph C d
  unfolding index_file forget_links update_each
  update_links file lg =
      let (source, indexed) = index_file o d file.path lg in
      update_each file.path source file.links (forget_links file.path source indexed)
