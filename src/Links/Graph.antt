-- ===== src/Links/Graph.antt =====
-- crates/turbovault-graph/src/graph.rs, `LinkGraph`: its maps and the operations that change it. A map
-- from keys to vectors of node indices is a function of the key; `unresolved_links` is a table.
use Prim.Native.Char.{Char}
use turbovault.Common.{
  ℕ, String, Bool, true, false, Option, none, some, List, [], ◌∷◌, ◌++◌, ◌&&◌, eqb, ltb,
  if◌then◌else◌, ◌==◌,
}
use turbovault.Common.Table.{Table, insert}
use turbovault.Text.{chars, equal, join}
use turbovault.Links.Digraph.{Link, VaultFile, PathOps, Digraph}
use turbovault.Links.Resolve.{is_empty, lower_name, normalize_link_target}
use turbovault.Links.Index.{Index, entries, push, push_new}

abbrev pub equal_parts : List (List Char) → List (List Char) → Bool
equal_parts [] [] = true
equal_parts (p ∷ ps) (q ∷ qs) = equal p q && equal_parts ps qs
equal_parts [] (q ∷ qs) = false
equal_parts (p ∷ ps) [] = false

pub record LinkGraph (C : Type 0) (d : Digraph C) : Type 0 where
  pub graph : d.G
  pub file_index : Index (List Char)
  pub alias_index : Index (List Char)
  pub path_index : String → Option ℕ
  pub unresolved_links : Table (List (Link C))
  pub path_suffix_index : Index (List (List Char))

-- `path_index.insert(path, i)` and `path_index.remove(path)`
unfoldable pub insert_path : String → ℕ → (String → Option ℕ) → String → Option ℕ
insert_path path i m = λ p. if p == path then some i else m p

unfoldable pub remove_path : String → (String → Option ℕ) → String → Option ℕ
remove_path path m = λ p. if p == path then none else m p

-- `components[i..]` for each `i`, the shortest first
unfoldable pub suffixes : List (List Char) → List (List (List Char))
suffixes [] = []
suffixes (p ∷ ps) = suffixes ps ++ ((p ∷ ps) ∷ [])

unfoldable pub push_each :
    List (List (List Char)) → ℕ → Index (List (List Char)) → Index (List (List Char))
unfolding push
push_each [] n m = m
push_each (s ∷ ss) n m = push_each ss n (push equal_parts s n m)

abbrev pub push_stem : Option (List Char) → ℕ → Index (List Char) → Index (List Char)
push_stem none n m = m
push_stem (some k) n m = push equal k n m

-- The candidate of the least depth, the first of several.
unfoldable pub min_by_depth : (ℕ → ℕ) → ℕ → List ℕ → ℕ
min_by_depth depth best [] = best
min_by_depth depth best (i ∷ is) =
    min_by_depth depth (if ltb (depth i) (depth best) then i else best) is

unfoldable pub pick : (ℕ → ℕ) → List ℕ → Option ℕ
unfolding min_by_depth
pick deep [] = none
pick deep (i ∷ []) = some i
pick deep (i ∷ j ∷ is) = some (min_by_depth deep i (j ∷ is))

abbrev pub first : List ℕ → Option ℕ
first [] = none
first (i ∷ is) = some i

abbrev pub or_else : Option ℕ → Option ℕ → Option ℕ
or_else none later = later
or_else (some i) later = some i

module _ {C : Type 0} (o : PathOps) (d : Digraph C) where
  -- LinkGraph::new
  unfoldable pub new : LinkGraph C d
  new = record {
    graph = d.empty;
    file_index = λ k. none;
    alias_index = λ k. none;
    path_index = λ p. none;
    unresolved_links = [];
    path_suffix_index = λ k. none;
  }

  -- the lower case stem of a path, and its components in lower case without `.md`
  abbrev pub stem_key : String → Option (List Char)
  stem_key path = elim (o.file_stem path) [ some stem ↦ some (o.to_lowercase stem) | none ↦ none ]

  abbrev pub lower_names : List (List Char) → List (List Char)
  lower_names [] = []
  lower_names (s ∷ ss) = lower_name o s ∷ lower_names ss

  -- The node of a path, which is created and indexed if it is missing: the first part of `add_file`
  -- and of `update_links`.
  unfoldable pub index_file : String → LinkGraph C d → ℕ × LinkGraph C d
  unfolding insert_path push push_each suffixes lower_name
  index_file path lg = elim (lg.path_index path) [
    | some idx ↦ (idx, lg)
    | none ↦
        let (idx, graph) = d.add_node path lg.graph in
        (
          idx,
          record lg {
            graph = graph;
            path_index = insert_path path idx lg.path_index;
            file_index = push_stem (stem_key path) idx lg.file_index;
            path_suffix_index =
                push_each (suffixes (lower_names (o.iter path))) idx lg.path_suffix_index;
          },
        )
  ]

  -- `self.graph[idx].components().count()`; every indexed node exists
  abbrev pub depth : LinkGraph C d → ℕ → ℕ
  depth lg i = elim (d.node i lg.graph) [ some path ↦ o.component_count path | none ↦ 0 ]

  unfoldable pub resolve_parts : List (List Char) → LinkGraph C d → Option ℕ
  unfolding pick join chars
  resolve_parts parts lg =
      or_else (elim parts [ part ∷ [] ↦ first (entries part lg.file_index) | _ ↦ none ])
        (or_else (first (entries (join (chars "/") parts) lg.alias_index))
          (pick (depth lg) (entries parts lg.path_suffix_index)))

  -- LinkGraph::resolve_link
  unfoldable pub resolve_link : List Char → LinkGraph C d → Option ℕ
  unfolding normalize_link_target resolve_parts
  resolve_link target lg = elim (normalize_link_target o target) [
    | none ↦ none
    | some parts ↦ resolve_parts parts lg
  ]

  -- an edge unless it would be a loop
  unfoldable pub connect : ℕ → ℕ → Link C → LinkGraph C d → LinkGraph C d
  connect source target link lg =
      if eqb target source then lg else record lg { graph = d.add_edge source target link lg.graph }

  -- The links of one source that still cannot be resolved, and the graph with the others.
  unfoldable pub reconcile_source :
      ℕ → List (Link C) → LinkGraph C d → List (Link C) × LinkGraph C d
  unfolding resolve_link connect
  reconcile_source source [] lg = ([], lg)
  reconcile_source source (link ∷ links) lg = elim (resolve_link link.target lg) [
    | some target ↦
        reconcile_source source links (connect source target (record link { is_valid = true }) lg)
    | none ↦ let (remaining, after) = reconcile_source source links lg in (link ∷ remaining, after)
  ]

  unfoldable pub set_unresolved : String → List (Link C) → LinkGraph C d → LinkGraph C d
  unfolding insert
  set_unresolved path links lg = record lg {
    unresolved_links = insert path links lg.unresolved_links;
  }

  unfoldable pub reconcile_each : Table (List (Link C)) → LinkGraph C d → LinkGraph C d
  unfolding reconcile_source set_unresolved
  reconcile_each [] lg = lg
  reconcile_each ((path, links) ∷ rest) lg = elim (lg.path_index path) [
    | none ↦ reconcile_each rest (set_unresolved path links lg)
    | some source ↦
        let (remaining, after) = reconcile_source source links lg in
        reconcile_each rest
          (if is_empty remaining then after else set_unresolved path remaining after)
  ]

  -- LinkGraph::reconcile_unresolved_links
  unfoldable pub reconcile_unresolved_links : LinkGraph C d → LinkGraph C d
  unfolding reconcile_each
  reconcile_unresolved_links lg =
      reconcile_each lg.unresolved_links (record lg { unresolved_links = [] })

  unfoldable pub push_aliases : List (List Char) → ℕ → Index (List Char) → Index (List Char)
  unfolding push_new
  push_aliases [] n m = m
  push_aliases (a ∷ more) n m = push_aliases more n (push_new equal (o.to_lowercase a) n m)

  abbrev pub aliases_of : VaultFile C → List (List Char)
  aliases_of file = elim file.aliases [ some names ↦ names | none ↦ [] ]

  -- LinkGraph::add_file
  unfoldable pub add_file : VaultFile C → LinkGraph C d → LinkGraph C d
  unfolding index_file push_aliases reconcile_unresolved_links
  add_file file lg =
      let (idx, indexed) = index_file file.path lg in
      reconcile_unresolved_links
        (record indexed { alias_index = push_aliases (aliases_of file) idx indexed.alias_index })
