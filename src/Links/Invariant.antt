-- ===== src/Links/Invariant.antt =====
-- crates/turbovault-graph/src/graph.rs: what holds between the maps of a `LinkGraph` and its nodes and
-- edges, and that indexing a file and removing one keep it.
use Prim.Native.Char.{Char}
use turbovault.Common.{
  ℕ, String, ◌≡◌, refl, sym, subst, Bool, true, false, Option, none, some, List, [], ◌∷◌, ◌||◌,
  ◌&&◌, eqb, ◌==◌, eq_iff, eqb→eq, arith, inl, inr, Bool-cases, Option-cases,
}
use turbovault.Text.{equal, is_some}
use turbovault.Links.Digraph.{Edge, PathOps, Digraph, DigraphLaws, has}
use turbovault.Links.Index.{Index, entries, push, push_new, has-push, has-push_new}
use turbovault.Links.Graph.{
  LinkGraph, equal_parts, new, stem_key, lower_names, suffixes, push_stem, push_each, index_file,
  insert_path, push_aliases,
}

abbrev pub is_at : ℕ → Option ℕ → Bool
is_at i none = false
is_at i (some j) = eqb i j

abbrev pub path_is : String → Option String → Bool
path_is p none = false
path_is p (some q) = p == q

abbrev pub member : List (List Char) → List (List (List Char)) → Bool
member k [] = false
member k (s ∷ ss) = equal_parts k s || member k ss

abbrev pub key_is : List Char → Option (List Char) → Bool
key_is k none = false
key_is k (some s) = equal k s

has-push_stem :
    (s : Option (List Char)) (k : List Char) (i n : ℕ) (m : Index (List Char))
    → has i (entries k (push_stem s n m)) ≡ (has i (entries k m) || (key_is k s && eqb i n))
has-push_stem none k i n m = ground arith
has-push_stem (some s) k i n m = has-push equal s k i n m

has-push_each :
    (ss : List (List (List Char))) (k : List (List Char)) (i n : ℕ) (m : Index (List (List Char)))
    → has i (entries k (push_each ss n m)) ≡ (has i (entries k m) || (member k ss && eqb i n))
unfolding push_each
has-push_each [] k i n m = ground arith
has-push_each (s ∷ ss) k i n m =
    ground (arith, has-push_each ss k i n (push equal_parts s n m), has-push equal_parts s k i n m)

module _ {C : Type 0} (o : PathOps) (d : Digraph C) where
  -- whether a node's path has this stem, or this suffix
  abbrev pub stem_is : List Char → Option String → Bool
  stem_is k none = false
  stem_is k (some p) = key_is k (stem_key o d p)

  abbrev pub suffix_is : List (List Char) → Option String → Bool
  suffix_is k none = false
  suffix_is k (some p) = member k (suffixes (lower_names o d (o.iter p)))

  -- Every map lists exactly the nodes it is meant to; an alias lists nodes that exist.
  pub record IsIndexed (lg : LinkGraph C d) : Type 0 where
    pub paths : (p : String) (i : ℕ) → is_at i (lg.path_index p) ≡ path_is p (d.node i lg.graph)
    pub stems :
        (k : List Char) (i : ℕ) → has i (entries k lg.file_index) ≡ stem_is k (d.node i lg.graph)
    pub suffixed :
        (k : List (List Char)) (i : ℕ)
        → has i (entries k lg.path_suffix_index) ≡ suffix_is k (d.node i lg.graph)
    pub aliases :
        (k : List Char) (i : ℕ)
        → has i (entries k lg.alias_index) ≡ true
        → is_some (d.node i lg.graph) ≡ true

  -- No edge is a loop, and both its ends exist.
  abbrev pub IsLinked : d.G → Type 0
  IsLinked g =
      (i : ℕ) (e : Edge C)
      → d.edge i g ≡ some e
      → (eqb e.source e.target ≡ false)
        × (is_some (d.node e.source g) ≡ true)
        × (is_some (d.node e.target g) ≡ true)

  module _ (laws : DigraphLaws d) where
    pub new-IsIndexed : IsIndexed (new o d)
    unfolding new
    new-IsIndexed = record {
      paths = λ p i. rw (laws.node_empty i) refl;
      stems = λ k i. rw (laws.node_empty i) refl;
      suffixed = λ k i. rw (laws.node_empty i) refl;
      aliases = λ k i h. absurd (ground arith);
    }

    pub node_at_count : (g : d.G) → d.node (d.node_count g) g ≡ none
    node_at_count g = elim (Option-cases (d.node (d.node_count g) g)) [
      | inl e ↦ e
      | inr (p, e) ↦ absurd (omega (arith, laws.node_lt (d.node_count g) p g e))
    ]

    -- the node a path has
    pub node_of_path :
        (lg : LinkGraph C d) (p : String) (i : ℕ)
        → IsIndexed lg
        → lg.path_index p ≡ some i
        → d.node i lg.graph ≡ some p
    node_of_path lg p i inv h =
        let at = inv.paths p i in
        elim (Option-cases (d.node i lg.graph)) [
          | inl e ↦ absurd (ground (arith, at))
          | inr (q, e) ↦ ground (arith, at, eq_iff p q)
        ]

    add_paths :
        (lg : LinkGraph C d) (path p : String) (i : ℕ)
        → IsIndexed lg
        → lg.path_index path ≡ none
        → is_at i (insert_path path (d.node_count lg.graph) lg.path_index p)
          ≡ path_is p (d.node i (d.add_node path lg.graph).1)
    unfolding insert_path
    add_paths lg path p i inv h =
        rw (laws.node_add_node path i lg.graph)
          (ground (arith, inv.paths p i, node_at_count lg.graph, eq_iff p path))

    add_stems :
        (lg : LinkGraph C d) (path : String) (k : List Char) (i : ℕ)
        → IsIndexed lg
        → has i (entries k (push_stem (stem_key o d path) (d.node_count lg.graph) lg.file_index))
          ≡ stem_is k (d.node i (d.add_node path lg.graph).1)
    add_stems lg path k i inv = rw (laws.node_add_node path i lg.graph) (
        ground (
          arith,
          inv.stems k i,
          node_at_count lg.graph,
          has-push_stem (stem_key o d path) k i (d.node_count lg.graph) lg.file_index,
        ))

    add_suffixed :
        (lg : LinkGraph C d) (path : String) (k : List (List Char)) (i : ℕ)
        → IsIndexed lg
        → has i (
            entries k (
              push_each
                (suffixes (lower_names o d (o.iter path)))
                (d.node_count lg.graph)
                lg.path_suffix_index))
          ≡ suffix_is k (d.node i (d.add_node path lg.graph).1)
    add_suffixed lg path k i inv = rw (laws.node_add_node path i lg.graph) (
        ground (
          arith,
          inv.suffixed k i,
          node_at_count lg.graph,
          has-push_each (suffixes (lower_names o d (o.iter path))) k i (d.node_count lg.graph)
              lg.path_suffix_index,
        ))

    -- Indexing a file keeps the maps right, gives the node of its path, and keeps the edges.
    pub index_file-IsIndexed :
        (lg : LinkGraph C d) (path : String) → IsIndexed lg → IsIndexed (index_file o d path lg).1
    unfolding index_file
    index_file-IsIndexed lg path inv = elim (Option-cases (lg.path_index path)) [
      | inr (i, e) ↦ rw (e, index_file) inv
      | inl e ↦
          rw (e, index_file, laws.fst_add_node path lg.graph)
            (record {
              paths = λ p i. add_paths lg path p i inv e;
              stems = λ k i. add_stems lg path k i inv;
              suffixed = λ k i. add_suffixed lg path k i inv;
              aliases = λ k i h.
                  rw (laws.node_add_node path i lg.graph) (ground (arith, inv.aliases k i h));
            })
    ]

    pub index_file-node :
        (lg : LinkGraph C d) (path : String)
        → IsIndexed lg
        → (d.node (index_file o d path lg).0 (index_file o d path lg).1.graph ≡ some path)
          × ((i : ℕ)
              → is_some (d.node i lg.graph) ≡ true
              → is_some (d.node i (index_file o d path lg).1.graph) ≡ true)
    unfolding index_file
    index_file-node lg path inv = elim (Option-cases (lg.path_index path)) [
      | inr (i, e) ↦ rw (e, index_file) (node_of_path lg path i inv e, λ j h. h)
      | inl e ↦
          rw (e, index_file, laws.fst_add_node path lg.graph)
            (
              rw (laws.node_add_node path (d.node_count lg.graph) lg.graph) (ground arith),
              λ j h. rw (laws.node_add_node path j lg.graph) (ground arith),
            )
    ]

    pub push_aliases-exist :
        (names : List (List Char)) (n : ℕ) (m : Index (List Char)) (Exists : ℕ → Bool)
        → Exists n ≡ true
        → ((k : List Char) (i : ℕ) → has i (entries k m) ≡ true → Exists i ≡ true)
        → (k : List Char) (i : ℕ) → has i (entries k (push_aliases o d names n m)) ≡ true
        → Exists i ≡ true
    unfolding push_aliases
    push_aliases-exist [] n m Exists here every = every
    push_aliases-exist (a ∷ more) n m Exists here every =
        push_aliases-exist more n (push_new equal (o.to_lowercase a) n m) Exists here (λ k i h.
          elim (Bool-cases (eqb i n)) [
            | inl e ↦ subst (λ j. Exists j ≡ true) (sym (eqb→eq i n e)) here
            | inr e ↦ every k i (ground (arith, has-push_new equal (o.to_lowercase a) k i n m))
          ])
