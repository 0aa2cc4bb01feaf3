-- ===== src/Links/Removed.antt =====
-- crates/turbovault-graph/src/graph.rs: `remove_file` keeps the maps and the edges of a `LinkGraph` right,
-- although the last node takes the place of the removed one.
use Prim.Native.Char.{Char}
use turbovault.Common.{
  ℕ, ◌-◌, ◌<◌, String, ◌≡◌, refl, sym, true, false, Option, none, some, List, ◌||◌, ◌&&◌, not, eqb,
  if◌then◌else◌, arith, inl, inr, Bool-cases, Option-cases, eq_iff,
}
use turbovault.Text.{equal}
use turbovault.Links.Digraph.{PathOps, Digraph, DigraphLaws, has}
use turbovault.Links.Index.{
  Index, entries, has-retain_at, has-rename_at, has-retain_all, has-rename_all,
}
use turbovault.Links.Graph.{LinkGraph, stem_key}
use turbovault.Links.Update.{retain_stem, rename_stem, unindex, reindex, remove_file}
use turbovault.Links.Invariant.{IsIndexed, IsLinked, key_is, node_of_path}
use turbovault.Links.Edges.{IsConsistent}

has-retain_stem :
    (s : Option (List Char)) (k : List Char) (i n : ℕ) (m : Index (List Char))
    → has i (entries k (retain_stem s n m)) ≡ (not (key_is k s && eqb i n) && has i (entries k m))
has-retain_stem none k i n m = ground arith
has-retain_stem (some s) k i n m = has-retain_at equal s k i n m

has-rename_stem :
    (s : Option (List Char)) (k : List Char) (i last n : ℕ) (m : Index (List Char))
    → has i (entries k (rename_stem s last n m)) ≡ (
        if key_is k s
        then ((eqb i n && (has last (entries k m) || has n (entries k m)))
            || (not (eqb i n) && not (eqb i last) && has i (entries k m)))
        else has i (entries k m))
has-rename_stem none k i last n m = refl
has-rename_stem (some s) k i last n m = has-rename_at equal s k i last n m

module _ {C : Type 0} (o : PathOps) (d : Digraph C) (laws : DigraphLaws d) where
  pub idx_lt :
      (lg : LinkGraph C d) (path : String) (idx : ℕ)
      → IsIndexed o d lg
      → lg.path_index path ≡ some idx
      → idx < d.node_count lg.graph
  idx_lt lg path idx inv e =
      laws.node_lt idx path lg.graph (node_of_path o d laws lg path idx inv e)

  removed-IsLinked :
      (idx : ℕ) (g : d.G)
      → idx < d.node_count g
      → IsLinked o d g
      → IsLinked o d (d.remove_node idx g)
  removed-IsLinked idx g lt inv i e h =
      let old = laws.edge_remove_node idx i e g lt h in
      let fine = inv old.0 old.1 old.2 in
      (
        ground (arith, old.3, old.4, old.5, old.6, fine.0),
        rw (laws.node_remove_node idx e.source g lt) (ground (arith, old.3, old.5, fine.1)),
        rw (laws.node_remove_node idx e.target g lt) (ground (arith, old.4, old.6, fine.2)),
      )

  -- the removed node was the last one
  cut_last :
      (lg : LinkGraph C d) (path : String) (idx : ℕ)
      → IsIndexed o d lg
      → lg.path_index path ≡ some idx
      → eqb (d.node_count lg.graph - 1) idx ≡ true
      → IsIndexed o d (record (unindex o d path idx lg) { graph = d.remove_node idx lg.graph })
  unfolding unindex
  cut_last lg path idx inv e last =
      let lt = idx_lt lg path idx inv e in
      let here = node_of_path o d laws lg path idx inv e in
      record {
        paths = λ p i.
            rw (laws.node_remove_node idx i lg.graph lt)
              (ground (arith, here, eq_iff p path, inv.paths p i));
        stems = λ k i. rw (laws.node_remove_node idx i lg.graph lt) (
            ground (
              arith,
              here,
              inv.stems k i,
              has-retain_stem (stem_key o d path) k i idx lg.file_index,
            ));
        suffixed = λ k i.
            rw (laws.node_remove_node idx i lg.graph lt)
              (ground (arith, here, inv.suffixed k i, has-retain_all k i idx lg.path_suffix_index));
        aliases = λ k i h.
            rw (laws.node_remove_node idx i lg.graph lt)
              (ground (arith, here, inv.aliases k i, has-retain_all k i idx lg.alias_index));
      }

  -- the last node, of path `swapped`, has taken the place of the removed one
  cut_moved :
      (lg : LinkGraph C d) (path swapped : String) (idx last : ℕ)
      → IsIndexed o d lg
      → lg.path_index path ≡ some idx
      → last ≡ d.node_count lg.graph - 1
      → eqb last idx ≡ false
      → d.node last lg.graph ≡ some swapped
      → IsIndexed o d (
          reindex o d swapped last idx
            (record (unindex o d path idx lg) { graph = d.remove_node idx lg.graph }))
  unfolding unindex reindex
  cut_moved lg path swapped idx last inv e count apart there =
      let lt = idx_lt lg path idx inv e in
      let here = node_of_path o d laws lg path idx inv e in
      let cut = unindex o d path idx lg in
      let law = λ (i : ℕ). laws.node_remove_node idx i lg.graph lt in
      record {
        paths = λ p i.
            rw (law i, sym count)
              (ground (
                arith,
                here,
                there,
                eq_iff p path,
                eq_iff p swapped,
                inv.paths p i,
                inv.paths swapped last,
              ));
        stems = λ k i.
            rw (law i, sym count)
              (ground (
                arith,
                here,
                there,
                inv.stems k i,
                inv.stems k last,
                inv.stems k idx,
                has-rename_stem (stem_key o d swapped) k i last idx cut.file_index,
                has-retain_stem (stem_key o d path) k i idx lg.file_index,
                has-retain_stem (stem_key o d path) k last idx lg.file_index,
                has-retain_stem (stem_key o d path) k idx idx lg.file_index,
              ));
        suffixed = λ k i.
            rw (law i, sym count)
              (ground (
                arith,
                here,
                there,
                inv.suffixed k i,
                inv.suffixed k last,
                inv.suffixed k idx,
                has-rename_all k i last idx cut.path_suffix_index,
                has-retain_all k i idx lg.path_suffix_index,
                has-retain_all k last idx lg.path_suffix_index,
                has-retain_all k idx idx lg.path_suffix_index,
              ));
        aliases = λ k i h.
            rw (law i, sym count)
              (ground (
                arith,
                here,
                there,
                h,
                inv.aliases k i,
                inv.aliases k last,
                has-rename_all k i last idx cut.alias_index,
                has-retain_all k i idx lg.alias_index,
                has-retain_all k last idx lg.alias_index,
                has-retain_all k idx idx lg.alias_index,
              ));
      }

  pub remove_file-IsConsistent :
      (path : String) (lg : LinkGraph C d)
      → IsConsistent o d lg
      → IsConsistent o d (remove_file o d path lg)
  unfolding remove_file
  remove_file-IsConsistent path lg inv = elim (Option-cases (lg.path_index path)) [
    | inl e ↦ rw (e, remove_file) inv
    | inr (idx, e) ↦
        let lt = idx_lt lg path idx inv.indexed e in
        let last = d.node_count lg.graph - 1 in
        elim (Bool-cases (eqb last idx)) [
          | inl f ↦
              rw (e, f, remove_file)
                (record {
                  indexed = cut_last lg path idx inv.indexed e f;
                  linked = removed-IsLinked idx lg.graph lt inv.linked;
                })
          | inr f ↦
              let (swapped, there) = laws.node_some last lg.graph (omega (arith, lt)) in
              rw (e, f, there, remove_file)
                (record {
                  indexed = cut_moved lg path swapped idx last inv.indexed e refl f there;
                  linked = removed-IsLinked idx lg.graph lt inv.linked;
                })
        ]
  ]
