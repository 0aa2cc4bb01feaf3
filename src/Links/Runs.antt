-- ===== src/Links/Runs.antt =====
-- crates/turbovault-graph/src/graph.rs: a `LinkGraph` under any calls of the operations that change it.
use turbovault.Common.{String, List, [], ◌∷◌, arith}
use turbovault.Links.Digraph.{VaultFile, PathOps, Digraph, DigraphLaws}
use turbovault.Links.Graph.{LinkGraph, new, add_file}
use turbovault.Links.Update.{remove_file, update_links}
use turbovault.Links.Invariant.{new-IsIndexed}
use turbovault.Links.Edges.{IsConsistent}
use turbovault.Links.Sound.{add_file-IsConsistent, update_links-IsConsistent}
use turbovault.Links.Removed.{remove_file-IsConsistent}

pub data Call (C : Type 0) : Type 0 where
  adds : VaultFile C → Call C
  removes : String → Call C
  updates : VaultFile C → Call C

module _ {C : Type 0} (o : PathOps) (d : Digraph C) where
  unfoldable pub step : Call C → LinkGraph C d → LinkGraph C d
  unfolding add_file remove_file update_links
  step (adds file) lg = add_file o d file lg
  step (removes path) lg = remove_file o d path lg
  step (updates file) lg = update_links o d file lg

  unfoldable pub run : List (Call C) → LinkGraph C d → LinkGraph C d
  unfolding step
  run [] lg = lg
  run (call ∷ calls) lg = run calls (step call lg)

  module _ (laws : DigraphLaws d) where
    pub step-IsConsistent :
        (call : Call C) (lg : LinkGraph C d) → IsConsistent o d lg → IsConsistent o d (step call lg)
    unfolding step
    step-IsConsistent (adds file) lg inv = add_file-IsConsistent o d laws file lg inv
    step-IsConsistent (removes path) lg inv = remove_file-IsConsistent o d laws path lg inv
    step-IsConsistent (updates file) lg inv = update_links-IsConsistent o d laws file lg inv

    run-IsConsistent :
        (calls : List (Call C)) (lg : LinkGraph C d)
        → IsConsistent o d lg
        → IsConsistent o d (run calls lg)
    unfolding run
    run-IsConsistent [] lg inv = inv
    run-IsConsistent (call ∷ calls) lg inv =
        run-IsConsistent calls (step call lg) (step-IsConsistent call lg inv)

    -- Whatever files are added, removed and updated, in any order, from a new graph: `path_index` leads
    -- from a path exactly to the node of that path, `file_index` and `path_suffix_index` list under a
    -- key exactly the nodes whose path has that stem or ends so, `alias_index` lists only nodes that
    -- exist, every edge joins two nodes that exist, and none is a loop.
    pub run-new-IsConsistent : (calls : List (Call C)) → IsConsistent o d (run calls (new o d))
    unfolding new
    run-new-IsConsistent calls = run-IsConsistent calls (new o d) (record {
      indexed = new-IsIndexed o d laws;
      linked = λ i e h. absurd (omega (arith, laws.edge_lt i e d.empty h, laws.edge_count_empty));
    })
