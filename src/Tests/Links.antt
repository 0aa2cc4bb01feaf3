-- ===== src/Tests/Links.antt =====
-- Concrete inputs for the theorems on crates/turbovault-graph, and runs of its definitions.
use Prim.Native.Char.{Char}
use turbovault.Common.{
  contains, ℕ, zero, suc, String, ◌≡◌, refl, true, false, none, some, List, [], ◌∷◌, ◌||◌, length,
  arith,
}
use turbovault.Text.{chars, without_suffix, split, join}
use turbovault.Links.Digraph.{wiki_link, Link, VaultFile, PathOps, leaves}
use turbovault.Links.Resolve.{is_separator, is_note_reference, normalize_link_target}
use turbovault.Links.Graph.{LinkGraph, new, resolve_link}
use turbovault.Links.Update.{remove_edges}
use turbovault.Links.Edges.{IsConsistent}
use turbovault.Links.Invariant.{stem_is, suffix_is}
use turbovault.Links.Aliases.{declares, resolve_link-declares}
use turbovault.Links.Runs.{Call, adds, removes, updates, run, run-new-IsConsistent}
use turbovault.Links.Resolved.{single_stem, matches, resolve_link-matches, resolve_link-none}
use turbovault.Links.Outgoing.{remove_edges-all, remove_edges-stale}
use turbovault.Links.Queries.{related_notes}
use turbovault.Links.Complete.{related_notes-contains}
use turbovault.Links.Related.{Joined, backwards, stays, hops, Found, related_notes-Found}
use turbovault.Tests.MemoryGraph.{Memory, memory, memory-laws}

abbrev pub o : PathOps
unfolding chars without_suffix split
o = record {
  file_stem = λ p. some (without_suffix (chars ".md") (chars p));
  iter = λ p. split is_separator (chars p);
  component_count = λ p. length (split is_separator (chars p));
  to_lowercase = λ s. s;
  to_ascii_lowercase = λ s. s;
  is_whitespace = λ c. false;
}

abbrev pub link_to : String → Link (Unit {0})
unfolding chars
link_to target = record { type_ = wiki_link; target = chars target; is_valid = true; carried = tt }

abbrev pub file : String → List (Link (Unit {0})) → VaultFile (Unit {0})
file path links = record { path = path; aliases = none; links = links }

-- `x.md` and `b.md` are added, `b.md` becomes the first node when `x.md` goes, and `a.md` links to it.
abbrev calls : List (Call (Unit {0}))
unfolding link_to
calls =
    adds (file "x.md" [])
    ∷ adds (file "b.md" [])
    ∷ removes "x.md"
    ∷ updates (file "a.md" (link_to "b" ∷ []))
    ∷ []

abbrev pub graph : LinkGraph (Unit {0}) (memory false)
unfolding run calls new
graph = run o (memory false) calls (new o (memory false))

run-new-IsConsistent_example :
    IsConsistent o (memory false) (run o (memory false) calls (new o (memory false)))
run-new-IsConsistent_example = run-new-IsConsistent o (memory false) (memory-laws false) calls

links_to_b : resolve_link o (memory false) (chars "./b.md#part") graph ≡ some 0
unfolding graph resolve_link chars o
links_to_b = refl

to_b_only : normalize_link_target o (chars "./b.md#part") ≡ some (chars "b" ∷ [])
unfolding normalize_link_target chars o
to_b_only = refl

image : is_note_reference o (chars "pictures/b.png#part") ≡ false
unfolding is_note_reference chars o
image = refl

pub sound : IsConsistent o (memory false) graph
unfolding graph
sound = run-new-IsConsistent o (memory false) (memory-laws false) calls

abbrev Meant : List Char → ℕ → Type 0
Meant target i =
    (parts : List (List Char)) × (path : String) × (normalize_link_target o target ≡ some parts)
    × ((memory false).node i graph.graph ≡ some path)
    × (matches o (memory false) parts i graph ≡ true)

resolve_link-matches_example : Meant (chars "./b.md#part") 0
resolve_link-matches_example =
    resolve_link-matches o (memory false) (chars "./b.md#part") 0 graph sound.indexed links_to_b

-- `n.md` is added with the alias `old`, moves to the place of `x.md`, and is added without it.
abbrev renamed : List (Call (Unit {0}))
unfolding chars
renamed =
    adds (file "x.md" [])
    ∷ adds (record (file "n.md" []) { aliases = some (chars "old" ∷ []) })
    ∷ removes "x.md"
    ∷ adds (file "n.md" [])
    ∷ []

-- The alias still leads to the note.
still_old :
    resolve_link o
      (memory false)
      (chars "old")
      (run o (memory false) renamed (new o (memory false)))
    ≡ some 0
unfolding run new resolve_link chars o
still_old = refl

abbrev Led : List Char → ℕ → Type 0
Led target i =
    (parts : List (List Char)) × (path : String) × (normalize_link_target o target ≡ some parts)
    × ((memory false).node i (run o (memory false) renamed (new o (memory false))).graph
        ≡ some path)
    × ((single_stem parts (λ part. stem_is o (memory false) part (some path))
          || declares o (memory false) renamed (join (chars "/") parts) path
          || suffix_is o (memory false) parts (some path))
        ≡ true)

resolve_link-declares_example : Led (chars "old") 0
resolve_link-declares_example =
    resolve_link-declares o (memory false) (memory-laws false) renamed (chars "old") 0 still_old

to_c_fails : resolve_link o (memory false) (chars "c") graph ≡ none
unfolding graph resolve_link chars o
to_c_fails = refl

to_c_only : normalize_link_target o (chars "c") ≡ some (chars "c" ∷ [])
unfolding normalize_link_target chars o
to_c_only = refl

resolve_link-none_example : matches o (memory false) (chars "c" ∷ []) 0 graph ≡ false
resolve_link-none_example =
    resolve_link-none o (memory false) (chars "c") (chars "c" ∷ []) 0 graph sound.indexed to_c_fails
      to_c_only

-- Three edges, two of which leave the node 0.
abbrev three : Memory
unfolding link_to
three = record {
  nodes = 2;
  path_at = λ i. "n.md";
  edges = 3;
  edge_at = λ i. record { source = ends i; target = 1; link = link_to "b" };
}
  where
    ends : ℕ → ℕ
    ends zero = 1
    ends (suc i) = 0

remove_edges-all_example :
    leaves 0 ((memory false).edge 1 (remove_edges o (memory false) (2 ∷ 1 ∷ []) three)) ≡ false
unfolding three
remove_edges-all_example =
    remove_edges-all o (memory false) (memory-laws false) 0 three ((omega arith, tt), (tt, tt)) 1

remove_edges-stale_example :
    ((memory true).edge 1 (remove_edges o (memory true) (1 ∷ 2 ∷ []) three)
      ≡ (memory true).edge 2 three)
    × (leaves 0 ((memory true).edge 2 three) ≡ true)
unfolding three
remove_edges-stale_example =
    remove_edges-stale o (memory true) (memory-laws true) 0 1 2 three refl (omega arith) refl

has_b : graph.path_index "b.md" ≡ some 0
unfolding graph o
has_b = refl

related_notes-Found_example :
    Found (memory false) graph.graph 0 2 (related_notes (memory false) "b.md" 2 graph)
related_notes-Found_example =
    related_notes-Found (memory false) o (memory-laws false) "b.md" 0 2 graph sound has_b

related_to_b : related_notes (memory false) "b.md" 2 graph ≡ some ("a.md" ∷ [])
unfolding related_notes graph o
related_to_b = refl

-- `a.md` links to `b.md`.
joined : Joined (memory false) graph.graph 0 1
unfolding graph link_to o
joined = backwards 0 (record { source = 1; target = 0; link = link_to "b" }) refl

a_node : (memory false).node 1 graph.graph ≡ some "a.md"
unfolding graph o
a_node = refl

related_notes-contains_example : contains ("a.md" ∷ []) "a.md" ≡ true
related_notes-contains_example =
    related_notes-contains (memory false) (memory-laws false) "b.md" 0 2 graph ("a.md" ∷ []) 1 1
      "a.md" has_b related_to_b (hops 0 0 1 stays joined) (omega arith)
      (λ z. absurd (omega (arith, z))) a_node
