-- ===== src/Links/Resolved.antt =====
-- crates/turbovault-graph/src/graph.rs, `LinkGraph::resolve_link`: which note a link resolves to.
use Prim.Native.Char.{Char}
use turbovault.Common.{
  ℕ, String, ◌≡◌, refl, sym, ◌∙◌, Bool, true, false, none, some, List, [], ◌∷◌, ◌||◌, eqb, ltb,
  if◌then◌else◌, arith, inl, inr, Option-cases,
}
use turbovault.Text.{chars, join}
use turbovault.Links.Digraph.{PathOps, Digraph, has}
use turbovault.Links.Resolve.{normalize_link_target}
use turbovault.Links.Index.{entries}
use turbovault.Links.Graph.{
  LinkGraph, first, depth, min_by_depth, pick, resolve_parts, resolve_link,
}
use turbovault.Links.Invariant.{IsIndexed, stem_is, suffix_is}

first-has : (i : ℕ) (is : List ℕ) → first is ≡ some i → has i is ≡ true
first-has i [] h = absurd (ground arith)
first-has i (j ∷ js) h = ground arith

min_by_depth-has :
    (deep : ℕ → ℕ) (best : ℕ) (is : List ℕ)
    → (eqb (min_by_depth deep best is) best || has (min_by_depth deep best is) is) ≡ true
unfolding min_by_depth
min_by_depth-has deep best [] = ground arith
min_by_depth-has deep best (i ∷ is) =
    let later = min_by_depth-has deep (if ltb (deep i) (deep best) then i else best) is in
    ground (arith, later)

pick-has : (deep : ℕ → ℕ) (i : ℕ) (is : List ℕ) → pick deep is ≡ some i → has i is ≡ true
unfolding pick
pick-has deep i [] h = absurd (ground arith)
pick-has deep i (j ∷ []) h = ground arith
pick-has deep i (j ∷ k ∷ ks) h = ground (arith, min_by_depth-has deep j (k ∷ ks))

first-none : (i : ℕ) (is : List ℕ) → first is ≡ none → has i is ≡ false
first-none i [] h = refl
first-none i (j ∷ js) h = absurd (ground arith)

pick-none : (deep : ℕ → ℕ) (i : ℕ) (is : List ℕ) → pick deep is ≡ none → has i is ≡ false
unfolding pick
pick-none deep i [] h = refl
pick-none deep i (j ∷ []) h = absurd (ground arith)
pick-none deep i (j ∷ k ∷ ks) h = absurd (ground arith)

-- what a single part is as a stem
abbrev pub single_stem : List (List Char) → (List Char → Bool) → Bool
single_stem [] test = false
single_stem (part ∷ []) test = test part
single_stem (part ∷ next ∷ rest) test = false

module _ {C : Type 0} (o : PathOps) (d : Digraph C) where
  -- A node that a link of these parts may mean: the only part is the stem of its path,
  -- `alias_index` lists the node under the parts joined by `/`, or the parts end its path.
  abbrev pub matches : List (List Char) → ℕ → LinkGraph C d → Bool
  matches parts i lg =
      single_stem parts (λ part. stem_is o d part (d.node i lg.graph))
      || has i (entries (join (chars "/") parts) lg.alias_index)
      || suffix_is o d parts (d.node i lg.graph)

  resolve_parts-has :
      (parts : List (List Char)) (i : ℕ) (lg : LinkGraph C d)
      → resolve_parts o d parts lg ≡ some i
      → (single_stem parts (λ part. has i (entries part lg.file_index))
          || has i (entries (join (chars "/") parts) lg.alias_index)
          || has i (entries parts lg.path_suffix_index))
        ≡ true
  unfolding resolve_parts
  resolve_parts-has [] i lg h = ground (
    arith,
    first-has i (entries (join (chars "/") []) lg.alias_index),
    pick-has (depth o d lg) i (entries [] lg.path_suffix_index),
  )
  resolve_parts-has (p ∷ []) i lg h = ground (
    arith,
    first-has i (entries p lg.file_index),
    first-has i (entries (join (chars "/") (p ∷ [])) lg.alias_index),
    pick-has (depth o d lg) i (entries (p ∷ []) lg.path_suffix_index),
  )
  resolve_parts-has (p ∷ q ∷ ps) i lg h = ground (
    arith,
    first-has i (entries (join (chars "/") (p ∷ q ∷ ps)) lg.alias_index),
    pick-has (depth o d lg) i (entries (p ∷ q ∷ ps) lg.path_suffix_index),
  )

  matches_of_has :
      (parts : List (List Char)) (i : ℕ) (lg : LinkGraph C d)
      → IsIndexed o d lg
      → (single_stem parts (λ part. has i (entries part lg.file_index))
          || has i (entries (join (chars "/") parts) lg.alias_index)
          || has i (entries parts lg.path_suffix_index))
        ≡ matches parts i lg
  matches_of_has [] i lg inv = ground (arith, inv.suffixed [] i)
  matches_of_has (p ∷ []) i lg inv = ground (arith, inv.stems p i, inv.suffixed (p ∷ []) i)
  matches_of_has (p ∷ q ∷ ps) i lg inv = ground (arith, inv.suffixed (p ∷ q ∷ ps) i)

  missing_matches :
      (parts : List (List Char)) (i : ℕ) (lg : LinkGraph C d)
      → IsIndexed o d lg
      → d.node i lg.graph ≡ none
      → matches parts i lg ≡ false
  missing_matches [] i lg inv e = ground (arith, inv.aliases (join (chars "/") []) i)
  missing_matches (p ∷ []) i lg inv e = ground (arith, inv.aliases (join (chars "/") (p ∷ [])) i)
  missing_matches (p ∷ q ∷ ps) i lg inv e =
      ground (arith, inv.aliases (join (chars "/") (p ∷ q ∷ ps)) i)

  resolve_parts-none :
      (parts : List (List Char)) (i : ℕ) (lg : LinkGraph C d)
      → resolve_parts o d parts lg ≡ none
      → (single_stem parts (λ part. has i (entries part lg.file_index))
          || has i (entries (join (chars "/") parts) lg.alias_index)
          || has i (entries parts lg.path_suffix_index))
        ≡ false
  unfolding resolve_parts
  resolve_parts-none [] i lg h = ground (
    arith,
    first-none i (entries (join (chars "/") []) lg.alias_index),
    pick-none (depth o d lg) i (entries [] lg.path_suffix_index),
  )
  resolve_parts-none (p ∷ []) i lg h = ground (
    arith,
    first-none i (entries p lg.file_index),
    first-none i (entries (join (chars "/") (p ∷ [])) lg.alias_index),
    pick-none (depth o d lg) i (entries (p ∷ []) lg.path_suffix_index),
  )
  resolve_parts-none (p ∷ q ∷ ps) i lg h = ground (
    arith,
    first-none i (entries (join (chars "/") (p ∷ q ∷ ps)) lg.alias_index),
    pick-none (depth o d lg) i (entries (p ∷ q ∷ ps) lg.path_suffix_index),
  )

  -- In a graph whose maps are right, a link resolves only to a note that exists and that it may
  -- mean: its parts are the stem or the end of the note's path, or `alias_index` lists
  -- the note under the parts joined by `/`.
  pub resolve_link-matches :
      (target : List Char) (i : ℕ) (lg : LinkGraph C d)
      → IsIndexed o d lg
      → resolve_link o d target lg ≡ some i
      → (parts : List (List Char)) × (path : String) × (normalize_link_target o target ≡ some parts)
        × (d.node i lg.graph ≡ some path)
        × (matches parts i lg ≡ true)
  unfolding resolve_link
  resolve_link-matches target i lg inv h = elim (Option-cases (normalize_link_target o target)) [
    | inl e ↦ absurd (ground arith)
    | inr (parts, e) ↦
        let found = resolve_parts-has parts i lg (ground arith) in
        let matched : matches parts i lg ≡ true = sym (matches_of_has parts i lg inv) ∙ found in
        elim (Option-cases (d.node i lg.graph)) [
          | inr (path, f) ↦ (parts, path, e, f, matched)
          | inl f ↦ absurd (ground (arith, missing_matches parts i lg inv f))
        ]
  ]

  -- In such a graph, a link that does not resolve is external, empty or an anchor, or means no note:
  -- whatever the note, its path neither has the only part as its stem nor ends in the parts, and it
  -- is not listed under the alias.
  pub resolve_link-none :
      (target : List Char) (parts : List (List Char)) (i : ℕ) (lg : LinkGraph C d)
      → IsIndexed o d lg
      → resolve_link o d target lg ≡ none
      → normalize_link_target o target ≡ some parts
      → matches parts i lg ≡ false
  unfolding resolve_link
  resolve_link-none target parts i lg inv h e =
      sym (matches_of_has parts i lg inv) ∙ resolve_parts-none parts i lg (ground arith)
