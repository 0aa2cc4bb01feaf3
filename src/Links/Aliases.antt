-- ===== src/Links/Aliases.antt =====
-- crates/turbovault-graph/src/graph.rs: where the entries of `alias_index` come from, through every call
-- that adds, removes and updates files, and what that says of the links that are resolved.
use Prim.Native.Char.{Char}
use turbovault.Common.{
  ℕ, ◌-◌, String, ◌≡◌, ap, sym, ◌∙◌, subst, Bool, true, false, Option, none, some, List, [], ◌∷◌,
  ◌||◌, ◌&&◌, ◌==◌, eqb, eqb→eq, eq_refl, arith, inl, inr, Bool-cases, Option-cases,
}
use turbovault.Text.{chars, equal, join}
use turbovault.Links.Digraph.{VaultFile, PathOps, Digraph, DigraphLaws, has}
use turbovault.Links.Index.{Index, entries, push_new, has-push_new, has-retain_all, has-rename_all}
use turbovault.Links.Resolve.{normalize_link_target}
use turbovault.Links.Graph.{LinkGraph, new, index_file, push_aliases, aliases_of, resolve_link}
use turbovault.Links.Update.{unindex, reindex, remove_file}
use turbovault.Links.Invariant.{stem_is, suffix_is, node_of_path, node_at_count, index_file-node}
use turbovault.Links.Edges.{IsConsistent, Keeps}
use turbovault.Links.Sound.{with_aliases, add_file-Keeps, update_links-Keeps}
use turbovault.Links.Removed.{idx_lt}
use turbovault.Links.Resolved.{single_stem, resolve_link-matches}
use turbovault.Links.Runs.{
  Call, adds, removes, updates, step, run, step-IsConsistent, run-new-IsConsistent,
}

-- What is asked of the aliases of a node, by its path.
abbrev alias_is : (List Char → String → Bool) → List Char → Option String → Bool
alias_is given k none = false
alias_is given k (some path) = given k path

module _ {C : Type 0} (o : PathOps) (d : Digraph C) where
  abbrev lists_alias : List Char → List (List Char) → Bool
  lists_alias k [] = false
  lists_alias k (a ∷ more) = equal k (o.to_lowercase a) || lists_alias k more

  -- Some call of `add_file` gave a file of that path an alias with that lower case.
  abbrev pub declares : List (Call C) → List Char → String → Bool
  declares [] k path = false
  declares (adds file ∷ calls) k path =
      (file.path == path && lists_alias k (aliases_of o d file)) || declares calls k path
  declares (removes p ∷ calls) k path = declares calls k path
  declares (updates file ∷ calls) k path = declares calls k path

  -- Every node that an alias lists has a path for which the alias was given.
  abbrev AreGiven : (List Char → String → Bool) → LinkGraph C d → Type 0
  AreGiven given lg =
      (k : List Char) (i : ℕ)
      → has i (entries k lg.alias_index) ≡ true
      → alias_is given k (d.node i lg.graph) ≡ true

  Keeps-AreGiven :
      (given : List Char → String → Bool) (lg after : LinkGraph C d)
      → Keeps o d lg after
      → AreGiven given lg
      → AreGiven given after
  Keeps-AreGiven given lg after keeps inv k i h =
      rw (keeps.nodes i) (inv k i (ap (λ m. has i (entries k m)) (sym keeps.names) ∙ h))

  push_aliases-given :
      (names : List (List Char)) (n : ℕ) (m : Index (List Char)) (P : List Char → ℕ → Bool)
      → ((k : List Char) → lists_alias k names ≡ true → P k n ≡ true)
      → ((k : List Char) (i : ℕ) → has i (entries k m) ≡ true → P k i ≡ true)
      → (k : List Char) (i : ℕ) → has i (entries k (push_aliases o d names n m)) ≡ true
      → P k i ≡ true
  unfolding push_aliases
  push_aliases-given [] n m P here every = every
  push_aliases-given (a ∷ more) n m P here every =
      push_aliases-given more n (push_new equal (o.to_lowercase a) n m) P
        (λ k h. here k (ground (arith, h)))
        (λ k i h. elim (Bool-cases (equal k (o.to_lowercase a) && eqb i n)) [
          | inl f ↦
              subst (λ j. P k j ≡ true) (sym (eqb→eq i n (ground (arith, f))))
                (here k (ground (arith, f)))
          | inr f ↦ every k i (ground (arith, f, has-push_new equal (o.to_lowercase a) k i n m))
        ])

  module _ (laws : DigraphLaws d) where
    index_file-AreGiven :
        (given : List Char → String → Bool) (path : String) (lg : LinkGraph C d)
        → AreGiven given lg
        → AreGiven given (index_file o d path lg).1
    unfolding index_file
    index_file-AreGiven given path lg inv = elim (Option-cases (lg.path_index path)) [
      | inr (j, e) ↦ rw (e, index_file) inv
      | inl e ↦
          rw (e, index_file)
            (λ k i h.
              rw (laws.node_add_node path i lg.graph)
                (ground (arith, inv k i h, node_at_count o d laws lg.graph)))
    ]

    add_file-AreGiven :
        (given : List Char → String → Bool) (file : VaultFile C) (lg : LinkGraph C d)
        → IsConsistent o d lg
        → ((k : List Char) → lists_alias k (aliases_of o d file) ≡ true → given k file.path ≡ true)
        → AreGiven given lg
        → AreGiven given (step o d (adds file) lg)
    unfolding step
    add_file-AreGiven given file lg sound gives inv =
        let idx = (index_file o d file.path lg).0 in
        let indexed = (index_file o d file.path lg).1 in
        let here = (index_file-node o d laws lg file.path sound.indexed).0 in
        Keeps-AreGiven given (with_aliases o d laws file lg) _
          (add_file-Keeps o d laws file lg sound)
          (push_aliases-given (aliases_of o d file) idx indexed.alias_index
            (λ k i. alias_is given k (d.node i indexed.graph)) (λ k h. rw here (gives k h))
            (index_file-AreGiven given file.path lg inv))

    remove_file-AreGiven :
        (given : List Char → String → Bool) (path : String) (lg : LinkGraph C d)
        → IsConsistent o d lg
        → AreGiven given lg
        → AreGiven given (remove_file o d path lg)
    unfolding remove_file unindex reindex
    remove_file-AreGiven given path lg sound inv = elim (Option-cases (lg.path_index path)) [
      | inl e ↦ rw (e, remove_file) inv
      | inr (idx, e) ↦
          let lt = idx_lt o d laws lg path idx sound.indexed e in
          let here = node_of_path o d laws lg path idx sound.indexed e in
          let last = d.node_count lg.graph - 1 in
          elim (Bool-cases (eqb last idx)) [
            | inl f ↦
                rw (e, f, remove_file)
                  (λ k i h.
                    rw (laws.node_remove_node idx i lg.graph lt)
                      (ground (arith, here, inv k i, has-retain_all k i idx lg.alias_index)))
            | inr f ↦
                let (swapped, there) = laws.node_some last lg.graph (omega (arith, lt)) in
                let cut = unindex o d path idx lg in
                rw (e, f, there, remove_file)
                  (λ k i h. rw (laws.node_remove_node idx i lg.graph lt) (
                    ground (
                      arith,
                      here,
                      there,
                      h,
                      inv k i,
                      inv k last,
                      has-rename_all k i last idx cut.alias_index,
                      has-retain_all k i idx lg.alias_index,
                      has-retain_all k last idx lg.alias_index,
                      has-retain_all k idx idx lg.alias_index,
                    )))
          ]
    ]

    update_links-AreGiven :
        (given : List Char → String → Bool) (file : VaultFile C) (lg : LinkGraph C d)
        → IsConsistent o d lg
        → AreGiven given lg
        → AreGiven given (step o d (updates file) lg)
    unfolding step
    update_links-AreGiven given file lg sound inv =
        Keeps-AreGiven given (index_file o d file.path lg).1 _
          (update_links-Keeps o d laws file lg sound) (index_file-AreGiven given file.path lg inv)

    run-AreGiven :
        (given : List Char → String → Bool) (calls : List (Call C)) (lg : LinkGraph C d)
        → IsConsistent o d lg
        → ((k : List Char) (path : String) → declares calls k path ≡ true → given k path ≡ true)
        → AreGiven given lg
        → AreGiven given (run o d calls lg)
    unfolding run
    run-AreGiven given [] lg sound gives inv = inv
    run-AreGiven given (adds file ∷ calls) lg sound gives inv =
        run-AreGiven given calls (step o d (adds file) lg)
          (step-IsConsistent o d laws (adds file) lg sound)
          (λ k path h. gives k path (ground (arith, h)))
          (add_file-AreGiven given file lg sound
            (λ k h. gives k file.path (ground (arith, h, eq_refl file.path))) inv)
    run-AreGiven given (removes p ∷ calls) lg sound gives inv =
        run-AreGiven given calls (step o d (removes p) lg)
          (step-IsConsistent o d laws (removes p) lg sound) gives
          (unfold step in remove_file-AreGiven given p lg sound inv)
    run-AreGiven given (updates file ∷ calls) lg sound gives inv =
        run-AreGiven given calls (step o d (updates file) lg)
          (step-IsConsistent o d laws (updates file) lg sound) gives
          (update_links-AreGiven given file lg sound inv)

    -- After any calls that add, remove and update files from a new graph, a link resolves only to a
    -- note that exists, and whose path has the link's only part as its stem, or ends in the link's
    -- parts, or was given an alias whose lower case is the parts joined by `/`, by one of the calls
    -- of `add_file`.
    pub resolve_link-declares :
        (calls : List (Call C)) (target : List Char) (i : ℕ)
        → resolve_link o d target (run o d calls (new o d)) ≡ some i
        → (parts : List (List Char)) × (path : String) × (normalize_link_target o target
            ≡ some parts)
          × (d.node i (run o d calls (new o d)).graph ≡ some path)
          × ((single_stem parts (λ part. stem_is o d part (some path))
                || declares calls (join (chars "/") parts) path
                || suffix_is o d parts (some path))
              ≡ true)
    resolve_link-declares calls target i h =
        let lg = run o d calls (new o d) in
        let sound = run-new-IsConsistent o d laws calls in
        let start = run-new-IsConsistent o d laws [] in
        let given =
          run-AreGiven (declares calls) calls (new o d) (unfold run in start) (λ k path g. g)
            (λ k j g. unfold new in absurd (ground arith)) in
        let (parts, path, read, there, matched) =
          resolve_link-matches o d target i lg sound.indexed h in
        (parts, path, read, there, ground (arith, there, matched, given (join (chars "/") parts) i))
