-- ===== src/Git/Landed.antt =====
-- The commit that ends a turn of `commit_changeset` (crates/turbovault-git/src/changeset.rs), and
-- its files from then on.
use turbovault.Common.{
  String, ◌≡◌, refl, ap, sym, ◌∙◌, inl, inr, Option, none, some, List, arith, Bool-cases,
}
use turbovault.Core.Error.{ok, Result-cases}
use turbovault.Core.Plan.Effect.{Files, Agree}
use turbovault.Git.Error.{Git2, got, missing, broken, lift, lift-ok, Git2-cases}
use turbovault.Git.Repo.{Repo, RepoLaws, State, Grows, git2_value}
use turbovault.Git.Cas.{option_eq}
use turbovault.Git.Cas.Laws.{Grows-refl, Grows-trans, option_eq-eq}
use turbovault.Git.Plumbing.{commit_tree, find_commits}
use turbovault.Git.Tree.{base_files, tree_files, bytes_at-Grows}
use turbovault.Git.Changeset.{tree_of, as_list, commit_if_changed}

module _ {Json : Type 0} (g : Repo Json) where
  abbrev commit_base : Git2 g.Commit → State g → Files
  commit_base (got c) s q = base_files g (some (g.tree_id c)) s q
  commit_base missing s q = none
  commit_base broken s q = none

  -- The files of a commit; an unborn branch has none.
  abbrev pub commit_files : Option g.Oid → State g → Files
  commit_files none s q = none
  commit_files (some c) s q = commit_base (g.find_commit c s) s q

  pub tree_of-files :
      (tip base : Option g.Oid) (s : State g) (q : String)
      → tree_of g tip s ≡ ok base
      → base_files g base s q ≡ commit_files tip s q
  tree_of-files none base s q h = let e : base ≡ none = ground arith in rw e refl
  tree_of-files (some c) base s q h = elim (Git2-cases (g.find_commit c s)) [
    | inl (x, f) ↦ let e : base ≡ some (g.tree_id x) = ground arith in rw (e, f) refl
    | inr z ↦ elim z [ inl f ↦ absurd (ground arith) | inr f ↦ absurd (ground arith) ]
  ]

  -- The commit that the branch is to have after a turn.
  abbrev pub next_tip : Option g.Oid → Option g.Oid → Option g.Oid
  next_tip tip none = tip
  next_tip tip (some c) = some c

module _ {Json : Type 0} (g : Repo Json) (laws : RepoLaws g) where
  -- A commit whose tree was readable once has the files of that tree ever since.
  landed-files :
      (c t : g.Oid) (m : g.Commit) (x : g.Tree) (s final : State g) (q : String)
      → g.find_commit c final ≡ got m
      → g.tree_id m ≡ t
      → g.find_tree t s ≡ got x
      → Grows g s final
      → laws.IsFile q
      → commit_files g (some c) final q ≡ tree_files g x s q
  landed-files c t m x s final q found id tree grows own =
      let there : g.find_tree (g.tree_id m) final ≡ got x = rw id (grows.trees t x tree) in
      rw (found, there)
        (bytes_at-Grows g laws s final (git2_value (g.get_path x q)) grows (λ o e.
          elim (Git2-cases (g.get_path x q)) [
            | inl (o', f) ↦
                let same : o' ≡ o = ground arith in
                rw (← same) (laws.blob_of_tree t o' x q s tree own f)
            | inr z ↦ elim z [ inl f ↦ absurd (ground arith) | inr f ↦ absurd (ground arith) ]
          ]))

  commit_tree-found :
      (t c : g.Oid) (parents : List g.Oid) (message : String) (s s' : State g)
      → commit_tree g t parents message s ≡ (ok c, s')
      → Grows g s s'
        × ((x : g.Tree) × (m : g.Commit) × (g.find_tree t s ≡ got x)
            × (g.find_commit c s' ≡ got m)
            × (g.tree_id m ≡ t))
  unfolding commit_tree
  commit_tree-found t c parents message s s' h = elim (Result-cases (lift (g.signature s))) [
    | inr (e, f) ↦ absurd (ground arith)
    | inl (sig, a) ↦ elim (Result-cases (lift (g.find_tree t s))) [
      | inr (e, f) ↦ absurd (ground arith)
      | inl (x, b) ↦ elim (Result-cases (find_commits g parents s)) [
        | inr (e, f) ↦ absurd (ground arith)
        | inl (ps, d) ↦
            let (written, s1) = g.commit sig message x ps s in
            let at : s1 ≡ s' = ground arith in
            let id : lift written ≡ ok c = ground arith in
            let tree = lift-ok (g.find_tree t s) b in
            let (m, found, its) =
              laws.read_commit sig message t c x ps s s' tree
                (ap (λ o. (o, s1)) (lift-ok written id) ∙ ap (λ u. (got c, u)) at) in
            (rw (← at) (laws.commit-Grows sig message x ps s), (x, m, tree, found, its))
      ]
    ]
  ]

  same_base-files :
      (tip base : Option g.Oid) (t : g.Oid) (x : g.Tree) (s0 s final : State g) (q : String)
      → tree_of g tip s0 ≡ ok base
      → base ≡ some t
      → Grows g s0 s
      → g.find_tree t s ≡ got x
      → Grows g s final
      → laws.IsFile q
      → commit_files g tip final q ≡ tree_files g x s q
  same_base-files none base t x s0 s final q at same grows tree more own = absurd (ground arith)
  same_base-files (some c) base t x s0 s final q at same grows tree more own =
      elim (Git2-cases (g.find_commit c s0)) [
        | inl (m, f) ↦
            let id : g.tree_id m ≡ t = ground arith in
            let now = more.commits c m (grows.commits c m f) in
            landed-files c t m x s final q now id tree more own
        | inr z ↦ elim z [ inl f ↦ absurd (ground arith) | inr f ↦ absurd (ground arith) ]
      ]

  pub commit_if_changed-files :
      (message : String) (tip base out : Option g.Oid) (t : g.Oid) (s0 s s' : State g)
      → commit_if_changed g message tip base t s ≡ (ok out, s')
      → tree_of g tip s0 ≡ ok base
      → Grows g s0 s
      → ((b : g.Oid) → base ≡ some b → (x : g.Tree) × (g.find_tree b s0 ≡ got x))
      → Grows g s s'
        × ((x : g.Tree) × (g.find_tree t s ≡ got x)
            × ((final : State g)
                → Grows g s' final
                → Agree laws.IsFile (commit_files g (next_tip g tip out) final) (tree_files g x s)))
  unfolding commit_if_changed
  commit_if_changed-files message tip base out t s0 s s' h at grows readable =
      elim (Bool-cases (option_eq g (some t) base)) [
        | inl e ↦
            let same : base ≡ some t = sym (option_eq-eq g laws (some t) base e) in
            let stays : out ≡ none = ground arith in
            let here : s' ≡ s = ground arith in
            let (x, old) = readable t same in
            let tree = grows.trees t x old in
            rw (stays, here)
              (
                Grows-refl g laws s,
                (
                  x,
                  tree,
                  (λ final more q own.
                      same_base-files tip base t x s0 s final q at same grows tree more own),
                ),
              )
        | inr e ↦ elim (Result-cases (commit_tree g t (as_list g tip) message s).0) [
          | inr (x, f) ↦ absurd (ground arith)
          | inl (c, f) ↦
              let after = (commit_tree g t (as_list g tip) message s).1 in
              let there : out ≡ some c = ground arith in
              let here : s' ≡ after = ground arith in
              let (more, (x, m, tree, found, id)) =
                commit_tree-found t c (as_list g tip) message s after (ap (λ r. (r, after)) f) in
              rw (there, here)
                (
                  more,
                  (
                    x,
                    tree,
                    (λ final later q own.
                        landed-files c t m x s final q (later.commits c m found) id tree
                          (Grows-trans g laws s after final more later) own),
                  ),
                )
        ]
      ]
