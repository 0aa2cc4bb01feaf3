-- ===== src/Git/Built.antt =====
-- The files of the tree that `build_tree` (crates/turbovault-git/src/plumbing.rs) writes.
use turbovault.Common.{◌≡◌, refl, ap, ◌∙◌, inl, inr, Option, none, some, List, arith, All}
use turbovault.Core.Error.{ok, ◌>>=◌, >>=-eq-ok, Result-cases}
use turbovault.Core.Plan.{touched}
use turbovault.Core.Plan.Effect.{apply_changes, Agree, apply_changes-Agree}
use turbovault.Git.Error.{got, lift, lift-ok, Git2-cases}
use turbovault.Git.Repo.{Repo, RepoLaws, State, Grows}
use turbovault.Git.Cas.Laws.{Grows-trans}
use turbovault.Git.Plumbing.{TreeChange, seed, stage, build_tree}
use turbovault.Git.Tree.{
  bytes_at, tree_files, base_files, changes_of, index_files, Backed, stage-files, bytes_at-Grows,
}

module _ {Json : Type 0} (g : Repo Json) (laws : RepoLaws g) where
  seed-files :
      (base : Option g.Oid) (i : g.Index) (s : State g)
      → seed g base s ≡ ok i
      → Backed g laws i s × Agree laws.IsFile (index_files g laws i s) (base_files g base s)
  unfolding seed
  seed-files none i s h = (
    (λ q o own e. let at = laws.entry_new i q (lift-ok g.index_new h) own in absurd (ground arith)),
    (λ q own. let at = laws.entry_new i q (lift-ok g.index_new h) own in ground arith),
  )
  seed-files (some base) i s h =
      let (empty, e, h1) =
        >>=-eq-ok (lift g.index_new)
          (λ i. lift (g.find_tree base s) >>= λ t. lift (g.read_tree t i)) h in
      let (x, f, h2) = >>=-eq-ok (lift (g.find_tree base s)) (λ t. lift (g.read_tree t empty)) h1 in
      let found = lift-ok (g.find_tree base s) f in
      let read = lift-ok (g.read_tree x empty) h2 in
      (
        (λ q o own e'.
            let at = laws.entry_read_tree x empty i q read own in
            elim (Git2-cases (g.get_path x q)) [
              | inl (o', there) ↦
                  let same : o' ≡ o = ground arith in
                  rw (← same) (laws.blob_of_tree base o' x q s found own there)
              | inr z ↦ elim z [ inl r ↦ absurd (ground arith) | inr r ↦ absurd (ground arith) ]
            ]),
        (λ q own.
            let at = laws.entry_read_tree x empty i q read own in
            ap (bytes_at g s) at ∙ rw found refl),
      )

  seed-tree :
      (base : g.Oid) (i : g.Index) (s : State g)
      → seed g (some base) s ≡ ok i
      → (x : g.Tree) × (g.find_tree base s ≡ got x)
  unfolding seed
  seed-tree base i s h =
      let (empty, e, h1) =
        >>=-eq-ok (lift g.index_new)
          (λ i. lift (g.find_tree base s) >>= λ t. lift (g.read_tree t i)) h in
      let (x, f, h2) = >>=-eq-ok (lift (g.find_tree base s)) (λ t. lift (g.read_tree t empty)) h1 in
      (x, lift-ok (g.find_tree base s) f)

  pub build_tree-base :
      (base t : g.Oid) (cs : List TreeChange) (s s' : State g)
      → build_tree g (some base) cs s ≡ (ok t, s')
      → (x : g.Tree) × (g.find_tree base s ≡ got x)
  unfolding build_tree
  build_tree-base base t cs s s' h = elim (Result-cases (seed g (some base) s)) [
    | inr (e, a) ↦ absurd (ground arith)
    | inl (i, a) ↦ seed-tree base i s a
  ]

  -- The files of the tree that is written are the files of the base after the changes.
  pub build_tree-files :
      (base : Option g.Oid) (cs : List TreeChange) (t : g.Oid) (s s' : State g)
      → build_tree g base cs s ≡ (ok t, s')
      → All laws.IsFile (touched (changes_of cs))
      → Grows g s s'
        × ((x : g.Tree)
            → g.find_tree t s' ≡ got x
            → Agree laws.IsFile
                (tree_files g x s')
                (apply_changes (base_files g base s) (changes_of cs)))
  unfolding build_tree
  build_tree-files base cs t s s' h files = elim (Result-cases (seed g base s)) [
    | inr (e, a) ↦ absurd (ground arith)
    | inl (i, a) ↦ elim (Result-cases (stage g cs i s).0) [
      | inr (e, b) ↦ absurd (ground arith)
      | inl (j, b) ↦
          let s2 = (stage g cs i s).1 in
          let (written, s3) = g.write_tree_to j s2 in
          let at : s3 ≡ s' = ground arith in
          let id : lift written ≡ ok t = ground arith in
          let (backed, start) = seed-files base i s a in
          let (grows, back, view) =
            stage-files g laws cs i j s s2 (ap (λ x. (x, s2)) b) files backed in
          let more : Grows g s2 s' = rw (← at) (laws.write_tree_to-Grows j s2) in
          (
            Grows-trans g laws s s2 s' grows more,
            (λ x found q own.
                ap (bytes_at g s') (
                  laws.read_write_tree_to j t x q s2 s'
                    (ap (λ o. (o, s3)) (lift-ok written id) ∙ ap (λ u. (got t, u)) at) found own)
                ∙ bytes_at-Grows g laws s2 s' (laws.entry j q) more (λ o e. back q o own e)
                ∙ view q own
                ∙ apply_changes-Agree laws.IsFile (index_files g laws i s) (base_files g base s)
                    (changes_of cs) files start q own),
          )
    ]
  ]
