-- ===== src/Git/Reveal.antt =====
-- Revealing a commit to the working tree (crates/turbovault-git/src/materialize.rs) leaves every
-- object of the repository as it is, also where it fails half way.
use turbovault.Common.{String, ◌≡◌, refl, inl, inr, List, [], ◌∷◌, arith, Bool-cases, Option-cases}
use turbovault.Core.Error.{Error, Fallible, ok, err}
use turbovault.Core.Plan.{Bytes}
use turbovault.Direct.Disk.{Io-cases}
use turbovault.Direct.Apply.{make_parent, rename_or_clean}
use turbovault.Git.Error.{GitError, lift, Exec, ◌and_then◌, Git2-cases}
use turbovault.Git.Repo.{Repo, RepoLaws, State, Grows}
use turbovault.Git.Cas.Laws.{Grows-refl, Grows-trans}
use turbovault.Git.Materialize.{
  bridge, reveal, clear, materialize_one, materialize_all, sync, materialize_tree, find_commit_tree,
  materialize,
}

bridge-state : {S T : Type 0} (m : Fallible Error T × S) → (bridge m).1 ≡ m.1
bridge-state (ok t, s) = refl
bridge-state (err e, s) = refl

module _ {Json : Type 0} (g : Repo Json) (laws : RepoLaws g) where
  and_then-Grows :
      {T W : Type 0} (s : State g) (m : Fallible GitError T × State g) (k : T → Exec (State g) W)
      → Grows g s m.1
      → ((t : T) (u : State g) → Grows g u (k t u).1)
      → Grows g s (m and_then k).1
  and_then-Grows s (ok t, u) k a b = Grows-trans g laws s u (k t u).1 a (b t u)
  and_then-Grows s (err e, u) k a b = a

  make_parent-Grows : (p : String) (s : State g) → Grows g s (make_parent g.disk p s).1
  unfolding make_parent
  make_parent-Grows p s = elim (Option-cases (g.disk.parent p)) [
    | inl e ↦ rw (e, make_parent) (Grows-refl g laws s)
    | inr (dir, e) ↦ elim (Io-cases (g.disk.create_dir_all dir s).0) [
      | inl (u, f) ↦ rw (e, make_parent, f) (laws.create_dir_all-Grows dir s)
      | inr (x, f) ↦ rw (e, make_parent, f) (laws.create_dir_all-Grows dir s)
    ]
  ]

  rename_or_clean-Grows : (p r : String) (s : State g) → Grows g s (rename_or_clean g.disk p r s).1
  unfolding rename_or_clean
  rename_or_clean-Grows p r s =
      let first = laws.rename-Grows p r s in
      let after = (g.disk.rename p r s).1 in
      elim (Io-cases (g.disk.rename p r s).0) [
        | inl (u, f) ↦ rw (f, rename_or_clean) first
        | inr (x, f) ↦
            rw (f, rename_or_clean)
              (Grows-trans g laws s after (g.disk.remove_file p after).1 first
                (laws.remove_file-Grows p after))
      ]

  reveal-Grows : (p : String) (b : Bytes) (s : State g) → Grows g s (reveal g p b s).1
  unfolding reveal
  reveal-Grows p b s =
      let s1 = (g.disk.new_v4 s).1 in
      let tmp = g.disk.temp_path p (g.disk.new_v4 s).0 in
      let s2 = (g.disk.write tmp b s1).1 in
      let moved = rename_or_clean g.disk tmp p s2 in
      let cleaned = (g.disk.remove_file tmp s2).1 in
      let both = Grows-trans g laws s s1 s2 (laws.new_v4-Grows s) (laws.write-Grows tmp b s1) in
      elim (Io-cases (g.disk.write tmp b s1).0) [
        | inl (u, f) ↦
            let at : (reveal g p b s).1 ≡ moved.1 = ground (arith, bridge-state moved) in
            rw at (Grows-trans g laws s s2 moved.1 both (rename_or_clean-Grows tmp p s2))
        | inr (x, f) ↦
            let at : (reveal g p b s).1 ≡ cleaned = ground arith in
            rw at (Grows-trans g laws s s2 cleaned both (laws.remove_file-Grows tmp s2))
      ]

  clear-Grows : (p : String) (s : State g) → Grows g s (clear g p s).1
  unfolding clear
  clear-Grows p s = elim (Bool-cases (g.disk.exists p s)) [
    | inr e ↦ rw e (Grows-refl g laws s)
    | inl e ↦ elim (Io-cases (g.disk.remove_file p s).0) [
      | inl (u, f) ↦ rw (e, f) (laws.remove_file-Grows p s)
      | inr (x, f) ↦ rw (e, f) (laws.remove_file-Grows p s)
    ]
  ]

  materialize_one-Grows :
      (x : g.Tree) (rel : String) (s : State g) → Grows g s (materialize_one g x rel s).1
  unfolding materialize_one
  materialize_one-Grows x rel s =
      let target = g.disk.join rel in
      elim (Git2-cases (g.get_path x rel)) [
        | inr z ↦ elim z [
          | inl e ↦ rw (e, materialize_one) (clear-Grows target s)
          | inr e ↦ rw (e, materialize_one) (Grows-refl g laws s)
        ]
        | inl (entry, e) ↦
            rw (e, materialize_one)
              (and_then-Grows s (lift (g.find_blob entry s), s)
                (λ content s1.
                  bridge (make_parent g.disk target s1) and_then λ u. reveal g target content)
                (Grows-refl g laws s)
                (λ content s1.
                  and_then-Grows s1 (bridge (make_parent g.disk target s1))
                    (λ u. reveal g target content)
                    (rw (bridge-state (make_parent g.disk target s1)) (make_parent-Grows target s1))
                    (λ u s2. reveal-Grows target content s2)))
      ]

  materialize_all-Grows :
      (x : g.Tree) (rels : List String) (s : State g) → Grows g s (materialize_all g x rels s).1
  unfolding materialize_all
  materialize_all-Grows x [] s = Grows-refl g laws s
  materialize_all-Grows x (rel ∷ rels) s =
      and_then-Grows s (materialize_one g x rel s) (λ u. materialize_all g x rels)
        (materialize_one-Grows x rel s) (λ u s1. materialize_all-Grows x rels s1)

  materialize_tree-Grows :
      (paths : List String) (x : g.Tree) (s : State g) → Grows g s (materialize_tree g paths x s).1
  unfolding materialize_tree sync
  materialize_tree-Grows paths x s =
      and_then-Grows s (materialize_all g x paths s) (λ v. sync g x)
        (materialize_all-Grows x paths s) (λ v s1. laws.sync_index-Grows x s1)

  pub materialize-Grows :
      (c : g.Oid) (paths : List String) (s : State g) → Grows g s (materialize g c paths s).1
  unfolding materialize
  materialize-Grows c paths s =
      and_then-Grows s (find_commit_tree g c s, s) (materialize_tree g paths) (Grows-refl g laws s)
        (materialize_tree-Grows paths)
