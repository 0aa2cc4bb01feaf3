-- ===== src/Git/Tree.antt =====
-- The tree that `build_tree` (crates/turbovault-git/src/plumbing.rs) writes holds the files that
-- the abstract run of the changes leaves.
use turbovault.Common.{
  String, ◌≡◌, refl, ap, sym, ◌∙◌, inl, inr, Option, none, some, List, [], ◌∷◌, ◌==◌, arith, All,
  Bool-cases, ◌%◌, ◌^◌, length, ℕ,
}
use turbovault.Core.Error.{ok, Result-cases}
use turbovault.Core.Plan
use turbovault.Core.Plan.{Bytes, Change, touched}
use turbovault.Core.Plan.Effect.{Files, apply_change, apply_changes, Agree, apply_changes-Agree}
use turbovault.Git.Error.{Git2, got, missing, broken, lift, lift-ok}
use turbovault.Git.Repo.{Repo, RepoLaws, State, IndexEntry, Grows, git2_value}
use turbovault.Git.Cas.Laws.{Grows-refl, Grows-trans}
use turbovault.Git.Plumbing.{TreeChange, upsert, remove, stage}

abbrev pub as_change : TreeChange → Change
as_change (upsert p c) = Plan.upsert p c
as_change (remove p) = Plan.remove p

abbrev pub changes_of : List TreeChange → List Change
changes_of [] = []
changes_of (c ∷ cs) = as_change c ∷ changes_of cs

module _ {Json : Type 0} (g : Repo Json) where
  abbrev pub bytes_at : State g → Option g.Oid → Option Bytes
  bytes_at s none = none
  bytes_at s (some o) = git2_value (g.find_blob o s)

  -- The files of a tree, and of the tree under an id.
  abbrev pub tree_files : g.Tree → State g → Files
  tree_files x s q = bytes_at s (git2_value (g.get_path x q))

  abbrev found_files : Git2 g.Tree → State g → Files
  found_files (got x) s q = tree_files x s q
  found_files missing s q = none
  found_files broken s q = none

  abbrev pub base_files : Option g.Oid → State g → Files
  base_files none s q = none
  base_files (some o) s q = found_files (g.find_tree o s) s q

module _ {Json : Type 0} (g : Repo Json) (laws : RepoLaws g) where
  abbrev pub index_files : g.Index → State g → Files
  index_files i s q = bytes_at g s (laws.entry i q)

  -- The blobs of an index can be read.
  abbrev pub Backed : g.Index → State g → Type 0
  Backed i s =
      (q : String) (o : g.Oid)
      → laws.IsFile q
      → laws.entry i q ≡ some o
      → (b : Bytes) × (g.find_blob o s ≡ got b)

  pub bytes_at-Grows :
      (s t : State g) (e : Option g.Oid)
      → Grows g s t
      → ((o : g.Oid) → e ≡ some o → (b : Bytes) × (g.find_blob o s ≡ got b))
      → bytes_at g t e ≡ bytes_at g s e
  bytes_at-Grows s t none grows backed = refl
  bytes_at-Grows s t (some o) grows backed =
      let (b, here) = backed o refl in ap git2_value (grows.blobs o b here ∙ sym here)

  -- Staging a blob.
  add-files :
      (p : String) (c : Bytes) (o : g.Oid) (m z : ℕ) (i k : g.Index) (s t : State g)
      → g.blob c s ≡ (got o, t)
      → g.add (record { mode = m; file_size = z; id = o; path = p }) i ≡ got k
      → laws.IsFile p
      → Backed i s
      → Grows g s t
        × Backed k t
        × Agree laws.IsFile (index_files k t) (apply_change (index_files i s) (Plan.upsert p c))
  unfolding apply_change
  add-files p c o m z i k s t w a file backed =
      let grows : Grows g s t = rw (← ap (λ x. x.1) w) (laws.blob-Grows c s) in
      let fresh = laws.read_blob c o s t w in
      let e : IndexEntry g.Oid = record { mode = m; file_size = z; id = o; path = p } in
      (
        grows,
        (λ q o' own f.
            let at = laws.entry_add e i k q a file own in
            elim (Bool-cases (p == q)) [
              | inl same ↦ let this : o ≡ o' = ground arith in (c, rw (← this) fresh)
              | inr ne ↦ let (b, old) = backed q o' own (ground arith) in (b, grows.blobs o' b old)
            ]),
        (λ q own.
            let at = laws.entry_add e i k q a file own in
            elim (Bool-cases (p == q)) [
              | inl same ↦ rw (at, same) (ap git2_value fresh)
              | inr ne ↦
                  rw (at, ne)
                    (bytes_at-Grows s t (laws.entry i q) grows (λ o' f. backed q o' own f))
            ]),
      )

  remove-files :
      (p : String) (i k : g.Index) (s : State g)
      → g.remove_path p i ≡ got k
      → laws.IsFile p
      → Backed i s
      → Backed k s
        × Agree laws.IsFile (index_files k s) (apply_change (index_files i s) (Plan.remove p))
  unfolding apply_change
  remove-files p i k s r file backed = (
    (λ q o own e.
        let at = laws.entry_remove_path p i k q r file own in
        elim (Bool-cases (p == q)) [
          | inl f ↦ absurd (ground arith)
          | inr f ↦ backed q o own (ground arith)
        ]),
    (λ q own.
        let at = laws.entry_remove_path p i k q r file own in
        elim (Bool-cases (p == q)) [ inl f ↦ ground arith | inr f ↦ ground arith ]),
  )

  -- Staging the changes, one after the other.
  pub stage-files :
      (cs : List TreeChange) (i j : g.Index) (s s' : State g)
      → stage g cs i s ≡ (ok j, s')
      → All laws.IsFile (touched (changes_of cs))
      → Backed i s
      → Grows g s s'
        × Backed j s'
        × Agree laws.IsFile (index_files j s') (apply_changes (index_files i s) (changes_of cs))
  unfolding stage apply_changes touched
  stage-files [] i j s s' h files backed =
      let same : i ≡ j = ground arith in
      let at : s ≡ s' = ground arith in
      rw (← same, ← at) (Grows-refl g laws s, backed, (λ q own. refl))
  stage-files (upsert p c ∷ cs) i j s s' h files backed =
      let (written, s1) = g.blob c s in
      elim (Result-cases (lift written)) [
        | inr (e, w) ↦ absurd (ground arith)
        | inl (o, w) ↦
            let entry : IndexEntry g.Oid = record {
              mode = 33188;
              file_size = length c % 2 ^ 32;
              id = o;
              path = p;
            } in
            elim (Result-cases (lift (g.add entry i))) [
              | inr (e, a) ↦ absurd (ground arith)
              | inl (k, a) ↦
                  let (grows, back, step) =
                    add-files p c o 33188 (length c % 2 ^ 32) i k s s1
                      (ap (λ x. (x, s1)) (lift-ok written w)) (lift-ok (g.add entry i) a) files.0
                      backed in
                  let (more, back', rest) = stage-files cs k j s1 s' (ground arith) files.1 back in
                  (
                    Grows-trans g laws s s1 s' grows more,
                    back',
                    (λ q own.
                        rest q own
                        ∙ apply_changes-Agree laws.IsFile (index_files k s1)
                            (apply_change (index_files i s) (Plan.upsert p c)) (changes_of cs)
                            files.1 step q own),
                  )
            ]
      ]
  stage-files (remove p ∷ cs) i j s s' h files backed =
      elim (Result-cases (lift (g.remove_path p i))) [
        | inr (e, a) ↦ absurd (ground arith)
        | inl (k, a) ↦
            let (back, step) =
              remove-files p i k s (lift-ok (g.remove_path p i) a) files.0 backed in
            let (more, back', rest) = stage-files cs k j s s' (ground arith) files.1 back in
            (
              more,
              back',
              (λ q own.
                  rest q own
                  ∙ apply_changes-Agree laws.IsFile (index_files k s)
                      (apply_change (index_files i s) (Plan.remove p)) (changes_of cs) files.1 step
                      q own),
            )
      ]
