-- ===== src/Git/Fold.antt =====
-- `resolve_tree_changes` (crates/turbovault-git/src/changeset.rs) folds a rename to a removal and
-- an upsert of the bytes in the base tree: for a plan that names no path twice, this has the effect
-- of the plan, change after change.
use turbovault.Common.{
  String, ◌≡◌, refl, ap, ◌∙◌, inl, inr, false, Option, none, some, List, [], ◌∷◌, ◌==◌, arith, All,
  contains,
}
use turbovault.Core.Error.{ok, >>=-eq-ok, Result-cases}
use turbovault.Core.Plan.{Bytes, Change, upsert, remove, rename, touched}
use turbovault.Core.Plan.Effect.{Files, apply_change, apply_changes, apply_changes-Agree}
use turbovault.Git.Error.{lift, lift-ok, optional}
use turbovault.Git.Repo.{Repo, State}
use turbovault.Git.Plumbing
use turbovault.Git.Plumbing.{TreeChange, read_blob, blob_oid_at}
use turbovault.Git.Occ.{found_at}
use turbovault.Git.Tree.{changes_of, base_files}
use turbovault.Git.Changeset.{has_duplicate, resolve_tree_changes}

abbrev pub Avoids : String → List String → Type 0
Avoids p ps = All (λ q. (p == q) ≡ false) ps

-- No text comes twice.
abbrev pub Distinct : List String → Type 0
Distinct [] = Unit
Distinct (p ∷ ps) = Avoids p ps × Distinct ps

All-map {ℓ κ μ} :
    {A : Type ℓ} {P : A → Type κ} {Q : A → Type μ} (xs : List A)
    → ((x : A) → P x → Q x)
    → All P xs
    → All Q xs
All-map [] f h = tt
All-map (x ∷ xs) f h = (f x h.0, All-map xs f h.1)

All-zip {ℓ κ μ ν} :
    {A : Type ℓ} {P : A → Type κ} {Q : A → Type μ} {R : A → Type ν} (xs : List A)
    → ((x : A) → P x → Q x → R x)
    → All P xs
    → All Q xs
    → All R xs
All-zip [] f h k = tt
All-zip (x ∷ xs) f h k = (f x h.0 k.0, All-zip xs f h.1 k.1)

All-trivial : {A : Type 0} (xs : List A) → All (λ x. Unit {0}) xs
All-trivial [] = tt
All-trivial (x ∷ xs) = (tt, All-trivial xs)

pub has_duplicate-Distinct :
    (seen ps : List String)
    → has_duplicate seen ps ≡ false
    → All (λ p. contains seen p ≡ false) ps × Distinct ps
unfolding has_duplicate
has_duplicate-Distinct seen [] h = (tt, tt)
has_duplicate-Distinct seen (p ∷ ps) h =
    let (fresh, distinct) = has_duplicate-Distinct (p ∷ seen) ps (ground arith) in
    (
      (ground arith, All-map ps (λ q e. ground arith) fresh),
      (All-map ps (λ q e. ground arith) fresh, distinct),
    )

module _ {Json : Type 0} (g : Repo Json) where
  -- What the fold of a rename reads is the file in the base.
  found_at-files :
      (base : Option g.Oid) (p : String) (o : g.Oid) (b : Bytes) (s : State g)
      → found_at g base p s ≡ ok (some o)
      → read_blob g o s ≡ ok b
      → base_files g base s p ≡ some b
  unfolding found_at blob_oid_at read_blob
  found_at-files none p o b s h r = cc
  found_at-files (some t) p o b s h r =
      let (x, e, f) = >>=-eq-ok (lift (g.find_tree t s)) (λ x. optional (g.get_path x p)) h in
      let tree = lift-ok (g.find_tree t s) e in
      let blob = lift-ok (g.find_blob o s) r in ground arith

  -- The two changes that a rename is folded to.
  rename-fold :
      (v : Files) (from to : String) (b : Bytes) (q : String)
      → v from ≡ some b
      → apply_change (apply_change v (remove from)) (upsert to b) q
        ≡ apply_change v (rename from to) q
  unfolding apply_change
  rename-fold v from to b q h = ground arith

  pub touched-resolve_tree_changes :
      (base : Option g.Oid) (cs : List Change) (out : List TreeChange) (s : State g)
      → resolve_tree_changes g base cs s ≡ ok out
      → touched (changes_of out) ≡ touched cs
  unfolding resolve_tree_changes touched
  touched-resolve_tree_changes base [] out s h = let e : out ≡ [] = ground arith in rw e refl
  touched-resolve_tree_changes base (upsert p c ∷ cs) out s h =
      elim (Result-cases (resolve_tree_changes g base cs s)) [
        | inr (e, f) ↦ absurd (ground arith)
        | inl (rest, f) ↦
            let this : out ≡ Plumbing.upsert p c ∷ rest = ground arith in
            rw this (ap (λ ps. p ∷ ps) (touched-resolve_tree_changes base cs rest s f))
      ]
  touched-resolve_tree_changes base (remove p ∷ cs) out s h =
      elim (Result-cases (resolve_tree_changes g base cs s)) [
        | inr (e, f) ↦ absurd (ground arith)
        | inl (rest, f) ↦
            let this : out ≡ Plumbing.remove p ∷ rest = ground arith in
            rw this (ap (λ ps. p ∷ ps) (touched-resolve_tree_changes base cs rest s f))
      ]
  touched-resolve_tree_changes base (rename from to ∷ cs) out s h =
      elim (Result-cases (found_at g base from s)) [
        | inr (e, f) ↦ absurd (ground arith)
        | inl (none, f) ↦ absurd (ground arith)
        | inl (some o, f) ↦ elim (Result-cases (read_blob g o s)) [
          | inr (e, r) ↦ absurd (ground arith)
          | inl (b, r) ↦ elim (Result-cases (resolve_tree_changes g base cs s)) [
            | inr (e, k) ↦ absurd (ground arith)
            | inl (rest, k) ↦
                let this : out ≡ Plumbing.remove from ∷ Plumbing.upsert to b ∷ rest =
                  ground arith in
                rw this (ap (λ ps. from ∷ to ∷ ps) (touched-resolve_tree_changes base cs rest s k))
          ]
        ]
      ]

  pub resolve_tree_changes-effect :
      (base : Option g.Oid) (cs : List Change) (out : List TreeChange) (v : Files) (s : State g)
      → resolve_tree_changes g base cs s ≡ ok out
      → Distinct (touched cs)
      → All (λ q. v q ≡ base_files g base s q) (touched cs)
      → (q : String) → apply_changes v (changes_of out) q ≡ apply_changes v cs q
  unfolding resolve_tree_changes apply_changes touched apply_change
  resolve_tree_changes-effect base [] out v s h d a q = let e : out ≡ [] = ground arith in rw e refl
  resolve_tree_changes-effect base (upsert p c ∷ cs) out v s h d a q =
      let (rest, e, f) =
        >>=-eq-ok (resolve_tree_changes g base cs s) (λ out. ok (Plumbing.upsert p c ∷ out)) h in
      let this : out ≡ Plumbing.upsert p c ∷ rest = ground arith in
      rw this (
        resolve_tree_changes-effect base cs rest (apply_change v (upsert p c)) s e d.1
          (All-zip (touched cs) (λ q ne same. ground arith) d.0 a.1) q)
  resolve_tree_changes-effect base (remove p ∷ cs) out v s h d a q =
      let (rest, e, f) =
        >>=-eq-ok (resolve_tree_changes g base cs s) (λ out. ok (Plumbing.remove p ∷ out)) h in
      let this : out ≡ Plumbing.remove p ∷ rest = ground arith in
      rw this (
        resolve_tree_changes-effect base cs rest (apply_change v (remove p)) s e d.1
          (All-zip (touched cs) (λ q ne same. ground arith) d.0 a.1) q)
  resolve_tree_changes-effect base (rename from to ∷ cs) out v s h d a q =
      elim (Result-cases (found_at g base from s)) [
        | inr (e, f) ↦ absurd (ground arith)
        | inl (none, f) ↦ absurd (ground arith)
        | inl (some o, f) ↦ elim (Result-cases (read_blob g o s)) [
          | inr (e, r) ↦ absurd (ground arith)
          | inl (b, r) ↦ elim (Result-cases (resolve_tree_changes g base cs s)) [
            | inr (e, k) ↦ absurd (ground arith)
            | inl (rest, k) ↦
                let this : out ≡ Plumbing.remove from ∷ Plumbing.upsert to b ∷ rest =
                  ground arith in
                let moved : v from ≡ some b = a.0 ∙ found_at-files base from o b s f r in
                let apart : All (λ q. ((from == q) ≡ false) × ((to == q) ≡ false)) (touched cs) =
                  All-zip (touched cs) (λ q x y. (x, y)) d.0.1 d.1.0 in
                let folded = apply_change (apply_change v (remove from)) (upsert to b) in
                rw this (
                  resolve_tree_changes-effect base cs rest folded s k d.1.1
                    (All-zip (touched cs) (λ q ne same. ground arith) apart a.1.1) q
                  ∙ apply_changes-Agree (λ q. Unit {0}) folded (apply_change v (rename from to)) cs
                      (All-trivial (touched cs)) (λ q u. rename-fold v from to b q moved) q tt)
          ]
        ]
      ]
