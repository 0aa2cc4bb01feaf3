-- ===== src/Git/Occ.antt =====
-- crates/turbovault-git/src/occ.rs: the preconditions of a plan, checked against a base tree.
use turbovault.Common.{
  String, ◌≡◌, refl, Option, none, some, List, [], ◌∷◌, if◌then◌else◌, All, ◌↔◌, arith, inl, inr,
  Bool-cases,
}
use turbovault.Core.Error.{Fallible, ok, err, ◌>>=◌, ◌>>◌, >>=-eq-ok}
use turbovault.Core.Plan.{Bytes, Precondition, expect_blob, expect_absent, expect_exists, blind}
use turbovault.Git.Error.{GitError, got, missing, broken, concurrency, lift, Git2-cases}
use turbovault.Git.Repo.{Repo, RepoLaws, State}
use turbovault.Git.Plumbing.{blob_oid_at}
use turbovault.Git.Cas.{option_eq}
use turbovault.Git.Cas.Laws.{option_eq-eq, option_eq_refl}

module _ {Json : Type 0} (g : Repo Json) where
  -- VaultRepo::blob_oid_of
  unfoldable pub blob_oid_of : Bytes → Fallible GitError g.Oid
  blob_oid_of content = lift (g.hash_object content)

  -- The `match` on one precondition; a token that is no oid is a conflict too.
  unfoldable pub check_found : Precondition → Option g.Oid → Fallible GitError (Unit {0})
  check_found (expect_blob hex) found = elim (g.from_str hex) [
    | got expected ↦ if option_eq g found (some expected) then ok tt else err concurrency
    | missing ↦ err concurrency
    | broken ↦ err concurrency
  ]
  check_found expect_absent (some oid) = err concurrency
  check_found expect_absent none = ok tt
  check_found expect_exists none = err concurrency
  check_found expect_exists (some oid) = ok tt
  check_found blind found = ok tt

  unfoldable pub found_at : Option g.Oid → String → State g → Fallible GitError (Option g.Oid)
  found_at none path s = ok none
  found_at (some tree) path s = blob_oid_at g tree path s

  -- VaultRepo::check_preconditions
  unfoldable pub check_preconditions :
      Option g.Oid → List (String × Precondition) → State g → Fallible GitError (Unit {0})
  unfolding check_found found_at
  check_preconditions base [] s = ok tt
  check_preconditions base ((path, pc) ∷ pcs) s =
      let rest = check_preconditions base pcs s in
      found_at base path s >>= λ found. check_found pc found >> rest

  -- What a precondition says of the entry that the base tree has at its path.
  abbrev pub Holds : Precondition → Option g.Oid → Type 0
  Holds (expect_blob hex) found = (oid : g.Oid) × (g.from_str hex ≡ got oid) × (found ≡ some oid)
  Holds expect_absent found = found ≡ none
  Holds expect_exists found = (oid : g.Oid) × (found ≡ some oid)
  Holds blind found = Unit {0}

  abbrev pub HoldsIn : Option g.Oid → State g → String × Precondition → Type 0
  HoldsIn base s (path, pc) =
      (found : Option g.Oid) × (found_at base path s ≡ ok found) × Holds pc found

module _ {Json : Type 0} (g : Repo Json) (laws : RepoLaws g) where
  check_found_iff :
      (pc : Precondition) (found : Option g.Oid)
      → (check_found g pc found ≡ ok tt) ↔ Holds g pc found
  unfolding check_found
  check_found_iff blind found = ((λ h. tt), (λ h. refl))
  check_found_iff expect_absent none = ((λ h. refl), (λ h. refl))
  check_found_iff expect_absent (some o) = ((λ h. cc), (λ h. cc))
  check_found_iff expect_exists none = ((λ h. cc), (λ h. cc))
  check_found_iff expect_exists (some o) = ((λ h. (o, refl)), (λ h. refl))
  check_found_iff (expect_blob hex) found = (
    (λ h. elim (Git2-cases (g.from_str hex)) [
      | inr z ↦ elim z [ inl e ↦ absurd (ground arith) | inr e ↦ absurd (ground arith) ]
      | inl (x, e) ↦ elim (Bool-cases (option_eq g found (some x))) [
        | inl f ↦ (x, e, option_eq-eq g laws found (some x) f)
        | inr f ↦ absurd (ground arith)
      ]
    ]),
    (λ (x, e, f). let same = option_eq_refl g laws found (some x) f in ground arith),
  )

  -- `check_preconditions` answers ok exactly when every precondition holds of the entry that the
  -- base tree has at its path, and every such entry can be read.
  pub check_preconditions_iff :
      (base : Option g.Oid) (pcs : List (String × Precondition)) (s : State g)
      → (check_preconditions g base pcs s ≡ ok tt) ↔ All (HoldsIn g base s) pcs
  unfolding check_preconditions
  check_preconditions_iff base [] s = ((λ h. tt), (λ h. refl))
  check_preconditions_iff base ((path, pc) ∷ pcs) s =
      let rest = check_preconditions_iff base pcs s in
      (
        (λ h.
            let (found, read, h1) =
              >>=-eq-ok (found_at g base path s)
                (λ found. check_found g pc found >> check_preconditions g base pcs s) h in
            let (u, here, later) =
              >>=-eq-ok (check_found g pc found) (λ u. check_preconditions g base pcs s) h1 in
            ((found, read, (check_found_iff pc found).0 here), rest.0 later)),
        (λ ((found, read, here), later).
            let one = (check_found_iff pc found).1 here in let all = rest.1 later in ground arith),
      )
