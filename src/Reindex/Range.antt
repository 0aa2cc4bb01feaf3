-- ===== src/Reindex/Range.antt =====
-- crates/turbovault-git/src/repo.rs, `VaultRepo::first_parent_range`: the walk ends, and what it finds.
use turbovault.Common.{
  ℕ, zero, suc, ◌<◌, ◌≡◌, refl, ◌∙◌, ap, subst, true, false, Option, none, some, List, [], ◌∷◌,
  arith, inl, inr, Bool-cases, eqb→eq, All,
}
use turbovault.Core.Error.{Fallible, ok, err, Result-cases}
use turbovault.Reindex.{Sources, is_commit, range_loop, first_parent_range}

module _ {E C : Type 0} (from : Sources E C) where
  -- Each commit's first parent is the one before it, and that of the first is the given one.
  abbrev pub IsChain : Option ℕ → List ℕ → Type 0
  IsChain parent [] = Unit {0}
  IsChain parent (c ∷ cs) = (from.first_parent c ≡ ok parent) × IsChain (some c) cs

  -- the last commit of a chain, or what stands before it
  abbrev pub end_of : Option ℕ → List ℕ → Option ℕ
  end_of parent [] = parent
  end_of parent (c ∷ cs) = end_of (some c) cs

  abbrev pub Avoids : Option ℕ → List ℕ → Type 0
  Avoids stop cs = All (λ c. is_commit c stop ≡ false) cs

  -- A range leads from the stop to the tip along first parents and does not pass the stop. Without a
  -- range, the chain of the tip goes to a root and does not meet the stop.
  abbrev pub Answers : Option ℕ → ℕ → Fallible E (Option (List ℕ)) → Type 0
  Answers stop tip (err e) = Unit {0}
  Answers stop tip (ok (some range)) =
      IsChain stop range × (end_of stop range ≡ some tip) × Avoids stop range
  Answers stop tip (ok none) =
      (chain : List ℕ) × IsChain none chain × (end_of none chain ≡ some tip) × Avoids stop chain

  abbrev pub Ended : Option ℕ → ℕ → Option (Fallible E (Option (List ℕ))) → Type 0
  Ended stop tip result =
      (r : Fallible E (Option (List ℕ))) × (result ≡ some r) × Answers stop tip r

  stop_of : (c : ℕ) (stop : Option ℕ) → is_commit c stop ≡ true → some c ≡ stop
  stop_of c none h = absurd (ground arith)
  stop_of c (some s) h = ap (λ (n : ℕ). some n) (eqb→eq c s h)

  module _ (height : ℕ → ℕ)
      (older : (c p : ℕ) → from.first_parent c ≡ ok (some p) → height p < height c) where
    range_loop-Ended :
        (fuel : ℕ) (stop cur : Option ℕ) (tip : ℕ) (chain : List ℕ)
        → ((c : ℕ) → cur ≡ some c → height c < fuel)
        → IsChain cur chain
        → end_of cur chain ≡ some tip
        → Avoids stop chain
        → Ended stop tip (range_loop from fuel stop cur chain)
    unfolding range_loop
    range_loop-Ended fuel none none tip chain enough linked ends avoids =
        (ok (some chain), refl, (linked, ends, avoids))
    range_loop-Ended fuel (some s) none tip chain enough linked ends avoids =
        (ok none, refl, (chain, linked, ends, avoids))
    range_loop-Ended zero stop (some c) tip chain enough linked ends avoids =
        absurd (omega (arith, enough c refl))
    range_loop-Ended (suc fuel) stop (some c) tip chain enough linked ends avoids =
        elim (Bool-cases (is_commit c stop)) [
          | inl e ↦
              let at : some c ≡ stop = stop_of c stop e in
              rw (e, range_loop)
                (
                  ok (some chain),
                  refl,
                  (
                    subst (λ s. IsChain s chain) at linked,
                    subst (λ s. end_of s chain ≡ some tip) at ends,
                    avoids,
                  ),
                )
          | inr e ↦ elim (Result-cases (from.first_parent c)) [
            | inr (error, f) ↦ rw (e, f, range_loop) (err error, refl, tt)
            | inl (parent, f) ↦
                rw (e, f, range_loop)
                  (range_loop-Ended fuel stop parent tip (c ∷ chain)
                    (λ p g.
                      omega (arith, enough c refl, older c p (f ∙ ap (λ (x : Option ℕ). ok x) g)))
                    (f, linked) ends (e, avoids))
          ]
        ]

    -- Where a commit's first parent is always below it, the walk ends within one turn for each level
    -- above the tip's root. A range it gives starts after the stop, or at a root if there is none, each
    -- commit being the next one's first parent, up to the tip, without the stop; where it gives none,
    -- the stop is not on the tip's chain of first parents.
    pub first_parent_range-Answers :
        (fuel : ℕ) (stop : Option ℕ) (tip : ℕ)
        → height tip < fuel
        → Ended stop tip (first_parent_range from fuel stop tip)
    unfolding first_parent_range
    first_parent_range-Answers fuel stop tip enough =
        range_loop-Ended fuel stop (some tip) tip [] (λ c e. ground (arith, enough, e)) tt refl tt
