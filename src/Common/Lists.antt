-- ===== src/Common/Lists.antt =====
-- Lists measured by native numbers, predicates over all members, and a test for a text in a list.
use Prim.Native.Nat.{ℕ, zero, suc, ◌+◌}
use Prim.Native.String.{String}
use mathlib.Core.Path.{◌≡◌}
use mathlib.Core.Bool.{Bool, false, ◌||◌}
use mathlib.Core.List.{List, [], ◌∷◌, ◌++◌}
use native.Mathlib.Omega.{arith}
use text.Mathlib.Text.{◌==◌}

module _ {ℓ} {A : Type ℓ} where
  abbrev pub length : List A → ℕ
  length [] = 0
  length (x ∷ xs) = suc (length xs)

  abbrev pub take : ℕ → List A → List A
  take zero xs = []
  take (suc n) [] = []
  take (suc n) (x ∷ xs) = x ∷ take n xs

  abbrev pub drop : ℕ → List A → List A
  drop zero xs = xs
  drop (suc n) [] = []
  drop (suc n) (x ∷ xs) = drop n xs

  pub length-append : (xs ys : List A) → length (xs ++ ys) ≡ length xs + length ys
  length-append [] ys = omega arith
  length-append (x ∷ xs) ys = omega (arith, length-append xs ys)

-- Every member satisfies the predicate.
abbrev pub All {u w} : {A : Type u} → (A → Type w) → List A → Type w
All Holds (first ∷ rest) = Holds first × All Holds rest
All Holds [] = Unit

pub All-split {u w} :
    {A : Type u} (Holds : A → Type w) (front back : List A)
    → All Holds (front ++ back)
    → All Holds front × All Holds back
All-split Holds [] back every = (tt, every)
All-split Holds (first ∷ rest) back every =
    let (later, last) = All-split Holds rest back every.1 in ((every.0, later), last)

pub All-append {u w} :
    {A : Type u} (Holds : A → Type w) (front back : List A)
    → All Holds front
    → All Holds back
    → All Holds (front ++ back)
All-append Holds [] back none_left last = last
All-append Holds (first ∷ rest) back (here, later) last =
    (here, All-append Holds rest back later last)

-- `slice.contains(&s)`.
abbrev pub contains : List String → String → Bool
contains [] s = false
contains (x ∷ xs) s = x == s || contains xs s
