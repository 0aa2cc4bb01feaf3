-- ===== src/Edit/Fence.antt =====
-- crates/turbovault-vault/src/edit.rs: the marker lines of a SEARCH/REPLACE block, `fence_width`, and
-- the lines of a text.
use Prim.Native.Char.{Char}
use turbovault.Common.{
  ℕ, zero, suc, ◌≡◌, refl, ap, Bool, true, Option, none, some, List, [], ◌∷◌, ◌++◌, ◌&&◌, leb,
  length, if◌then◌else◌, arith, inl, inr, Bool-cases, length-append,
}
use turbovault.Text.{same, equal, split}

-- `line.strip_suffix(suffix)`
unfoldable pub strip_suffix : List Char → List Char → Option (List Char)
unfolding equal
strip_suffix suffix [] = if equal [] suffix then some [] else none
strip_suffix suffix (c ∷ s) =
    let rest = strip_suffix suffix s in
    if equal (c ∷ s) suffix
    then some []
    else elim rest [ some front ↦ some (c ∷ front) | none ↦ none ]

abbrev pub all_are : Char → List Char → Bool
all_are ch [] = true
all_are ch (c ∷ s) = same c ch && all_are ch s

-- `run.len()` counts bytes, which are characters where all of them are `ch`, an ASCII character
unfoldable pub fence_width : List Char → Char → List Char → Option ℕ
unfolding strip_suffix
fence_width line ch suffix = elim (strip_suffix suffix line) [
  | none ↦ none
  | some run ↦ if leb 7 (length run) && all_are ch run then some (length run) else none
]

abbrev pub is_newline : Char → Bool
is_newline c = same c "\n"

-- `strip_suffix('\r')` of a line that a newline ended
unfoldable pub without_return : List Char → List Char
without_return [] = []
without_return (c ∷ []) = if same c "\r" then [] else c ∷ []
without_return (c ∷ d ∷ s) = c ∷ without_return (d ∷ s)

-- the pieces between newlines as lines: the last is one only if it is not empty
unfoldable pub as_lines : List (List Char) → List (List Char)
unfolding without_return
as_lines [] = []
as_lines ([] ∷ []) = []
as_lines ((c ∷ s) ∷ []) = (c ∷ s) ∷ []
as_lines (p ∷ q ∷ ps) = without_return p ∷ as_lines (q ∷ ps)

-- `text.lines()`
unfoldable pub lines : List Char → List (List Char)
unfolding as_lines split
lines text = as_lines (split is_newline text)

abbrev pub repeat : Char → ℕ → List Char
repeat ch zero = []
repeat ch (suc n) = ch ∷ repeat ch n

abbrev pub search_suffix : List Char
search_suffix = " " ∷ "S" ∷ "E" ∷ "A" ∷ "R" ∷ "C" ∷ "H" ∷ []

abbrev pub replace_suffix : List Char
replace_suffix = " " ∷ "R" ∷ "E" ∷ "P" ∷ "L" ∷ "A" ∷ "C" ∷ "E" ∷ []

pub length-repeat : (ch : Char) (n : ℕ) → length (repeat ch n) ≡ n
length-repeat ch zero = refl
length-repeat ch (suc n) = ap (λ (m : ℕ). suc m) (length-repeat ch n)

pub all_are-repeat : (ch : Char) (n : ℕ) → same ch ch ≡ true → all_are ch (repeat ch n) ≡ true
all_are-repeat ch zero h = refl
all_are-repeat ch (suc n) h = ground (arith, all_are-repeat ch n h)

length-equal : (s t : List Char) → equal s t ≡ true → length s ≡ length t
unfolding equal
length-equal [] [] h = refl
length-equal (a ∷ s) (b ∷ t) h = ground (arith, length-equal s t)
length-equal [] (b ∷ t) h = absurd (ground arith)
length-equal (a ∷ s) [] h = absurd (ground arith)

same_refl : (c : Char) → same c c ≡ true
same_refl c = ground arith

equal_refl : (s : List Char) → equal s s ≡ true
unfolding equal
equal_refl [] = refl
equal_refl (c ∷ s) = ground (arith, same_refl c, equal_refl s)

strip_suffix_self : (s : List Char) → strip_suffix s s ≡ some []
unfolding strip_suffix
strip_suffix_self [] = refl
strip_suffix_self (c ∷ s) = rw (equal_refl (c ∷ s), strip_suffix) refl

-- a suffix that was put there is found
pub strip_suffix-append :
    (front suffix : List Char) → strip_suffix suffix (front ++ suffix) ≡ some front
unfolding strip_suffix
strip_suffix-append [] suffix = strip_suffix_self suffix
strip_suffix-append (c ∷ front) suffix = elim (Bool-cases (equal (c ∷ front ++ suffix) suffix)) [
  | inl e ↦
      absurd
        (omega (arith, length-equal (c ∷ front ++ suffix) suffix e, length-append front suffix))
  | inr e ↦ rw (e, strip_suffix, strip_suffix-append front suffix) refl
]
