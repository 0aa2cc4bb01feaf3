-- ===== src/Edit/Markers.antt =====
-- crates/turbovault-vault/src/edit.rs: what `parse_blocks` takes the three marker lines of a block for,
-- whatever their width.
use Prim.Native.Char.{Char}
use turbovault.Common.{
  ℕ, zero, suc, ◌≤◌, ◌≡◌, refl, sym, ◌∙◌, ap, Bool, true, false, none, some, List, [], ◌∷◌, ◌++◌,
  arith,
}
use turbovault.Text.{same, equal, trim, trim_start, trim_end}
use turbovault.Edit.Fence.{
  strip_suffix, strip_suffix-append, fence_width, repeat, search_suffix, replace_suffix,
  length-repeat, all_are-repeat,
}
use turbovault.Edit.Parse.{search_width, replace_width, is_divider}

abbrev pub open_line : ℕ → List Char
open_line w = repeat "<" w ++ search_suffix

abbrev pub divider_line : ℕ → List Char
divider_line w = repeat "=" w

abbrev pub close_line : ℕ → List Char
close_line w = repeat ">" w ++ replace_suffix

trim_end-snoc :
    (white : Char → Bool) (s : List Char) (e : Char)
    → white e ≡ false
    → trim_end white (s ++ (e ∷ [])) ≡ s ++ (e ∷ [])
unfolding trim_end
trim_end-snoc white [] e h = ground (arith, h)
trim_end-snoc white (c ∷ []) e h = rw h refl
trim_end-snoc white (c ∷ d ∷ s) e h = rw (trim_end-snoc white (d ∷ s) e h) refl

trim_between :
    (white : Char → Bool) (c : Char) (s : List Char) (e : Char)
    → white c ≡ false
    → white e ≡ false
    → trim white (c ∷ s ++ (e ∷ [])) ≡ c ∷ s ++ (e ∷ [])
unfolding trim trim_start
trim_between white c s e here there = rw here (trim_end-snoc white (c ∷ s) e there)

-- The characters of the markers are not white space.
pub record Visible (white : Char → Bool) : Type 0 where
  pub less : white "<" ≡ false
  pub equals : white "=" ≡ false
  pub greater : white ">" ≡ false
  pub h : white "H" ≡ false
  pub e : white "E" ≡ false

append_assoc : (a b c : List Char) → (a ++ b) ++ c ≡ a ++ (b ++ c)
append_assoc [] b c = refl
append_assoc (x ∷ a) b c = ap (◌∷◌ x) (append_assoc a b c)

fence_width-append :
    (ch : Char) (n : ℕ) (suffix : List Char)
    → 7 ≤ n
    → same ch ch ≡ true
    → fence_width (repeat ch n ++ suffix) ch suffix ≡ some n
unfolding fence_width
fence_width-append ch n suffix wide here =
    rw (strip_suffix-append (repeat ch n) suffix, fence_width, length-repeat ch n)
      (ground (arith, wide, all_are-repeat ch n here))

repeat-snoc : (ch : Char) (n : ℕ) → repeat ch n ++ (ch ∷ []) ≡ repeat ch (suc n)
repeat-snoc ch zero = refl
repeat-snoc ch (suc n) = ap (◌∷◌ ch) (repeat-snoc ch n)

pub append_nil : (s : List Char) → s ++ [] ≡ s
append_nil [] = refl
append_nil (c ∷ s) = ap (◌∷◌ c) (append_nil s)

strip_suffix-nil : (c : Char) (suffix : List Char) → strip_suffix (c ∷ suffix) [] ≡ none
unfolding strip_suffix equal
strip_suffix-nil c suffix = refl

-- a run of another character has no such suffix
strip_suffix-other :
    (ch c : Char) (n : ℕ) (s suffix : List Char)
    → same ch c ≡ false
    → strip_suffix (c ∷ suffix) s ≡ none
    → strip_suffix (c ∷ suffix) (repeat ch n ++ s) ≡ none
unfolding strip_suffix equal
strip_suffix-other ch c zero s suffix apart h = h
strip_suffix-other ch c (suc n) s suffix apart h =
    rw (apart, strip_suffix-other ch c n s suffix apart h) refl

module _ (white : Char → Bool) (visible : Visible white) where
  trim-open : (n : ℕ) → trim white (open_line (suc n)) ≡ open_line (suc n)
  trim-open n =
      let front = repeat "<" n ++ (" " ∷ "S" ∷ "E" ∷ "A" ∷ "R" ∷ "C" ∷ []) in
      let same_line : "<" ∷ front ++ ("H" ∷ []) ≡ open_line (suc n) =
        ap (◌∷◌ "<") (append_assoc (repeat "<" n) _ _) in
      sym (ap (trim white) same_line)
      ∙ trim_between white "<" front "H" visible.less visible.h
      ∙ same_line

  trim-divider : (n : ℕ) → trim white (divider_line (suc (suc n))) ≡ divider_line (suc (suc n))
  trim-divider n =
      let same_line : "=" ∷ repeat "=" n ++ ("=" ∷ []) ≡ divider_line (suc (suc n)) =
        ap (◌∷◌ "=") (repeat-snoc "=" n) in
      sym (ap (trim white) same_line)
      ∙ trim_between white "=" (repeat "=" n) "=" visible.equals visible.equals
      ∙ same_line

  trim-close : (n : ℕ) → trim white (close_line (suc n)) ≡ close_line (suc n)
  trim-close n =
      let front = repeat ">" n ++ (" " ∷ "R" ∷ "E" ∷ "P" ∷ "L" ∷ "A" ∷ "C" ∷ []) in
      let same_line : ">" ∷ front ++ ("E" ∷ []) ≡ close_line (suc n) =
        ap (◌∷◌ ">") (append_assoc (repeat ">" n) _ _) in
      sym (ap (trim white) same_line)
      ∙ trim_between white ">" front "E" visible.greater visible.e
      ∙ same_line

  pub search_width-open : (n : ℕ) → 7 ≤ n → search_width white (open_line n) ≡ some n
  unfolding search_width
  search_width-open zero wide = absurd (omega arith)
  search_width-open (suc n) wide =
      rw (trim-open n) (fence_width-append "<" (suc n) search_suffix wide refl)

  pub replace_width-close : (n : ℕ) → 7 ≤ n → replace_width white (close_line n) ≡ some n
  unfolding replace_width
  replace_width-close zero wide = absurd (omega arith)
  replace_width-close (suc n) wide =
      rw (trim-close n) (fence_width-append ">" (suc n) replace_suffix wide refl)

  pub is_divider-divider : (n : ℕ) → 7 ≤ n → is_divider white n (divider_line n) ≡ true
  unfolding is_divider
  is_divider-divider zero wide = absurd (omega arith)
  is_divider-divider (suc zero) wide = absurd (omega arith)
  is_divider-divider (suc (suc n)) wide =
      let width : fence_width (divider_line (suc (suc n))) "=" [] ≡ some (suc (suc n)) =
        sym (ap (λ (s : List Char). fence_width s "=" []) (append_nil (divider_line (suc (suc n)))))
        ∙ fence_width-append "=" (suc (suc n)) [] wide refl in
      rw (trim-divider n, width) (ground arith)

  pub search_width-close : (n : ℕ) → 7 ≤ n → search_width white (close_line n) ≡ none
  unfolding search_width fence_width
  search_width-close zero wide = absurd (omega arith)
  search_width-close (suc n) wide =
      rw
        (
          trim-close n,
          fence_width,
          strip_suffix-other ">" " " (suc n) replace_suffix ("S" ∷ "E" ∷ "A" ∷ "R" ∷ "C" ∷ "H" ∷ [])
              refl refl,
        )
        refl

  other_run :
      (c : Char) (n : ℕ) (suffix : List Char)
      → same "=" c ≡ false
      → strip_suffix (c ∷ suffix) (divider_line n) ≡ none
  other_run c n suffix apart =
      sym (ap (strip_suffix (c ∷ suffix)) (append_nil (divider_line n)))
      ∙ strip_suffix-other "=" c n [] suffix apart (strip_suffix-nil c suffix)

  pub search_width-divider : (n : ℕ) → 7 ≤ n → search_width white (divider_line n) ≡ none
  unfolding search_width fence_width
  search_width-divider zero wide = absurd (omega arith)
  search_width-divider (suc zero) wide = absurd (omega arith)
  search_width-divider (suc (suc n)) wide =
      rw
        (
          trim-divider n,
          fence_width,
          other_run " " (suc (suc n)) ("S" ∷ "E" ∷ "A" ∷ "R" ∷ "C" ∷ "H" ∷ []) refl,
        )
        refl

  pub replace_width-divider : (n : ℕ) → 7 ≤ n → replace_width white (divider_line n) ≡ none
  unfolding replace_width fence_width
  replace_width-divider zero wide = absurd (omega arith)
  replace_width-divider (suc zero) wide = absurd (omega arith)
  replace_width-divider (suc (suc n)) wide =
      rw
        (
          trim-divider n,
          fence_width,
          other_run " " (suc (suc n)) ("R" ∷ "E" ∷ "P" ∷ "L" ∷ "A" ∷ "C" ∷ "E" ∷ []) refl,
        )
        refl
