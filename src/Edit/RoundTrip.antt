-- ===== src/Edit/RoundTrip.antt =====
-- crates/turbovault-vault/src/edit.rs: a text of SEARCH/REPLACE blocks is parsed to the blocks it was written
-- from.
use Prim.Native.Char.{Char}
use turbovault.Common.{
  ℕ, zero, suc, ◌≡◌, refl, ◌∙◌, ap, subst, Bool, true, false, List, [], ◌∷◌, ◌++◌, if◌then◌else◌,
  arith, inl, inr, Bool-cases, All, All-append,
}
use turbovault.Core.Error.{ok, ◌>>=◌}
use turbovault.Text.{chars, join, same, split}
use turbovault.Edit.Fence.{
  is_newline, without_return, as_lines, lines, repeat, search_suffix, replace_suffix,
}
use turbovault.Edit.Parse.{start, finish, parse_lines, parse_blocks}
use turbovault.Edit.Markers.{open_line, divider_line, close_line, Visible, append_nil}
use turbovault.Edit.Body.{
  Written, no_more, render, render_all, blocks_of, IsWritten, render_all-collected,
}

abbrev one_line : List Char → Bool
one_line [] = true
one_line (c ∷ s) = if is_newline c then false else one_line s

-- A line without a newline and without a carriage return at its end.
pub record IsLine (s : List Char) : Type 0 where
  pub one : one_line s ≡ true
  pub no_return : without_return s ≡ s

split-front :
    (s t : List Char)
    → one_line s ≡ true
    → split is_newline (s ++ ("\n" ∷ t)) ≡ s ∷ split is_newline t
unfolding split
split-front [] t h = refl
split-front (c ∷ s) t h = elim (Bool-cases (is_newline c)) [
  | inl e ↦ absurd (ground (arith, h, e))
  | inr e ↦ rw (e, split-front s t (ground (arith, h, e))) refl
]

split-one : (s : List Char) → one_line s ≡ true → split is_newline s ≡ s ∷ []
unfolding split
split-one [] h = refl
split-one (c ∷ s) h = elim (Bool-cases (is_newline c)) [
  | inl e ↦ absurd (ground (arith, h, e))
  | inr e ↦ rw (e, split-one s (ground (arith, h, e))) refl
]

abbrev joined : List (List Char) → List Char
joined [] = []
joined (l ∷ []) = l
joined (l ∷ m ∷ ls) = l ++ ("\n" ∷ joined (m ∷ ls))

joined-join : (ls : List (List Char)) → join (chars "\n") ls ≡ joined ls
unfolding join chars
joined-join [] = refl
joined-join (l ∷ []) = refl
joined-join (l ∷ m ∷ ls) = ap (λ (s : List Char). l ++ ("\n" ∷ s)) (joined-join (m ∷ ls))

-- The last line of a text is not empty.
abbrev ends : List (List Char) → Bool
ends [] = false
ends ([] ∷ []) = false
ends ((c ∷ s) ∷ []) = true
ends (l ∷ m ∷ ls) = ends (m ∷ ls)

split-joined :
    (l : List Char) (ls : List (List Char))
    → All IsLine (l ∷ ls)
    → split is_newline (joined (l ∷ ls)) ≡ l ∷ ls
split-joined l [] fine = split-one l fine.0.one
split-joined l (m ∷ ls) fine =
    split-front l (joined (m ∷ ls)) fine.0.one ∙ ap (◌∷◌ l) (split-joined m ls fine.1)

as_lines_self : (ls : List (List Char)) → All IsLine ls → ends ls ≡ true → as_lines ls ≡ ls
unfolding as_lines
as_lines_self [] fine h = refl
as_lines_self ([] ∷ []) fine h = absurd (ground arith)
as_lines_self ((c ∷ s) ∷ []) fine h = refl
as_lines_self (l ∷ m ∷ ls) fine h =
    rw (fine.0.no_return) (ap (◌∷◌ l) (as_lines_self (m ∷ ls) fine.1 h))

-- the lines of joined lines
pub lines-joined :
    (ls : List (List Char)) → All IsLine ls → ends ls ≡ true → lines (join (chars "\n") ls) ≡ ls
unfolding lines
lines-joined [] fine h = absurd (ground arith)
lines-joined (l ∷ ls) fine h =
    ap lines (joined-join (l ∷ ls))
    ∙ ap as_lines (split-joined l ls fine)
    ∙ as_lines_self (l ∷ ls) fine h

without_return-snoc :
    (s : List Char) (e : Char)
    → same e "\r" ≡ false
    → without_return (s ++ (e ∷ [])) ≡ s ++ (e ∷ [])
unfolding without_return
without_return-snoc [] e h = rw h refl
without_return-snoc (c ∷ []) e h = rw h refl
without_return-snoc (c ∷ d ∷ s) e h = ap (◌∷◌ c) (without_return-snoc (d ∷ s) e h)

one_line-repeat :
    (ch : Char) (n : ℕ) (s : List Char)
    → is_newline ch ≡ false
    → one_line s ≡ true
    → one_line (repeat ch n ++ s) ≡ true
one_line-repeat ch zero s h t = t
one_line-repeat ch (suc n) s h t = rw h (one_line-repeat ch n s h t)

repeat_return :
    (ch : Char) (n : ℕ) (s : List Char)
    → same ch "\r" ≡ false
    → without_return s ≡ s
    → without_return (repeat ch n ++ s) ≡ repeat ch n ++ s
unfolding without_return
repeat_return ch zero s h t = t
repeat_return ch (suc zero) [] h t = rw h refl
repeat_return ch (suc zero) (c ∷ s) h t = ap (◌∷◌ ch) t
repeat_return ch (suc (suc n)) s h t = ap (◌∷◌ ch) (repeat_return ch (suc n) s h t)

open-IsLine : (w : ℕ) → IsLine (open_line w)
unfolding without_return
open-IsLine w = record {
  one = one_line-repeat "<" w search_suffix refl refl;
  no_return = repeat_return "<" w search_suffix refl refl;
}

close-IsLine : (w : ℕ) → IsLine (close_line w)
unfolding without_return
close-IsLine w = record {
  one = one_line-repeat ">" w replace_suffix refl refl;
  no_return = repeat_return ">" w replace_suffix refl refl;
}

divider-IsLine : (w : ℕ) → IsLine (divider_line w)
unfolding without_return
divider-IsLine w = subst IsLine (append_nil (divider_line w)) (record {
  one = one_line-repeat "=" w [] refl refl;
  no_return = repeat_return "=" w [] refl refl;
})

-- The lines of both halves are lines.
abbrev pub HasLines : Written → Type 0
HasLines b = All IsLine b.searched × All IsLine b.replaced

render-IsLine : (b : Written) → HasLines b → All IsLine (render b)
render-IsLine b (searched, replaced) = (
  open-IsLine b.width,
  All-append IsLine b.searched _ searched
      (divider-IsLine b.width, All-append IsLine b.replaced _ replaced (close-IsLine b.width, tt)),
)

render_all-IsLine : (bs : List Written) → All HasLines bs → All IsLine (render_all bs)
render_all-IsLine [] fine = tt
render_all-IsLine (b ∷ bs) fine =
    All-append IsLine (render b) (render_all bs) (render-IsLine b fine.0)
      (render_all-IsLine bs fine.1)

ends-cons : (l : List Char) (ls : List (List Char)) → ends ls ≡ true → ends (l ∷ ls) ≡ true
ends-cons l [] h = absurd (ground arith)
ends-cons l (m ∷ ls) h = h

ends-append : (front back : List (List Char)) → ends back ≡ true → ends (front ++ back) ≡ true
ends-append [] back h = h
ends-append (l ∷ front) back h = ends-cons l (front ++ back) (ends-append front back h)

ends-close : (w : ℕ) → ends (close_line w ∷ []) ≡ true
ends-close zero = refl
ends-close (suc w) = refl

ends-render : (b : Written) → ends (render b) ≡ true
ends-render b =
    let w = b.width in
    let after = ends-append (divider_line w ∷ b.replaced) (close_line w ∷ []) (ends-close w) in
    ends-append (open_line w ∷ b.searched) (divider_line w ∷ b.replaced ++ (close_line w ∷ []))
      after

ends-render_all : (b : Written) (bs : List Written) → ends (render_all (b ∷ bs)) ≡ true
ends-render_all b [] = ap ends (no_more (render b)) ∙ ends-render b
ends-render_all b (c ∷ bs) = ends-append (render b) (render_all (c ∷ bs)) (ends-render_all c bs)

-- Where the characters of the markers are not white space: a text of one or more blocks, each with a
-- fence at least 7 wide of which no line of its halves is a marker, is parsed to these blocks, the
-- lines of each half joined. Lines have no newline, and no carriage return at their end.
pub parse_blocks-render :
    (white : Char → Bool) (b : Written) (bs : List Written)
    → Visible white
    → All (IsWritten white) (b ∷ bs)
    → All HasLines (b ∷ bs)
    → parse_blocks white (join (chars "\n") (render_all (b ∷ bs))) ≡ ok (blocks_of (b ∷ bs))
unfolding parse_blocks
parse_blocks-render white b bs visible fine text =
    ap (λ (ls : List (List Char)). parse_lines white ls start >>= finish)
      (lines-joined (render_all (b ∷ bs)) (render_all-IsLine (b ∷ bs) text) (ends-render_all b bs))
    ∙ render_all-collected white (b ∷ bs) start visible fine refl
