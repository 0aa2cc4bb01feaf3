-- ===== src/Edit/Body.antt =====
-- crates/turbovault-vault/src/edit.rs, `parse_blocks`: the lines of well-formed blocks are read back as the
-- blocks they were written from.
use Prim.Native.Char.{Char}
use turbovault.Common.{
  ℕ, ◌≤◌, ◌≡◌, refl, sym, ◌∙◌, ap, Bool, true, false, List, [], ◌∷◌, ◌++◌, eqb, if◌then◌else◌,
  arith, All,
}
use turbovault.Core.Error.{Fallible, ok, err, ◌>>=◌}
use turbovault.Text.{chars, join}
use turbovault.Edit.Parse.{
  SearchReplaceBlock, Reason, no_blocks, incomplete, Progress, is_width, search_width,
  replace_width, is_divider, divider_count, before_divider, after_divider, close_block, parse_line,
  parse_lines, finish,
}
use turbovault.Edit.Markers.{
  open_line, divider_line, close_line, Visible, search_width-open, replace_width-close,
  is_divider-divider, search_width-close, search_width-divider, replace_width-divider,
}

-- A block as it is written: the width of its fence, and the lines of its two halves.
pub record Written : Type 0 where
  pub width : ℕ
  pub searched : List (List Char)
  pub replaced : List (List Char)

abbrev pub render : Written → List (List Char)
render b =
    open_line b.width ∷ b.searched
    ++ (divider_line b.width ∷ b.replaced ++ (close_line b.width ∷ []))

abbrev pub render_all : List Written → List (List Char)
render_all [] = []
render_all (b ∷ bs) = render b ++ render_all bs

abbrev pub block_of : Written → SearchReplaceBlock
unfolding join chars
block_of b = record {
  search = join (chars "\n") b.searched;
  replace = join (chars "\n") b.replaced;
}

abbrev pub blocks_of : List Written → List SearchReplaceBlock
unfolding block_of
blocks_of [] = []
blocks_of (b ∷ bs) = block_of b ∷ blocks_of bs

abbrev collected : List SearchReplaceBlock → Fallible Reason (List SearchReplaceBlock)
collected [] = err no_blocks
collected (b ∷ bs) = ok (b ∷ bs)

lines_assoc : {A : Type 0} (a b c : List A) → (a ++ b) ++ c ≡ a ++ (b ++ c)
lines_assoc [] b c = refl
lines_assoc (x ∷ a) b c = ap (◌∷◌ x) (lines_assoc a b c)

pub no_more : {A : Type 0} (a : List A) → a ++ [] ≡ a
no_more [] = refl
no_more (x ∷ a) = ap (◌∷◌ x) (no_more a)

eqb_refl : (n : ℕ) → eqb n n ≡ true
eqb_refl n = ground arith

module _ (white : Char → Bool) where
  -- a line that is no marker of this width
  pub record Plain (w : ℕ) (line : List Char) : Type 0 where
    pub no_search : is_width w (search_width white line) ≡ false
    pub no_replace : is_width w (replace_width white line) ≡ false
    pub no_divider : is_divider white w line ≡ false

  -- The fence is wide enough, and no line of the two halves is a marker of its width.
  pub record IsWritten (b : Written) : Type 0 where
    pub wide : 7 ≤ b.width
    pub searched : All (Plain b.width) b.searched
    pub replaced : All (Plain b.width) b.replaced

  abbrev pub inside : ℕ → List (List Char) → List SearchReplaceBlock → Progress
  inside w buffer done = record { in_block = true; width = w; buffer = buffer; blocks = done }

  body_line :
      (w : ℕ) (line : List Char) (buffer : List (List Char)) (done : List SearchReplaceBlock)
      → is_width w (search_width white line) ≡ false
      → is_width w (replace_width white line) ≡ false
      → parse_line white line (inside w buffer done) ≡ ok (inside w (buffer ++ (line ∷ [])) done)
  unfolding parse_line
  body_line w line buffer done no_search no_replace = rw (no_search, no_replace) refl

  -- a line that neither opens nor closes a block of this width
  abbrev pub Quiet : ℕ → List Char → Type 0
  Quiet w line =
      (is_width w (search_width white line) ≡ false)
      × (is_width w (replace_width white line) ≡ false)

  Quiet-all : (w : ℕ) (ls : List (List Char)) → All (Plain w) ls → All (Quiet w) ls
  Quiet-all w [] plain = tt
  Quiet-all w (l ∷ ls) plain = ((plain.0.no_search, plain.0.no_replace), Quiet-all w ls plain.1)

  pub body_lines :
      (w : ℕ) (ls rest buffer : List (List Char)) (done : List SearchReplaceBlock)
      → All (Quiet w) ls
      → parse_lines white (ls ++ rest) (inside w buffer done)
        ≡ parse_lines white rest (inside w (buffer ++ ls) done)
  unfolding parse_lines
  body_lines w [] rest buffer done plain =
      ap (λ (b : List (List Char)). parse_lines white rest (inside w b done)) (sym (no_more buffer))
  body_lines w (l ∷ ls) rest buffer done plain =
      ap (λ (r : Fallible Reason Progress). r >>= parse_lines white (ls ++ rest))
        (body_line w l buffer done plain.0.0 plain.0.1)
      ∙ body_lines w ls rest (buffer ++ (l ∷ [])) done plain.1
      ∙ ap (λ (b : List (List Char)). parse_lines white rest (inside w b done))
          (lines_assoc buffer (l ∷ []) ls)

  count_plain : (w : ℕ) (ls : List (List Char)) → All (Plain w) ls → divider_count white w ls ≡ 0
  unfolding divider_count
  count_plain w [] plain = refl
  count_plain w (l ∷ ls) plain = rw plain.0.no_divider (count_plain w ls plain.1)

  -- one divider between two plain halves
  count_halves :
      (w : ℕ) (ls : List (List Char)) (d : List Char) (rs : List (List Char))
      → is_divider white w d ≡ true
      → All (Plain w) ls
      → All (Plain w) rs
      → divider_count white w (ls ++ (d ∷ rs)) ≡ 1
  unfolding divider_count
  count_halves w [] d rs h before after = rw (h, count_plain w rs after) refl
  count_halves w (l ∷ ls) d rs h before after =
      rw before.0.no_divider (count_halves w ls d rs h before.1 after)

  before_halves :
      (w : ℕ) (ls : List (List Char)) (d : List Char) (rs : List (List Char))
      → is_divider white w d ≡ true
      → All (Plain w) ls
      → before_divider white w (ls ++ (d ∷ rs)) ≡ ls
  unfolding before_divider
  before_halves w [] d rs h before = rw h refl
  before_halves w (l ∷ ls) d rs h before =
      rw (before.0.no_divider, before_halves w ls d rs h before.1) refl

  after_halves :
      (w : ℕ) (ls : List (List Char)) (d : List Char) (rs : List (List Char))
      → is_divider white w d ≡ true
      → All (Plain w) ls
      → after_divider white w (ls ++ (d ∷ rs)) ≡ rs
  unfolding after_divider
  after_halves w [] d rs h before = rw h refl
  after_halves w (l ∷ ls) d rs h before =
      rw (before.0.no_divider, after_halves w ls d rs h before.1) refl

  closes :
      (b : Written) (done : List SearchReplaceBlock)
      → Visible white
      → IsWritten b
      → parse_line white
          (close_line b.width)
          (inside b.width (b.searched ++ (divider_line b.width ∷ b.replaced)) done)
        ≡ ok (record {
          in_block = false;
          width = b.width;
          buffer = [];
          blocks = done ++ (block_of b ∷ []);
        })
  unfolding parse_line close_block block_of
  closes b done visible fine =
      let divides = is_divider-divider white visible b.width fine.wide in
      rw
        (
          search_width-close white visible b.width fine.wide,
          replace_width-close white visible b.width fine.wide,
          eqb_refl b.width,
          count_halves b.width b.searched (divider_line b.width) b.replaced divides fine.searched
              fine.replaced,
          before_halves b.width b.searched (divider_line b.width) b.replaced divides fine.searched,
          after_halves b.width b.searched (divider_line b.width) b.replaced divides fine.searched,
        )
        refl

  pub outside-open :
      (b : Written) (p : Progress)
      → Visible white
      → 7 ≤ b.width
      → p.in_block ≡ false
      → parse_line white (open_line b.width) p ≡ ok (inside b.width [] p.blocks)
  unfolding parse_line
  outside-open b p visible wide out = rw (out, search_width-open white visible b.width wide) refl

  abbrev closed : Written → List SearchReplaceBlock → Progress
  unfolding block_of
  closed b done = record {
    in_block = false;
    width = b.width;
    buffer = [];
    blocks = done ++ (block_of b ∷ []);
  }

  render-closed :
      (b : Written) (rest : List (List Char)) (p : Progress)
      → Visible white
      → IsWritten b
      → p.in_block ≡ false
      → parse_lines white (render b ++ rest) p ≡ parse_lines white rest (closed b p.blocks)
  unfolding parse_lines closed
  render-closed b rest p visible fine out =
      let w = b.width in
      let tail = divider_line w ∷ b.replaced ++ (close_line w ∷ []) in
      let after = b.replaced ++ (close_line w ∷ []) in
      let same_rest = lines_assoc b.searched tail rest in
      let same_after = lines_assoc b.replaced (close_line w ∷ []) rest in
      ap (λ (r : Fallible Reason Progress). r >>= parse_lines white ((b.searched ++ tail) ++ rest))
        (outside-open b p visible fine.wide out)
      ∙ ap (λ (ls : List (List Char)). parse_lines white ls (inside w [] p.blocks)) same_rest
      ∙ body_lines w b.searched (tail ++ rest) [] p.blocks (Quiet-all w b.searched fine.searched)
      ∙ ap (λ (r : Fallible Reason Progress). r >>= parse_lines white (after ++ rest))
          (body_line w (divider_line w) b.searched p.blocks
            (rw (search_width-divider white visible w fine.wide) refl)
            (rw (replace_width-divider white visible w fine.wide) refl))
      ∙ ap
          (λ (ls : List (List Char)).
            parse_lines white ls (inside w (b.searched ++ (divider_line w ∷ [])) p.blocks))
          same_after
      ∙ body_lines w b.replaced (close_line w ∷ rest) (b.searched ++ (divider_line w ∷ [])) p.blocks
          (Quiet-all w b.replaced fine.replaced)
      ∙ ap
          (λ (ls : List (List Char)).
            parse_lines white (close_line w ∷ rest) (inside w ls p.blocks))
          (lines_assoc b.searched (divider_line w ∷ []) b.replaced)
      ∙ ap (λ (r : Fallible Reason Progress). r >>= parse_lines white rest)
          (closes b p.blocks visible fine)

  finish_outside : (p : Progress) → p.in_block ≡ false → finish p ≡ collected p.blocks
  finish_outside p out =
      elim p.blocks
        as (λ bs.
          (if p.in_block
            then err incomplete
            else elim bs [ [] ↦ err no_blocks | b ∷ more ↦ ok (b ∷ more) ])
          ≡ collected bs) [ [] ↦ rw out refl | b ∷ bs ↦ rw out refl ]

  pub render_all-collected :
      (bs : List Written) (p : Progress)
      → Visible white
      → All IsWritten bs
      → p.in_block ≡ false
      → (parse_lines white (render_all bs) p >>= finish) ≡ collected (p.blocks ++ blocks_of bs)
  unfolding parse_lines blocks_of closed
  render_all-collected [] p visible fine out =
      finish_outside p out ∙ ap collected (sym (no_more p.blocks))
  render_all-collected (b ∷ bs) p visible fine out =
      ap (λ (r : Fallible Reason Progress). r >>= finish)
        (render-closed b (render_all bs) p visible fine.0 out)
      ∙ render_all-collected bs (closed b p.blocks) visible fine.1 refl
      ∙ ap collected (lines_assoc p.blocks (block_of b ∷ []) (blocks_of bs))
