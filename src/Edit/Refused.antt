-- ===== src/Edit/Refused.antt =====
-- crates/turbovault-vault/src/edit.rs, `parse_blocks`: blocks that are refused.
use Prim.Native.Char.{Char}
use turbovault.Common.{
  ℕ, ◌≤◌, ◌≡◌, ◌∙◌, ap, Bool, true, false, List, [], ◌∷◌, ◌++◌, eqb, if◌then◌else◌, arith, All,
}
use turbovault.Core.Error.{Fallible, err, ◌>>=◌}
use turbovault.Edit.Parse.{
  SearchReplaceBlock, Reason, missing_divider, ambiguous_divider, Progress, divider_count,
  close_block, parse_line, parse_lines,
}
use turbovault.Edit.Markers.{
  open_line, close_line, Visible, search_width-close, replace_width-close,
}
use turbovault.Edit.Body.{Written, Quiet, inside, body_lines, outside-open}

module _ (white : Char → Bool) (visible : Visible white) where
  close_refused :
      (w : ℕ) (ls : List (List Char)) (done : List SearchReplaceBlock)
      → 7 ≤ w
      → eqb (divider_count white w ls) 1 ≡ false
      → parse_line white (close_line w) (inside white w ls done)
        ≡ err (if eqb (divider_count white w ls) 0 then missing_divider else ambiguous_divider)
  unfolding parse_line close_block
  close_refused w ls done wide odd =
      let equal_widths : eqb w w ≡ true = ground arith in
      rw
        (
          search_width-close white visible w wide,
          replace_width-close white visible w wide,
          equal_widths,
        )
        (ground (arith, odd))

  opened :
      (w : ℕ) (ls rest : List (List Char)) (p : Progress)
      → 7 ≤ w
      → p.in_block ≡ false
      → All (Quiet white w) ls
      → parse_lines white (open_line w ∷ ls ++ rest) p
        ≡ parse_lines white rest (inside white w ls p.blocks)
  unfolding parse_lines
  opened w ls rest p wide out quiet =
      let b : Written = record { width = w; searched = []; replaced = [] } in
      ap (λ (r : Fallible Reason Progress). r >>= parse_lines white (ls ++ rest))
        (outside-open white b p visible wide out)
      ∙ body_lines white w ls rest [] p.blocks quiet

  -- Wherever it stands between blocks: a block whose lines have no divider of its width is refused as
  -- missing it, and one whose lines have several is refused as ambiguous; it is never split in a guess.
  pub parse_lines-divider_count :
      (w : ℕ) (ls rest : List (List Char)) (p : Progress)
      → 7 ≤ w
      → p.in_block ≡ false
      → All (Quiet white w) ls
      → eqb (divider_count white w ls) 1 ≡ false
      → parse_lines white (open_line w ∷ ls ++ (close_line w ∷ rest)) p
        ≡ err (if eqb (divider_count white w ls) 0 then missing_divider else ambiguous_divider)
  unfolding parse_lines
  parse_lines-divider_count w ls rest p wide out quiet odd =
      opened w ls (close_line w ∷ rest) p wide out quiet
      ∙ ap (λ (r : Fallible Reason Progress). r >>= parse_lines white rest)
          (close_refused w ls p.blocks wide odd)
