-- ===== src/Edit/Parse.antt =====
-- crates/turbovault-vault/src/edit.rs, `EditEngine::parse_blocks`: a pass over the lines that collects the
-- body of each block.
use Prim.Native.Char.{Char}
use turbovault.Common.{
  ℕ, suc, Bool, true, false, Option, none, some, List, [], ◌∷◌, ◌++◌, not, eqb, ltb, if◌then◌else◌,
}
use turbovault.Core.Error.{Fallible, ok, err, ◌>>=◌}
use turbovault.Text.{chars, is_some, trim, join}
use turbovault.Edit.Fence.{fence_width, lines, search_suffix, replace_suffix}

pub record SearchReplaceBlock : Type 0 where
  pub search : List Char
  pub replace : List Char

-- the reasons of `Error::ParseError`
pub data Reason : Type 0 where
  unexpected_replace nested_search missing_divider ambiguous_divider incomplete no_blocks : Reason

-- the variables of the loop; the blocks and the lines of a body in their order
pub record Progress : Type 0 where
  pub in_block : Bool
  pub width : ℕ
  pub buffer : List (List Char)
  pub blocks : List SearchReplaceBlock

abbrev pub is_width : ℕ → Option ℕ → Bool
is_width w none = false
is_width w (some v) = eqb v w

abbrev pub start : Progress
start = record { in_block = false; width = 0; buffer = []; blocks = [] }

abbrev pub finish : Progress → Fallible Reason (List SearchReplaceBlock)
finish p =
    if p.in_block
    then err incomplete
    else elim p.blocks [ [] ↦ err no_blocks | b ∷ bs ↦ ok (b ∷ bs) ]

module _ (white : Char → Bool) where
  unfoldable pub search_width : List Char → Option ℕ
  unfolding trim fence_width
  search_width line = fence_width (trim white line) "<" search_suffix

  unfoldable pub replace_width : List Char → Option ℕ
  unfolding trim fence_width
  replace_width line = fence_width (trim white line) ">" replace_suffix

  unfoldable pub is_divider : ℕ → List Char → Bool
  unfolding trim fence_width
  is_divider w line = is_width w (fence_width (trim white line) "=" [])

  unfoldable pub divider_count : ℕ → List (List Char) → ℕ
  unfolding is_divider
  divider_count w [] = 0
  divider_count w (l ∷ ls) =
      let rest = divider_count w ls in if is_divider w l then suc rest else rest

  -- `buffer[..divider_idx]` and `buffer[divider_idx + 1..]`
  unfoldable pub before_divider : ℕ → List (List Char) → List (List Char)
  unfolding is_divider
  before_divider w [] = []
  before_divider w (l ∷ ls) =
      let rest = before_divider w ls in if is_divider w l then [] else l ∷ rest

  unfoldable pub after_divider : ℕ → List (List Char) → List (List Char)
  unfolding is_divider
  after_divider w [] = []
  after_divider w (l ∷ ls) = let rest = after_divider w ls in if is_divider w l then ls else rest

  -- the block that a body is, at its closing line
  unfoldable pub close_block : Progress → Fallible Reason Progress
  unfolding divider_count before_divider after_divider join chars
  close_block p =
      let count = divider_count p.width p.buffer in
      if eqb count 0
      then err missing_divider
      else if ltb 1 count
      then err ambiguous_divider
      else ok (record {
        in_block = false;
        width = p.width;
        buffer = [];
        blocks =
            p.blocks
            ++ (record {
              search = join (chars "\n") (before_divider p.width p.buffer);
              replace = join (chars "\n") (after_divider p.width p.buffer);
            }
                ∷ []);
      })

  unfoldable pub parse_line : List Char → Progress → Fallible Reason Progress
  unfolding search_width replace_width close_block
  parse_line line p =
      if not p.in_block
      then elim (search_width line) [
        | some w ↦ ok (record p { in_block = true; width = w; buffer = [] })
        | none ↦ if is_some (replace_width line) then err unexpected_replace else ok p
      ]
      else if is_width p.width (search_width line)
      then err nested_search
      else if is_width p.width (replace_width line)
      then close_block p
      else ok (record p { buffer = p.buffer ++ (line ∷ []) })

  unfoldable pub parse_lines : List (List Char) → Progress → Fallible Reason Progress
  unfolding parse_line
  parse_lines [] p = ok p
  parse_lines (l ∷ ls) p = parse_line l p >>= parse_lines ls

  -- EditEngine::parse_blocks
  unfoldable pub parse_blocks : List Char → Fallible Reason (List SearchReplaceBlock)
  unfolding lines parse_lines
  parse_blocks input = parse_lines (lines input) start >>= finish
