-- ===== src/Tests/Edit.antt =====
-- Concrete inputs for the theorems on crates/turbovault-vault/src/edit.rs, and runs of its definitions.
use Prim.Native.Char.{Char}
use turbovault.Common.{
  ◌≤◌, ◌≡◌, refl, Bool, true, false, none, List, [], ◌∷◌, ◌++◌, length, arith, eqb, if◌then◌else◌,
}
use turbovault.Core.Error.{ok, err}
use turbovault.Text.{chars, join, same}
use turbovault.Edit.Parse.{
  start, missing_divider, ambiguous_divider, parse_lines, parse_blocks, divider_count, search_width,
  replace_width, is_divider,
}
use turbovault.Edit.Markers.{open_line, close_line, Visible}
use turbovault.Edit.Body.{Written, Plain, Quiet, IsWritten, render_all, blocks_of}
use turbovault.Edit.Fence.{without_return, repeat}
use turbovault.Edit.RoundTrip.{IsLine, HasLines, parse_blocks-render}
use turbovault.Edit.Refused.{parse_lines-divider_count}
use turbovault.Edit.Distance.{EditConfig, best_end, first_row}
use turbovault.Edit.EditDistance.{IsBest, all_ends, best_end-IsBest}
use turbovault.Edit.Apply.{
  fuzzy_levenshtein, whitespace_insensitive, exact, find_and_replace, no_match, not_found, panics,
}
use turbovault.Edit.Exact.{find_and_replace-exact}

abbrev white : Char → Bool
white c = same c " "

visible : Visible white
visible = record { less = refl; equals = refl; greater = refl; h = refl; e = refl }

-- A block whose search text has a divider of width 7, in a fence of width 8.
abbrev wide : Written
unfolding chars
wide = record { width = 8; searched = chars "a" ∷ chars "=======" ∷ []; replaced = chars "b" ∷ [] }

plain_a : Plain white 8 (chars "a")
unfolding chars search_width replace_width is_divider
plain_a = record { no_search = refl; no_replace = refl; no_divider = refl }

IsLine-a : IsLine (chars "a")
unfolding chars without_return
IsLine-a = record { one = refl; no_return = refl }

plain_divider : Plain white 8 (chars "=======")
unfolding chars search_width replace_width is_divider
plain_divider = record { no_search = refl; no_replace = refl; no_divider = refl }

IsLine-divider : IsLine (chars "=======")
unfolding chars without_return
IsLine-divider = record { one = refl; no_return = refl }

plain_b : Plain white 8 (chars "b")
unfolding chars search_width replace_width is_divider
plain_b = record { no_search = refl; no_replace = refl; no_divider = refl }

IsLine-b : IsLine (chars "b")
unfolding chars without_return
IsLine-b = record { one = refl; no_return = refl }

wide-IsWritten : IsWritten white wide
unfolding wide
wide-IsWritten = record {
  wide = omega arith;
  searched = (plain_a, (plain_divider, tt));
  replaced = (plain_b, tt);
}

wide-HasLines : HasLines wide
unfolding wide
wide-HasLines = ((IsLine-a, (IsLine-divider, tt)), (IsLine-b, tt))

parse_blocks-render_example :
    parse_blocks white (join (chars "\n") (render_all (wide ∷ wide ∷ [])))
    ≡ ok (blocks_of (wide ∷ wide ∷ []))
unfolding wide
parse_blocks-render_example =
    parse_blocks-render white wide (wide ∷ []) visible (wide-IsWritten, (wide-IsWritten, tt))
      (wide-HasLines, (wide-HasLines, tt))

Quiet-divider : Quiet white 7 (chars "=======")
unfolding chars search_width replace_width
Quiet-divider = (refl, refl)

two_dividers : eqb (divider_count white 7 (chars "=======" ∷ chars "=======" ∷ [])) 1 ≡ false
unfolding chars divider_count
two_dividers = refl

parse_lines-divider_count_example :
    parse_lines white (open_line 7 ∷ chars "=======" ∷ chars "=======" ∷ close_line 7 ∷ []) start
    ≡ err (
        if eqb (divider_count white 7 (chars "=======" ∷ chars "=======" ∷ [])) 0
        then missing_divider
        else ambiguous_divider)
parse_lines-divider_count_example =
    parse_lines-divider_count white visible 7 (chars "=======" ∷ chars "=======" ∷ []) [] start
      (omega arith) refl (Quiet-divider, (Quiet-divider, tt)) two_dividers

abbrev config : EditConfig
config = record {
  threshold = λ m. 1;
  allow_whitespace_flex = true;
  allow_indent_flex = true;
  allow_fuzzy_match = true;
  max_fuzzy_budget = 10000;
  max_search_len = 100;
}

abbrev Replaced : List Char → List Char → List Char → List Char → Type 0
Replaced content sought replacement before =
    (front : List Char) × (back : List Char) × (content ≡ front ++ (sought ++ back))
    × (length front ≤ length before)
    × (find_and_replace white config content sought replacement
        ≡ ok (front ++ (replacement ++ back), exact))

find_and_replace-exact_example :
    Replaced (chars "one two two") (chars "two") (chars "2") (chars "one two ")
unfolding chars
find_and_replace-exact_example =
    find_and_replace-exact white config (chars "one two two") (chars "two") (chars "2")
      (chars "one two ") [] refl

best_end-IsBest_example :
    IsBest 1
      (best_end 1 (chars "two") 0 (chars "one tvo") (first_row 0 (chars "two")) none)
      (all_ends (chars "two") [] (chars "one tvo"))
best_end-IsBest_example = best_end-IsBest 1 (chars "two") (chars "one tvo")

fuzzy :
    find_and_replace white config (chars "one tvo.") (chars "two") (chars "2")
    ≡ ok (chars "one 2.", fuzzy_levenshtein)
unfolding chars find_and_replace
fuzzy = refl

-- After a line that ends with a carriage return too, a match by whitespace is replaced one byte early.
shifted :
    find_and_replace white config (chars "x\r\ntwo  three\r\n") (chars "two three") (chars "2")
    ≡ ok (chars "x\r2e\r\n", whitespace_insensitive)
unfolding chars find_and_replace
shifted = refl

-- The error quotes the first 100 bytes of the search text; it panics where they end inside a character.
unquotable : no_match (repeat "a" 99 ++ chars "é") ≡ panics
unfolding no_match chars
unquotable = refl

quotable : no_match (repeat "a" 98 ++ chars "é") ≡ not_found
unfolding no_match chars
quotable = refl
