-- ===== src/Edit/Apply.antt =====
-- crates/turbovault-vault/src/edit.rs: `find_and_replace`, its searches but the fuzzy one, and
-- `apply_blocks`. Positions count bytes, and slicing a text elsewhere than between two characters panics.
use Prim.Native.Char.{Char}
use turbovault.Common.{
  ℕ, zero, suc, ◌+◌, ◌-◌, Bool, true, false, Option, none, some, List, [], ◌∷◌, ◌++◌, ◌&&◌, ltb,
  length, if◌then◌else◌,
}
use turbovault.Core.Error.{Fallible, ok, err}
use turbovault.Text.{chars, equal, starts_with, split, trim, join}
use turbovault.Edit.Fence.{lines}
use turbovault.Edit.Parse.{SearchReplaceBlock}
use turbovault.Edit.Distance.{EditConfig, min_of, len_utf8, byte_len, fuzzy_find_levenshtein}

pub data MatchType : Type 0 where
  exact whitespace_insensitive indentation_preserving fuzzy_levenshtein : MatchType

-- `content.find(search)`
unfoldable pub find : List Char → List Char → Option ℕ
unfolding starts_with
find search [] = if starts_with search [] then some 0 else none
find search (c ∷ s) =
    let later = find search s in
    if starts_with search (c ∷ s)
    then some 0
    else elim later [ some pos ↦ some (len_utf8 c + pos) | none ↦ none ]

-- `&content[..pos]` and `&content[pos..]`
unfoldable pub slice_at : ℕ → List Char → Option (List Char × List Char)
slice_at zero s = some ([], s)
slice_at (suc pos) [] = none
slice_at (suc pos) (c ∷ s) =
    let rest = slice_at (suc pos - len_utf8 c) s in
    if ltb (suc pos) (len_utf8 c)
    then none
    else elim rest [ some (front, back) ↦ some (c ∷ front, back) | none ↦ none ]

-- EditEngine::replace_at
unfoldable pub replace_at : List Char → ℕ → ℕ → List Char → Option (List Char)
unfolding slice_at
replace_at content pos len replacement = elim (slice_at pos content) [
  | none ↦ none
  | some (front, rest) ↦ elim (slice_at (pos + len) content) [
    | none ↦ none
    | some (before, back) ↦ some (front ++ (replacement ++ back))
  ]
]

-- `s.split_whitespace()`
abbrev pub words : List (List Char) → List (List Char)
words [] = []
words ([] ∷ ps) = words ps
words ((c ∷ p) ∷ ps) = (c ∷ p) ∷ words ps

unfoldable pub normalize_whitespace : (Char → Bool) → List Char → List Char
unfolding split join chars
normalize_whitespace white s = join (chars " ") (words (split white s))

-- whether the lines begin with these, under a normalisation
unfoldable pub lines_match : (List Char → List Char) → List (List Char) → List (List Char) → Bool
unfolding equal
lines_match norm [] content = true
lines_match norm (l ∷ ls) [] = false
lines_match norm (l ∷ ls) (c ∷ content) = equal (norm l) (norm c) && lines_match norm ls content

-- the bytes of the first lines, each with its newline
abbrev pub lines_len : ℕ → List (List Char) → ℕ
lines_len zero ls = 0
lines_len (suc n) [] = 0
lines_len (suc n) (l ∷ ls) = suc (byte_len l) + lines_len n ls

-- the loop over the lines at which a match may start, `pos` bytes into the content
unfoldable pub find_lines :
    (List Char → List Char) → List (List Char) → ℕ → List (List Char) → Option (ℕ × ℕ)
unfolding lines_match
find_lines norm searched pos [] = none
find_lines norm searched pos (c ∷ content) =
    let later = find_lines norm searched (pos + suc (byte_len c)) content in
    if ltb (suc (length content)) (length searched)
    then none
    else if lines_match norm searched (c ∷ content)
    then some (pos, lines_len (length searched) (c ∷ content) - 1)
    else later

unfoldable pub fuzzy_find : (List Char → List Char) → List Char → List Char → Option (ℕ × ℕ)
unfolding lines find_lines
fuzzy_find norm content search = elim (lines search) [
  | [] ↦ none
  | l ∷ ls ↦ find_lines norm (l ∷ ls) 0 (lines content)
]

-- EditEngine::fuzzy_find_whitespace
unfoldable pub fuzzy_find_whitespace : (Char → Bool) → List Char → List Char → Option (ℕ × ℕ)
unfolding fuzzy_find normalize_whitespace
fuzzy_find_whitespace white = fuzzy_find (normalize_whitespace white)

-- EditEngine::fuzzy_find_indentation
unfoldable pub fuzzy_find_indentation : (Char → Bool) → List Char → List Char → Option (ℕ × ℕ)
unfolding fuzzy_find trim
fuzzy_find_indentation white = fuzzy_find (trim white)

-- why an edit is not made: the text is not found, or the source panics
pub data Failure : Type 0 where
  not_found panics : Failure

abbrev pub replaced_by : MatchType → Option (List Char) → Fallible Failure (List Char × MatchType)
replaced_by kind none = err panics
replaced_by kind (some text) = ok (text, kind)

-- the error that quotes `&search[..search.len().min(100)]`
unfoldable pub no_match : List Char → Failure
unfolding slice_at
no_match search = elim (slice_at (min_of (byte_len search) 100) search) [
  | some (front, back) ↦ not_found
  | none ↦ panics
]

-- one strategy, or else the next
abbrev pub or_next :
    Bool
    → Option (ℕ × ℕ)
    → (ℕ × ℕ → Fallible Failure (List Char × MatchType))
    → Fallible Failure (List Char × MatchType)
    → Fallible Failure (List Char × MatchType)
or_next false found use_it later = later
or_next true none use_it later = later
or_next true (some place) use_it later = use_it place

module _ (white : Char → Bool) (config : EditConfig) where
  -- EditEngine::find_and_replace
  unfoldable pub find_and_replace :
      List Char → List Char → List Char → Fallible Failure (List Char × MatchType)
  unfolding find replace_at fuzzy_find_whitespace fuzzy_find_indentation fuzzy_find_levenshtein
      no_match
  find_and_replace content search replace = elim (find search content) [
    | some pos ↦ replaced_by exact (replace_at content pos (byte_len search) replace)
    | none ↦
        or_next config.allow_whitespace_flex (fuzzy_find_whitespace white content search)
          (λ p. replaced_by whitespace_insensitive (replace_at content p.0 p.1 replace))
          (or_next config.allow_indent_flex (fuzzy_find_indentation white content search)
            (λ p. replaced_by indentation_preserving (replace_at content p.0 p.1 replace))
            (or_next config.allow_fuzzy_match (fuzzy_find_levenshtein config content search)
              (λ p. replaced_by fuzzy_levenshtein (replace_at content p.0 p.1 replace))
              (err (no_match search))))
  ]

  abbrev pub warn : ℕ → MatchType → List (ℕ × MatchType)
  warn idx exact = []
  warn idx kind = (suc idx, kind) ∷ []

  -- the loop of `apply_blocks`; a warning is the number of the block and how it matched, and an error
  -- has the number of the block
  unfoldable pub apply_each :
      ℕ
      → List SearchReplaceBlock
      → List Char
      → List (ℕ × MatchType)
      → Fallible (ℕ × Failure) (List Char × List (ℕ × MatchType))
  unfolding find_and_replace
  apply_each idx [] content warnings = ok (content, warnings)
  apply_each idx (block ∷ blocks) content warnings =
      elim (find_and_replace content block.search block.replace) [
        | ok (next, kind) ↦ apply_each (suc idx) blocks next (warnings ++ warn idx kind)
        | err e ↦ err (suc idx, e)
      ]

  -- EditEngine::apply_blocks
  unfoldable pub apply_blocks :
      List Char
      → List SearchReplaceBlock
      → Fallible (ℕ × Failure) (List Char × List (ℕ × MatchType))
  unfolding apply_each
  apply_blocks content blocks = apply_each 0 blocks content []
