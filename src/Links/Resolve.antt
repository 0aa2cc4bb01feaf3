-- ===== src/Links/Resolve.antt =====
-- The text of a link target: crates/turbovault-core/src/okf.rs, `normalize_link_target`, and
-- crates/turbovault-graph/src/graph.rs, `is_note_reference` and `is_attachment_ext`.
use Prim.Native.Char.{Char}
use turbovault.Common.{
  String, Bool, true, false, Option, none, some, List, [], ◌∷◌, ◌||◌, not, contains, if◌then◌else◌,
}
use turbovault.Text.{
  chars, collect, same, starts_with, equal, without_suffix, split, before, trim_end, trim,
}
use turbovault.Links.Digraph.{PathOps}

abbrev pub is_separator : Char → Bool
is_separator c = same c "/" || same c "\\"

abbrev pub is_hash : Char → Bool
is_hash c = same c "#"

abbrev is_dot : Char → Bool
is_dot c = same c "."

abbrev pub is_empty {ℓ} : {A : Type ℓ} → List A → Bool
is_empty [] = true
is_empty (x ∷ xs) = false

abbrev attachment_exts : List String
attachment_exts =
    "png" ∷ "jpg" ∷ "jpeg" ∷ "gif" ∷ "svg" ∷ "webp" ∷ "bmp" ∷ "ico" ∷ "avif" ∷ "tiff" ∷ "pdf"
    ∷ "csv" ∷ "tsv" ∷ "json" ∷ "yaml" ∷ "yml" ∷ "xml" ∷ "parquet" ∷ "sqlite" ∷ "db" ∷ "html" ∷ "htm"
    ∷ "css" ∷ "js" ∷ "mjs" ∷ "wasm" ∷ "mp4" ∷ "mov" ∷ "webm" ∷ "mkv" ∷ "mp3" ∷ "wav" ∷ "ogg" ∷ "m4a"
    ∷ "flac" ∷ "zip" ∷ "tar" ∷ "gz" ∷ "tgz" ∷ "7z" ∷ "rar" ∷ "xlsx" ∷ "docx" ∷ "pptx" ∷ "key"
    ∷ "numbers" ∷ "pages" ∷ []

abbrev last_of : List Char → List (List Char) → List Char
last_of piece [] = piece
last_of piece (next ∷ rest) = last_of next rest

-- `s.rsplit(f).next()`, the last piece
unfoldable last_piece : (Char → Bool) → List Char → List Char
last_piece f s = last_of [] (split f s)

-- `s.rsplit_once(c)`: what stands before and after the last separator
unfoldable pub rsplit_once : (Char → Bool) → List Char → Option (List Char × List Char)
rsplit_once f [] = none
rsplit_once f (c ∷ s) = elim (rsplit_once f s) [
  | some (front, back) ↦ some (c ∷ front, back)
  | none ↦ if f c then some ([], s) else none
]

module _ (o : PathOps) where
  unfoldable pub is_attachment_ext : List Char → Bool
  unfolding collect
  is_attachment_ext ext = contains attachment_exts (collect (o.to_ascii_lowercase ext))

  unfoldable pub is_note_reference : List Char → Bool
  unfolding before trim_end last_piece rsplit_once is_attachment_ext
  is_note_reference target =
      let path = trim_end o.is_whitespace (before is_hash target) in
      if is_empty path then false else elim (rsplit_once is_dot (last_piece is_separator path)) [
        | some (stem, ext) ↦ if not (is_empty stem) then not (is_attachment_ext ext) else true
        | none ↦ true
      ]

  -- `{ let lower = s.to_lowercase(); lower.strip_suffix(".md").unwrap_or(&lower) }`
  unfoldable pub lower_name : List Char → List Char
  unfolding without_suffix chars
  lower_name s = without_suffix (chars ".md") (o.to_lowercase s)

  -- the segments that are kept, each in lower case and without its `.md`
  unfoldable pub lower_segments : List (List Char) → List (List Char)
  unfolding equal chars lower_name
  lower_segments [] = []
  lower_segments (seg ∷ segs) =
      let rest = lower_segments segs in
      if is_empty seg || equal seg (chars ".") || equal seg (chars "..")
      then rest
      else lower_name seg ∷ rest

  unfoldable pub is_external : List Char → Bool
  unfolding starts_with chars
  is_external target =
      starts_with (chars "http://") target
      || starts_with (chars "https://") target
      || starts_with (chars "mailto:") target
      || starts_with (chars "#") target

  unfoldable pub normalize_link_target : List Char → Option (List (List Char))
  unfolding before trim split lower_segments is_external
  normalize_link_target target =
      if is_external target
      then none
      else let path_part = trim o.is_whitespace (before is_hash target) in
        let parts = lower_segments (split is_separator path_part) in
        if is_empty path_part then none else if is_empty parts then none else some parts
