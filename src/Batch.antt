-- ===== src/Batch.antt =====
-- crates/turbovault-batch/src/lib.rs: the operations of a batch and which of them conflict.
pub mod Conflicts
use turbovault.Common.{
  String, Bool, true, false, ◌&&◌, Option, none, some, List, [], ◌∷◌, if◌then◌else◌, contains,
}
use turbovault.Common.Table.{Table}

-- Frontmatter values are JSON that nothing here reads, so their type is a parameter.
pub data BatchOperation (Json : Type 0) : Type 0 where
  -- path, content, force
  create_note : String → String → Option Bool → BatchOperation Json
  -- path, content, expected_hash
  write_note : String → String → Option String → BatchOperation Json
  -- path, expected_hash, on_backlinks
  delete_note : String → Option String → Option String → BatchOperation Json
  -- from, to, expected_hash, update_backlinks
  move_note : String → String → Option String → Option Bool → BatchOperation Json
  -- file, old_target, new_target, expected_hash
  update_links : String → String → String → Option String → BatchOperation Json
  -- path, edits, expected_hash
  edit_note : String → String → Option String → BatchOperation Json
  -- path, frontmatter, merge, expected_hash
  update_frontmatter : String → Table Json → Option Bool → Option String → BatchOperation Json
  -- path, operation, tags, expected_hash
  manage_tags : String → String → List String → Option String → BatchOperation Json
  -- template_id, path, fields, force
  create_from_template : String → String → Table String → Option Bool → BatchOperation Json

-- The loop of `conflicts_with` over the files of the one operation: `continue` when both only
-- update links.
unfoldable pub conflict_loop : Bool → List String → List String → Bool
conflict_loop both [] others = false
conflict_loop both (file ∷ files) others =
    let rest = conflict_loop both files others in
    if contains others file then (if both then rest else true) else rest

module _ {J : Type 0} where
  -- BatchOperation::affected_files
  unfoldable pub affected_files : BatchOperation J → List String
  affected_files (create_note path content force) = path ∷ []
  affected_files (write_note path content hash) = path ∷ []
  affected_files (delete_note path hash on_backlinks) = path ∷ []
  affected_files (move_note from to hash backlinks) = from ∷ to ∷ []
  affected_files (update_links file old new hash) = file ∷ old ∷ new ∷ []
  affected_files (edit_note path edits hash) = path ∷ []
  affected_files (update_frontmatter path fm merge hash) = path ∷ []
  affected_files (manage_tags path operation tags hash) = path ∷ []
  affected_files (create_from_template template path fields force) = path ∷ []

  -- BatchOperation::precondition
  unfoldable pub precondition : BatchOperation J → Option (String × String)
  precondition (write_note path content (some hash)) = some (path, hash)
  precondition (delete_note path (some hash) on_backlinks) = some (path, hash)
  precondition (move_note from to (some hash) backlinks) = some (from, hash)
  precondition _ = none

  abbrev pub is_update_links : BatchOperation J → Bool
  is_update_links (update_links file old new hash) = true
  is_update_links (create_note path content force) = false
  is_update_links _ = false

  -- BatchOperation::conflicts_with
  unfoldable pub conflicts_with : BatchOperation J → BatchOperation J → Bool
  unfolding conflict_loop affected_files
  conflicts_with a b =
      conflict_loop (is_update_links a && is_update_links b) (affected_files a) (affected_files b)
