-- ===== src/Core/Plan.antt =====
-- crates/turbovault-core/src/{precondition, change_plan}.rs: the one vocabulary of mutations that
-- both substrates apply.
pub mod Effect
pub mod Laws
use turbovault.Common.{ℕ, String, ◌≡◌, Bool, true, false, Option, none, some, List, [], ◌∷◌, ◌++◌}

abbrev pub Bytes : Type 0
Bytes = List ℕ

pub data Precondition : Type 0 where
  expect_blob : String → Precondition
  expect_absent expect_exists blind : Precondition

-- Precondition::for_replace
unfoldable pub for_replace : Option String → Bool → Precondition
for_replace (some oid) force = expect_blob oid
for_replace none true = blind
for_replace none false = expect_absent

-- Precondition::for_in_place
unfoldable pub for_in_place : Option String → Precondition
for_in_place (some oid) = expect_blob oid
for_in_place none = expect_exists

pub data Change : Type 0 where
  upsert : String → Bytes → Change
  remove : String → Change
  rename : String → String → Change

-- Change::path
unfoldable pub path : Change → String
path (upsert p content) = p
path (remove p) = p
path (rename from to) = from

-- Change::touched_paths
unfoldable pub change_paths : Change → List String
change_paths (upsert p content) = p ∷ []
change_paths (remove p) = p ∷ []
change_paths (rename from to) = from ∷ to ∷ []

-- The metadata is opaque JSON that nothing here reads, so its type is a parameter.
pub record ChangePlan (Json : Type 0) : Type 0 where
  pub message : String
  pub changes : List Change
  pub preconditions : List (String × Precondition)
  pub metadata : Option Json

unfoldable pub touched : List Change → List String
unfolding change_paths
touched [] = []
touched (c ∷ cs) = change_paths c ++ touched cs

module _ {Json : Type 0} where
  -- ChangePlan::new
  unfoldable pub new : String → ChangePlan Json
  new m = record { message = m; changes = []; preconditions = []; metadata = none }

  -- The raw builders: `push` one change or one precondition.
  unfoldable pub with_change : ChangePlan Json → Change → ChangePlan Json
  with_change p c = record p { changes = p.changes ++ c ∷ [] }

  unfoldable pub with_precondition : ChangePlan Json → String → Precondition → ChangePlan Json
  with_precondition p path c = record p { preconditions = p.preconditions ++ (path, c) ∷ [] }

  unfoldable pub with_metadata : ChangePlan Json → Json → ChangePlan Json
  with_metadata p j = record p { metadata = some j }

  unfoldable pub add_upsert : ChangePlan Json → String → Bytes → ChangePlan Json
  add_upsert p path content = record p { changes = p.changes ++ upsert path content ∷ [] }

  unfoldable pub add_remove : ChangePlan Json → String → ChangePlan Json
  add_remove p path = record p { changes = p.changes ++ remove path ∷ [] }

  unfoldable pub add_expect_blob : ChangePlan Json → String → String → ChangePlan Json
  add_expect_blob p path token = record p {
    preconditions = p.preconditions ++ (path, expect_blob token) ∷ [];
  }

  unfoldable pub add_expect_absent : ChangePlan Json → String → ChangePlan Json
  add_expect_absent p path = record p {
    preconditions = p.preconditions ++ (path, expect_absent) ∷ [];
  }

  -- The semantic builders: a change together with its safe precondition.
  unfoldable pub create : ChangePlan Json → String → Bytes → ChangePlan Json
  create p path content = record p {
    changes = p.changes ++ upsert path content ∷ [];
    preconditions = p.preconditions ++ (path, expect_absent) ∷ [];
  }

  unfoldable pub update : ChangePlan Json → String → Bytes → String → ChangePlan Json
  update p path content expected = record p {
    changes = p.changes ++ upsert path content ∷ [];
    preconditions = p.preconditions ++ (path, expect_blob expected) ∷ [];
  }

  unfoldable pub delete : ChangePlan Json → String → String → ChangePlan Json
  delete p path expected = record p {
    changes = p.changes ++ remove path ∷ [];
    preconditions = p.preconditions ++ (path, expect_blob expected) ∷ [];
  }

  unfoldable pub move_to : ChangePlan Json → String → String → String → ChangePlan Json
  move_to p from to expected_from = record p {
    changes = p.changes ++ rename from to ∷ [];
    preconditions =
        (p.preconditions ++ (from, expect_blob expected_from) ∷ []) ++ (to, expect_absent) ∷ [];
  }

  -- ChangePlan::touched_paths
  unfoldable pub touched_paths : ChangePlan Json → List String
  unfolding touched
  touched_paths p = touched p.changes
