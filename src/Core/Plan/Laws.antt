-- ===== src/Core/Plan/Laws.antt =====
-- The builders of crates/turbovault-core/src/change_plan.rs: what a plan made of semantic builders
-- guards, and which paths it touches.
use mathlib.Core.List.{append-nil, append_assoc}
use turbovault.Common.{
  String, ◌≡◌, refl, ap, sym, ◌∙◌, subst, Bool, true, false, ◌||◌, ◌&&◌, List, [], ◌∷◌, ◌++◌, arith,
  ◌==◌, eq_refl, All, All-append,
}
use turbovault.Core.Plan.{
  Bytes, Precondition, expect_blob, expect_absent, expect_exists, blind, Change, upsert, remove,
  rename, change_paths, ChangePlan, touched, touched_paths, new, create, update, delete, move_to,
}

-- The precondition rules some state of the path out.
abbrev pub is_strict : Precondition → Bool
is_strict (expect_blob t) = true
is_strict expect_absent = true
is_strict expect_exists = true
is_strict blind = false

-- Some precondition of the list checks the path.
abbrev pub guards : List (String × Precondition) → String → Bool
guards [] p = false
guards ((q, c) ∷ cs) p = (q == p && is_strict c) || guards cs p

-- Every path that the plan mutates is checked before anything is written.
abbrev pub IsGuarded : {J : Type 0} → ChangePlan J → Type 0
IsGuarded p = All (λ path. guards p.preconditions path ≡ true) (touched p.changes)

pub touched-append : (cs ds : List Change) → touched (cs ++ ds) ≡ touched cs ++ touched ds
unfolding touched
touched-append [] ds = refl
touched-append (c ∷ cs) ds =
    ap (λ t. change_paths c ++ t) (touched-append cs ds)
    ∙ sym (append_assoc (change_paths c) (touched cs) (touched ds))

guards-append :
    (cs ds : List (String × Precondition)) (p : String)
    → guards (cs ++ ds) p ≡ (guards cs p || guards ds p)
guards-append [] ds p = refl
guards-append ((q, c) ∷ cs) ds p = ground (arith, guards-append cs ds p)

-- More preconditions guard no less.
All-guards-append :
    (cs ds : List (String × Precondition)) (ps : List String)
    → All (λ path. guards cs path ≡ true) ps
    → All (λ path. guards (cs ++ ds) path ≡ true) ps
All-guards-append cs ds [] h = tt
All-guards-append cs ds (p ∷ ps) h =
    (ground (arith, guards-append cs ds p), All-guards-append cs ds ps h.1)

guards_last :
    (cs : List (String × Precondition)) (p : String) (c : Precondition)
    → is_strict c ≡ true
    → guards (cs ++ (p, c) ∷ []) p ≡ true
guards_last cs p c h = ground (arith, guards-append cs ((p, c) ∷ []) p, eq_refl p)

-- A list that guards the paths of the old changes and of one more guards them all.
All-touched :
    (rs : List (String × Precondition)) (cs : List Change) (c : Change)
    → All (λ path. guards rs path ≡ true) (touched cs)
    → All (λ path. guards rs path ≡ true) (change_paths c)
    → All (λ path. guards rs path ≡ true) (touched (cs ++ c ∷ []))
unfolding touched
All-touched rs cs c old here =
    subst (λ t. All (λ path. guards rs path ≡ true) t) (sym (touched-append cs (c ∷ [])))
      (All-append _ (touched cs) (change_paths c ++ []) old
        (All-append _ (change_paths c) [] here tt))

pub data Op : Type 0 where
  create_op : String → Bytes → Op
  update_op : String → Bytes → String → Op
  delete_op : String → String → Op
  move_op : String → String → String → Op

-- A chain of calls of the semantic builders.
unfoldable pub build : {J : Type 0} → ChangePlan J → List Op → ChangePlan J
build p [] = p
build p (create_op path content ∷ ops) = build (create p path content) ops
build p (update_op path content expected ∷ ops) = build (update p path content expected) ops
build p (delete_op path expected ∷ ops) = build (delete p path expected) ops
build p (move_op from to expected ∷ ops) = build (move_to p from to expected) ops

-- The paths of a chain of calls, in order.
abbrev pub op_paths : List Op → List String
op_paths [] = []
op_paths (create_op path content ∷ ops) = path ∷ op_paths ops
op_paths (update_op path content expected ∷ ops) = path ∷ op_paths ops
op_paths (delete_op path expected ∷ ops) = path ∷ op_paths ops
op_paths (move_op from to expected ∷ ops) = from ∷ to ∷ op_paths ops

build-IsGuarded' :
    {J : Type 0} (p : ChangePlan J) (ops : List Op) → IsGuarded p → IsGuarded (build p ops)
unfolding build create update delete move_to change_paths
build-IsGuarded' p [] h = h
build-IsGuarded' p (create_op path content ∷ ops) h = build-IsGuarded' (create p path content) ops (
    All-touched _ p.changes (upsert path content) (All-guards-append p.preconditions _ _ h)
      (guards_last p.preconditions path expect_absent refl, tt))
build-IsGuarded' p (update_op path content expected ∷ ops) h =
    build-IsGuarded' (update p path content expected) ops (
      All-touched _ p.changes (upsert path content) (All-guards-append p.preconditions _ _ h)
        (guards_last p.preconditions path (expect_blob expected) refl, tt))
build-IsGuarded' p (delete_op path expected ∷ ops) h =
    build-IsGuarded' (delete p path expected) ops (
      All-touched _ p.changes (remove path) (All-guards-append p.preconditions _ _ h)
        (guards_last p.preconditions path (expect_blob expected) refl, tt))
build-IsGuarded' p (move_op from to expected ∷ ops) h =
    build-IsGuarded' (move_to p from to expected) ops (
      All-touched _ p.changes (rename from to)
        (All-guards-append with_from _ _ (All-guards-append p.preconditions _ _ h))
        (
          (All-guards-append with_from _ (from ∷ [])
              (guards_last p.preconditions from (expect_blob expected) refl, tt)).0,
          (guards_last with_from to expect_absent refl, tt),
        ))
  where
    with_from : List (String × Precondition)
    with_from = p.preconditions ++ (from, expect_blob expected) ∷ []

touched-build :
    {J : Type 0} (p : ChangePlan J) (ops : List Op)
    → touched (build p ops).changes ≡ touched p.changes ++ op_paths ops
unfolding build create update delete move_to touched change_paths
touched-build p [] = sym (append-nil (touched p.changes))
touched-build p (create_op path content ∷ ops) =
    touched-build (create p path content) ops
    ∙ rw (touched-append p.changes (upsert path content ∷ []))
        (append_assoc (touched p.changes) (path ∷ []) (op_paths ops))
touched-build p (update_op path content expected ∷ ops) =
    touched-build (update p path content expected) ops
    ∙ rw (touched-append p.changes (upsert path content ∷ []))
        (append_assoc (touched p.changes) (path ∷ []) (op_paths ops))
touched-build p (delete_op path expected ∷ ops) =
    touched-build (delete p path expected) ops
    ∙ rw (touched-append p.changes (remove path ∷ []))
        (append_assoc (touched p.changes) (path ∷ []) (op_paths ops))
touched-build p (move_op from to expected ∷ ops) =
    touched-build (move_to p from to expected) ops
    ∙ rw (touched-append p.changes (rename from to ∷ []))
        (append_assoc (touched p.changes) (from ∷ to ∷ []) (op_paths ops))

-- A plan that is made with the semantic builders alone, whatever their number and order, has a
-- strict precondition on every path that it touches, both ends of a move included; and the paths
-- it touches are those of the calls, in order.
pub build-IsGuarded :
    (J : Type 0) (message : String) (ops : List Op)
    → IsGuarded (build (new {Json = J} message) ops)
      × (touched_paths (build (new {Json = J} message) ops) ≡ op_paths ops)
unfolding new touched touched_paths
build-IsGuarded J message ops =
    (build-IsGuarded' (new {Json = J} message) ops tt, touched-build (new {Json = J} message) ops)
