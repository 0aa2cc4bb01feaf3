-- ===== src/Edit/EditDistance.antt =====
-- The distances that `fuzzy_find_levenshtein` of crates/turbovault-vault/src/edit.rs computes row by row, as a
-- recursive definition.
use Prim.Native.Char.{Char}
use turbovault.Common.{
  ℕ, zero, suc, ◌+◌, ◌≤◌, ◌<◌, ◌≡◌, refl, sym, ◌∙◌, ap, subst, List, [], ◌∷◌, ◌++◌, length,
  length-append, Option, none, some, All, All-append, arith, leb, ltb, ◌&&◌, inl, inr, Bool-cases,
}
use turbovault.Edit.Distance.{
  min_of, cost, row_loop, next_row, first_row, last_entry, reverse, better, best_end,
}

-- The least number of edits that turn a pattern into some end of a text, both read from their last
-- character: it is put in, a character of the text is passed over, or both are taken together.
abbrev over : Char → (List Char → ℕ) → List Char → ℕ
over s shorter [] = suc (shorter [])
over s shorter (c ∷ text) =
    min_of (min_of (shorter text + cost c s) (suc (over s shorter text))) (suc (shorter (c ∷ text)))

abbrev pub edits : List Char → List Char → ℕ
edits [] text = 0
edits (s ∷ pattern) text = over s (edits pattern) text

-- the distances of the beginnings of a pattern, the shortest first
abbrev pub distances : List Char → List Char → List Char → List ℕ
distances before text [] = edits before text ∷ []
distances before text (s ∷ pattern) = edits before text ∷ distances (s ∷ before) text pattern

abbrev rest_of : List ℕ → List ℕ
rest_of [] = []
rest_of (d ∷ ds) = ds

-- `dp` after the characters of a text, the last one first
unfoldable pub row_after : List Char → List Char → List ℕ
unfolding next_row first_row
row_after search [] = first_row 0 search
row_after search (c ∷ text) = next_row c search (row_after search text)

edits_start : (before : List Char) → edits before [] ≡ length before
edits_start [] = refl
edits_start (s ∷ before) = ap (λ (n : ℕ). suc n) (edits_start before)

first_row-distances :
    (before pattern : List Char) → first_row (edits before []) pattern ≡ distances before [] pattern
unfolding first_row
first_row-distances before [] = refl
first_row-distances before (s ∷ pattern) =
    ap (◌∷◌ (edits before [])) (first_row-distances (s ∷ before) pattern)

row_loop-distances :
    (c : Char) (before text pattern : List Char)
    → row_loop c pattern
        (rest_of (distances before text pattern))
        (edits before text)
        (edits before (c ∷ text))
      ≡ rest_of (distances before (c ∷ text) pattern)
unfolding row_loop
row_loop-distances c before text [] = refl
row_loop-distances c before text (s ∷ []) = refl
row_loop-distances c before text (s ∷ t ∷ pattern) =
    ap (◌∷◌ (edits (s ∷ before) (c ∷ text))) (row_loop-distances c (s ∷ before) text (t ∷ pattern))

next_row-distances :
    (c : Char) (search text : List Char)
    → next_row c search (distances [] text search) ≡ distances [] (c ∷ text) search
unfolding next_row
next_row-distances c [] text = refl
next_row-distances c (s ∷ search) text = ap (◌∷◌ 0) (row_loop-distances c [] text (s ∷ search))

-- Row by row, the search computes the distances of the recursive definition: after any text, the entry
-- at each place is the least number of edits between that beginning of the search text and some end of
-- the text.
pub row_after-distances :
    (search text : List Char) → row_after search text ≡ distances [] text search
unfolding row_after
row_after-distances search [] = first_row-distances [] search
row_after-distances search (c ∷ text) =
    ap (next_row c search) (row_after-distances search text) ∙ next_row-distances c search text

last_entry-distances :
    (before text pattern : List Char)
    → last_entry (distances before text pattern) ≡ edits (reverse before pattern) text
last_entry-distances before text [] = refl
last_entry-distances before text (s ∷ []) = refl
last_entry-distances before text (s ∷ t ∷ pattern) =
    last_entry-distances (s ∷ before) text (t ∷ pattern)

-- The distances of a search text to the ends of a text read so far, the last character first, and of
-- the texts that one more character each makes of it.
abbrev pub all_ends : List Char → List Char → List Char → List ℕ
all_ends search text [] = []
all_ends search text (c ∷ more) =
    edits (reverse [] search) (c ∷ text) ∷ all_ends search (c ∷ text) more

-- the distance at a place, counted from 1
abbrev pub entry_at : ℕ → List ℕ → Option ℕ
entry_at i [] = none
entry_at zero (d ∷ ds) = none
entry_at (suc zero) (d ∷ ds) = some d
entry_at (suc (suc i)) (d ∷ ds) = entry_at (suc i) ds

entry_at-append :
    (i d : ℕ) (ds es : List ℕ) → entry_at i ds ≡ some d → entry_at i (ds ++ es) ≡ some d
entry_at-append i d [] es h = absurd (ground arith)
entry_at-append zero d (x ∷ ds) es h = absurd (ground arith)
entry_at-append (suc zero) d (x ∷ ds) es h = h
entry_at-append (suc (suc i)) d (x ∷ ds) es h = entry_at-append (suc i) d ds es h

entry_at-snoc : (d : ℕ) (ds : List ℕ) → entry_at (suc (length ds)) (ds ++ (d ∷ [])) ≡ some d
entry_at-snoc d [] = refl
entry_at-snoc d (x ∷ ds) = entry_at-snoc d ds

-- the best of several distances so far
abbrev pub IsBest : ℕ → Option (ℕ × ℕ) → List ℕ → Type 0
IsBest threshold none ds = All (λ e. threshold < e) ds
IsBest threshold (some (at, d)) ds =
    (entry_at at ds ≡ some d) × (d ≤ threshold) × All (λ e. d ≤ e) ds

nil_after : {A : Type 0} (a : List A) → a ++ [] ≡ a
nil_after [] = refl
nil_after (x ∷ a) = ap (◌∷◌ x) (nil_after a)

after_assoc : {A : Type 0} (a b c : List A) → (a ++ b) ++ c ≡ a ++ (b ++ c)
after_assoc [] b c = refl
after_assoc (x ∷ a) b c = ap (◌∷◌ x) (after_assoc a b c)

below_all : (d least : ℕ) (ds : List ℕ) → d ≤ least → All (λ e. least ≤ e) ds → All (λ e. d ≤ e) ds
below_all d least [] le every = tt
below_all d least (e ∷ ds) le every = (omega (arith, le, every.0), below_all d least ds le every.1)

within_all : (d t : ℕ) (ds : List ℕ) → d ≤ t → All (λ e. t < e) ds → All (λ e. d ≤ e) ds
within_all d t [] le every = tt
within_all d t (e ∷ ds) le every = (omega (arith, le, every.0), within_all d t ds le every.1)

better-IsBest :
    (threshold i d entry : ℕ) (best : Option (ℕ × ℕ)) (seen : List ℕ)
    → entry ≡ d
    → i ≡ suc (length seen)
    → IsBest threshold best seen
    → IsBest threshold (better threshold i entry best) (seen ++ (d ∷ []))
unfolding better
better-IsBest threshold i d entry none seen e at good = elim (Bool-cases (leb entry threshold)) [
  | inl h ↦ rw h (
    rw (at, e) (entry_at-snoc d seen),
    ground (arith, h),
    All-append (λ x. entry ≤ x) seen (d ∷ [])
        (within_all entry threshold seen (ground (arith, h)) good) (omega (arith, e), tt),
  )
  | inr h ↦ rw h (All-append (λ x. threshold < x) seen (d ∷ []) good (ground (arith, h, e), tt))
]
better-IsBest threshold i d entry (some (place, least)) seen e at good =
    elim (Bool-cases (leb entry threshold && ltb entry least)) [
      | inl h ↦ rw h (
        rw (at, e) (entry_at-snoc d seen),
        ground (arith, h),
        All-append (λ x. entry ≤ x) seen (d ∷ [])
            (below_all entry least seen (ground (arith, h)) good.2) (omega (arith, e), tt),
      )
      | inr h ↦ rw h (
        entry_at-append place least seen (d ∷ []) good.0,
        good.1,
        All-append (λ x. least ≤ x) seen (d ∷ []) good.2 (ground (arith, h, e, good.1), tt),
      )
    ]

-- `best` is what the distances seen before gave; afterwards the result is the best of both
best_end_from-IsBest :
    (threshold : ℕ) (search text : List Char) (i : ℕ) (more : List Char) (best : Option (ℕ × ℕ))
    (seen : List ℕ)
    → i ≡ length seen
    → IsBest threshold best seen
    → IsBest threshold
        (best_end threshold search i more (row_after search text) best)
        (seen ++ all_ends search text more)
unfolding best_end row_after
best_end_from-IsBest threshold search text i [] best seen at good =
    subst (IsBest threshold best) (sym (nil_after seen)) good
best_end_from-IsBest threshold search text i (c ∷ more) best seen at good =
    let d = edits (reverse [] search) (c ∷ text) in
    let next = row_after search (c ∷ text) in
    let entry : last_entry next ≡ d =
      ap last_entry (row_after-distances search (c ∷ text))
      ∙ last_entry-distances [] (c ∷ text) search in
    let best2 = better threshold (suc i) (last_entry next) best in
    let step : IsBest threshold best2 (seen ++ (d ∷ [])) =
      better-IsBest threshold (suc i) d (last_entry next) best seen entry (ap (λ (n : ℕ). suc n) at)
        good in
    subst (IsBest threshold (best_end threshold search (suc i) more next best2))
      (after_assoc seen (d ∷ []) (all_ends search (c ∷ text) more))
      (best_end_from-IsBest threshold search (c ∷ text) (suc i) more best2 (seen ++ (d ∷ []))
        (omega (arith, at, length-append seen (d ∷ []))) step)

-- Whatever the threshold, the search text and the content: if the first pass of the fuzzy search finds
-- an end, its distance is within the threshold and no end of the content has a smaller one; if it
-- finds none, every end is farther than the threshold.
pub best_end-IsBest :
    (threshold : ℕ) (search content : List Char)
    → IsBest threshold
        (best_end threshold search 0 content (first_row 0 search) none)
        (all_ends search [] content)
unfolding first_row row_after
best_end-IsBest threshold search content =
    best_end_from-IsBest threshold search [] 0 content none [] refl tt
