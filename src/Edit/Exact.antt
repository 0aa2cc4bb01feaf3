-- ===== src/Edit/Exact.antt =====
-- crates/turbovault-vault/src/edit.rs, `find_and_replace`: a search text that occurs is replaced where it
-- occurs first, and nothing else changes.
use Prim.Native.Char.{Char, code}
use text.Mathlib.TextEquality.{Char-path}
use turbovault.Common.{
  ℕ, zero, suc, ◌+◌, ◌-◌, ◌≤◌, ◌<◌, ◌≡◌, refl, sym, ◌∙◌, ap, Bool, true, false, none, some, List,
  [], ◌∷◌, ◌++◌, ltb, length, arith, inl, inr, Bool-cases, Option-cases, eqb→eq, ◌≢◌,
}
use turbovault.Core.Error.{ok}
use turbovault.Text.{same, starts_with, strip_prefix, is_some}
use turbovault.Edit.Distance.{EditConfig, len_utf8, byte_len}
use turbovault.Edit.Apply.{exact, find, slice_at, replace_at, find_and_replace}

len_utf8_pos : (c : Char) → 0 < len_utf8 c
len_utf8_pos c = ground arith

byte_len-append : (s t : List Char) → byte_len (s ++ t) ≡ byte_len s + byte_len t
byte_len-append [] t = omega arith
byte_len-append (c ∷ s) t = omega (arith, byte_len-append s t)

slice_at-suc :
    (pos : ℕ) (c : Char) (s front back : List Char)
    → slice_at pos s ≡ some (front, back)
    → slice_at (len_utf8 c + pos) (c ∷ s) ≡ some (c ∷ front, back)
unfolding slice_at
slice_at-suc pos c s front back h = go (len_utf8 c + pos) (omega (arith, len_utf8_pos c)) refl
  where
    go : (n : ℕ) → 0 < n → n ≡ len_utf8 c + pos → slice_at n (c ∷ s) ≡ some (c ∷ front, back)
    go zero lt e = absurd (omega (arith, lt))
    go (suc n) lt e =
        let less : ltb (suc n) (len_utf8 c) ≡ false = ground (arith, e) in
        let rest : suc n - len_utf8 c ≡ pos = omega (arith, e) in rw (less, rest, slice_at, h) refl

-- a slice between two parts of a text
pub slice_at-append :
    (front back : List Char) → slice_at (byte_len front) (front ++ back) ≡ some (front, back)
unfolding slice_at
slice_at-append [] back = refl
slice_at-append (c ∷ front) back =
    slice_at-suc (byte_len front) c (front ++ back) front back (slice_at-append front back)

text_assoc : (a b c : List Char) → (a ++ b) ++ c ≡ a ++ (b ++ c)
text_assoc [] b c = refl
text_assoc (x ∷ a) b c = ap (◌∷◌ x) (text_assoc a b c)

pub replace_at-append :
    (front middle back replacement : List Char)
    → replace_at (front ++ (middle ++ back)) (byte_len front) (byte_len middle) replacement
      ≡ some (front ++ (replacement ++ back))
unfolding replace_at
replace_at-append front middle back replacement =
    let far : slice_at (byte_len front + byte_len middle) (front ++ (middle ++ back))
        ≡ some (front ++ middle, back) =
      ap (λ (n : ℕ). slice_at n (front ++ (middle ++ back))) (sym (byte_len-append front middle))
      ∙ ap (slice_at (byte_len (front ++ middle))) (sym (text_assoc front middle back))
      ∙ slice_at-append (front ++ middle) back in
    rw (slice_at-append front (middle ++ back), replace_at, far) refl

same→eq : (c d : Char) → same c d ≡ true → c ≡ d
same→eq c d h = Char-path c d (eqb→eq (code c) (code d) h)

-- what `starts_with` tests
pub strip_prefix-append : (p s : List Char) → strip_prefix p (p ++ s) ≡ some s
unfolding strip_prefix
strip_prefix-append [] s = refl
strip_prefix-append (c ∷ p) s = ground (arith, strip_prefix-append p s)

prefixed :
    (p s : List Char) → is_some (strip_prefix p s) ≡ true → (back : List Char) × (s ≡ p ++ back)
unfolding strip_prefix
prefixed [] s h = (s, refl)
prefixed (c ∷ p) [] h = absurd (ground arith)
prefixed (c ∷ p) (d ∷ s) h = elim (Bool-cases (same c d)) [
  | inr e ↦ absurd (ground (arith, h, e))
  | inl e ↦
      let (back, f) = prefixed p s (ground (arith, h, e)) in
      (back, ap (λ (x : Char). x ∷ s) (sym (same→eq c d e)) ∙ ap (◌∷◌ c) f)
]

abbrev rest_chars : List Char → List Char
rest_chars [] = []
rest_chars (c ∷ s) = s

-- The place that `find` answers with, and what stands before and after the text there.
abbrev pub FoundAt : List Char → List Char → ℕ → Type 0
FoundAt sought content pos =
    (front : List Char) × (back : List Char) × (content ≡ front ++ (sought ++ back))
    × (pos ≡ byte_len front)
    × ((sooner later : List Char)
        → content ≡ sooner ++ (sought ++ later)
        → length front ≤ length sooner)

not_here :
    (sought content later : List Char)
    → starts_with sought content ≡ false
    → content ≢ sought ++ later
unfolding starts_with
not_here sought content later h e =
    let here : is_some (strip_prefix sought content) ≡ true =
      ap (λ (s : List Char). is_some (strip_prefix sought s)) e
      ∙ ap is_some (strip_prefix-append sought later) in
    ground (arith, h, here)

not_sooner :
    (sought : List Char) (c : Char) (s : List Char) (n : ℕ)
    → starts_with sought (c ∷ s) ≡ false
    → ((sooner later : List Char) → s ≡ sooner ++ (sought ++ later) → n ≤ length sooner)
    → (sooner later : List Char) → c ∷ s ≡ sooner ++ (sought ++ later)
    → suc n ≤ length sooner
not_sooner sought c s n e first [] later g = absurd (not_here sought (c ∷ s) later e g)
not_sooner sought c s n e first (d ∷ sooner) later g =
    omega (arith, first sooner later (ap rest_chars g))

find-FoundAt :
    (sought content : List Char) (pos : ℕ)
    → find sought content ≡ some pos
    → FoundAt sought content pos
unfolding find starts_with
find-FoundAt sought [] pos h = elim (Bool-cases (starts_with sought [])) [
  | inr e ↦ absurd (ground (arith, h, e))
  | inl e ↦
      let (back, f) = prefixed sought [] e in
      ([], back, f, ground (arith, h, e), λ sooner later g. omega arith)
]
find-FoundAt sought (c ∷ s) pos h = elim (Bool-cases (starts_with sought (c ∷ s))) [
  | inl e ↦
      let (back, f) = prefixed sought (c ∷ s) e in
      ([], back, f, ground (arith, h, e), λ sooner later g. omega arith)
  | inr e ↦ elim (Option-cases (find sought s)) [
    | inl f ↦ absurd (ground (arith, h, e, f))
    | inr (at, f) ↦
        let (front, back, same_text, place, first) = find-FoundAt sought s at f in
        (
          c ∷ front,
          back,
          ap (◌∷◌ c) same_text,
          ground (arith, h, e, f, place),
          not_sooner sought c s (length front) e first,
        )
  ]
]

find-none :
    (sought content front back : List Char)
    → find sought content ≡ none
    → content ≢ front ++ (sought ++ back)
unfolding find starts_with
find-none sought [] [] back h e = not_here sought [] back (ground (arith, h)) e
find-none sought [] (d ∷ front) back h e = cc
find-none sought (c ∷ s) [] back h e = not_here sought (c ∷ s) back (ground (arith, h)) e
find-none sought (c ∷ s) (d ∷ front) back h e =
    find-none sought s front back (ground (arith, h)) (ap rest_chars e)

-- Whatever the strategies that are allowed: a search text that occurs in the content is replaced at
-- its first occurrence, as an exact match, and the text before and after it stays.
pub find_and_replace-exact :
    (white : Char → Bool) (config : EditConfig)
    (content sought replacement before after : List Char)
    → content ≡ before ++ (sought ++ after)
    → (front : List Char) × (back : List Char) × (content ≡ front ++ (sought ++ back))
      × (length front ≤ length before)
      × (find_and_replace white config content sought replacement
          ≡ ok (front ++ (replacement ++ back), exact))
unfolding find_and_replace
find_and_replace-exact white config content sought replacement before after occurs =
    elim (Option-cases (find sought content)) [
      | inl e ↦ absurd (find-none sought content before after e occurs)
      | inr (pos, e) ↦
          let (front, back, split_text, place, first) = find-FoundAt sought content pos e in
          let done : replace_at content pos (byte_len sought) replacement
              ≡ some (front ++ (replacement ++ back)) =
            ap (λ (n : ℕ). replace_at content n (byte_len sought) replacement) place
            ∙ ap (λ (s : List Char). replace_at s (byte_len front) (byte_len sought) replacement)
                split_text
            ∙ replace_at-append front sought back replacement in
          (front, back, split_text, first before after occurs, rw (e, find_and_replace, done) refl)
    ]
