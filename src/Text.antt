-- ===== src/Text.antt =====
-- What the source uses of `str`, on texts as lists of characters. `char::is_whitespace` and the
-- lower case of a character are tables of Unicode and come as parameters where they are used.
use Prim.Native.Char.{Char, code}
use turbovault.Common.{
  String, ◌≡◌, refl, ap, Bool, true, false, Option, none, some, List, [], ◌∷◌, ◌++◌, eqb, ◌&&◌,
  if◌then◌else◌,
}

-- `s.chars()`, and `collect::<String>()`
unfoldable pub chars : String → List Char
chars String.[] = []
chars (String.◌∷◌ c s) = c ∷ chars s

unfoldable pub collect : List Char → String
collect [] = String.[]
collect (c ∷ cs) = String.◌∷◌ c (collect cs)

pub collect-chars : (s : String) → collect (chars s) ≡ s
unfolding collect chars
collect-chars String.[] = refl
collect-chars (String.◌∷◌ c s) = ap (String.◌∷◌ c) (collect-chars s)

pub chars-collect : (cs : List Char) → chars (collect cs) ≡ cs
unfolding collect chars
chars-collect [] = refl
chars-collect (c ∷ cs) = ap (◌∷◌ c) (chars-collect cs)

abbrev pub same : Char → Char → Bool
same a b = eqb (code a) (code b)

-- `s.strip_prefix(p)`; `starts_with` is that it is some
unfoldable pub strip_prefix : List Char → List Char → Option (List Char)
strip_prefix [] s = some s
strip_prefix (p ∷ ps) [] = none
strip_prefix (p ∷ ps) (c ∷ s) = let rest = strip_prefix ps s in if same p c then rest else none

abbrev pub is_some {ℓ} : {A : Type ℓ} → Option A → Bool
is_some none = false
is_some (some a) = true

unfoldable pub starts_with : List Char → List Char → Bool
unfolding strip_prefix
starts_with p s = is_some (strip_prefix p s)

unfoldable pub equal : List Char → List Char → Bool
equal [] [] = true
equal (a ∷ s) (b ∷ t) = same a b && equal s t
equal [] (b ∷ t) = false
equal (a ∷ s) [] = false

-- `s.strip_suffix(p).unwrap_or(s)`
unfoldable pub without_suffix : List Char → List Char → List Char
unfolding equal
without_suffix p [] = []
without_suffix p (c ∷ s) = let rest = c ∷ without_suffix p s in if equal (c ∷ s) p then [] else rest

-- `s.split(f)`: always at least one piece
abbrev pub push_front : Char → List (List Char) → List (List Char)
push_front c [] = (c ∷ []) ∷ []
push_front c (piece ∷ pieces) = (c ∷ piece) ∷ pieces

unfoldable pub split : (Char → Bool) → List Char → List (List Char)
split f [] = [] ∷ []
split f (c ∷ s) = let rest = split f s in if f c then [] ∷ rest else push_front c rest

-- `s.split(f).next().unwrap_or("")`
unfoldable pub before : (Char → Bool) → List Char → List Char
before f [] = []
before f (c ∷ s) = let rest = c ∷ before f s in if f c then [] else rest

unfoldable pub trim_start : (Char → Bool) → List Char → List Char
trim_start white [] = []
trim_start white (c ∷ s) = let rest = trim_start white s in if white c then rest else c ∷ s

abbrev pub trimmed : (Char → Bool) → Char → List Char → List Char
trimmed white c [] = if white c then [] else c ∷ []
trimmed white c (d ∷ s) = c ∷ d ∷ s

unfoldable pub trim_end : (Char → Bool) → List Char → List Char
trim_end white [] = []
trim_end white (c ∷ s) = trimmed white c (trim_end white s)

unfoldable pub trim : (Char → Bool) → List Char → List Char
unfolding trim_start trim_end
trim white s = trim_end white (trim_start white s)

-- `parts.join(sep)`
unfoldable pub join : List Char → List (List Char) → List Char
join sep [] = []
join sep (p ∷ []) = p
join sep (p ∷ q ∷ ps) = p ++ (sep ++ join sep (q ∷ ps))
