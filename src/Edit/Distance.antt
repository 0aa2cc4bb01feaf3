-- ===== src/Edit/Distance.antt =====
-- crates/turbovault-vault/src/edit.rs, `fuzzy_find_levenshtein`: the row of edit distances, and both passes
-- over the content.
use Prim.Native.Char.{Char, code}
use turbovault.Common.{
  ℕ, suc, ◌+◌, ◌-◌, ◌*◌, Bool, Option, none, some, List, [], ◌∷◌, ◌||◌, ◌&&◌, eqb, leb, ltb, length,
  take, drop, if◌then◌else◌,
}
use turbovault.Text.{same}

abbrev pub min_of : ℕ → ℕ → ℕ
min_of a b = if leb a b then a else b

abbrev pub cost : Char → Char → ℕ
cost c s = if same c s then 0 else 1

-- the loop over `j`, with `prev_diag` and the entry before
unfoldable pub row_loop : Char → List Char → List ℕ → ℕ → ℕ → List ℕ
row_loop c [] olds diag left = []
row_loop c (s ∷ ss) [] diag left = []
row_loop c (s ∷ ss) (old ∷ olds) diag left =
    let new = min_of (min_of (diag + cost c s) (suc old)) (suc left) in
    new ∷ row_loop c ss olds old new

-- `dp` after one more character of the content
unfoldable pub next_row : Char → List Char → List ℕ → List ℕ
unfolding row_loop
next_row c search [] = []
next_row c search (first ∷ olds) = 0 ∷ row_loop c search olds 0 0

-- `dp` at the start: `0, 1, …, m`
unfoldable pub first_row : ℕ → List Char → List ℕ
first_row j [] = j ∷ []
first_row j (s ∷ ss) = j ∷ first_row (suc j) ss

-- `dp[m]`
abbrev pub last_entry : List ℕ → ℕ
last_entry [] = 0
last_entry (d ∷ []) = d
last_entry (d ∷ e ∷ ds) = last_entry (e ∷ ds)

-- `if dp[m] <= threshold && best.is_none_or(|(_, d)| dp[m] < d) { best = Some((i, dp[m])) }`
unfoldable pub better : ℕ → ℕ → ℕ → Option (ℕ × ℕ) → Option (ℕ × ℕ)
better threshold i d none = if leb d threshold then some (i, d) else none
better threshold i d (some (at, least)) =
    if leb d threshold && ltb d least then some (i, d) else some (at, least)

-- the loop over the content: where the best alignment ends, and its distance
unfoldable pub best_end : ℕ → List Char → ℕ → List Char → List ℕ → Option (ℕ × ℕ) → Option (ℕ × ℕ)
unfolding next_row better
best_end threshold search i [] row best = best
best_end threshold search i (c ∷ cs) row best =
    let next = next_row c search row in
    best_end threshold search (suc i) cs next (better threshold (suc i) (last_entry next) best)

abbrev pub reverse : List Char → List Char → List Char
reverse done [] = done
reverse done (c ∷ s) = reverse (c ∷ done) s

-- `EditConfig`; the similarity is a float, of which the source makes a threshold for each length
pub record EditConfig : Type 0 where
  pub threshold : ℕ → ℕ
  pub allow_whitespace_flex : Bool
  pub allow_indent_flex : Bool
  pub allow_fuzzy_match : Bool
  pub max_fuzzy_budget : ℕ
  pub max_search_len : ℕ

-- the number of bytes of a character, and of a text, in UTF-8
abbrev pub len_utf8 : Char → ℕ
len_utf8 c =
    if ltb (code c) 128
    then 1
    else if ltb (code c) 2048
    then 2
    else if ltb (code c) 65536
    then 3
    else 4

abbrev pub byte_len : List Char → ℕ
byte_len [] = 0
byte_len (c ∷ s) = len_utf8 c + byte_len s

-- the second pass, from the end of the best alignment backwards
unfoldable pub align_back : EditConfig → List Char → List Char → ℕ → Option (ℕ × ℕ)
unfolding best_end first_row
align_back config content search end_idx =
    let m = length search in
    let threshold = config.threshold m in
    let back = take (min_of (m + threshold) end_idx) (reverse [] (take end_idx content)) in
    elim (best_end threshold (reverse [] search) 0 back (first_row 0 search) none) [
      | none ↦ none
      | some (match_len, d) ↦
          let start_idx = end_idx - match_len in
          some
            (byte_len (take start_idx content), byte_len (take match_len (drop start_idx content)))
    ]

-- EditEngine::fuzzy_find_levenshtein
unfoldable pub fuzzy_find_levenshtein : EditConfig → List Char → List Char → Option (ℕ × ℕ)
unfolding best_end first_row align_back
fuzzy_find_levenshtein config content search =
    let n = length content in
    let m = length search in
    if eqb m 0 || eqb n 0 || ltb config.max_search_len m || ltb config.max_fuzzy_budget (n * m)
    then none
    else elim (best_end (config.threshold m) search 0 content (first_row 0 search) none) [
      | none ↦ none
      | some (end_idx, d) ↦ align_back config content search end_idx
    ]
