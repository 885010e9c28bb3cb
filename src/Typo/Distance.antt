-- ===== src/Typo/Distance.antt =====
-- internal/suggestions/typo/levenshtein.go. A string is the list of its runes, as `[]rune(s)`
-- gives them for valid UTF-8; `len(s)` counts its bytes. The loops over `i` and `j` are
-- recursions over the two texts, which carry the row entries that an iteration reads:
-- `left` is `curr[j-1]`, `diag` is `prev[j-1]` and the head of `prev` is `prev[j]`.
use clai.Common.{
  ℕ, zero, suc, ◌+◌, min, ◌==◌, ltb, if◌then◌else◌, ◌&&◌, List, [], ◌∷◌, length, get_or, Text,
  Option, none, some, tail,
}
pub mod Script
pub mod Levenshtein
pub mod Damerau

-- The bytes of a rune in UTF-8.
abbrev pub rune_len : ℕ → ℕ
rune_len c = if ltb c 128 then 1 else if ltb c 2048 then 2 else if ltb c 65536 then 3 else 4

abbrev pub byte_len : Text → ℕ
byte_len [] = 0
byte_len (c ∷ s) = rune_len c + byte_len s

abbrev pub cost : ℕ → ℕ → ℕ
cost x y = if x == y then 0 else 1

-- Go's `min` of three.
abbrev pub min₃ : ℕ → ℕ → ℕ → ℕ
min₃ a b c = min (min a b) c

-- The numbers from `k`, as many as the text has runes, and one more: `prev[j] = j`.
abbrev pub count_row : ℕ → Text → List ℕ
count_row k [] = k ∷ []
count_row k (_ ∷ s) = k ∷ count_row (suc k) s

-- The loop over `j` for the rune `x` of the first text.
unfoldable pub fill_row : ℕ → ℕ → ℕ → Text → List ℕ → List ℕ
fill_row x left diag [] prev = []
fill_row x left diag (y ∷ ys) [] = []
fill_row x left diag (y ∷ ys) (up ∷ prev) =
    let v = min₃ (up + 1) (left + 1) (diag + cost x y) in v ∷ fill_row x v up ys prev

abbrev pub next_row : ℕ → ℕ → Text → List ℕ → List ℕ
next_row x i runes_b [] = []
next_row x i runes_b (diag ∷ prev) = i ∷ fill_row x i diag runes_b prev

-- The loop over `i`.
unfoldable pub fill_rows : ℕ → Text → Text → List ℕ → List ℕ
fill_rows i [] runes_b prev = prev
fill_rows i (x ∷ xs) runes_b prev = fill_rows (suc i) xs runes_b (next_row x i runes_b prev)

unfoldable pub levenshtein_distance : Text → Text → ℕ
unfolding fill_rows fill_row
levenshtein_distance [] b = byte_len b
levenshtein_distance (x ∷ a) [] = byte_len (x ∷ a)
levenshtein_distance (x ∷ a) (y ∷ b) =
    get_or (fill_rows 1 (x ∷ a) (y ∷ b) (count_row 0 (y ∷ b))) (length (y ∷ b)) 0

-- The test for a transposition and its effect on `d[i][j]`. `x2` is `runesA[i-2]`, `y2` is
-- `runesB[j-2]`, where there are such, and the head of `prev2` is then `d[i-2][j-2]`.
abbrev pub transposed : ℕ → Option ℕ → ℕ → Option ℕ → List ℕ → ℕ → ℕ
transposed x (some x2) y (some y2) (d ∷ _) base =
    if x == y2 && x2 == y then min base (d + cost x y) else base
transposed x _ y _ _ base = base

abbrev pub advance : Option ℕ → List ℕ → List ℕ
advance none prev2 = prev2
advance (some _) prev2 = tail prev2

-- The loop over `j` of `DamerauLevenshteinDistance`.
unfoldable pub fill_damerau : ℕ → Option ℕ → ℕ → ℕ → Option ℕ → List ℕ → Text → List ℕ → List ℕ
fill_damerau x x2 left diag y2 prev2 [] prev = []
fill_damerau x x2 left diag y2 prev2 (y ∷ ys) [] = []
fill_damerau x x2 left diag y2 prev2 (y ∷ ys) (up ∷ prev) =
    let v = transposed x x2 y y2 prev2 (min₃ (up + 1) (left + 1) (diag + cost x y)) in
    v ∷ fill_damerau x x2 v up (some y) (advance y2 prev2) ys prev

abbrev pub next_damerau : ℕ → Option ℕ → ℕ → Text → List ℕ → List ℕ → List ℕ
next_damerau x x2 i runes_b prev2 [] = []
next_damerau x x2 i runes_b prev2 (diag ∷ prev) =
    i ∷ fill_damerau x x2 i diag none prev2 runes_b prev

-- The loop over `i`. Of the matrix `d` it reads the last two rows.
unfoldable pub damerau_rows : ℕ → Option ℕ → Text → Text → List ℕ → List ℕ → List ℕ
damerau_rows i x2 [] runes_b prev2 prev = prev
damerau_rows i x2 (x ∷ xs) runes_b prev2 prev =
    damerau_rows (suc i) (some x) xs runes_b prev (next_damerau x x2 i runes_b prev2 prev)

unfoldable pub damerau_levenshtein_distance : Text → Text → ℕ
unfolding damerau_rows fill_damerau
damerau_levenshtein_distance [] b = byte_len b
damerau_levenshtein_distance (x ∷ a) [] = byte_len (x ∷ a)
damerau_levenshtein_distance (x ∷ a) (y ∷ b) =
    get_or (damerau_rows 1 none (x ∷ a) (y ∷ b) [] (count_row 0 (y ∷ b))) (length (y ∷ b)) 0
