-- ===== src/Typo/Distance/Levenshtein.antt =====
-- The two rows of `LevenshteinDistance` compute the least number of edits.
use clai.Common.{
  ℕ, suc, ◌+◌, ◌≤◌, ◌<◌, List, [], ◌∷◌, ◌++◌, length, get_or, ◌≡◌, refl, ap, ap₂, ◌≢◌, ◌∙◌, arith,
  Text, ◌⊎◌, inl, inr, append-nil, append_assoc,
}
use mathlib.Core.List.{reverse, reverse-cons}
use clai.Typo.Distance.{
  rune_len, byte_len, cost, min₃, count_row, fill_row, next_row, fill_rows, levenshtein_distance,
}
use clai.Typo.Distance.Script.{
  plain, Edits, done, keep, substitute, delete, insert, transpose, IsLeast, IsLeast-reverse, cast,
  match_one, cost_self, cost-le, min₃-cases,
}

-- The recursive specification, on texts read from their ends.
lev : Text → Text → ℕ
lev [] b = length b
lev (x ∷ a) [] = suc (length a)
lev (x ∷ a) (y ∷ b) = min₃ (lev a (y ∷ b) + 1) (lev (x ∷ a) b + 1) (lev a b + cost x y)

lev-nil : (a : Text) → lev a [] ≡ length a
unfolding lev
lev-nil [] = refl
lev-nil (x ∷ a) = refl

-- The entries of a row to the right of the prefix `acc`, which is read from its end.
row_tail : Text → Text → Text → List ℕ
row_tail a acc [] = []
row_tail a acc (y ∷ bs) = lev a (y ∷ acc) ∷ row_tail a (y ∷ acc) bs

fill_row-row_tail :
    (x : ℕ) (a acc bs : Text)
    → fill_row x (lev (x ∷ a) acc) (lev a acc) bs (row_tail a acc bs) ≡ row_tail (x ∷ a) acc bs
unfolding fill_row row_tail lev
fill_row-row_tail x a acc [] = refl
fill_row-row_tail x a acc (y ∷ bs) =
    ap (λ r. lev (x ∷ a) (y ∷ acc) ∷ r) (fill_row-row_tail x a (y ∷ acc) bs)

next_row-row_tail :
    (x i : ℕ) (a bs : Text)
    → i ≡ suc (length a)
    → next_row x i bs (lev a [] ∷ row_tail a [] bs) ≡ lev (x ∷ a) [] ∷ row_tail (x ∷ a) [] bs
unfolding lev
next_row-row_tail x i a bs e =
    ap (λ k. next_row x k bs (lev a [] ∷ row_tail a [] bs)) e
    ∙ ap (λ r. lev (x ∷ a) [] ∷ r) (fill_row-row_tail x a [] bs)

fill_rows-row_tail :
    (i : ℕ) (a xs bs : Text)
    → i ≡ suc (length a)
    → fill_rows i xs bs (lev a [] ∷ row_tail a [] bs)
      ≡ lev (reverse xs ++ a) [] ∷ row_tail (reverse xs ++ a) [] bs
unfolding fill_rows
fill_rows-row_tail i a [] bs e = refl
fill_rows-row_tail i a (x ∷ xs) bs e =
    rw (next_row-row_tail x i a bs e, reverse-cons, append_assoc)
      (fill_rows-row_tail (suc i) (x ∷ a) xs bs (ap suc e))

count_row-row_tail : (acc bs : Text) → count_row (length acc) bs ≡ length acc ∷ row_tail [] acc bs
unfolding row_tail lev
count_row-row_tail acc [] = refl
count_row-row_tail acc (y ∷ bs) = ap (λ r. length acc ∷ r) (count_row-row_tail (y ∷ acc) bs)

get_or-row_tail :
    (a acc bs : Text)
    → get_or (lev a acc ∷ row_tail a acc bs) (length bs) 0 ≡ lev a (reverse bs ++ acc)
unfolding row_tail
get_or-row_tail a acc [] = refl
get_or-row_tail a acc (y ∷ bs) = rw (reverse-cons, append_assoc) (get_or-row_tail a (y ∷ acc) bs)

lev-delete : (x : ℕ) (a b : Text) → lev (x ∷ a) b ≤ lev a b + 1
unfolding lev
lev-delete x a [] = omega (arith, lev-nil a)
lev-delete x a (y ∷ b) = omega arith

lev-insert : (y : ℕ) (a b : Text) → lev a (y ∷ b) ≤ lev a b + 1
unfolding lev
lev-insert y [] b = omega arith
lev-insert y (x ∷ a) b = omega arith

lev-substitute : (x y : ℕ) (a b : Text) → lev (x ∷ a) (y ∷ b) ≤ lev a b + cost x y
unfolding lev
lev-substitute x y a b = omega arith

-- Some script has `lev` edits.
lev-Edits : (a b : Text) → Edits plain a b (lev a b)
unfolding lev
lev-Edits [] [] = done
lev-Edits [] (y ∷ b) = insert y (lev-Edits [] b)
lev-Edits (x ∷ a) [] = cast (ap suc (lev-nil a)) (delete x (lev-Edits a []))
lev-Edits (x ∷ a) (y ∷ b) =
    elim (min₃-cases (lev a (y ∷ b) + 1) (lev (x ∷ a) b + 1) (lev a b + cost x y)) [
      | inl del ↦ rw del (cast (omega arith) (delete x (lev-Edits a (y ∷ b))))
      | inr (inl ins) ↦ rw ins (cast (omega arith) (insert y (lev-Edits (x ∷ a) b)))
      | inr (inr sub) ↦ rw sub (match_one x y (lev-Edits a b))
    ]

-- No script has fewer.
lev-least : {a b : Text} (m : ℕ) → Edits plain a b m → lev a b ≤ m
unfolding lev
lev-least m done = omega arith
lev-least m (keep {a} {b} {n} x s) =
    omega (arith, lev-substitute x x a b, cost_self x, lev-least n s)
lev-least m (substitute {a} {b} {n} x y s) =
    omega (arith, lev-substitute x y a b, cost-le x y, lev-least n s)
lev-least m (delete {a} {b} {n} x s) = omega (arith, lev-delete x a b, lev-least n s)
lev-least m (insert {a} {b} {n} y s) = omega (arith, lev-insert y a b, lev-least n s)
lev-least m (transpose x y p s) = absurd (cc)

levenshtein_distance-lev :
    (x y : ℕ) (a b : Text)
    → levenshtein_distance (x ∷ a) (y ∷ b) ≡ lev (reverse (x ∷ a)) (reverse (y ∷ b))
unfolding levenshtein_distance lev
levenshtein_distance-lev x y a b =
    ap (λ r. get_or (fill_rows 1 (x ∷ a) (y ∷ b) r) (length (y ∷ b)) 0)
      (count_row-row_tail [] (y ∷ b))
    ∙ ap (λ r. get_or r (length (y ∷ b)) 0) (fill_rows-row_tail 1 [] (x ∷ a) (y ∷ b) refl)
    ∙ get_or-row_tail (reverse (x ∷ a) ++ []) [] (y ∷ b)
    ∙ ap₂ lev (append-nil (reverse (x ∷ a))) (append-nil (reverse (y ∷ b)))

-- For two texts that are not empty, `LevenshteinDistance` is the least number of insertions,
-- deletions and substitutions of single runes that turn the first into the second.
pub levenshtein_distance-IsLeast :
    (a b : Text) → a ≢ [] → b ≢ [] → IsLeast plain a b (levenshtein_distance a b)
levenshtein_distance-IsLeast [] b p q = absurd (p refl)
levenshtein_distance-IsLeast (x ∷ a) [] p q = absurd (q refl)
levenshtein_distance-IsLeast (x ∷ a) (y ∷ b) p q = rw levenshtein_distance-lev (
    IsLeast-reverse (x ∷ a) (y ∷ b) (lev (reverse (x ∷ a)) (reverse (y ∷ b))) (record {
      script = lev-Edits (reverse (x ∷ a)) (reverse (y ∷ b));
      least = λ m s. lev-least m s;
    }))

-- A rune beyond ASCII takes more bytes than one.
abbrev pub HasWide : Text → Type 0
HasWide [] = ⊥
HasWide (c ∷ s) = (128 ≤ c) ⊎ HasWide s

rune_len_pos : (c : ℕ) → 1 ≤ rune_len c
rune_len_pos c = ground arith

rune_len_wide : (c : ℕ) → 128 ≤ c → 2 ≤ rune_len c
rune_len_wide c h = ground arith

length-le-byte_len : (s : Text) → length s ≤ byte_len s
length-le-byte_len [] = omega arith
length-le-byte_len (c ∷ s) = omega (arith, rune_len_pos c, length-le-byte_len s)

byte_len_wide : (s : Text) → HasWide s → length s < byte_len s
byte_len_wide [] h = absurd h
byte_len_wide (c ∷ s) (inl wide) = omega (arith, rune_len_wide c wide, length-le-byte_len s)
byte_len_wide (c ∷ s) (inr h) = omega (arith, rune_len_pos c, byte_len_wide s h)

insert_all : (s : Text) → Edits plain [] s (length s)
insert_all [] = done
insert_all (c ∷ s) = insert c (insert_all s)

delete_all : (s : Text) → Edits plain s [] (length s)
delete_all [] = done
delete_all (c ∷ s) = delete c (delete_all s)

-- Where one text is empty and the other has a rune beyond ASCII, `LevenshteinDistance` is not
-- the least number of edits: it returns the number of bytes, and the runes are fewer.
pub levenshtein_distance-empty :
    (s : Text)
    → HasWide s
    → (¬ IsLeast plain [] s (levenshtein_distance [] s))
      × (¬ IsLeast plain s [] (levenshtein_distance s []))
unfolding levenshtein_distance
levenshtein_distance-empty [] h = absurd h
levenshtein_distance-empty (c ∷ s) h = (
  λ l. absurd (omega (arith, l.least _ (insert_all (c ∷ s)), byte_len_wide (c ∷ s) h)),
  λ l. absurd (omega (arith, l.least _ (delete_all (c ∷ s)), byte_len_wide (c ∷ s) h)),
)
