-- ===== src/Typo/Distance/Damerau.antt =====
-- The matrix of `DamerauLevenshteinDistance` computes the least number of edits where two
-- neighbouring runes may also be swapped.
use clai.Common.{
  ℕ, suc, ◌+◌, ◌≤◌, min, ◌==◌, ==_iff, ◌&&◌, if◌then◌else◌, List, [], ◌∷◌, ◌++◌, length, get_or,
  ◌≡◌, ◌≢◌, refl, sym, ap, ap₂, ◌∙◌, arith, Text, inl, inr, Bool-cases, leb, leb→le, leb-false,
  Bool, true, append-nil, append_assoc, subst, Option, none, some,
}
use mathlib.Core.List.{reverse, reverse-cons}
use clai.Typo.Distance.{
  cost, min₃, count_row, transposed, advance, fill_damerau, next_damerau, damerau_rows,
  damerau_levenshtein_distance,
}
use clai.Typo.Distance.Script.{
  swapping, Edits, done, keep, substitute, delete, insert, transpose, IsLeast, IsLeast-reverse,
  cast, match_one, cost_self, cost-le, min₃-cases,
}

abbrev swap_test : ℕ → ℕ → ℕ → ℕ → Bool
swap_test x x2 y y2 = x == y2 && x2 == y

-- The recursive specification, on texts read from their ends.
osa : Text → Text → ℕ
osa [] b = length b
osa (x ∷ a) [] = suc (length a)
osa (x ∷ x2 ∷ a) (y ∷ y2 ∷ b) =
    let base =
      min₃ (osa (x2 ∷ a) (y ∷ y2 ∷ b) + 1) (osa (x ∷ x2 ∷ a) (y2 ∷ b) + 1)
        (osa (x2 ∷ a) (y2 ∷ b) + cost x y) in
    if swap_test x x2 y y2 then min base (osa a b + cost x y) else base
osa (x ∷ a) (y ∷ b) = min₃ (osa a (y ∷ b) + 1) (osa (x ∷ a) b + 1) (osa a b + cost x y)

osa-nil : (a : Text) → osa a [] ≡ length a
unfolding osa
osa-nil [] = refl
osa-nil (x ∷ a) = refl

abbrev first : Text → Option ℕ
first [] = none
first (x ∷ _) = some x

row_tail : Text → Text → Text → List ℕ
row_tail a acc [] = []
row_tail a acc (y ∷ bs) = osa a (y ∷ acc) ∷ row_tail a (y ∷ acc) bs

-- What is left of the row before last when the prefix `acc` has been passed.
older : Text → Text → Text → List ℕ
older [] acc bs = []
older (x ∷ a) [] bs = osa a [] ∷ row_tail a [] bs
older (x ∷ a) (y ∷ acc) bs = osa a acc ∷ row_tail a acc (y ∷ bs)

advance-older :
    (a acc bs : Text) (y : ℕ) → advance (first acc) (older a acc (y ∷ bs)) ≡ older a (y ∷ acc) bs
unfolding older row_tail
advance-older [] [] bs y = refl
advance-older [] (y2 ∷ acc) bs y = refl
advance-older (x ∷ a) [] bs y = refl
advance-older (x ∷ a) (y2 ∷ acc) bs y = refl

transposed-osa :
    (x y : ℕ) (a acc bs : Text)
    → transposed x
        (first a)
        y
        (first acc)
        (older a acc bs)
        (min₃ (osa a (y ∷ acc) + 1) (osa (x ∷ a) acc + 1) (osa a acc + cost x y))
      ≡ osa (x ∷ a) (y ∷ acc)
unfolding older osa
transposed-osa x y [] [] bs = refl
transposed-osa x y [] (y2 ∷ acc) bs = refl
transposed-osa x y (x2 ∷ a) [] bs = refl
transposed-osa x y (x2 ∷ a) (y2 ∷ acc) bs = refl

fill_damerau-row_tail :
    (x : ℕ) (a acc bs : Text)
    → fill_damerau x
        (first a)
        (osa (x ∷ a) acc)
        (osa a acc)
        (first acc)
        (older a acc bs)
        bs
        (row_tail a acc bs)
      ≡ row_tail (x ∷ a) acc bs
unfolding fill_damerau row_tail
fill_damerau-row_tail x a acc [] = refl
fill_damerau-row_tail x a acc (y ∷ bs) =
    rw (transposed-osa x y a acc (y ∷ bs), advance-older a acc bs y)
      (ap (λ r. osa (x ∷ a) (y ∷ acc) ∷ r) (fill_damerau-row_tail x a (y ∷ acc) bs))

next_damerau-row_tail :
    (x i : ℕ) (a bs : Text)
    → i ≡ suc (length a)
    → next_damerau x (first a) i bs (older a [] bs) (osa a [] ∷ row_tail a [] bs)
      ≡ osa (x ∷ a) [] ∷ row_tail (x ∷ a) [] bs
unfolding osa
next_damerau-row_tail x i a bs e =
    ap (λ k. next_damerau x (first a) k bs (older a [] bs) (osa a [] ∷ row_tail a [] bs)) e
    ∙ ap (λ r. osa (x ∷ a) [] ∷ r) (fill_damerau-row_tail x a [] bs)

damerau_rows-row_tail :
    (i : ℕ) (a xs bs : Text)
    → i ≡ suc (length a)
    → damerau_rows i (first a) xs bs (older a [] bs) (osa a [] ∷ row_tail a [] bs)
      ≡ osa (reverse xs ++ a) [] ∷ row_tail (reverse xs ++ a) [] bs
unfolding damerau_rows older
damerau_rows-row_tail i a [] bs e = refl
damerau_rows-row_tail i a (x ∷ xs) bs e =
    rw (next_damerau-row_tail x i a bs e, reverse-cons, append_assoc)
      (damerau_rows-row_tail (suc i) (x ∷ a) xs bs (ap suc e))

count_row-row_tail : (acc bs : Text) → count_row (length acc) bs ≡ length acc ∷ row_tail [] acc bs
unfolding row_tail osa
count_row-row_tail acc [] = refl
count_row-row_tail acc (y ∷ bs) = ap (λ r. length acc ∷ r) (count_row-row_tail (y ∷ acc) bs)

get_or-row_tail :
    (a acc bs : Text)
    → get_or (osa a acc ∷ row_tail a acc bs) (length bs) 0 ≡ osa a (reverse bs ++ acc)
unfolding row_tail
get_or-row_tail a acc [] = refl
get_or-row_tail a acc (y ∷ bs) = rw (reverse-cons, append_assoc) (get_or-row_tail a (y ∷ acc) bs)

-- The three plain edits, at any texts.
osa-le :
    (x y : ℕ) (a b : Text)
    → osa (x ∷ a) (y ∷ b) ≤ min₃ (osa a (y ∷ b) + 1) (osa (x ∷ a) b + 1) (osa a b + cost x y)
unfolding osa
osa-le x y [] [] = omega arith
osa-le x y [] (y2 ∷ b) = omega arith
osa-le x y (x2 ∷ a) [] = omega arith
osa-le x y (x2 ∷ a) (y2 ∷ b) = ground arith

osa-delete : (x : ℕ) (a b : Text) → osa (x ∷ a) b ≤ osa a b + 1
osa-delete x a [] = omega (arith, osa-nil (x ∷ a), osa-nil a)
osa-delete x a (y ∷ b) = omega (arith, osa-le x y a b)

osa-insert : (y : ℕ) (a b : Text) → osa a (y ∷ b) ≤ osa a b + 1
osa-insert y [] b = unfold osa in omega arith
osa-insert y (x ∷ a) b = omega (arith, osa-le x y a b)

osa-transpose : (x y : ℕ) (a b : Text) → osa (x ∷ y ∷ a) (y ∷ x ∷ b) ≤ osa a b + 1
unfolding osa
osa-transpose x y a b = ground arith

swap_one :
    {a b : Text} {n : ℕ} (x x2 y y2 : ℕ)
    → swap_test x x2 y y2 ≡ true
    → Edits swapping a b n
    → Edits swapping (x ∷ x2 ∷ a) (y ∷ y2 ∷ b) (n + cost x y)
swap_one {a} {b} {n} x x2 y y2 t s =
    let p : x ≡ y2 = ground arith in
    let q : x2 ≡ y = ground arith in
    elim (Bool-cases (x == y)) [
      | inl same ↦
          let r : x ≡ y = (==_iff x y).0 same in
          let e : x ≡ x2 = r ∙ sym q in
          rw same (
            subst (λ u. Edits swapping (x ∷ x2 ∷ a) (u ∷ y2 ∷ b) (n + 0)) r
              (subst (λ u. Edits swapping (x ∷ x2 ∷ a) (x ∷ u ∷ b) (n + 0)) p
                (subst (λ u. Edits swapping (x ∷ u ∷ a) (x ∷ x ∷ b) (n + 0)) e
                  (cast (omega arith) (keep x (keep x s))))))
      | inr other ↦ rw other (
          subst (λ u. Edits swapping (x ∷ x2 ∷ a) (u ∷ y2 ∷ b) (n + 1)) q
            (subst (λ u. Edits swapping (x ∷ x2 ∷ a) (x2 ∷ u ∷ b) (n + 1)) p
              (cast (omega arith) (transpose x x2 refl s))))
    ]

plain_edit :
    (x y : ℕ) (a b : Text)
    → Edits swapping a (y ∷ b) (osa a (y ∷ b))
    → Edits swapping (x ∷ a) b (osa (x ∷ a) b)
    → Edits swapping a b (osa a b)
    → Edits swapping
        (x ∷ a)
        (y ∷ b)
        (min₃ (osa a (y ∷ b) + 1) (osa (x ∷ a) b + 1) (osa a b + cost x y))
plain_edit x y a b d i s =
    elim (min₃-cases (osa a (y ∷ b) + 1) (osa (x ∷ a) b + 1) (osa a b + cost x y)) [
      | inl del ↦ rw del (cast (omega arith) (delete x d))
      | inr (inl ins) ↦ rw ins (cast (omega arith) (insert y i))
      | inr (inr sub) ↦ rw sub (match_one x y s)
    ]

min_edit :
    {a b : Text} (p q : ℕ)
    → Edits swapping a b p
    → Edits swapping a b q
    → Edits swapping a b (min p q)
min_edit p q s t = elim (Bool-cases (leb p q)) [
  | inl le ↦ cast (omega (arith, leb→le p q le)) s
  | inr gt ↦ cast (omega (arith, leb-false p q gt)) t
]

-- Some script has `osa` edits.
osa-Edits : (a b : Text) → Edits swapping a b (osa a b)
unfolding osa
osa-Edits [] [] = done
osa-Edits [] (y ∷ b) = insert y (osa-Edits [] b)
osa-Edits (x ∷ a) [] = cast (ap suc (osa-nil a)) (delete x (osa-Edits a []))
osa-Edits (x ∷ []) (y ∷ b) =
    plain_edit x y [] b (osa-Edits [] (y ∷ b)) (osa-Edits (x ∷ []) b) (osa-Edits [] b)
osa-Edits (x ∷ x2 ∷ a) (y ∷ []) =
    plain_edit x y (x2 ∷ a) [] (osa-Edits (x2 ∷ a) (y ∷ [])) (osa-Edits (x ∷ x2 ∷ a) [])
      (osa-Edits (x2 ∷ a) [])
osa-Edits (x ∷ x2 ∷ a) (y ∷ y2 ∷ b) =
    let base =
      plain_edit x y (x2 ∷ a) (y2 ∷ b) (osa-Edits (x2 ∷ a) (y ∷ y2 ∷ b))
        (osa-Edits (x ∷ x2 ∷ a) (y2 ∷ b)) (osa-Edits (x2 ∷ a) (y2 ∷ b)) in
    let rest = osa-Edits a b in
    elim (Bool-cases (swap_test x x2 y y2)) [
      | inl swap ↦ rw swap (min_edit _ _ base (swap_one x x2 y y2 swap rest))
      | inr other ↦ rw other base
    ]

-- No script has fewer.
osa-least : {a b : Text} (m : ℕ) → Edits swapping a b m → osa a b ≤ m
osa-least m done = unfold osa in omega arith
osa-least m (keep {a} {b} {n} x s) = omega (arith, osa-le x x a b, cost_self x, osa-least n s)
osa-least m (substitute {a} {b} {n} x y s) =
    omega (arith, osa-le x y a b, cost-le x y, osa-least n s)
osa-least m (delete {a} {b} {n} x s) = omega (arith, osa-delete x a b, osa-least n s)
osa-least m (insert {a} {b} {n} y s) = omega (arith, osa-insert y a b, osa-least n s)
osa-least m (transpose {a} {b} {n} x y p s) = omega (arith, osa-transpose x y a b, osa-least n s)

damerau-osa :
    (x y : ℕ) (a b : Text)
    → damerau_levenshtein_distance (x ∷ a) (y ∷ b) ≡ osa (reverse (x ∷ a)) (reverse (y ∷ b))
unfolding damerau_levenshtein_distance osa older
damerau-osa x y a b =
    ap (λ r. get_or (damerau_rows 1 none (x ∷ a) (y ∷ b) [] r) (length (y ∷ b)) 0)
      (count_row-row_tail [] (y ∷ b))
    ∙ ap (λ r. get_or r (length (y ∷ b)) 0) (damerau_rows-row_tail 1 [] (x ∷ a) (y ∷ b) refl)
    ∙ get_or-row_tail (reverse (x ∷ a) ++ []) [] (y ∷ b)
    ∙ ap₂ osa (append-nil (reverse (x ∷ a))) (append-nil (reverse (y ∷ b)))

-- For two texts that are not empty, `DamerauLevenshteinDistance` is the least number of
-- insertions, deletions, substitutions and swaps of two neighbouring runes that turn the first
-- into the second, where no place is edited twice.
pub damerau_levenshtein_distance-IsLeast :
    (a b : Text) → a ≢ [] → b ≢ [] → IsLeast swapping a b (damerau_levenshtein_distance a b)
damerau_levenshtein_distance-IsLeast [] b p q = absurd (p refl)
damerau_levenshtein_distance-IsLeast (x ∷ a) [] p q = absurd (q refl)
damerau_levenshtein_distance-IsLeast (x ∷ a) (y ∷ b) p q = rw damerau-osa (
    IsLeast-reverse (x ∷ a) (y ∷ b) (osa (reverse (x ∷ a)) (reverse (y ∷ b))) (record {
      script = osa-Edits (reverse (x ∷ a)) (reverse (y ∷ b));
      least = λ m s. osa-least m s;
    }))
