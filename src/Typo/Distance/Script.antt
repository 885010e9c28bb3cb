-- ===== src/Typo/Distance/Script.antt =====
-- What the distances are to measure: edit scripts between two texts and their numbers of edits.
use clai.Common.{ℕ, suc, ◌+◌, ◌≤◌, [], ◌∷◌, ◌++◌, ◌≡◌, arith, Text, subst, ◌⊎◌, inl, inr}
use clai.Typo.Distance.{cost, min₃}
use clai.Common.{Bool-cases, ==_iff, ◌==◌}
use mathlib.Core.List.{reverse, reverse-cons, reverse-reverse, append-nil, append_assoc}

-- A script of `n` edits from the first text to the second, each place edited at most once.
-- `transpose` stands only where the flag allows it.
pub data Flag : Type 0 where
  plain swapping : Flag

pub data Edits (f : Flag) : Text → Text → ℕ → Type 0 where
  done : Edits f [] [] 0
  keep : {a b : Text} {n : ℕ} (x : ℕ) → Edits f a b n → Edits f (x ∷ a) (x ∷ b) n
  substitute : {a b : Text} {n : ℕ} (x y : ℕ) → Edits f a b n → Edits f (x ∷ a) (y ∷ b) (suc n)
  delete : {a b : Text} {n : ℕ} (x : ℕ) → Edits f a b n → Edits f (x ∷ a) b (suc n)
  insert : {a b : Text} {n : ℕ} (y : ℕ) → Edits f a b n → Edits f a (y ∷ b) (suc n)
  transpose :
      {a b : Text} {n : ℕ} (x y : ℕ)
      → f ≡ swapping
      → Edits f a b n
      → Edits f (x ∷ y ∷ a) (y ∷ x ∷ b) (suc n)

-- `n` is the least number of edits between two texts.
pub record IsLeast (f : Flag) (a b : Text) (n : ℕ) : Type 0 where
  pub script : Edits f a b n
  pub least : (m : ℕ) → Edits f a b m → n ≤ m

module _ {f : Flag} where
  pub cast : {a b : Text} {n m : ℕ} → n ≡ m → Edits f a b n → Edits f a b m
  cast {a} {b} e s = subst (Edits f a b) e s

  pub Edits-append :
      {a b c d : Text} {n m : ℕ} → Edits f a b n → Edits f c d m → Edits f (a ++ c) (b ++ d) (n + m)
  Edits-append done e = cast (omega arith) e
  Edits-append (keep x s) e = keep x (Edits-append s e)
  Edits-append (substitute x y s) e = cast (omega arith) (substitute x y (Edits-append s e))
  Edits-append (delete x s) e = cast (omega arith) (delete x (Edits-append s e))
  Edits-append (insert y s) e = cast (omega arith) (insert y (Edits-append s e))
  Edits-append (transpose x y p s) e = cast (omega arith) (transpose x y p (Edits-append s e))

  pub Edits-reverse : {a b : Text} {n : ℕ} → Edits f a b n → Edits f (reverse a) (reverse b) n
  Edits-reverse done = done
  Edits-reverse (keep {a} {b} x s) =
      rw (reverse-cons x a, reverse-cons x b)
        (cast (omega arith) (Edits-append (Edits-reverse s) (keep x done)))
  Edits-reverse (substitute {a} {b} x y s) =
      rw (reverse-cons x a, reverse-cons y b)
        (cast (omega arith) (Edits-append (Edits-reverse s) (substitute x y done)))
  Edits-reverse (delete {a} {b} {n} x s) = rw (reverse-cons x a) (
      subst (λ t. Edits f (reverse a ++ x ∷ []) t (suc n)) (append-nil (reverse b))
        (cast (omega arith) (Edits-append (Edits-reverse s) (delete x done))))
  Edits-reverse (insert {a} {b} {n} y s) = rw (reverse-cons y b) (
      subst (λ t. Edits f t (reverse b ++ y ∷ []) (suc n)) (append-nil (reverse a))
        (cast (omega arith) (Edits-append (Edits-reverse s) (insert y done))))
  Edits-reverse (transpose {a} {b} x y p s) =
      rw (reverse-cons x (y ∷ a), reverse-cons y a, reverse-cons y (x ∷ b), reverse-cons x b)
        (rw (append_assoc, append_assoc)
          (cast (omega arith) (Edits-append (Edits-reverse s) (transpose y x p done))))

  -- The least number of edits is the same read from the other end.
  pub IsLeast-reverse : (a b : Text) (n : ℕ) → IsLeast f (reverse a) (reverse b) n → IsLeast f a b n
  IsLeast-reverse a b n l = record {
    script =
        subst (λ t. Edits f a t n) (reverse-reverse b)
          (subst (λ t. Edits f t (reverse (reverse b)) n) (reverse-reverse a)
            (Edits-reverse l.script));
    least = λ m s. l.least m (Edits-reverse s);
  }

  pub match_one :
      {a b : Text} {n : ℕ} (x y : ℕ) → Edits f a b n → Edits f (x ∷ a) (y ∷ b) (n + cost x y)
  match_one {a} {b} {n} x y s = elim (Bool-cases (x == y)) [
    | inl same ↦ rw (same, ← (==_iff x y).0 same) (cast (omega arith) (keep x s))
    | inr other ↦ rw other (cast (omega arith) (substitute x y s))
  ]

pub cost_self : (x : ℕ) → cost x x ≡ 0
cost_self x = ground arith

pub cost-le : (x y : ℕ) → cost x y ≤ 1
cost-le x y = ground arith

pub min₃-cases : (p q r : ℕ) → (min₃ p q r ≡ p) ⊎ ((min₃ p q r ≡ q) ⊎ (min₃ p q r ≡ r))
min₃-cases p q r = grind arith
