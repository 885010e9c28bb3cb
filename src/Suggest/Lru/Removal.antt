-- ===== src/Suggest/Lru/Removal.antt =====
-- internal/suggestions/suggest/lru.go: `DeleteFunc` removes exactly the entries that its predicate
-- holds of.
use clai.Common.{
  ℕ, Bool, true, false, not, List, [], ◌∷◌, suc, length, keep, Option, ◌≡◌, ◌≢◌, refl, sym, ap,
  subst, ap₂, ◌∙◌, All, All-weaken, inl, inr, Bool-cases,
}
use clai.Suggest.Lru.{Element, Lru, without, remove_element, remove_each, delete_func}
use clai.Suggest.Lru.Elements.{view, Differs, Distinct, IsAt, All-IsAt, same_id, other_id}
use clai.Suggest.Lru.Recency.{forget, forget-cons_ne, forget-cons_eq}
use clai.Suggest.Lru.Valid.{IsValid, remove_element_lem}
use clai.Suggest.Lru.Refinement.{Refines}

keep_yes :
    {A : Type 0} (f : A → Bool) (x : A) (xs : List A) → f x ≡ true → keep f (x ∷ xs) ≡ x ∷ keep f xs
keep_yes f x xs e = rw (keep, e) refl

keep_no :
    {A : Type 0} (f : A → Bool) (x : A) (xs : List A) → f x ≡ false → keep f (x ∷ xs) ≡ keep f xs
keep_no f x xs e = rw (keep, e) refl

module _ {K V : Type 0} (dec : Discrete K) where
  abbrev forget_all : List (Element K V) → List (K × V) → List (K × V)
  forget_all [] m = m
  forget_all (x ∷ xs) m = forget_all xs (forget dec x.entry.key m)

  forget_all-cons :
      (xs : List (Element K V)) (j : K) (v : V) (m : List (K × V))
      → All (λ y. y.entry.key ≢ j) xs
      → forget_all xs ((j, v) ∷ m) ≡ (j, v) ∷ forget_all xs m
  forget_all-cons [] j v m h = refl
  forget_all-cons (x ∷ xs) j v m h =
      ap (forget_all xs) (forget-cons_ne dec x.entry.key j v m (λ e. h.0 (sym e)))
      ∙ forget_all-cons xs j v (forget dec x.entry.key m) h.1

  All-keep :
      (P : Element K V → Type 0) (f : Element K V → Bool) (xs : List (Element K V))
      → All P xs
      → All P (keep f xs)
  All-keep P f [] h = tt
  All-keep P f (x ∷ xs) h = elim (Bool-cases (f x)) [
    | inl e ↦ subst (All P) (sym (keep_yes f x xs e)) (h.0, All-keep P f xs h.1)
    | inr e ↦ subst (All P) (sym (keep_no f x xs e)) (All-keep P f xs h.1)
  ]

  Distinct-keep :
      (f : Element K V → Bool) (xs : List (Element K V)) → Distinct xs → Distinct (keep f xs)
  Distinct-keep f [] d = tt
  Distinct-keep f (x ∷ xs) d = elim (Bool-cases (f x)) [
    | inl e ↦
        subst Distinct (sym (keep_yes f x xs e))
          (All-keep (Differs x) f xs d.0, Distinct-keep f xs d.1)
    | inr e ↦ subst Distinct (sym (keep_no f x xs e)) (Distinct-keep f xs d.1)
  ]

  all-IsAt : (xs : List (Element K V)) → All (λ x. IsAt x xs) xs
  all-IsAt [] = tt
  all-IsAt (x ∷ xs) = (inl refl, All-weaken _ _ xs (λ y m. inr m) (all-IsAt xs))

  IsAt-without :
      (x y : Element K V) (xs : List (Element K V))
      → Distinct xs
      → Differs x y
      → IsAt x xs
      → IsAt y xs
      → IsAt y (without x.id xs)
  unfolding without
  IsAt-without x y [] d p m n = absurd m
  IsAt-without x y (z ∷ zs) d p (inl e) (inl f) = absurd (p.0 (ap (λ w. w.id) (sym f ∙ e)))
  IsAt-without x y (z ∷ zs) d p (inl e) (inr n) = rw (same_id x z e) n
  IsAt-without x y (z ∷ zs) d p (inr m) (inl f) =
      rw (other_id x z (All-IsAt (Differs z) x zs d.0 m)) (inl f)
  IsAt-without x y (z ∷ zs) d p (inr m) (inr n) =
      rw (other_id x z (All-IsAt (Differs z) x zs d.0 m)) (inr (IsAt-without x y zs d.1 p m n))

  -- To forget the keys of the elements that pass a test is to keep the others.
  forget_all-keep :
      (p : K × V → Bool) (xs : List (Element K V))
      → Distinct xs
      → forget_all (keep (λ x. p (x.entry.key, x.entry.val)) xs) (view xs)
        ≡ keep (λ e. not (p e)) (view xs)
  forget_all-keep p [] d = refl
  forget_all-keep p (x ∷ xs) d =
      let test : Element K V → Bool = λ y. p (y.entry.key, y.entry.val) in
      elim (Bool-cases (p (x.entry.key, x.entry.val))) [
        | inl e ↦
            ap (λ ys. forget_all ys (view (x ∷ xs))) (keep_yes test x xs e)
            ∙ ap (forget_all (keep test xs))
                (forget-cons_eq dec x.entry.key x.entry.key x.entry.val (view xs) refl)
            ∙ forget_all-keep p xs d.1
            ∙ sym (keep_no (λ q. not (p q)) (x.entry.key, x.entry.val) (view xs) (ap not e))
        | inr e ↦
            ap (λ ys. forget_all ys (view (x ∷ xs))) (keep_no test x xs e)
            ∙ forget_all-cons (keep test xs) x.entry.key x.entry.val (view xs) (
                All-weaken (Differs x) _ (keep test xs) (λ y q. q.1)
                  (All-keep (Differs x) test xs d.0))
            ∙ ap (◌∷◌ (x.entry.key, x.entry.val)) (forget_all-keep p xs d.1)
            ∙ sym (keep_yes (λ q. not (p q)) (x.entry.key, x.entry.val) (view xs) (ap not e))
      ]

  length-keep-view :
      (p : K × V → Bool) (xs : List (Element K V))
      → length (keep (λ x. p (x.entry.key, x.entry.val)) xs) ≡ length (keep p (view xs))
  length-keep-view p [] = refl
  length-keep-view p (x ∷ xs) = elim (Bool-cases (p (x.entry.key, x.entry.val))) [
    | inl e ↦ rw e (ap suc (length-keep-view p xs))
    | inr e ↦ rw e (length-keep-view p xs)
  ]

  module _ (size_func : Option (K → V → ℕ)) where
    remove_each_lem :
        (xs : List (Element K V)) (l : Lru K V)
        → IsValid dec size_func l
        → Distinct xs
        → All (λ x. IsAt x l.order) xs
        → let t = remove_each dec size_func xs l in
          IsValid dec size_func t
          × (t.capacity ≡ l.capacity)
          × (view t.order ≡ forget_all xs (view l.order))
    unfolding remove_each remove_element
    remove_each_lem [] l h d m = (h, refl, refl)
    remove_each_lem (x ∷ xs) l h d m =
        let (valid, view_eq) = remove_element_lem dec size_func x l h m.0 in
        let there = stay xs d.0 m.1 in
        let (v, c, e) = remove_each_lem xs (remove_element dec size_func x l) valid d.1 there in
        (v, c, e ∙ ap (forget_all xs) view_eq)
      where
        stay :
            (ys : List (Element K V))
            → All (Differs x) ys
            → All (λ y. IsAt y l.order) ys
            → All (λ y. IsAt y (without x.id l.order)) ys
        stay [] p q = tt
        stay (y ∷ ys) p q = (IsAt-without x y l.order h.distinct p.0 m.0 q.0, stay ys p.1 q.1)

    pub delete_func_lem :
        (pred : K → V → Bool) (l : Lru K V)
        → IsValid dec size_func l
        → Refines dec size_func l (delete_func dec size_func pred l) (
          keep (λ e. not (pred e.0 e.1)) (view l.order),
          length (keep (λ e. pred e.0 e.1) (view l.order)),
        )
    unfolding delete_func
    delete_func_lem pred l h =
        let p : K × V → Bool = λ e. pred e.0 e.1 in
        let test : Element K V → Bool = λ x. pred x.entry.key x.entry.val in
        let (v, c, e) =
          remove_each_lem (keep test l.order) l h (Distinct-keep test l.order h.distinct)
            (All-keep _ test l.order (all-IsAt l.order)) in
        (
          v,
          c,
          ap₂ (λ m (n : ℕ). (m, n)) (e ∙ forget_all-keep p l.order h.distinct)
              (length-keep-view p l.order),
        )
