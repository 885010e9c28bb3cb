-- ===== src/Suggest/Lru/Elements.antt =====
-- internal/suggestions/suggest/lru.go: the elements of the linked list, against the entries in
-- order of use that they stand for.
use clai.Common.{
  ℕ, suc, ◌+◌, ◌-◌, ◌==◌, ==_iff, true, false, List, [], ◌∷◌, map, length, take, some, ◌≡◌, ◌≢◌,
  refl, sym, ap, subst, ◌∙◌, arith, All, Any, Bool-cases, inl, inr,
}
use clai.Suggest.Lru.{Element, entry_at, without, back}

module _ {K V : Type 0} where
  -- The keys and values, the most recent first.
  abbrev pub view : List (Element K V) → List (K × V)
  view xs = map (λ x. (x.entry.key, x.entry.val)) xs

  abbrev pub Differs : Element K V → Element K V → Type 0
  Differs x y = (y.id ≢ x.id) × (y.entry.key ≢ x.entry.key)

  abbrev pub Distinct : List (Element K V) → Type 0
  Distinct [] = Unit
  Distinct (x ∷ xs) = All (Differs x) xs × Distinct xs

  abbrev pub IsAt : Element K V → List (Element K V) → Type 0
  IsAt x xs = Any (λ y. y ≡ x) xs

  pub All-without :
      (P : Element K V → Type 0) (i : ℕ) (xs : List (Element K V)) → All P xs → All P (without i xs)
  unfolding without
  All-without P i [] h = tt
  All-without P i (x ∷ xs) h = elim (Bool-cases (x.id == i)) [
    | inl e ↦ rw e h.1
    | inr n ↦ rw n (h.0, All-without P i xs h.1)
  ]

  pub Distinct-without : (i : ℕ) (xs : List (Element K V)) → Distinct xs → Distinct (without i xs)
  unfolding without
  Distinct-without i [] d = tt
  Distinct-without i (x ∷ xs) d = elim (Bool-cases (x.id == i)) [
    | inl e ↦ rw e d.1
    | inr n ↦ rw n (All-without (Differs x) i xs d.0, Distinct-without i xs d.1)
  ]

  pub All-IsAt :
      (P : Element K V → Type 0) (x : Element K V) (xs : List (Element K V))
      → All P xs
      → IsAt x xs
      → P x
  All-IsAt P x [] h m = absurd m
  All-IsAt P x (y ∷ ys) h (inl e) = subst P e h.0
  All-IsAt P x (y ∷ ys) h (inr m) = All-IsAt P x ys h.1 m

  pub same_id : (x y : Element K V) → y ≡ x → (y.id == x.id) ≡ true
  same_id x y e = (==_iff y.id x.id).1 (ap (λ w. w.id) e)

  pub other_id : (x y : Element K V) → Differs y x → (y.id == x.id) ≡ false
  other_id x y d = elim (Bool-cases (y.id == x.id)) [
    | inl e ↦ absurd (d.0 (sym ((==_iff y.id x.id).0 e)))
    | inr n ↦ n
  ]

  -- The others differ from an element that is taken out.
  pub without-Differs :
      (x : Element K V) (xs : List (Element K V))
      → Distinct xs
      → IsAt x xs
      → All (Differs x) (without x.id xs)
  unfolding without
  without-Differs x [] d m = absurd m
  without-Differs x (y ∷ ys) d (inl e) = rw (same_id x y e) (subst (λ w. All (Differs w) ys) e d.0)
  without-Differs x (y ∷ ys) d (inr m) =
      let p = All-IsAt (Differs y) x ys d.0 m in
      rw (other_id x y p) ((λ e. p.0 (sym e), λ e. p.1 (sym e)), without-Differs x ys d.1 m)

  pub entry_at-IsAt :
      (x : Element K V) (xs : List (Element K V))
      → Distinct xs
      → IsAt x xs
      → entry_at x.id xs ≡ some x.entry
  unfolding entry_at
  entry_at-IsAt x [] d m = absurd m
  entry_at-IsAt x (y ∷ ys) d (inl e) = rw (same_id x y e) (ap (λ w. some w.entry) e)
  entry_at-IsAt x (y ∷ ys) d (inr m) =
      rw (other_id x y (All-IsAt (Differs y) x ys d.0 m)) (entry_at-IsAt x ys d.1 m)

  pub length-without :
      (x : Element K V) (xs : List (Element K V))
      → Distinct xs
      → IsAt x xs
      → length (without x.id xs) + 1 ≡ length xs
  unfolding without
  length-without x [] d m = absurd m
  length-without x (y ∷ ys) d (inl e) = rw (same_id x y e) (omega arith)
  length-without x (y ∷ ys) d (inr m) =
      rw (other_id x y (All-IsAt (Differs y) x ys d.0 m)) (omega (arith, length-without x ys d.1 m))

  pub back-IsAt : (x : Element K V) (xs : List (Element K V)) → back xs ≡ some x → IsAt x xs
  back-IsAt x [] h = absurd (cc)
  back-IsAt x (y ∷ []) h = inl (cc)
  back-IsAt x (y ∷ z ∷ xs) h = inr (back-IsAt x (z ∷ xs) h)

  pub without-back :
      (x : Element K V) (xs : List (Element K V))
      → Distinct xs
      → back xs ≡ some x
      → without x.id xs ≡ take (length xs - 1) xs
  unfolding without
  without-back x [] d h = absurd (cc)
  without-back x (y ∷ []) d h = let e : y ≡ x = cc in rw (same_id x y e) refl
  without-back x (y ∷ z ∷ xs) d h =
      let m = back-IsAt x (z ∷ xs) h in
      let outer : suc (suc (length xs)) - 1 ≡ suc (length xs) = omega arith in
      let inner : suc (length xs) - 1 ≡ length xs = omega arith in
      rw (other_id x y (All-IsAt (Differs y) x (z ∷ xs) d.0 m)) (
        ap (◌∷◌ y) (without-back x (z ∷ xs) d.1 h ∙ ap (λ k. take k (z ∷ xs)) inner)
        ∙ sym (ap (λ k. take k (y ∷ z ∷ xs)) outer))
