-- ===== src/Suggest/Lru/Recency.antt =====
-- What internal/suggestions/suggest/lru.go promises, on a list of keys and values in order of use,
-- and how its elements stand for such a list.
use mathlib.Core.Logic.{ite, if_pos, if_neg}
use clai.Common.{
  ℕ, List, [], ◌∷◌, Option, none, some, ◌≡◌, ◌≢◌, refl, sym, ap, ◌∙◌, arith, All, All-weaken, inl,
  inr,
}
use clai.Suggest.Lru.{Element, without}
use clai.Suggest.Lru.Elements.{view, Differs, Distinct, IsAt, All-IsAt, same_id, other_id}

module _ {K V : Type 0} (dec : Discrete K) where
  unfoldable pub recall : K → List (K × V) → Option V
  recall k [] = none
  recall k ((j, v) ∷ m) = ite (dec j k) (some v) (recall k m)

  unfoldable pub forget : K → List (K × V) → List (K × V)
  forget k [] = []
  forget k ((j, v) ∷ m) = let rest = forget k m in ite (dec j k) m ((j, v) ∷ rest)

  -- The address of the element with a key.
  unfoldable pub id_of : K → List (Element K V) → Option ℕ
  id_of k [] = none
  id_of k (x ∷ xs) = ite (dec x.entry.key k) (some x.id) (id_of k xs)

  id_of-cons_ne :
      (k : K) (x : Element K V) (xs : List (Element K V))
      → x.entry.key ≢ k
      → id_of k (x ∷ xs) ≡ id_of k xs
  unfolding id_of
  id_of-cons_ne k x xs n = if_neg (dec x.entry.key k) n (some x.id) (id_of k xs)

  recall-cons_ne : (k j : K) (v : V) (m : List (K × V)) → j ≢ k → recall k ((j, v) ∷ m) ≡ recall k m
  unfolding recall
  recall-cons_ne k j v m n = if_neg (dec j k) n (some v) (recall k m)

  recall-cons_eq : (k j : K) (v : V) (m : List (K × V)) → j ≡ k → recall k ((j, v) ∷ m) ≡ some v
  unfolding recall
  recall-cons_eq k j v m e = if_pos (dec j k) e (some v) (recall k m)

  pub forget-cons_ne :
      (k j : K) (v : V) (m : List (K × V)) → j ≢ k → forget k ((j, v) ∷ m) ≡ (j, v) ∷ forget k m
  unfolding forget
  forget-cons_ne k j v m n = if_neg (dec j k) n m ((j, v) ∷ forget k m)

  pub forget-cons_eq : (k j : K) (v : V) (m : List (K × V)) → j ≡ k → forget k ((j, v) ∷ m) ≡ m
  unfolding forget
  forget-cons_eq k j v m e = if_pos (dec j k) e m ((j, v) ∷ forget k m)

  pub id_of-IsAt :
      (k : K) (i : ℕ) (xs : List (Element K V))
      → id_of k xs ≡ some i
      → (x : Element K V) × IsAt x xs × (x.id ≡ i) × (x.entry.key ≡ k)
  unfolding id_of
  id_of-IsAt k i [] h = absurd (cc)
  id_of-IsAt k i (x ∷ xs) h = elim (dec x.entry.key k) [
    | yes e ↦ (x, inl refl, ground arith, e)
    | no n ↦
        let (y, m, same, key) = id_of-IsAt k i xs (sym (id_of-cons_ne k x xs n) ∙ h) in
        (y, inr m, same, key)
  ]

  pub id_of_absent :
      (k : K) (xs : List (Element K V)) → All (λ y. y.entry.key ≢ k) xs → id_of k xs ≡ none
  unfolding id_of
  id_of_absent k [] h = refl
  id_of_absent k (x ∷ xs) h = id_of-cons_ne k x xs h.0 ∙ id_of_absent k xs h.1

  pub absent :
      (k : K) (y : Element K V) (ys : List (Element K V))
      → y.entry.key ≡ k
      → All (Differs y) ys
      → All (λ w. w.entry.key ≢ k) ys
  absent k y ys e h = All-weaken (Differs y) _ ys (λ w p q. p.1 (q ∙ sym e)) h

  pub recall-none :
      (k : K) (xs : List (Element K V)) → id_of k xs ≡ none → recall k (view xs) ≡ none
  unfolding id_of recall
  recall-none k [] h = refl
  recall-none k (x ∷ xs) h = elim (dec x.entry.key k) [
    | yes e ↦ absurd (ground arith)
    | no n ↦
        recall-cons_ne k x.entry.key x.entry.val (view xs) n
        ∙ recall-none k xs (sym (id_of-cons_ne k x xs n) ∙ h)
  ]

  module _ (x : Element K V) where
    pub recall-some :
        (xs : List (Element K V))
        → Distinct xs
        → IsAt x xs
        → recall x.entry.key (view xs) ≡ some x.entry.val
    unfolding recall
    recall-some [] d m = absurd m
    recall-some (y ∷ ys) d (inl e) =
        recall-cons_eq x.entry.key y.entry.key y.entry.val (view ys) (ap (λ w. w.entry.key) e)
        ∙ ap (λ w. some w.entry.val) e
    recall-some (y ∷ ys) d (inr m) =
        recall-cons_ne x.entry.key y.entry.key y.entry.val (view ys)
          (λ e. (All-IsAt (Differs y) x ys d.0 m).1 (sym e))
        ∙ recall-some ys d.1 m

    pub view-without :
        (xs : List (Element K V))
        → Distinct xs
        → IsAt x xs
        → view (without x.id xs) ≡ forget x.entry.key (view xs)
    unfolding without forget
    view-without [] d m = absurd m
    view-without (y ∷ ys) d (inl e) = rw (same_id x y e) (
        sym
          (forget-cons_eq x.entry.key y.entry.key y.entry.val (view ys) (ap (λ w. w.entry.key) e)))
    view-without (y ∷ ys) d (inr m) =
        let p = All-IsAt (Differs y) x ys d.0 m in
        rw (other_id x y p) (
          ap (◌∷◌ (y.entry.key, y.entry.val)) (view-without ys d.1 m)
          ∙ sym (forget-cons_ne x.entry.key y.entry.key y.entry.val (view ys) (λ e. p.1 (sym e))))

    pub id_of-without :
        (k : K) (xs : List (Element K V))
        → Distinct xs
        → IsAt x xs
        → id_of k (without x.id xs) ≡ ite (dec x.entry.key k) none (id_of k xs)
    unfolding without id_of
    id_of-without k [] d m = absurd m
    id_of-without k (y ∷ ys) d (inl e) = rw (same_id x y e) (elim (dec x.entry.key k) [
      | yes same ↦
          let nothing = id_of_absent k ys (absent k y ys (ap (λ w. w.entry.key) e ∙ same) d.0) in
          nothing ∙ sym (if_pos (dec x.entry.key k) same none (id_of k (y ∷ ys)))
      | no other ↦ sym (
          if_neg (dec x.entry.key k) other none (id_of k (y ∷ ys))
          ∙ id_of-cons_ne k y ys (λ q. other (sym (ap (λ w. w.entry.key) e) ∙ q)))
    ])
    id_of-without k (y ∷ ys) d (inr m) =
        let p = All-IsAt (Differs y) x ys d.0 m in
        rw (other_id x y p) (elim (dec x.entry.key k) [
          | yes same ↦
              id_of-cons_ne k y (without x.id ys) (λ q. p.1 (same ∙ sym q))
              ∙ id_of-without k ys d.1 m
              ∙ if_pos (dec x.entry.key k) same none (id_of k ys)
              ∙ sym (if_pos (dec x.entry.key k) same none (id_of k (y ∷ ys)))
          | no other ↦
              ap (ite (dec y.entry.key k) (some y.id))
                (id_of-without k ys d.1 m ∙ if_neg (dec x.entry.key k) other none (id_of k ys))
              ∙ sym (if_neg (dec x.entry.key k) other none (id_of k (y ∷ ys)))
        ])
