-- ===== src/Suggest/Lru/Moves.antt =====
-- internal/suggestions/suggest/lru.go: what moves to the front, what comes in and what is evicted.
use mathlib.Core.Logic.{ite, if_pos, if_neg}
use clai.Common.{
  ℕ, zero, suc, ◌-◌, ◌<◌, List, [], ◌∷◌, length, take, Option, none, some, ◌≡◌, ◌≢◌, refl, sym, ap,
  ◌∙◌, arith, All, All-weaken, inl, inr,
}
use clai.Suggest.Lru.{
  LruEntry, Element, Lru, without, back, size_of, remove_element, evict_oldest, push_front,
}
use clai.Suggest.Lru.Elements.{
  view, Differs, Distinct, IsAt, All-IsAt, All-without, Distinct-without, without-Differs,
  length-without, back-IsAt, without-back,
}
use clai.Suggest.Lru.Recency.{id_of, id_of-without}
use clai.Suggest.Lru.Valid.{total, IsSized, IsValid, remove_element_lem}

module _ {K V : Type 0} (dec : Discrete K) (size_func : Option (K → V → ℕ)) where
  id_of_hit :
      (k : K) (x : Element K V) (xs : List (Element K V))
      → Distinct xs
      → IsAt x xs
      → x.entry.key ≡ k
      → id_of dec k xs ≡ some x.id
  unfolding id_of
  id_of_hit k x [] d m e = absurd m
  id_of_hit k x (y ∷ ys) d (inl s) e =
      if_pos (dec y.entry.key k) (ap (λ w. w.entry.key) s ∙ e) (some y.id) (id_of dec k ys)
      ∙ ap (λ w. some w.id) s
  id_of_hit k x (y ∷ ys) d (inr m) e =
      if_neg (dec y.entry.key k) (λ q. (All-IsAt (Differs y) x ys d.0 m).1 (e ∙ sym q)) (some y.id)
        (id_of dec k ys)
      ∙ id_of_hit k x ys d.1 m e

  pub missing_key :
      (k : K) (xs : List (Element K V)) → id_of dec k xs ≡ none → All (λ y. y.entry.key ≢ k) xs
  unfolding id_of
  missing_key k [] h = tt
  missing_key k (x ∷ xs) h = elim (dec x.entry.key k) [
    | yes e ↦ absurd (ground arith)
    | no n ↦
        (n, missing_key k xs (sym (if_neg (dec x.entry.key k) n (some x.id) (id_of dec k xs)) ∙ h))
  ]

  -- An element that is moved to the front, perhaps with a new value.
  abbrev pub moved : Element K V → LruEntry K V → ℕ → Lru K V → Lru K V
  moved x e size l = record l {
    order = record { id = x.id; entry = e } ∷ without x.id l.order;
    size = size;
  }

  pub moved-IsValid :
      (x : Element K V) (e : LruEntry K V) (size : ℕ) (l : Lru K V)
      → IsValid dec size_func l
      → IsAt x l.order
      → e.key ≡ x.entry.key
      → e.size ≡ size_of dec size_func e.key e.val
      → size ≡ total dec size_func (view (moved x e size l).order)
      → IsValid dec size_func (moved x e size l)
  unfolding id_of
  moved-IsValid x e size l h m key sized counted = record {
    linked = λ k. h.linked k ∙ (elim (dec e.key k) [
      | yes p ↦
          id_of_hit k x l.order h.distinct m (sym key ∙ p)
          ∙ sym (if_pos (dec e.key k) p (some x.id) (id_of dec k (without x.id l.order)))
      | no n ↦ sym (
          if_neg (dec e.key k) n (some x.id) (id_of dec k (without x.id l.order))
          ∙ id_of-without dec x k l.order h.distinct m
          ∙ if_neg (dec x.entry.key k) (λ q. n (key ∙ q)) none (id_of dec k l.order))
    ]);
    distinct = (
      All-weaken (Differs x) _ (without x.id l.order) (λ y p. (p.0, λ q. p.1 (q ∙ key)))
          (without-Differs x l.order h.distinct m),
      Distinct-without x.id l.order h.distinct,
    );
    fresh = (All-IsAt _ x l.order h.fresh m, All-without _ x.id l.order h.fresh);
    positive = h.positive;
    bounded = omega (arith, h.bounded, length-without x l.order h.distinct m);
    counted = counted;
    sized = (sized, All-without (IsSized dec size_func) x.id l.order h.sized);
  }

  pub push_front-IsValid :
      (k : K) (v : V) (l : Lru K V)
      → IsValid dec size_func l
      → length l.order < l.capacity
      → id_of dec k l.order ≡ none
      → IsValid dec size_func (push_front dec size_func k v l)
  unfolding id_of total
  push_front-IsValid k v l h room none_yet = record {
    linked = λ j. rw (h.linked j) refl;
    distinct = (differs l.order h.fresh (missing_key k l.order none_yet), h.distinct);
    fresh = (omega arith, All-weaken _ _ l.order (λ x p. omega arith) h.fresh);
    positive = h.positive;
    bounded = omega arith;
    counted = omega (arith, h.counted);
    sized = (refl, h.sized);
  }
    where
      differs :
          (xs : List (Element K V))
          → All (λ x. x.id < l.next_id) xs
          → All (λ x. x.entry.key ≢ k) xs
          → All (λ x. (x.id ≢ l.next_id) × (x.entry.key ≢ k)) xs
      differs [] p q = tt
      differs (x ∷ xs) p q = ((λ e. absurd (omega arith), q.0), differs xs p.1 q.1)

  pub map-take : (n : ℕ) (xs : List (Element K V)) → view (take n xs) ≡ take n (view xs)
  map-take zero xs = refl
  map-take (suc n) [] = refl
  map-take (suc n) (x ∷ xs) = ap (◌∷◌ (x.entry.key, x.entry.val)) (map-take n xs)

  still_none : (k j : K) (o : Option ℕ) → o ≡ none → ite (dec j k) none o ≡ none
  still_none k j o h = rw h (elim (dec j k) [
    | yes e ↦ if_pos (dec j k) e none none
    | no n ↦ if_neg (dec j k) n none none
  ])

  back_exists : (xs : List (Element K V)) → 0 < length xs → (x : Element K V) × (back xs ≡ some x)
  back_exists [] h = absurd (omega arith)
  back_exists (x ∷ []) h = (x, refl)
  back_exists (x ∷ y ∷ xs) h = back_exists (y ∷ xs) (omega arith)

  -- The oldest element goes; the key that is missing stays so.
  pub record Evicted (l t : Lru K V) : Type 0 where
    pub valid : IsValid dec size_func t
    pub order : t.order ≡ take (length l.order - 1) l.order
    pub capacity : t.capacity ≡ l.capacity
    pub missing : (k : K) → id_of dec k l.order ≡ none → id_of dec k t.order ≡ none

  pub evict_oldest-Evicted :
      (l : Lru K V)
      → IsValid dec size_func l
      → 0 < length l.order
      → Evicted l (evict_oldest dec size_func l)
  unfolding evict_oldest remove_element
  evict_oldest-Evicted l h some_left =
      let (x, last) = back_exists l.order some_left in
      let m = back-IsAt x l.order last in
      rw last record {
        valid = (remove_element_lem dec size_func x l h m).0;
        order = without-back x l.order h.distinct last;
        capacity = refl;
        missing = λ k q. id_of-without dec x k l.order h.distinct m ∙ still_none k x.entry.key _ q;
      }
