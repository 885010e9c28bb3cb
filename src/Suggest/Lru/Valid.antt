-- ===== src/Suggest/Lru/Valid.antt =====
-- internal/suggestions/suggest/lru.go: the invariant of the cache, and what its operations do to
-- the entries in order of use.
use native.Mathlib.Nat.{mod-lt}
use clai.Common.{
  ℕ, ◌<◌, ◌≤◌, List, [], ◌∷◌, length, Option, none, some, ℤ, ◌≡◌, refl, sym, ap, arith, All, inl,
  inr, int64_add,
}
use clai.Suggest.Lru.{Element, Lru, new_lru, without, word, size_of, size_by, remove_element}
use clai.Suggest.Lru.Elements.{
  view, Differs, Distinct, IsAt, All-IsAt, same_id, other_id, All-without, Distinct-without,
  length-without,
}
use clai.Suggest.Lru.Recency.{forget, id_of, id_of-without, view-without}

module _ {K V : Type 0} (dec : Discrete K) (size_func : Option (K → V → ℕ)) where
  -- The sum of the sizes, as an int64.
  unfoldable pub total : List (K × V) → ℕ
  total [] = 0
  total ((k, v) ∷ m) = int64_add (size_of dec size_func k v) (total m)

  pub size_by-lt : (f : Option (K → V → ℕ)) (k : K) (v : V) → size_by dec size_func f k v < word
  size_by-lt none k v = omega arith
  size_by-lt (some f) k v = mod-lt (f k v) (omega arith)

  pub total-lt : (m : List (K × V)) → total m < word
  unfolding total
  total-lt [] = omega arith
  total-lt (e ∷ m) = omega arith

  abbrev pub IsSized : Element K V → Type 0
  IsSized x = x.entry.size ≡ size_of dec size_func x.entry.key x.entry.val

  pub total-without :
      (x : Element K V) (xs : List (Element K V))
      → Distinct xs
      → IsAt x xs
      → total (view xs)
        ≡ int64_add (size_of dec size_func x.entry.key x.entry.val) (total (view (without x.id xs)))
  unfolding total without
  total-without x [] d m = absurd m
  total-without x (y ∷ ys) d (inl e) =
      rw (same_id x y e)
        (ap (λ w. int64_add (size_of dec size_func w.entry.key w.entry.val) (total (view ys))) e)
  total-without x (y ∷ ys) d (inr m) =
      rw (other_id x y (All-IsAt (Differs y) x ys d.0 m)) (omega (arith, total-without x ys d.1 m))

  pub record IsValid (l : Lru K V) : Type 0 where
    pub linked : (k : K) → l.items k ≡ id_of dec k l.order
    pub distinct : Distinct l.order
    pub fresh : All (λ x. x.id < l.next_id) l.order
    pub positive : 0 < l.capacity
    pub bounded : length l.order ≤ l.capacity
    pub counted : l.size ≡ total (view l.order)
    pub sized : All IsSized l.order

  pub new-IsValid : (capacity : ℤ) → IsValid (new_lru capacity)
  unfolding new_lru id_of total
  new-IsValid capacity = record {
    linked = λ k. refl;
    distinct = tt;
    fresh = tt;
    positive = ground arith;
    bounded = omega arith;
    counted = refl;
    sized = tt;
  }

  -- To take an element out is to forget its key.
  pub remove_element_lem :
      (x : Element K V) (l : Lru K V)
      → IsValid l
      → IsAt x l.order
      → IsValid (remove_element dec size_func x l)
        × (view (remove_element dec size_func x l).order ≡ forget dec x.entry.key (view l.order))
  unfolding remove_element
  remove_element_lem x l h m = (
    record {
      linked = λ k. rw (h.linked k) (sym (id_of-without dec x k l.order h.distinct m));
      distinct = Distinct-without x.id l.order h.distinct;
      fresh = All-without _ x.id l.order h.fresh;
      positive = h.positive;
      bounded = omega (arith, h.bounded, length-without x l.order h.distinct m);
      counted = omega (
        arith,
        h.counted,
        total-without x l.order h.distinct m,
        All-IsAt IsSized x l.order h.sized m,
        size_by-lt size_func x.entry.key x.entry.val,
        total-lt (view (without x.id l.order)),
      );
      sized = All-without IsSized x.id l.order h.sized;
    },
    view-without dec x l.order h.distinct m,
  )
