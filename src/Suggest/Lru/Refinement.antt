-- ===== src/Suggest/Lru/Refinement.antt =====
-- internal/suggestions/suggest/lru.go refines a list of keys and values in order of use, cut to the
-- capacity.
use clai.Common.{
  ℕ, zero, suc, ◌-◌, ◌<◌, leb, if◌then◌else◌, Bool, true, false, List, [], ◌∷◌, length, take,
  take_all, length-take, Option, none, some, ◌≡◌, refl, sym, ap, ap₂, subst, ◌∙◌, arith, inl, inr,
  Option-cases, Bool-cases, int64_add, ◌⊎◌, leb→le, leb-false,
}
use clai.Suggest.Lru.{
  LruEntry, Element, Lru, entry_at, without, int64_minus, size_of, get, get_at, found, put, put_at,
  update, push_front, make_room, evict_oldest, delete, delete_at, remove_found, remove_element,
}
use clai.Suggest.Lru.Elements.{view, IsAt, All-IsAt, entry_at-IsAt}
use clai.Suggest.Lru.Recency.{
  recall, forget, id_of, id_of-IsAt, recall-some, recall-none, view-without,
}
use clai.Suggest.Lru.Valid.{
  total, total-lt, total-without, size_by-lt, IsValid, IsSized, remove_element_lem,
}
use clai.Suggest.Lru.Moves.{
  moved, moved-IsValid, push_front-IsValid, map-take, evict_oldest-Evicted,
}

module _ {K V : Type 0} (dec : Discrete K) (size_func : Option (K → V → ℕ)) where
  -- The cache stands for a list of keys and values, the most recent first.
  pub record Holds (cap : ℕ) (l : Lru K V) (m : List (K × V)) : Type 0 where
    pub valid : IsValid dec size_func l
    pub capacity : l.capacity ≡ cap
    pub entries : view l.order ≡ m

  -- `Get` in the list: what is read moves to the front.
  abbrev pub get_from : K → Option V → List (K × V) → List (K × V) × Option V
  get_from k none m = (m, none)
  get_from k (some v) m = ((k, v) ∷ forget dec k m, some v)

  abbrev pub put_in : ℕ → K → V → Option V → List (K × V) → List (K × V)
  put_in cap k v none m = (k, v) ∷ take (cap - 1) m
  put_in cap k v (some w) m = (k, v) ∷ forget dec k m

  abbrev pub delete_from : K → Option V → List (K × V) → List (K × V) × Bool
  delete_from k none m = (m, false)
  delete_from k (some v) m = (forget dec k m, true)

  module _ (l : Lru K V) (h : IsValid dec size_func l) (k : K) where
    -- The element that the map has for a key, if it has one.
    record Hit : Type 0 where
      element : Element K V
      there : IsAt element l.order
      key : element.entry.key ≡ k
      items : l.items k ≡ some element.id
      entry : entry_at element.id l.order ≡ some element.entry
      recalled : recall dec k (view l.order) ≡ some element.entry.val

    looked_up :
        ((l.items k ≡ none) × (recall dec k (view l.order) ≡ none) × (id_of dec k l.order ≡ none))
        ⊎ Hit
    looked_up = elim (Option-cases (id_of dec k l.order)) [
      | inl miss ↦ inl (h.linked k ∙ miss, recall-none dec k l.order miss, miss)
      | inr (i, hit) ↦
          let (x, m, same, key) = id_of-IsAt dec k i l.order hit in
          inr record {
            element = x;
            there = m;
            key = key;
            items = h.linked k ∙ hit ∙ ap some (sym same);
            entry = entry_at-IsAt x l.order h.distinct m;
            recalled =
                subst (λ j. recall dec j (view l.order) ≡ some x.entry.val) key
                  (recall-some dec x l.order h.distinct m);
          }
    ]

  -- The operation keeps the cache valid, and is the list's.
  abbrev pub Refines : {R : Type 0} → Lru K V → Lru K V × R → List (K × V) × R → Type 0
  Refines l (l', answer) expected =
      IsValid dec size_func l' × (l'.capacity ≡ l.capacity) × ((view l'.order, answer) ≡ expected)

  moved-total :
      (x : Element K V) (v : V) (l : Lru K V)
      → IsValid dec size_func l
      → IsAt x l.order
      → int64_add (int64_minus l.size x.entry.size) (size_of dec size_func x.entry.key v)
        ≡ total dec size_func ((x.entry.key, v) ∷ view (without x.id l.order))
  unfolding total
  moved-total x v l h m = omega (
    arith,
    h.counted,
    total-without dec size_func x l.order h.distinct m,
    All-IsAt (IsSized dec size_func) x l.order h.sized m,
    size_by-lt dec size_func size_func x.entry.key x.entry.val,
    total-lt dec size_func (view (without x.id l.order)),
  )

  forgotten :
      (l : Lru K V) (h : IsValid dec size_func l) (k : K) (hit : Hit l h k)
      → view (without hit.element.id l.order) ≡ forget dec k (view l.order)
  forgotten l h k hit =
      view-without dec hit.element l.order h.distinct hit.there
      ∙ ap (λ j. forget dec j (view l.order)) hit.key

  pub get_lem :
      (l : Lru K V) (k : K)
      → IsValid dec size_func l
      → Refines l (get dec size_func k l) (get_from k (recall dec k (view l.order)) (view l.order))
  unfolding get total
  get_lem l k h = elim (looked_up l h k) [
    | inl (items, missed, _) ↦ rw (items, missed) (h, refl, refl)
    | inr hit ↦
        let x = hit.element in
        let e : get dec size_func k l ≡ (moved dec size_func x x.entry l.size l, some x.entry.val) =
          ap (λ o. get_at dec size_func o l) hit.items
          ∙ ap (λ o. found dec size_func x.id o l) hit.entry in
        let valid =
          moved-IsValid dec size_func x x.entry l.size l h hit.there refl
            (All-IsAt (IsSized dec size_func) x l.order h.sized hit.there)
            (h.counted ∙ total-without dec size_func x l.order h.distinct hit.there) in
        subst (λ p. Refines l p (get_from k (recall dec k (view l.order)) (view l.order))) (sym e)
          (
            valid,
            refl,
            rw hit.recalled (
                ap₂ (λ (j : K) (m : List (K × V)). ((j, x.entry.val) ∷ m, some x.entry.val)) hit.key
                  (forgotten l h k hit)),
          )
  ]

  make_room_stop :
      (rounds : ℕ) (l : Lru K V)
      → length l.order < l.capacity
      → make_room dec size_func rounds l ≡ l
  unfolding make_room
  make_room_stop zero l h = refl
  make_room_stop (suc rounds) l h =
      let e : leb l.capacity (length l.order) ≡ false = ground arith in
      ap (λ b. if b then make_room dec size_func rounds (evict_oldest dec size_func l) else l) e

  make_room_once :
      (rounds : ℕ) (l : Lru K V)
      → leb l.capacity (length l.order) ≡ true
      → make_room dec size_func (suc rounds) l
        ≡ make_room dec size_func rounds (evict_oldest dec size_func l)
  unfolding make_room
  make_room_once rounds l e =
      ap (λ b. if b then make_room dec size_func rounds (evict_oldest dec size_func l) else l) e

  -- After the loop of `Put` there is room for one more.
  record HasRoom (l t : Lru K V) : Type 0 where
    valid : IsValid dec size_func t
    capacity : t.capacity ≡ l.capacity
    room : length t.order < t.capacity
    newest : view t.order ≡ take (l.capacity - 1) (view l.order)
    missing : (k : K) → id_of dec k l.order ≡ none → id_of dec k t.order ≡ none

  pub length-view : (xs : List (Element K V)) → length (view xs) ≡ length xs
  length-view [] = refl
  length-view (x ∷ xs) = ap suc (length-view xs)

  make_room-HasRoom :
      (l : Lru K V)
      → IsValid dec size_func l
      → HasRoom l (make_room dec size_func (length l.order) l)
  make_room-HasRoom l h = elim (Bool-cases (leb l.capacity (length l.order))) [
    | inl full ↦
        let same : length l.order ≡ l.capacity =
          omega (arith, h.bounded, leb→le l.capacity (length l.order) full) in
        let v = evict_oldest-Evicted dec size_func l h (omega (arith, h.positive)) in
        let n : ℕ = length l.order - 1 in
        let one : length l.order ≡ suc n = omega (arith, h.positive) in
        let shorter : length (evict_oldest dec size_func l).order
            < (evict_oldest dec size_func l).capacity =
          omega (
            arith,
            ap length v.order,
            length-take (length l.order - 1) l.order,
            v.capacity,
            h.positive,
          ) in
        let e : make_room dec size_func (length l.order) l ≡ evict_oldest dec size_func l =
          ap (λ r. make_room dec size_func r l) one
          ∙ make_room_once n l full
          ∙ make_room_stop n _ shorter in
        subst (HasRoom l) (sym e) record {
          valid = v.valid;
          capacity = v.capacity;
          room = shorter;
          newest =
              ap view v.order
              ∙ map-take dec size_func (length l.order - 1) l.order
              ∙ ap (λ c. take (c - 1) (view l.order)) same;
          missing = v.missing;
        }
    | inr short ↦
        let room = leb-false l.capacity (length l.order) short in
        subst (HasRoom l) (sym (make_room_stop (length l.order) l room)) record {
          valid = h;
          capacity = refl;
          room = room;
          newest =
              sym (take_all (l.capacity - 1) (view l.order) (omega (arith, length-view l.order)));
          missing = λ k q. q;
        }
  ]

  pub put_lem :
      (l : Lru K V) (k : K) (v : V)
      → IsValid dec size_func l
      → Refines l
          (put dec size_func k v l, tt)
          (put_in l.capacity k v (recall dec k (view l.order)) (view l.order), tt)
  unfolding put
  put_lem l k v h = elim (looked_up l h k) [
    | inl (items, missed, no_id) ↦
        let r = make_room-HasRoom l h in
        let t = make_room dec size_func (length l.order) l in
        let e : put dec size_func k v l ≡ push_front dec size_func k v t =
          ap (λ o. put_at dec size_func o k v l) items in
        subst
          (λ p.
            Refines l (p, tt)
              (put_in l.capacity k v (recall dec k (view l.order)) (view l.order), tt))
          (sym e)
          (
            push_front-IsValid dec size_func k v t r.valid r.room (r.missing k no_id),
            r.capacity,
            rw missed (ap (λ m. ((k, v) ∷ m, tt)) r.newest),
          )
    | inr hit ↦
        let x = hit.element in
        let entry : LruEntry K V = record x.entry { val = v; size = size_of dec size_func k v } in
        let size : ℕ = int64_add (int64_minus l.size x.entry.size) (size_of dec size_func k v) in
        let e : put dec size_func k v l ≡ moved dec size_func x entry size l =
          ap (λ o. put_at dec size_func o k v l) hit.items
          ∙ ap (λ o. update dec size_func x.id k v o l) hit.entry in
        let sized = ap (λ j. size_of dec size_func j v) (sym hit.key) in
        let counted =
          ap (int64_add (int64_minus l.size x.entry.size)) sized ∙ moved-total x v l h hit.there in
        subst
          (λ p.
            Refines l (p, tt)
              (put_in l.capacity k v (recall dec k (view l.order)) (view l.order), tt))
          (sym e)
          (
            moved-IsValid dec size_func x entry size l h hit.there refl sized counted,
            refl,
            rw hit.recalled (
                ap₂ (λ (j : K) (m : List (K × V)). ((j, v) ∷ m, tt)) hit.key (forgotten l h k hit)),
          )
  ]

  pub delete_lem :
      (l : Lru K V) (k : K)
      → IsValid dec size_func l
      → Refines l
          (delete dec size_func k l)
          (delete_from k (recall dec k (view l.order)) (view l.order))
  unfolding delete remove_element
  delete_lem l k h = elim (looked_up l h k) [
    | inl (items, missed, _) ↦ rw (items, missed) (h, refl, refl)
    | inr hit ↦
        let x = hit.element in
        let e : delete dec size_func k l ≡ (remove_element dec size_func x l, true) =
          ap (λ o. delete_at dec size_func o l) hit.items
          ∙ ap (λ o. (remove_found dec size_func x.id o l, true)) hit.entry in
        subst (λ p. Refines l p (delete_from k (recall dec k (view l.order)) (view l.order)))
          (sym e)
          (
            (remove_element_lem dec size_func x l h hit.there).0,
            refl,
            rw hit.recalled (ap (λ m. (m, true)) (forgotten l h k hit)),
          )
  ]
