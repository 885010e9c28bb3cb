-- ===== src/Shim/RingBuffer/Refinement.antt =====
-- The ring refines a bounded queue: a list cut to its newest `cap` items.
use clai.Common.{
  ℕ, zero, suc, ◌+◌, ◌-◌, ◌%◌, ◌≤◌, ◌<◌, ◌==◌, List, [], ◌∷◌, ◌++◌, length, get_or, set, take_last,
  ◌≡◌, ◌≢◌, refl, sym, ap, ap₂, ◌∙◌, arith, ℤ, length-set, length-replicate, positive_or,
  take_last-full, get_or-set_self, get_or-set_ne, Bool-cases, ==_iff, inl, inr, take_last_short,
  take_last-append_take_last, length-append, append-nil, append_assoc,
}
use native.Mathlib.Nat.{mod-lt, mod-eq_of_lt, mod-eq-sub-mod, mod-mod, mod-add-mod}
use native.Mathlib.Decide.{dec_lt}
use clai.Shim.RingBuffer.{RingBuffer, new_ring_buffer, push, drain_all, collect}

not_lt→le : (a b : ℕ) → ¬ (a < b) → b ≤ a
not_lt→le a b h = omega arith

lt_of_wrap : (r d cap : ℕ) → r < cap → d < cap → r + d - cap < cap
lt_of_wrap r d cap h k = omega arith

-- Two indices less than one turn apart are different slots.
mod-ne : (a b cap : ℕ) → a < b → b < a + cap → a % cap ≢ b % cap
mod-ne a b cap l h e =
    let d : ℕ = b - a in
    let r : ℕ = a % cap in
    let r_lt : r < cap = mod-lt a (omega arith) in
    let same : r ≡ (r + d) % cap =
      e ∙ ap (λ t. t % cap) (omega arith) ∙ sym (mod-add-mod a cap d) in
    elim (dec_lt (r + d) cap) [
      | yes small ↦ omega (arith, same, mod-eq_of_lt small)
      | no wraps ↦ omega (
        arith,
        same,
        mod-eq-sub-mod (not_lt→le (r + d) cap wraps),
        mod-eq_of_lt (lt_of_wrap r d cap (omega arith) (omega arith)),
      )
    ]

mod-suc : (a b cap : ℕ) → a % cap ≡ b % cap → (a + 1) % cap ≡ (b + 1) % cap
mod-suc a b cap e =
    sym (mod-add-mod a cap 1) ∙ ap (λ (t : ℕ). (t + 1) % cap) e ∙ mod-add-mod b cap 1

module _ {ℓ} {A : Type ℓ} (z : A) where
  collect_mod :
      (items : List A) (cap a b k : ℕ)
      → a % cap ≡ b % cap
      → collect z items cap a k ≡ collect z items cap b k
  unfolding collect
  collect_mod items cap a b zero e = refl
  collect_mod items cap a b (suc k) e =
      ap₂ ◌∷◌ (ap (λ i. get_or items i z) e)
        (collect_mod items cap (a + 1) (b + 1) k (mod-suc a b cap e))

  collect-snoc :
      (items : List A) (cap a k : ℕ)
      → collect z items cap a (suc k)
        ≡ collect z items cap a k ++ get_or items ((a + k) % cap) z ∷ []
  unfolding collect
  collect-snoc items cap a zero = ap (λ (i : ℕ). get_or items (i % cap) z ∷ []) (omega arith)
  collect-snoc items cap a (suc k) =
      ap (λ xs. get_or items (a % cap) z ∷ xs)
        (collect-snoc items cap (a + 1) k
          ∙ ap (λ (i : ℕ). collect z items cap (a + 1) k ++ get_or items (i % cap) z ∷ [])
              (omega arith))

  -- A write one past the items that are read does not show in them.
  collect-set :
      (items : List A) (cap a b k : ℕ) (x : A)
      → a + k ≤ b
      → b < a + cap
      → collect z (set items (b % cap) x) cap a k ≡ collect z items cap a k
  unfolding collect
  collect-set items cap a b zero x h l = refl
  collect-set items cap a b (suc k) x h l =
      ap₂ ◌∷◌
        (get_or-set_ne items (b % cap) (a % cap) x z
          (λ e. mod-ne a b cap (omega arith) (omega arith) (sym e)))
        (collect-set items cap (a + 1) b k x (omega arith) (omega arith))

  length-collect : (items : List A) (cap a k : ℕ) → length (collect z items cap a k) ≡ k
  unfolding collect
  length-collect items cap a zero = refl
  length-collect items cap a (suc k) = ap suc (length-collect items cap (a + 1) k)

  pub record IsValid (r : RingBuffer A) : Type 0 where
    pub cap_pos : 0 < r.cap
    pub slots : length r.items ≡ r.cap
    pub head_lt : r.head < r.cap
    pub count_le : r.count ≤ r.cap

  -- The items in the buffer, the oldest first.
  pub contents : RingBuffer A → List A
  contents r = collect z r.items r.cap r.head r.count

  contents-le : (r : RingBuffer A) → IsValid r → length (contents r) ≤ r.cap
  unfolding contents
  contents-le r v = omega (arith, length-collect r.items r.cap r.head r.count)

  pub new-IsValid : (n : ℤ) → IsValid (new_ring_buffer z n)
  unfolding new_ring_buffer
  new-IsValid n = ground (arith, length-replicate (positive_or n 16) z)

  pub contents-new : (n : ℤ) → contents (new_ring_buffer z n) ≡ []
  unfolding contents new_ring_buffer collect
  contents-new n = refl

  pub push-IsValid : (r : RingBuffer A) (x : A) → IsValid r → IsValid (push z r x)
  unfolding push
  push-IsValid r x v =
      ground
        (arith, length-set r.items ((r.head + r.count) % r.cap) x, mod-lt (r.head + 1) v.cap_pos)

  abbrev after : List A → ℕ → ℕ → ℕ → A → List A
  after items cap head count x = set items ((head + count) % cap) x

  module _ (items : List A) (cap head count : ℕ) (x : A) (slots : length items ≡ cap)
      (pos : 0 < cap) where
    -- The slot that was written.
    after_slot : get_or (after items cap head count x) ((head + count) % cap) z ≡ x
    after_slot =
        get_or-set_self items ((head + count) % cap) x z
          (omega (arith, slots, mod-lt (head + count) pos))

    contents_room :
        count < cap
        → collect z (after items cap head count x) cap head (suc count)
          ≡ take_last cap (collect z items cap head count ++ x ∷ [])
    contents_room room =
        collect-snoc (after items cap head count x) cap head count
        ∙ ap₂ (λ (xs : List A) (y : A). xs ++ y ∷ [])
            (collect-set items cap head (head + count) count x (omega arith) (omega arith))
            after_slot
        ∙ sym (
            take_last_short cap (collect z items cap head count ++ x ∷ []) (
              omega (
                arith,
                length-append (collect z items cap head count) (x ∷ []),
                length-collect items cap head count,
              )))

    contents_full :
        (m : ℕ)
        → count ≡ suc m
        → count ≡ cap
        → collect z (after items cap head count x) cap ((head + 1) % cap) (suc m)
          ≡ take_last cap (collect z items cap head (suc m) ++ x ∷ [])
    unfolding collect
    contents_full m s full =
        let at : head + 1 + m ≡ head + count = omega arith in
        collect_mod (after items cap head count x) cap ((head + 1) % cap) (head + 1) (suc m)
          (mod-mod (head + 1) cap)
        ∙ collect-snoc (after items cap head count x) cap (head + 1) m
        ∙ ap₂ (λ (xs : List A) (y : A). xs ++ y ∷ [])
            (collect-set items cap (head + 1) (head + count) m x (omega arith) (omega arith))
            (ap (λ (i : ℕ). get_or (after items cap head count x) (i % cap) z) at ∙ after_slot)
        ∙ sym (
            take_last-full cap (collect z items cap head (suc m)) x pos
              (omega (arith, length-collect items cap head (suc m))))

  -- `Push` drops the oldest item exactly when the buffer is full: the buffer holds the newest
  -- `cap` of its items and the new one, in order.
  pub contents-push :
      (r : RingBuffer A) (x : A)
      → IsValid r
      → contents (push z r x) ≡ take_last r.cap (contents r ++ x ∷ [])
  unfolding contents push
  contents-push r x v = elim (Bool-cases (r.count == r.cap)) [
    | inl full ↦
        let e : r.count ≡ suc (r.count - 1) = ground arith in
        rw full (
          ap (collect z (after r.items r.cap r.head r.count x) r.cap ((r.head + 1) % r.cap)) e
          ∙ contents_full r.items r.cap r.head r.count x v.slots v.cap_pos (r.count - 1) e
              ((==_iff r.count r.cap).0 full)
          ∙ ap (λ (k : ℕ). take_last r.cap (collect z r.items r.cap r.head k ++ x ∷ [])) (sym e))
    | inr room ↦
        let e : r.count + 1 ≡ suc r.count = omega arith in
        rw room (
          ap (collect z (after r.items r.cap r.head r.count x) r.cap r.head) e
          ∙ contents_room r.items r.cap r.head r.count x v.slots v.cap_pos (ground arith))
  ]

  -- A sequence of `Push` calls.
  unfoldable pub push_all : RingBuffer A → List A → RingBuffer A
  push_all r [] = r
  push_all r (x ∷ xs) = push_all (push z r x) xs

  push-cap : (r : RingBuffer A) (x : A) → (push z r x).cap ≡ r.cap
  unfolding push
  push-cap r x = ground arith

  -- After any number of `Push` calls the buffer holds the newest `cap` of the items that it held
  -- and was given, in order.
  pub contents-push_all :
      (r : RingBuffer A) (xs : List A)
      → IsValid r
      → IsValid (push_all r xs) × (contents (push_all r xs) ≡ take_last r.cap (contents r ++ xs))
  unfolding push_all
  contents-push_all r [] v = (v, sym (rw append-nil (take_last_short _ _ (contents-le r v))))
  contents-push_all r (x ∷ xs) v =
      let (valid, newest) = contents-push_all (push z r x) xs (push-IsValid r x v) in
      (
        valid,
        newest
            ∙ rw (contents-push r x v, push-cap r x)
                (take_last-append_take_last r.cap (contents r ++ x ∷ []) xs ∙ rw append_assoc refl),
      )

  -- `DrainAll` of a valid buffer returns its items, the oldest first, and leaves a valid buffer
  -- that holds none.
  pub drain_all_lem :
      (r : RingBuffer A)
      → IsValid r
      → let (r', drained) = drain_all z r in
        (drained ≡ contents r) × (contents r' ≡ []) × IsValid r'
  unfolding drain_all contents
  drain_all_lem r v = elim (Bool-cases (r.count == 0)) [
    | inl none_left ↦
        let e : r.count ≡ 0 = (==_iff r.count 0).0 none_left in
        let nothing : collect z r.items r.cap r.head r.count ≡ [] =
          ap (collect z r.items r.cap r.head) e ∙ unfold collect in refl in
        rw none_left (sym nothing, nothing, v)
    | inr some_left ↦ rw some_left (refl, unfold collect in refl, ground arith)
  ]
