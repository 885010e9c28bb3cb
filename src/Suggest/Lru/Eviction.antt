-- ===== src/Suggest/Lru/Eviction.antt =====
-- internal/suggestions/suggest/lru.go: `EvictToSize` keeps as many of the most recent entries as fit.
use clai.Common.{
  Option, ℕ, zero, suc, ◌+◌, ◌-◌, ◌≤◌, ◌==◌, if◌then◌else◌, Bool, true, false, not, ◌&&◌, List, [],
  ◌∷◌, length, take, take_all, length-take, ◌≡◌, refl, sym, ap, ap₂, ◌∙◌, arith, inl, inr,
  Bool-cases,
}
use clai.Suggest.Lru.{Element, Lru, int64_more, evict_oldest, evict_while, evict_to_size}
use clai.Suggest.Lru.Elements.{view}
use clai.Suggest.Lru.Valid.{total, IsValid}
use clai.Suggest.Lru.Moves.{map-take, evict_oldest-Evicted}
use clai.Suggest.Lru.Refinement.{Refines, length-view}

module _ {K V : Type 0} (dec : Discrete K) (size_func : Option (K → V → ℕ)) where
  -- The longest front of at most `n` entries whose total is not above the target.
  unfoldable pub fitting : ℕ → ℕ → List (K × V) → List (K × V)
  fitting zero target m = []
  fitting (suc n) target m =
      let rest = fitting n target m in
      if int64_more (total dec size_func (take (suc n) m)) target then rest else take (suc n) m

  take-take : (n k : ℕ) (m : List (K × V)) → n ≤ k → take n (take k m) ≡ take n m
  take-take zero k m h = refl
  take-take (suc n) zero m h = absurd (omega arith)
  take-take (suc n) (suc k) [] h = refl
  take-take (suc n) (suc k) (e ∷ m) h = ap (◌∷◌ e) (take-take n k m (omega arith))

  fitting-take :
      (n k target : ℕ) (m : List (K × V)) → n ≤ k → fitting n target (take k m) ≡ fitting n target m
  unfolding fitting
  fitting-take zero k target m h = refl
  fitting-take (suc n) k target m h =
      rw (take-take (suc n) k m h, fitting-take n k target m (omega arith)) refl

  length-fitting-le : (n target : ℕ) (m : List (K × V)) → length (fitting n target m) ≤ n
  unfolding fitting
  length-fitting-le zero target m = omega arith
  length-fitting-le (suc n) target m =
      elim (Bool-cases (int64_more (total dec size_func (take (suc n) m)) target)) [
        | inl e ↦ rw e (omega (arith, length-fitting-le n target m))
        | inr e ↦ rw e (omega (arith, length-take (suc n) m))
      ]

  evict_while_step :
      (rounds target : ℕ) (l : Lru K V) (b : Bool)
      → (int64_more l.size target && not (length l.order == 0)) ≡ b
      → evict_while dec size_func (suc rounds) target l ≡ (
          let (l', evicted) =
            evict_while dec size_func rounds target (evict_oldest dec size_func l) in
          if b then (l', evicted + 1) else (l, 0))
  unfolding evict_while
  evict_while_step rounds target l b h =
      let (l', evicted) = evict_while dec size_func rounds target (evict_oldest dec size_func l) in
      ap (λ (c : Bool). if c then (l', evicted + 1) else (l, 0)) h

  fitting_step :
      (n target : ℕ) (m : List (K × V)) (b : Bool)
      → int64_more (total dec size_func (take (suc n) m)) target ≡ b
      → fitting (suc n) target m ≡ (if b then fitting n target m else take (suc n) m)
  unfolding fitting
  fitting_step n target m b h =
      ap (λ (c : Bool). if c then fitting n target m else take (suc n) m) h

  abbrev fit_in : ℕ → List (K × V) → List (K × V) × ℕ
  fit_in rounds kept = (kept, rounds - length kept)

  nothing_left : (xs : List (Element K V)) → length xs ≡ 0 → view xs ≡ []
  nothing_left [] h = refl
  nothing_left (x ∷ xs) h = absurd (omega arith)

  evict_while_lem :
      (rounds target : ℕ) (l : Lru K V)
      → IsValid dec size_func l
      → length l.order ≡ rounds
      → Refines dec size_func l
          (evict_while dec size_func rounds target l)
          (fit_in rounds (fitting rounds target (view l.order)))
  unfolding evict_while fitting
  evict_while_lem zero target l h n = (h, refl, ap (λ m. (m, 0)) (nothing_left l.order n))
  evict_while_lem (suc r) target l h n =
      let m = view l.order in
      let whole : take (suc r) m ≡ m =
        take_all (suc r) m (omega (arith, length-view dec size_func l.order)) in
      let same : int64_more l.size target
          ≡ int64_more (total dec size_func (take (suc r) m)) target =
        ap (λ s. int64_more s target) (h.counted ∙ ap (total dec size_func) (sym whole)) in
      let some_left : (length l.order == 0) ≡ false = ground arith in
      elim (Bool-cases (int64_more (total dec size_func (take (suc r) m)) target)) [
        | inl more ↦
            let v = evict_oldest-Evicted dec size_func l h (omega arith) in
            let index : length l.order - 1 ≡ r = omega arith in
            let newest : view (evict_oldest dec size_func l).order ≡ take r m =
              ap view v.order
              ∙ map-take dec size_func (length l.order - 1) l.order
              ∙ ap (λ k. take k m) index in
            let ih =
              evict_while_lem r target (evict_oldest dec size_func l) v.valid
                (omega (arith, ap length v.order, length-take (length l.order - 1) l.order)) in
            let kept = ap (fitting r target) newest ∙ fitting-take r r target m (omega arith) in
            let count : r - length (fitting r target m) + 1 ≡ suc r - length (fitting r target m) =
              omega (arith, length-fitting-le r target m) in
            rw
              (
                evict_while_step r target l true (rw (same ∙ more, some_left) refl),
                fitting_step r target m true more,
              )
              (
                ih.0,
                ih.1 ∙ v.capacity,
                ap (λ (q : List (K × V) × ℕ). (q.0, q.1 + 1)) ih.2
                    ∙ ap (λ f. (f, r - length f + 1)) kept
                    ∙ ap (λ (c : ℕ). (fitting r target m, c)) count,
              )
        | inr less ↦
            let none_gone : 0 ≡ suc r - length (take (suc r) m) =
              omega (arith, ap length whole, length-view dec size_func l.order) in
            rw
              (
                evict_while_step r target l false (rw (same ∙ less) refl),
                fitting_step r target m false less,
              )
              (h, refl, ap₂ (λ (f : List (K × V)) (c : ℕ). (f, c)) (sym whole) none_gone)
      ]

  pub evict_to_size_lem :
      (target : ℕ) (l : Lru K V)
      → IsValid dec size_func l
      → Refines dec size_func l (evict_to_size dec size_func target l) (
          let kept = fitting (length (view l.order)) target (view l.order) in
          (kept, length (view l.order) - length kept))
  unfolding evict_to_size
  evict_to_size_lem target l h =
      rw (length-view dec size_func l.order) (evict_while_lem (length l.order) target l h refl)
