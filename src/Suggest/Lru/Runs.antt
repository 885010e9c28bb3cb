-- ===== src/Suggest/Lru/Runs.antt =====
-- internal/suggestions/suggest/lru.go: sequences of calls, on the cache and on the list.
use clai.Common.{
  ℕ, ◌-◌, ◌≤◌, ◌<◌, Bool, not, List, [], ◌∷◌, length, keep, Option, ℤ, positive_or, ◌≡◌, refl, sym,
  ap, ◌∙◌, arith,
}
use clai.Suggest.Lru.{
  Lru, new_lru, get, put, delete, delete_func, evict_to_size, len, size, clear, word,
}
use clai.Suggest.Lru.Elements.{view}
use clai.Suggest.Lru.Recency.{recall, id_of}
use clai.Suggest.Lru.Valid.{total, total-lt, IsValid, new-IsValid}
use clai.Suggest.Lru.Refinement.{
  Refines, get_from, put_in, delete_from, get_lem, put_lem, delete_lem, length-view,
}
use clai.Suggest.Lru.Eviction.{fitting, evict_to_size_lem}
use clai.Suggest.Lru.Removal.{delete_func_lem}

pub data LruCall (K V : Type 0) : Type 0 where
  call_get call_delete : K → LruCall K V
  call_put : K → V → LruCall K V
  call_delete_func : (K → V → Bool) → LruCall K V
  call_evict_to_size : ℕ → LruCall K V
  call_len call_size call_clear : LruCall K V

pub data Answer (V : Type 0) : Type 0 where
  value : Option V → Answer V
  deleted : Bool → Answer V
  number : ℕ → Answer V
  done : Answer V

abbrev with_answer : {A B C : Type 0} → (B → C) → A × B → A × C
with_answer f (a, b) = (a, f b)

module _ {K V : Type 0} (dec : Discrete K) (size_func : Option (K → V → ℕ)) where
  unfoldable pub step : LruCall K V → Lru K V → Lru K V × Answer V
  step (call_get k) l = with_answer value (get dec size_func k l)
  step (call_delete k) l = with_answer deleted (delete dec size_func k l)
  step (call_put k v) l = (put dec size_func k v l, done)
  step (call_delete_func pred) l = with_answer number (delete_func dec size_func pred l)
  step (call_evict_to_size target) l = with_answer number (evict_to_size dec size_func target l)
  step call_len l = (l, number (len l))
  step call_size l = (l, number (size l))
  step call_clear l = (clear l, done)

  -- The same calls on a list in order of use that holds at most `cap` entries.
  unfoldable pub list_step : ℕ → LruCall K V → List (K × V) → List (K × V) × Answer V
  list_step cap (call_get k) m = with_answer value (get_from dec size_func k (recall dec k m) m)
  list_step cap (call_delete k) m =
      with_answer deleted (delete_from dec size_func k (recall dec k m) m)
  list_step cap (call_put k v) m = (put_in dec size_func cap k v (recall dec k m) m, done)
  list_step cap (call_delete_func pred) m =
      (keep (λ e. not (pred e.0 e.1)) m, number (length (keep (λ e. pred e.0 e.1) m)))
  list_step cap (call_evict_to_size target) m =
      let kept = fitting dec size_func (length m) target m in
      (kept, number (length m - length kept))
  list_step cap call_len m = (m, number (length m))
  list_step cap call_size m = (m, number (total dec size_func m))
  list_step cap call_clear m = ([], done)

  answered :
      {B : Type 0} (f : B → Answer V) (l : Lru K V) (p : Lru K V × B) (q : List (K × V) × B)
      → Refines dec size_func l p q
      → Refines dec size_func l (with_answer f p) (with_answer f q)
  answered f l p q (v, c, e) = (v, c, ap (with_answer f) e)

  step_lem :
      (c : LruCall K V) (l : Lru K V)
      → IsValid dec size_func l
      → Refines dec size_func l (step c l) (list_step l.capacity c (view l.order))
  unfolding step list_step len size clear id_of total
  step_lem (call_get k) l h = answered value l _ _ (get_lem dec size_func l k h)
  step_lem (call_delete k) l h = answered deleted l _ _ (delete_lem dec size_func l k h)
  step_lem (call_put k v) l h =
      let (valid, c, e) = put_lem dec size_func l k v h in (valid, c, ap (λ q. (q.0, done)) e)
  step_lem (call_delete_func pred) l h =
      answered number l _ _ (delete_func_lem dec size_func pred l h)
  step_lem (call_evict_to_size target) l h =
      answered number l _ _ (evict_to_size_lem dec size_func target l h)
  step_lem call_len l h =
      (h, refl, ap (λ (n : ℕ). (view l.order, number n)) (sym (length-view dec size_func l.order)))
  step_lem call_size l h = (h, refl, ap (λ (n : ℕ). (view l.order, number n)) h.counted)
  step_lem call_clear l h = (
    record {
      linked = λ k. refl;
      distinct = tt;
      fresh = tt;
      positive = h.positive;
      bounded = omega arith;
      counted = refl;
      sized = tt;
    },
    refl,
    refl,
  )

  unfoldable pub run : List (LruCall K V) → Lru K V → Lru K V × List (Answer V)
  run [] l = (l, [])
  run (c ∷ cs) l = let (l', a) = step c l in let (l'', later) = run cs l' in (l'', a ∷ later)

  unfoldable pub list_run : ℕ → List (LruCall K V) → List (K × V) → List (K × V) × List (Answer V)
  list_run cap [] m = (m, [])
  list_run cap (c ∷ cs) m =
      let (m', a) = list_step cap c m in let (m'', later) = list_run cap cs m' in (m'', a ∷ later)

  run_lem :
      (cs : List (LruCall K V)) (l : Lru K V)
      → IsValid dec size_func l
      → Refines dec size_func l (run cs l) (list_run l.capacity cs (view l.order))
  unfolding run list_run
  run_lem [] l h = (h, refl, refl)
  run_lem (c ∷ cs) l h =
      let (valid, cap, e) = step_lem c l h in
      let (valid', cap', e') = run_lem cs (step c l).0 valid in
      (
        valid',
        cap' ∙ cap,
        ap (λ (q : List (K × V) × List (Answer V)). (q.0, (step c l).1 ∷ q.1))
              (e' ∙ ap (λ n. list_run n cs (view (step c l).0.order)) cap)
            ∙ ap
                (λ (q : List (K × V) × Answer V).
                  let (m'', later) = list_run l.capacity cs q.0 in (m'', q.1 ∷ later))
                e,
      )

  -- After any calls on a new cache the answers and the entries in order of use are those of a list
  -- that is cut to the capacity.
  pub run-list_run :
      (capacity : ℤ) (cs : List (LruCall K V))
      → let (l, answers) = run cs (new_lru capacity) in
        (view l.order, answers) ≡ list_run (positive_or capacity 1) cs []
  unfolding new_lru
  run-list_run capacity cs = (run_lem cs (new_lru capacity) (new-IsValid dec size_func capacity)).2

  -- After any calls on a new cache the number of its entries is at most the capacity, which is
  -- one at least, and its size is the sum of their sizes as an int64.
  pub run-bounded :
      (capacity : ℤ) (cs : List (LruCall K V))
      → let l = (run cs (new_lru capacity)).0 in
        (len l ≤ positive_or capacity 1)
        × (size l ≡ total dec size_func (view l.order))
        × (size l < word)
  unfolding new_lru len size
  run-bounded capacity cs =
      let (valid, cap, _) = run_lem cs (new_lru capacity) (new-IsValid dec size_func capacity) in
      (
        omega (arith, valid.bounded, cap),
        valid.counted,
        omega (
          arith,
          valid.counted,
          total-lt dec size_func (view (run cs (new_lru capacity)).0.order),
        ),
      )
