-- ===== src/Daemon/CircuitBreaker/Window.antt =====
-- When a fresh breaker trips, and what the list of event times of a breaker holds.
use clai.Common.{
  ℕ, suc, ◌+◌, ◌≤◌, ◌<◌, leb, true, List, [], ◌∷◌, ◌++◌, length, ◌≡◌, refl, arith, All, All-append,
  All-weaken, count_false, length-append, keep, Bool-cases, inl, inr, leb→le, ◌∙◌, append_assoc,
  append-nil, subst, sym,
}
use native.Mathlib.Nat.{le_trans}
use clai.Daemon.CircuitBreaker.{
  CircuitBreaker, CircuitBreakerConfig, circuit_closed, circuit_open, new_circuit_breaker,
  prune_times, allow_at, run,
}

prune_none :
    (now window : ℕ) (ts : List ℕ) → All (λ t. now ≤ t + window) ts → prune_times now window ts ≡ ts
unfolding prune_times
prune_none now window [] h = refl
prune_none now window (t ∷ ts) h = ground arith

-- Events that come within one window of each other, `lo` and `lo + window` included.
abbrev Within : ℕ → ℕ → List ℕ → Type 0
Within lo window ts = All (λ t. (lo ≤ t) × (t ≤ lo + window)) ts

module _ (lo : ℕ) where
  record IsCalm (cb : CircuitBreaker) : Type 0 where
    closed : cb.state ≡ circuit_closed
    close_together : Within lo cb.window cb.event_times

  prune_calm :
      (now window : ℕ) (ts : List ℕ)
      → Within lo window ts
      → now ≤ lo + window
      → prune_times now window ts ≡ ts
  prune_calm now window ts h n =
      prune_none now window ts
        (All-weaken _ _ ts (λ t (p : (lo ≤ t) × (t ≤ lo + window)). omega arith) h)

  allow_at_calm :
      (cb : CircuitBreaker) (now : ℕ)
      → IsCalm cb
      → (lo ≤ now) × (now ≤ lo + cb.window)
      → let (cb', allowed) = allow_at cb now in
        (allowed ≡ true)
        × (cb'.event_times ≡ cb.event_times ++ now ∷ [])
        × (cb'.window ≡ cb.window)
        × (cb'.burst_threshold ≡ cb.burst_threshold)
        × (length cb.event_times < cb.burst_threshold → cb'.state ≡ circuit_closed)
        × (cb.burst_threshold ≤ length cb.event_times → cb'.state ≡ circuit_open)
  unfolding allow_at
  allow_at_calm cb now c h = ground (
    arith,
    prune_calm now cb.window cb.event_times c.close_together h.1,
    length-append cb.event_times (now ∷ []),
  )

  allow_at-IsCalm :
      (cb : CircuitBreaker) (now : ℕ)
      → IsCalm cb
      → (lo ≤ now) × (now ≤ lo + cb.window)
      → length cb.event_times < cb.burst_threshold
      → IsCalm (allow_at cb now).0
  allow_at-IsCalm cb now c h l =
      let (_, times, same, _, stays, _) = allow_at_calm cb now c h in
      record {
        closed = stays l;
        close_together =
            rw (times, same) (All-append _ cb.event_times (now ∷ []) c.close_together (h, tt));
      }

  run_calm :
      (cb : CircuitBreaker) (times : List ℕ)
      → IsCalm cb
      → Within lo cb.window times
      → length cb.event_times + length times ≤ cb.burst_threshold
      → let (cb', answers) = run cb times in
        (cb'.state ≡ circuit_closed) × (count_false answers ≡ 0)
  unfolding run
  run_calm cb [] c h l = (c.closed, refl)
  run_calm cb (now ∷ rest) c h l =
      let (passed, times, same, threshold, _, _) = allow_at_calm cb now c h.0 in
      let next = allow_at-IsCalm cb now c h.0 (omega arith) in
      let fits : length (allow_at cb now).0.event_times + length rest ≤ cb.burst_threshold =
        rw (times, length-append) (omega arith) in
      let (still, none_dropped) =
        run_calm (allow_at cb now).0 rest next (rw same h.1) (rw threshold fits) in
      (still, rw passed none_dropped)

  run_burst :
      (cb : CircuitBreaker) (times : List ℕ)
      → IsCalm cb
      → Within lo cb.window times
      → length cb.event_times ≤ cb.burst_threshold
      → length cb.event_times + length times ≡ suc cb.burst_threshold
      → let (cb', answers) = run cb times in (cb'.state ≡ circuit_open) × (count_false answers ≡ 0)
  unfolding run
  run_burst cb [] c h k l = absurd (omega arith)
  run_burst cb (now ∷ []) c h k l =
      let (passed, _, _, _, _, trips) = allow_at_calm cb now c h.0 in
      (trips (omega arith), rw passed)
  run_burst cb (now ∷ n2 ∷ rest) c h k l =
      let (passed, times, same, threshold, _, _) = allow_at_calm cb now c h.0 in
      let next = allow_at-IsCalm cb now c h.0 (omega arith) in
      let now_held : length (allow_at cb now).0.event_times ≡ length cb.event_times + 1 =
        rw times (length-append cb.event_times (now ∷ [])) in
      let (tripped, none_dropped) =
        run_burst (allow_at cb now).0 (n2 ∷ rest) next
          (subst (λ w. Within lo w (n2 ∷ rest)) (sym same) h.1) (omega arith) (omega arith) in
      (tripped, rw passed none_dropped)

-- A fresh breaker that is given events lying within one window of each other lets all of them
-- through as long as there is at most one more than its threshold: up to the threshold it
-- stays closed, and with the next event it is open.
pub run-new_burst :
    (cfg : CircuitBreakerConfig) (lo : ℕ) (times : List ℕ)
    → Within lo (new_circuit_breaker cfg).window times
    → let cb = new_circuit_breaker cfg in
      let (cb', answers) = run cb times in
      (length times ≤ cb.burst_threshold → (cb'.state ≡ circuit_closed) × (count_false answers ≡ 0))
      × (length times ≡ suc cb.burst_threshold
          → (cb'.state ≡ circuit_open) × (count_false answers ≡ 0))
unfolding new_circuit_breaker
run-new_burst cfg lo times h =
    let c : IsCalm lo (new_circuit_breaker cfg) = record { closed = refl; close_together = tt } in
    (
      λ l. run_calm lo (new_circuit_breaker cfg) times c h (omega arith),
      λ l. run_burst lo (new_circuit_breaker cfg) times c h (omega arith) (omega arith),
    )

-- Times in order, none before `lo`.
abbrev pub SortedFrom : ℕ → List ℕ → Type 0
SortedFrom lo [] = Unit
SortedFrom lo (t ∷ ts) = (lo ≤ t) × SortedFrom t ts

abbrev pub last_or : ℕ → List ℕ → ℕ
last_or d [] = d
last_or d (t ∷ ts) = last_or t ts

-- The events that are inside the window at `now`.
abbrev pub in_window : ℕ → ℕ → List ℕ → List ℕ
in_window now window = keep (λ t. leb now (t + window))

in_window_all :
    (now window t : ℕ) (ts : List ℕ)
    → now ≤ t + window
    → SortedFrom t ts
    → in_window now window ts ≡ ts
in_window_all now window t [] h s = refl
in_window_all now window t (x ∷ xs) h s =
    ground (arith, in_window_all now window x xs (omega arith) s.1)

pub prune-in_window :
    (prev now window lo : ℕ) (ts : List ℕ)
    → prev ≤ now
    → SortedFrom lo ts
    → prune_times now window (in_window prev window ts) ≡ in_window now window ts
unfolding prune_times
prune-in_window prev now window lo [] h s = refl
prune-in_window prev now window lo (x ∷ xs) h s = elim (Bool-cases (leb now (x + window))) [
  | inl inside ↦ ground (
    arith,
    in_window_all now window x xs (leb→le now (x + window) inside) s.1,
    in_window_all prev window x xs (le_trans h (leb→le now (x + window) inside)) s.1,
  )
  | inr outside ↦ ground (arith, prune-in_window prev now window x xs h s.1)
]

pub SortedFrom-snoc :
    (lo now : ℕ) (ts : List ℕ)
    → SortedFrom lo ts
    → last_or lo ts ≤ now
    → SortedFrom lo (ts ++ now ∷ [])
SortedFrom-snoc lo now [] s h = (h, tt)
SortedFrom-snoc lo now (t ∷ ts) s h = (s.0, SortedFrom-snoc t now ts s.1 h)

pub last_or-snoc : (lo now : ℕ) (ts : List ℕ) → last_or lo (ts ++ now ∷ []) ≡ now
last_or-snoc lo now [] = refl
last_or-snoc lo now (t ∷ ts) = last_or-snoc t now ts

pub in_window-snoc :
    (now window : ℕ) (ts : List ℕ)
    → in_window now window (ts ++ now ∷ []) ≡ in_window now window ts ++ now ∷ []
in_window-snoc now window [] = ground arith
in_window-snoc now window (t ∷ ts) = ground (arith, in_window-snoc now window ts)

pub allow_at-times :
    (cb : CircuitBreaker) (now : ℕ)
    → ((allow_at cb now).0.event_times ≡ prune_times now cb.window cb.event_times ++ now ∷ [])
      × ((allow_at cb now).0.window ≡ cb.window)
unfolding allow_at
allow_at-times cb now = ground arith

module _ (lo window : ℕ) where
  run_window_from :
      (cb : CircuitBreaker) (seen times : List ℕ)
      → cb.window ≡ window
      → cb.event_times ≡ in_window (last_or lo seen) window seen
      → SortedFrom lo seen
      → SortedFrom (last_or lo seen) times
      → (run cb times).0.event_times
        ≡ in_window (last_or (last_or lo seen) times) window (seen ++ times)
  unfolding run
  run_window_from cb seen [] w e s r = rw append-nil e
  run_window_from cb seen (now ∷ rest) w e s r =
      let (times, same) = allow_at-times cb now in
      let pruned = prune-in_window (last_or lo seen) now window lo seen r.0 s in
      let held : (allow_at cb now).0.event_times ≡ in_window now window (seen ++ now ∷ []) =
        rw (times, w, e, pruned, in_window-snoc) refl in
      let step =
        run_window_from (allow_at cb now).0 (seen ++ now ∷ []) rest (same ∙ w)
          (rw last_or-snoc held) (SortedFrom-snoc lo now seen s r.0) (rw last_or-snoc r.1) in
      rw (last_or-snoc, append_assoc) at step

-- When events come in order, a breaker that started with none recorded holds exactly those
-- events that are inside the detection window at the latest one, in order of arrival.
pub run_window :
    (cb : CircuitBreaker) (times : List ℕ)
    → cb.event_times ≡ []
    → SortedFrom 0 times
    → (run cb times).0.event_times ≡ in_window (last_or 0 times) cb.window times
run_window cb times e s = run_window_from 0 cb.window cb [] times refl e tt s
