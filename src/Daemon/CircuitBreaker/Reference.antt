-- ===== src/Daemon/CircuitBreaker/Reference.antt =====
-- internal/daemon/circuit_breaker.go: a whole run of the breaker against a reference that keeps
-- every event so far and counts the events of a burst without ever starting the count again.
use clai.Common.{
  ℕ, ◌+◌, ◌%◌, ◌==◌, ltb, leb, if◌then◌else◌, Bool, true, ◌&&◌, List, [], ◌∷◌, ◌++◌, length, ◌≡◌,
  refl, ap, ap₂, sym, arith, ◌∙◌,
}
use clai.Daemon.CircuitBreaker.{
  CircuitBreaker, CircuitBreakerConfig, CircuitBreakerState, circuit_closed, circuit_open,
  new_circuit_breaker, prune_times, allow_at, run,
}
use clai.Daemon.CircuitBreaker.Window.{
  SortedFrom, last_or, in_window, prune-in_window, SortedFrom-snoc, last_or-snoc, in_window-snoc,
  allow_at-times,
}

-- Outside a burst, or in a burst since an instant, with the number of events after it.
pub data Phase : Type 0 where
  calm : Phase
  burst : ℕ → ℕ → Phase

abbrev pub state_of : Phase → CircuitBreakerState
state_of calm = circuit_closed
state_of (burst since n) = circuit_open

module _ (threshold window quiet : ℕ) where
  -- An event at `now`, with the number of events that the window then holds: a burst begins with
  -- more than the threshold, and ends when the quiet period since its beginning is over and the
  -- window holds the threshold at most. Of the events in it every fourth is let through.
  abbrev pub phase_step : Phase → ℕ → ℕ → Phase × Bool
  phase_step calm held now = (if ltb threshold held then burst now 0 else calm, true)
  phase_step (burst since n) held now =
      if leb held threshold && leb (since + quiet) now
      then (calm, true)
      else (burst since (n + 1), (n + 1) % 4 == 0)

  -- The phase and the answers after further events, from those seen so far.
  abbrev pub observe : Phase → List ℕ → List ℕ → Phase × List Bool
  observe p seen [] = (p, [])
  observe p seen (now ∷ rest) =
      let seen' = seen ++ now ∷ [] in
      let (p', allowed) = phase_step p (length (in_window now window seen')) now in
      let (last, answers) = observe p' seen' rest in (last, allowed ∷ answers)

  abbrev Shows : Phase → CircuitBreaker → Type 0
  Shows calm cb = cb.state ≡ circuit_closed
  Shows (burst since n) cb =
      (cb.state ≡ circuit_open) × (cb.last_trip ≡ since) × (cb.sample_counter ≡ n % 4)

  -- A breaker with these settings in that phase.
  record IsIn (p : Phase) (cb : CircuitBreaker) : Type 0 where
    threshold_is : cb.burst_threshold ≡ threshold
    window_is : cb.window ≡ window
    quiet_is : cb.quiet_period ≡ quiet
    rate_is : cb.sample_rate ≡ 4
    shows : Shows p cb

  allow_at-phase_step :
      (p : Phase) (cb : CircuitBreaker) (now held : ℕ)
      → IsIn p cb
      → length (prune_times now cb.window cb.event_times ++ now ∷ []) ≡ held
      → let (cb', allowed) = allow_at cb now in
        IsIn (phase_step p held now).0 cb' × (allowed ≡ (phase_step p held now).1)
  unfolding allow_at
  allow_at-phase_step calm cb now held s h = ground arith
  allow_at-phase_step (burst since n) cb now held s h = ground arith

  Shows-state_of : (p : Phase) (cb : CircuitBreaker) → Shows p cb → cb.state ≡ state_of p
  Shows-state_of calm cb s = s
  Shows-state_of (burst since n) cb s = s.0

  run-observe_from :
      (p : Phase) (cb : CircuitBreaker) (seen times : List ℕ)
      → IsIn p cb
      → cb.event_times ≡ in_window (last_or 0 seen) window seen
      → SortedFrom 0 seen
      → SortedFrom (last_or 0 seen) times
      → let (cb', answers) = run cb times in
        let (q, expected) = observe p seen times in (answers ≡ expected) × (cb'.state ≡ state_of q)
  unfolding run
  run-observe_from p cb seen [] i e s r = (refl, Shows-state_of p cb i.shows)
  run-observe_from p cb seen (now ∷ rest) i e s r =
      let seen' : List ℕ = seen ++ now ∷ [] in
      let held : prune_times now cb.window cb.event_times ++ now ∷ [] ≡ in_window now window seen' =
        rw (i.window_is, e, prune-in_window (last_or 0 seen) now window 0 seen r.0 s)
          (sym (in_window-snoc now window seen)) in
      let (i', same) =
        allow_at-phase_step p cb now (length (in_window now window seen')) i (ap length held) in
      let (answers, state) =
        run-observe_from (phase_step p (length (in_window now window seen')) now).0
          (allow_at cb now).0 seen' rest i' (rw last_or-snoc ((allow_at-times cb now).0 ∙ held))
          (SortedFrom-snoc 0 now seen s r.0) (rw last_or-snoc r.1) in
      (ap₂ ◌∷◌ same answers, state)

-- A fresh breaker that is given events in order behaves so: a burst begins at
-- an event with which the window holds more than the threshold; it ends at the first later event
-- for which the quiet period since that beginning is over and the window holds at most the
-- threshold; every event outside a burst is let through, as are those that begin and end one, and
-- of the events in between every fourth, counted from the beginning of the burst. After the run the
-- breaker is open exactly in a burst.
pub run-observe :
    (cfg : CircuitBreakerConfig) (times : List ℕ)
    → SortedFrom 0 times
    → let cb = new_circuit_breaker cfg in
      let (cb', answers) = run cb times in
      let (p, expected) = observe cb.burst_threshold cb.window cb.quiet_period calm [] times in
      (answers ≡ expected) × (cb'.state ≡ state_of p)
unfolding new_circuit_breaker
run-observe cfg times s =
    let cb = new_circuit_breaker cfg in
    run-observe_from cb.burst_threshold cb.window cb.quiet_period calm cb [] times
      (record {
        threshold_is = refl;
        window_is = refl;
        quiet_is = refl;
        rate_is = refl;
        shows = refl;
      })
      refl tt s
