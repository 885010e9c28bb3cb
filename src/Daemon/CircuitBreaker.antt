-- ===== src/Daemon/CircuitBreaker.antt =====
-- internal/daemon/circuit_breaker.go: the burst breaker in front of ingestion.
-- An instant is its nanoseconds since an origin earlier than every `now - window`, so that
-- `t.Before(now.Add(-window))` is `t + window < now`. A method that changes `*CircuitBreaker`
-- returns the new record; the mutex makes each call one step, and the logger is left out.
use clai.Common.{
  ℕ, zero, suc, ◌+◌, ◌%◌, ◌^◌, ◌≤◌, ◌<◌, ltb, leb, if◌then◌else◌, Bool, true, false, ◌&&◌, List, [],
  ◌∷◌, ◌++◌, length, ℤ, positive_or, int64_add, String,
}
pub mod Reference
pub mod Safety
pub mod Window

-- The constants of `CircuitBreakerState`. No other value of the type is ever stored.
pub data CircuitBreakerState : Type 0 where
  circuit_closed circuit_open : CircuitBreakerState

pub record CircuitBreaker : Type 0 where
  pub last_trip : ℕ
  pub event_times : List ℕ
  pub burst_threshold : ℕ
  pub window : ℕ
  pub quiet_period : ℕ
  pub state : CircuitBreakerState
  pub total_accepted : ℕ  -- int64
  pub total_rejected : ℕ  -- int64
  pub sample_counter : ℕ
  pub sample_rate : ℕ

pub record CircuitBreakerConfig : Type 0 where
  pub burst_threshold : ℤ
  pub window : ℤ
  pub quiet_period : ℤ

-- `NewCircuitBreaker`, for a configuration that is not nil.
unfoldable pub new_circuit_breaker : CircuitBreakerConfig → CircuitBreaker
new_circuit_breaker cfg = record {
  last_trip = 0;
  event_times = [];
  burst_threshold = positive_or cfg.burst_threshold 200;
  window = positive_or cfg.window 1_000_000_000;
  quiet_period = positive_or cfg.quiet_period 500_000_000;
  state = circuit_closed;
  total_accepted = 0;
  total_rejected = 0;
  sample_counter = 0;
  sample_rate = 4;
}

-- The loop of `pruneOldEvents`: it stops at the first event inside the window.
unfoldable pub prune_times : ℕ → ℕ → List ℕ → List ℕ
prune_times now window [] = []
prune_times now window (t ∷ ts) = if ltb (t + window) now then prune_times now window ts else t ∷ ts

pub prune_old_events : CircuitBreaker → ℕ → CircuitBreaker
prune_old_events cb now = record cb { event_times = prune_times now cb.window cb.event_times }

accept : CircuitBreaker → CircuitBreaker × Bool
accept cb = (record cb { total_accepted = int64_add cb.total_accepted 1 }, true)

-- The `switch` of `AllowAt`, the event already pruned for and recorded.
allow_in : CircuitBreakerState → CircuitBreaker → ℕ → CircuitBreaker × Bool
unfolding accept
allow_in circuit_closed cb now = accept (
    if ltb cb.burst_threshold (length cb.event_times)
    then record cb { state = circuit_open; last_trip = now; sample_counter = 0 }
    else cb)
allow_in circuit_open cb now =
    if leb (length cb.event_times) cb.burst_threshold && leb (cb.last_trip + cb.quiet_period) now
    then accept (record cb { state = circuit_closed; sample_counter = 0 })
    else if leb cb.sample_rate (cb.sample_counter + 1)
    then accept (record cb { sample_counter = 0 })
    else (
      record cb {
        sample_counter = cb.sample_counter + 1;
        total_rejected = int64_add cb.total_rejected 1;
      },
      false,
    )

unfoldable pub allow_at : CircuitBreaker → ℕ → CircuitBreaker × Bool
unfolding allow_in prune_old_events
allow_at cb now =
    let pruned = prune_old_events cb now in
    allow_in pruned.state (record pruned { event_times = pruned.event_times ++ now ∷ [] }) now

unfoldable pub reset : CircuitBreaker → CircuitBreaker
reset cb = record cb { state = circuit_closed; event_times = []; sample_counter = 0 }

pub record CircuitBreakerStats : Type 0 where
  pub state : CircuitBreakerState
  pub total_accepted : ℕ
  pub total_rejected : ℕ
  pub events_in_window : ℕ
  pub threshold : ℕ

unfoldable pub stats : CircuitBreaker → CircuitBreakerStats
stats cb = record {
  state = cb.state;
  total_accepted = cb.total_accepted;
  total_rejected = cb.total_rejected;
  events_in_window = length cb.event_times;
  threshold = cb.burst_threshold;
}

-- A sequence of calls of `AllowAt`, with the answers in order.
unfoldable pub run : CircuitBreaker → List ℕ → CircuitBreaker × List Bool
run cb [] = (cb, [])
run cb (now ∷ rest) =
    let (cb', allowed) = allow_at cb now in
    let (last, answers) = run cb' rest in (last, allowed ∷ answers)
