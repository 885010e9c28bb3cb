-- ===== src/Daemon/CircuitBreaker/Safety.antt =====
-- The breaker's invariant, its counters, and how it samples while it is open.
use clai.Common.{
  ℕ, ◌+◌, ◌*◌, ◌/◌, ◌%◌, ◌^◌, ◌≤◌, ◌<◌, List, [], ◌∷◌, length, ◌≡◌, refl, arith, ap, All,
  count_true, count_true_cons, count_false, ap,
}
use native.Mathlib.Nat.{mul-add-div_right, div-eq_of_lt}
use clai.Daemon.CircuitBreaker.{
  CircuitBreaker, CircuitBreakerConfig, circuit_closed, circuit_open, new_circuit_breaker, allow_at,
  reset, run, stats,
}

pub record IsValid (cb : CircuitBreaker) : Type 0 where
  pub threshold_pos : 0 < cb.burst_threshold
  pub window_pos : 0 < cb.window
  pub quiet_pos : 0 < cb.quiet_period
  pub counter_lt_rate : cb.sample_counter < cb.sample_rate
  pub closed_calm : cb.state ≡ circuit_closed → length cb.event_times ≤ cb.burst_threshold
  pub accepted_int64 : cb.total_accepted < 2 ^ 64
  pub rejected_int64 : cb.total_rejected < 2 ^ 64

pub new-IsValid : (cfg : CircuitBreakerConfig) → IsValid (new_circuit_breaker cfg)
unfolding new_circuit_breaker
new-IsValid cfg = ground arith

pub allow_at-IsValid : (cb : CircuitBreaker) (now : ℕ) → IsValid cb → IsValid (allow_at cb now).0
unfolding allow_at
allow_at-IsValid cb now v = ground arith

pub reset-IsValid : (cb : CircuitBreaker) → IsValid cb → IsValid (reset cb)
unfolding reset
reset-IsValid cb v = ground arith

-- A run of events keeps every clause of the invariant: positive settings, the sample counter below
-- the sample rate, at most the threshold of events while closed, and counters in 64 bits.
pub run-IsValid : (cb : CircuitBreaker) (times : List ℕ) → IsValid cb → IsValid (run cb times).0
unfolding run
run-IsValid cb [] v = v
run-IsValid cb (now ∷ rest) v = run-IsValid (allow_at cb now).0 rest (allow_at-IsValid cb now v)

allow_at_counts :
    (cb : CircuitBreaker) (now : ℕ)
    → IsValid cb
    → let (cb', allowed) = allow_at cb now in
      (cb'.total_accepted ≡ (cb.total_accepted + count_true (allowed ∷ [])) % 2 ^ 64)
      × (cb'.total_rejected ≡ (cb.total_rejected + count_false (allowed ∷ [])) % 2 ^ 64)
unfolding allow_at
allow_at_counts cb now v = ground arith

-- Over a run, the two counters of `Stats` grow by exactly the numbers of events let through and
-- dropped, modulo 2^64, and each event is counted once.
pub run_accounts :
    (cb : CircuitBreaker) (times : List ℕ)
    → IsValid cb
    → let (cb', answers) = run cb times in
      ((stats cb').total_accepted ≡ (cb.total_accepted + count_true answers) % 2 ^ 64)
      × ((stats cb').total_rejected ≡ (cb.total_rejected + count_false answers) % 2 ^ 64)
      × (count_true answers + count_false answers ≡ length times)
unfolding run stats
run_accounts cb [] v = omega arith
run_accounts cb (now ∷ rest) v = ground (
  arith,
  allow_at_counts cb now v,
  run_accounts (allow_at cb now).0 rest (allow_at-IsValid cb now v),
)

-- An open breaker whose quiet period ends at `limit`, sampling one event in `rate`.
record IsSampling (limit rate : ℕ) (cb : CircuitBreaker) : Type 0 where
  is_open : cb.state ≡ circuit_open
  quiet_end : cb.last_trip + cb.quiet_period ≡ limit
  rate_is : cb.sample_rate ≡ rate
  counter_lt : cb.sample_counter < rate

module _ (limit rate : ℕ) where
  allow_at_sampled :
      (cb : CircuitBreaker) (now : ℕ)
      → IsSampling limit rate cb
      → now < limit
      → let (cb', allowed) = allow_at cb now in
        IsSampling limit rate cb'
        × (cb.sample_counter + 1 ≡ count_true (allowed ∷ []) * rate + cb'.sample_counter)
  unfolding allow_at
  allow_at_sampled cb now s h = ground arith

  run_sampled_from :
      (cb : CircuitBreaker) (times : List ℕ)
      → IsSampling limit rate cb
      → All (λ now. now < limit) times
      → let (cb', answers) = run cb times in
        IsSampling limit rate cb'
        × (cb.sample_counter + length times ≡ count_true answers * rate + cb'.sample_counter)
  unfolding run
  run_sampled_from cb [] s h = (s, omega arith)
  run_sampled_from cb (now ∷ rest) s h =
      let (cb', allowed) = allow_at cb now in
      let (s', one) = allow_at_sampled cb now s h.0 in
      let (last, more) = run_sampled_from cb' rest s' h.1 in
      (
        last,
        omega
            (arith, one, more, ap (λ (t : ℕ). t * rate) (count_true_cons allowed (run cb' rest).1)),
      )

-- While the quiet period of an open breaker lasts it stays open, and of `n` events it lets
-- through exactly `(c + n) / rate`, where `c` is its sample counter at the start.
pub run_sampled :
    (cb : CircuitBreaker) (times : List ℕ)
    → IsValid cb
    → cb.state ≡ circuit_open
    → All (λ now. now < cb.last_trip + cb.quiet_period) times
    → let (cb', answers) = run cb times in
      (cb'.state ≡ circuit_open)
      × (count_true answers ≡ (cb.sample_counter + length times) / cb.sample_rate)
run_sampled cb times v o h =
    let (s, e) =
      run_sampled_from (cb.last_trip + cb.quiet_period) cb.sample_rate cb times
        (record { is_open = o; quiet_end = refl; rate_is = refl; counter_lt = v.counter_lt_rate })
        h in
    let pos : 0 < cb.sample_rate = omega arith in
    (
      s.is_open,
      rw (e, mul-add-div_right pos (count_true (run cb times).1) (run cb times).0.sample_counter)
          (rw (div-eq_of_lt s.counter_lt) (omega arith)),
    )
