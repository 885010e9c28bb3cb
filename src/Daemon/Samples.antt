-- ===== src/Daemon/Samples.antt =====
-- The theorems on internal/daemon at concrete inputs, and tests of its code.
use clai.Common.{
  ℕ, suc, ◌-◌, ◌+◌, ◌/◌, ◌%◌, ◌^◌, ◌≤◌, true, false, List, [], ◌∷◌, length, take_last, ◌≡◌, refl,
  arith, pos, count_true, count_false,
}
use clai.Daemon.CircuitBreaker.{
  CircuitBreaker, circuit_closed, circuit_open, CircuitBreakerConfig, new_circuit_breaker,
  prune_times, allow_at, run, stats,
}
use clai.Daemon.CircuitBreaker.Safety.{IsValid, new-IsValid, run-IsValid, run_accounts, run_sampled}
use clai.Daemon.CircuitBreaker.Reference.{calm, observe, run-observe, state_of}
use clai.Daemon.CircuitBreaker.Window.{run-new_burst, run_window, in_window}
use clai.Daemon.IngestionQueue
use clai.Daemon.IngestionQueue.{
  IngestionQueue, Batch, batch, new_ingestion_queue, enqueue, dequeue_n, dequeue,
}
use clai.Daemon.IngestionQueue.Fifo
use clai.Daemon.IngestionQueue.Fifo.{
  enqueue_all, enqueue_lem, enqueue_all-events, enqueue_all-counts, dequeue_times,
  dequeue_n-dequeue_times,
}

-- Two events in ten time units, and a quiet period of five.
abbrev small : CircuitBreakerConfig
small = record { burst_threshold = pos 2; window = pos 10; quiet_period = pos 5 }

abbrev burst : List ℕ
burst = 100 ∷ 101 ∷ 102 ∷ 103 ∷ 104 ∷ 105 ∷ 106 ∷ []

abbrev fresh : CircuitBreaker
fresh = new_circuit_breaker small

abbrev idle : CircuitBreaker
idle = record {
  last_trip = 0;
  event_times = [];
  burst_threshold = 2;
  window = 10;
  quiet_period = 5;
  state = circuit_closed;
  total_accepted = 0;
  total_rejected = 0;
  sample_counter = 0;
  sample_rate = 4;
}

abbrev tripped : CircuitBreaker
tripped = record {
  last_trip = 102;
  event_times = 100 ∷ 101 ∷ 102 ∷ [];
  burst_threshold = 2;
  window = 10;
  quiet_period = 5;
  state = circuit_open;
  total_accepted = 3;
  total_rejected = 0;
  sample_counter = 0;
  sample_rate = 4;
}

tripped-IsValid : IsValid tripped
tripped-IsValid = ground arith

burst_answers : (run fresh burst).1 ≡ true ∷ true ∷ true ∷ false ∷ false ∷ false ∷ true ∷ []
unfolding run allow_at prune_times new_circuit_breaker
burst_answers = refl

defaults :
    (new_circuit_breaker
      (record { burst_threshold = pos 0; window = pos 0; quiet_period = pos 0 })).burst_threshold
    ≡ 200
unfolding new_circuit_breaker
defaults = refl

run-IsValid_example : IsValid (run fresh burst).0
run-IsValid_example = run-IsValid fresh burst (new-IsValid small)

run_accounts_example :
    let (cb', answers) = run fresh burst in
    ((stats cb').total_accepted ≡ (fresh.total_accepted + count_true answers) % 2 ^ 64)
    × ((stats cb').total_rejected ≡ (fresh.total_rejected + count_false answers) % 2 ^ 64)
    × (count_true answers + count_false answers ≡ length burst)
run_accounts_example = run_accounts fresh burst (new-IsValid small)

run_sampled_example :
    let (cb', answers) = run tripped (103 ∷ 104 ∷ 105 ∷ 106 ∷ []) in
    (cb'.state ≡ circuit_open) × (count_true answers ≡ (0 + 4) / 4)
run_sampled_example =
    run_sampled tripped (103 ∷ 104 ∷ 105 ∷ 106 ∷ []) tripped-IsValid refl (omega arith)

-- Two events in the window are not yet a burst, the third begins one that ends at 130.
run-observe_example :
    let (cb', answers) = run fresh (100 ∷ 101 ∷ 102 ∷ 103 ∷ 104 ∷ 130 ∷ []) in
    let (p, expected) = observe 2 10 5 calm [] (100 ∷ 101 ∷ 102 ∷ 103 ∷ 104 ∷ 130 ∷ []) in
    (answers ≡ expected) × (cb'.state ≡ state_of p)
unfolding new_circuit_breaker
run-observe_example = run-observe small (100 ∷ 101 ∷ 102 ∷ 103 ∷ 104 ∷ 130 ∷ []) (omega arith)

observed :
    observe 2 10 5 calm [] (100 ∷ 101 ∷ 102 ∷ 103 ∷ 104 ∷ 130 ∷ [])
    ≡ (calm, true ∷ true ∷ true ∷ false ∷ false ∷ true ∷ [])
observed = refl

run-new_burst_example :
    let (cb', answers) = run fresh (100 ∷ 104 ∷ []) in
    (2 ≤ fresh.burst_threshold → (cb'.state ≡ circuit_closed) × (count_false answers ≡ 0))
    × (◌≡◌ {A = ℕ} 2 (suc fresh.burst_threshold)
        → (cb'.state ≡ circuit_open) × (count_false answers ≡ 0))
unfolding new_circuit_breaker
run-new_burst_example = run-new_burst small 100 (100 ∷ 104 ∷ []) (omega arith)

run_window_example :
    (run idle (100 ∷ 105 ∷ 112 ∷ [])).0.event_times ≡ in_window 112 10 (100 ∷ 105 ∷ 112 ∷ [])
run_window_example = run_window idle (100 ∷ 105 ∷ 112 ∷ []) refl (omega arith)

abbrev queue : IngestionQueue ℕ
queue = record {
  events = 1 ∷ 2 ∷ [];
  max_size = 2;
  warn_threshold = 1;
  total_dropped = 0;
  total_enqueued = 2;
  warned = true;
}

queue-IsValid : Fifo.IsValid queue
queue-IsValid = ground arith

oldest_dropped : (enqueue queue 3).0.events ≡ 2 ∷ 3 ∷ []
unfolding enqueue
oldest_dropped = refl

enqueue_all-events_example :
    Fifo.IsValid (enqueue_all queue (3 ∷ 4 ∷ [])).0
    × ((enqueue_all queue (3 ∷ 4 ∷ [])).0.events ≡ take_last 2 (1 ∷ 2 ∷ 3 ∷ 4 ∷ []))
enqueue_all-events_example = enqueue_all-events queue (3 ∷ 4 ∷ []) queue-IsValid

enqueue_all-counts_example :
    let (q', flags) = enqueue_all queue (3 ∷ 4 ∷ []) in
    ((IngestionQueue.stats q').total_enqueued ≡ (2 + 2) % 2 ^ 64)
    × ((IngestionQueue.stats q').total_dropped ≡ (0 + count_true flags) % 2 ^ 64)
    × ((IngestionQueue.stats q').current_size + count_true flags ≡ 2 + 2)
    × (count_true flags ≡ 2 + 2 - 2)
enqueue_all-counts_example = enqueue_all-counts queue (3 ∷ 4 ∷ []) queue-IsValid

dequeue_n-dequeue_times_example :
    dequeue_n queue (pos 3) ≡ ((dequeue_times 3 queue).0, batch (dequeue_times 3 queue).1)
dequeue_n-dequeue_times_example = dequeue_n-dequeue_times 3 queue
