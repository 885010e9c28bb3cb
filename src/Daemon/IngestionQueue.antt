-- ===== src/Daemon/IngestionQueue.antt =====
-- internal/daemon/ingestion_queue.go: the bounded queue between the socket and the database,
-- which drops its oldest event when it is full. `A` is the type of its events; the mutex makes
-- each call one step, and the logger is left out but for the flag `warned` that guards it.
use clai.Common.{
  tail, ℕ, zero, suc, ◌+◌, ◌*◌, ◌/◌, ◌%◌, ◌^◌, ltb, leb, if◌then◌else◌, Bool, true, false, not,
  ◌&&◌, List, [], ◌∷◌, ◌++◌, length, take, drop, Option, none, some, ℤ, pos, negsuc, positive_or,
  int64_add,
}
pub mod Fifo

pub record IngestionQueue {ℓ} (A : Type ℓ) : Type ℓ where
  pub events : List A
  pub max_size : ℕ
  pub warn_threshold : ℕ
  pub total_dropped : ℕ  -- int64
  pub total_enqueued : ℕ  -- int64
  pub warned : Bool

pub record IngestionQueueStats : Type 0 where
  pub current_size : ℕ
  pub max_size : ℕ
  pub total_enqueued : ℕ
  pub total_dropped : ℕ

-- What `DequeueN` gives back; a negative count makes its `make` panic.
pub data Batch {ℓ} (A : Type ℓ) : Type ℓ where
  batch : List A → Batch A
  panic : Batch A

module _ {ℓ} {A : Type ℓ} where
  unfoldable pub new_ingestion_queue : ℤ → IngestionQueue A
  new_ingestion_queue max_size =
      let size = positive_or max_size 8192 in
      record {
        events = [];
        max_size = size;
        warn_threshold = size * 3 / 4;
        total_dropped = 0;
        total_enqueued = 0;
        warned = false;
      }

  -- The first half of `Enqueue`: make room, and say whether an event was dropped for it.
  make_room : IngestionQueue A → IngestionQueue A × Bool
  make_room q =
      if leb q.max_size (length q.events)
      then (record q { events = tail q.events; total_dropped = int64_add q.total_dropped 1 }, true)
      else (q, false)

  -- The second half: append, count, and set or clear the warning.
  append_event : IngestionQueue A → A → IngestionQueue A
  append_event q event =
      let events = q.events ++ event ∷ [] in
      record q {
        events = events;
        total_enqueued = int64_add q.total_enqueued 1;
        warned =
            if leb q.warn_threshold (length events) && not q.warned
            then true
            else if ltb (length events) q.warn_threshold
            then false
            else q.warned;
      }

  unfoldable pub enqueue : IngestionQueue A → A → IngestionQueue A × Bool
  unfolding make_room append_event
  enqueue q event = let (roomy, dropped) = make_room q in (append_event roomy event, dropped)

  abbrev split_first : List A → Option (A × List A)
  split_first [] = none
  split_first (event ∷ rest) = some (event, rest)

  unfoldable pub dequeue : IngestionQueue A → IngestionQueue A × Option A
  dequeue q = elim (split_first q.events) [
    | none ↦ (q, none)
    | some (event, rest) ↦ (record q { events = rest }, some event)
  ]

  -- `n` cut to the number of events there are.
  abbrev dequeue_from : List A → ℤ → IngestionQueue A → IngestionQueue A × Batch A
  dequeue_from [] n q = (q, batch [])
  dequeue_from (e ∷ es) (negsuc n) q = (q, panic)
  dequeue_from (e ∷ es) (pos n) q =
      let m = if ltb (length (e ∷ es)) n then length (e ∷ es) else n in
      (record q { events = drop m (e ∷ es) }, batch (take m (e ∷ es)))

  unfoldable pub dequeue_n : IngestionQueue A → ℤ → IngestionQueue A × Batch A
  dequeue_n q n = dequeue_from q.events n q

  unfoldable pub len : IngestionQueue A → ℕ
  len q = length q.events

  unfoldable pub stats : IngestionQueue A → IngestionQueueStats
  stats q = record {
    current_size = length q.events;
    max_size = q.max_size;
    total_enqueued = q.total_enqueued;
    total_dropped = q.total_dropped;
  }

  unfoldable pub clear : IngestionQueue A → IngestionQueue A
  clear q = record q { events = []; warned = false }
