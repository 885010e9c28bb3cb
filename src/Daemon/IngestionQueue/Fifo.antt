-- ===== src/Daemon/IngestionQueue/Fifo.antt =====
-- The queue keeps the newest events in order and accounts for the ones that it drops.
use clai.Common.{
  tail, length-tail, take_last-shift, ℕ, zero, suc, ◌+◌, ◌-◌, ◌*◌, ◌/◌, ◌%◌, ◌^◌, ◌≤◌, ◌<◌, ltb,
  leb, Bool, List, [], ◌∷◌, ◌++◌, length, take, drop, take_last, take_last_short,
  take_last-append_take_last, ◌≡◌, refl, ◌∙◌, sym, arith, Option, none, some, ℤ, pos, count_true,
  count_true_cons, length-append, append_assoc, append-nil, Bool-cases, inl, inr, drop-nil,
  take-nil, drop_all, take_all, ltb→lt,
}
use native.Mathlib.Nat.{le_refl}
use clai.Daemon.IngestionQueue.{
  IngestionQueue, batch, new_ingestion_queue, enqueue, dequeue, dequeue_n, stats,
}

module _ {ℓ} {A : Type ℓ} where
  pub record IsValid (q : IngestionQueue A) : Type 0 where
    pub size_pos : 0 < q.max_size
    pub bounded : length q.events ≤ q.max_size
    pub warn_at : q.warn_threshold ≡ q.max_size * 3 / 4
    pub dropped_int64 : q.total_dropped < 2 ^ 64
    pub enqueued_int64 : q.total_enqueued < 2 ^ 64

  -- An event that is not there adds nothing.
  abbrev consed : Option A → List A → List A
  consed none xs = xs
  consed (some x) xs = x ∷ xs

  pub new-IsValid : (n : ℤ) → IsValid (new_ingestion_queue n)
  unfolding new_ingestion_queue
  new-IsValid n = ground arith

  pub enqueue-IsValid : (q : IngestionQueue A) (event : A) → IsValid q → IsValid (enqueue q event).0
  unfolding enqueue
  enqueue-IsValid q event v = ground (
    arith,
    length-append q.events (event ∷ []),
    length-append (tail q.events) (event ∷ []),
    length-tail q.events,
  )

  -- One call: the events, cut to the newest `max_size`, the flag that it returns, and the
  -- warning, which is on exactly when the queue is at its threshold.
  pub enqueue_lem :
      (q : IngestionQueue A) (event : A)
      → IsValid q
      → let (q', dropped) = enqueue q event in
        (q'.events ≡ take_last q.max_size (q.events ++ event ∷ []))
        × (dropped ≡ leb q.max_size (length q.events))
        × (q'.warned ≡ leb q.warn_threshold (length q'.events))
        × (q'.max_size ≡ q.max_size)
  unfolding enqueue
  enqueue_lem q event v =
      let shifted = take_last-shift q.max_size q.events event v.size_pos v.bounded in
      (ground (arith, shifted), ground arith, ground arith, ground arith)

  -- A sequence of calls of `Enqueue`, with the flags that they return.
  unfoldable pub enqueue_all : IngestionQueue A → List A → IngestionQueue A × List Bool
  enqueue_all q [] = (q, [])
  enqueue_all q (event ∷ rest) =
      let (q', dropped) = enqueue q event in
      let (last, flags) = enqueue_all q' rest in (last, dropped ∷ flags)

  -- After any number of `Enqueue` calls the queue holds the newest `max_size` of the events that
  -- it held and was given, in order.
  pub enqueue_all-events :
      (q : IngestionQueue A) (xs : List A)
      → IsValid q
      → IsValid (enqueue_all q xs).0
        × ((enqueue_all q xs).0.events ≡ take_last q.max_size (q.events ++ xs))
  unfolding enqueue_all
  enqueue_all-events q [] v = (v, sym (rw append-nil (take_last_short _ _ v.bounded)))
  enqueue_all-events q (event ∷ rest) v =
      let (events, _, _, size) = enqueue_lem q event v in
      let (valid, newest) =
        enqueue_all-events (enqueue q event).0 rest (enqueue-IsValid q event v) in
      (
        valid,
        newest
            ∙ rw (events, size)
                (take_last-append_take_last q.max_size (q.events ++ event ∷ []) rest
                  ∙ rw append_assoc refl),
      )

  enqueue_counts :
      (q : IngestionQueue A) (event : A)
      → IsValid q
      → let (q', dropped) = enqueue q event in
        (q'.total_enqueued ≡ (q.total_enqueued + 1) % 2 ^ 64)
        × (q'.total_dropped ≡ (q.total_dropped + count_true (dropped ∷ [])) % 2 ^ 64)
        × (length q'.events + count_true (dropped ∷ []) ≡ length q.events + 1)
        × (count_true (dropped ∷ []) ≡ length q.events + 1 - q.max_size)
        × (q'.max_size ≡ q.max_size)
  unfolding enqueue
  enqueue_counts q event v = ground (
    arith,
    length-append q.events (event ∷ []),
    length-append (tail q.events) (event ∷ []),
    length-tail q.events,
  )

  -- The counters of `Stats` after a number of `Enqueue` calls: each event is counted once as
  -- enqueued, the dropped ones are those that do not fit, and what is left is in the queue.
  pub enqueue_all-counts :
      (q : IngestionQueue A) (xs : List A)
      → IsValid q
      → let (q', flags) = enqueue_all q xs in
        ((stats q').total_enqueued ≡ (q.total_enqueued + length xs) % 2 ^ 64)
        × ((stats q').total_dropped ≡ (q.total_dropped + count_true flags) % 2 ^ 64)
        × ((stats q').current_size + count_true flags ≡ length q.events + length xs)
        × (count_true flags ≡ length q.events + length xs - q.max_size)
  unfolding enqueue_all stats
  enqueue_all-counts q [] v = omega arith
  enqueue_all-counts q (event ∷ rest) v =
      let (q1, dropped) = enqueue q event in
      omega (
        arith,
        enqueue_counts q event v,
        enqueue_all-counts q1 rest (enqueue-IsValid q event v),
        count_true_cons dropped (enqueue_all q1 rest).1,
      )

  -- `n` calls of `Dequeue`, with the events that they return.
  unfoldable pub dequeue_times : ℕ → IngestionQueue A → IngestionQueue A × List A
  dequeue_times zero q = (q, [])
  dequeue_times (suc n) q =
      let (q', first) = dequeue q in
      let (last, events) = dequeue_times n q' in (last, consed first events)

  dequeue_times_lem :
      (n : ℕ) (q : IngestionQueue A) (es : List A)
      → dequeue_times n (record q { events = es }) ≡ (record q { events = drop n es }, take n es)
  unfolding dequeue_times dequeue
  dequeue_times_lem zero q es = refl
  dequeue_times_lem (suc n) q [] = rw (dequeue_times_lem n q [], ← drop-nil, take-nil)
  dequeue_times_lem (suc n) q (e ∷ es) = rw (dequeue_times_lem n q es)

  dequeue_from_lem :
      (n : ℕ) (q : IngestionQueue A) (es : List A)
      → dequeue_n (record q { events = es }) (pos n)
        ≡ (record q { events = drop n es }, batch (take n es))
  unfolding dequeue_n
  dequeue_from_lem n q [] = rw (← drop-nil, take-nil)
  dequeue_from_lem n q (e ∷ es) = elim (Bool-cases (ltb (length (e ∷ es)) n)) [
    | inl more ↦
        let le : length (e ∷ es) ≤ n = omega (arith, ltb→lt (length (e ∷ es)) n more) in
        rw (
          more,
          drop_all n (e ∷ es) le,
          take_all n (e ∷ es) le,
          drop_all (length es) es (le_refl _),
          take_all (length es) es (le_refl _),
        )
    | inr fits ↦ rw fits
  ]

  -- `DequeueN` of a number that is not negative is that many calls of `Dequeue`.
  pub dequeue_n-dequeue_times :
      (n : ℕ) (q : IngestionQueue A)
      → dequeue_n q (pos n) ≡ ((dequeue_times n q).0, batch (dequeue_times n q).1)
  dequeue_n-dequeue_times n q = rw (dequeue_from_lem n q q.events, dequeue_times_lem n q q.events)
