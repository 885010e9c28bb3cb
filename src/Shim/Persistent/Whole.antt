-- ===== src/Shim/Persistent/Whole.antt =====
-- internal/shim/persistent.go: whole runs, from the first connection to the last event.
use clai.Common.{
  if◌then◌else◌, true, List, [], ◌∷◌, ◌++◌, Text, String, Option, none, some, pos, ◌≡◌, refl, sym,
  ap, ap₂, ◌∙◌, Bool-cases, inl, inr, append-nil, append_assoc, Option-cases, ◌↔◌, arith,
}
use clai.Shim.Event.{ShimEvent, Parsed, parsed, refused, parse_shim_event}
use clai.Shim.RingBuffer.{default_ring_capacity}
use clai.Shim.RingBuffer.Refinement.{contents, new-IsValid, contents-new}
use clai.Shim.Persistent.{
  Pointer, Error, Call, Network, Runner, Scanned, new_runner, connect, handle_event, handle_line,
  handle_parsed, close_down, drain_and_close, drain_buffer_oneshot, scan, start, run, send_each,
  dispatch_each,
}
use clai.Shim.Persistent.Accepted.{
  Attempt, attempts, acknowledged, acknowledged-append, accepted, IsSettled, IsReliable,
  drain_buffer_lem, drain_buffer_oneshot_lem,
}
use clai.Shim.Persistent.Delivery.{Tries, Handles, handle_event_lem}

-- The event of a line, if it has one.
abbrev pub event_of : Parsed → List Pointer
event_of (parsed ev) = some ev ∷ []
event_of (refused e) = []

abbrev pub events_of : (Text → Option ShimEvent) → Text → List Pointer
events_of unmarshal [] = []
events_of unmarshal (b ∷ bs) = event_of (parse_shim_event unmarshal (b ∷ bs))

-- The events of the lines up to the one at which the context is cancelled.
unfoldable pub events_read : (Text → Option ShimEvent) → List Scanned → List Pointer
events_read unmarshal [] = []
events_read unmarshal (s ∷ rest) =
    let later = events_read unmarshal rest in
    if s.cancelled then [] else events_of unmarshal s.line ++ later

module _ {C : Type 0} (net : Network C) where
  pub new-IsSettled : (version : String) → IsSettled (start net (new_runner version))
  unfolding start new_runner connect
  new-IsSettled version = elim (Option-cases (net.dials [])) [
    | inl lost ↦ rw lost record {
      valid = new-IsValid none (pos default_ring_capacity);
      empty = contents-new none (pos default_ring_capacity);
      mode = inl (refl, refl);
    }
    | inr (c, found) ↦ rw found record {
      valid = new-IsValid none (pos default_ring_capacity);
      empty = contents-new none (pos default_ring_capacity);
      mode = inr (refl, (c, refl));
    }
  ]

  new-acknowledged :
      (version : String) → acknowledged (attempts (start net (new_runner version)).calls) ≡ []
  unfolding start new_runner connect
  new-acknowledged version = elim (Option-cases (net.dials [])) [
    | inl lost ↦ rw lost refl
    | inr (c, found) ↦ rw found refl
  ]

  -- Events that are handled one after the other.
  unfoldable pub handle_all : List Pointer → Runner C → Runner C
  handle_all [] r = r
  handle_all (ev ∷ evs) r = handle_all evs (handle_event net ev r)

  handle_all-IsSettled :
      (evs : List Pointer) (r : Runner C) → IsSettled r → IsSettled (handle_all evs r)
  unfolding handle_all
  handle_all-IsSettled [] r v = v
  handle_all-IsSettled (ev ∷ evs) r v = handle_all-IsSettled evs _ (handle_event_lem net ev r v).1

  -- The ring is empty whenever no event is being handled, whatever the daemon does, and the runner
  -- has no connection exactly if it has fallen back to one connection for each event.
  pub handle_all_lem :
      (version : String) (evs : List Pointer)
      → let r = handle_all evs (start net (new_runner version)) in
        (contents none r.buf ≡ []) × ((r.oneshot ≡ true) ↔ (r.dispatcher ≡ none))
  handle_all_lem version evs =
      let v = handle_all-IsSettled evs _ (new-IsSettled version) in
      (v.empty, ground (arith, v.mode))

  -- The attempts for events in order.
  abbrev pub Sends : List Pointer → List Attempt → Type 0
  Sends [] l = l ≡ []
  Sends (ev ∷ evs) l =
      (tries : List Attempt) × (rest : List Attempt) × (l ≡ tries ++ rest)
      × Tries net ev tries
      × Sends evs rest

  -- What was attempted after `before` was for the events in order, and all ended well if the network
  -- is reliable.
  record HandlesAll (before : List Attempt) (after : List (Call C)) (evs : List Pointer)
      : Type 0 where
    log : List Attempt
    adds : attempts after ≡ before ++ log
    in_order : Sends evs log
    sure : IsReliable net → acknowledged log ≡ evs

  -- The last drain finds the ring empty.
  drain_and_close_lem :
      (r : Runner C) → IsSettled r → attempts (drain_and_close net r).calls ≡ attempts r.calls
  unfolding drain_and_close send_each dispatch_each
  drain_and_close_lem r v = elim v.mode [
    | inl (o, d) ↦
        ap
          (λ b.
            attempts
              (if b
                then drain_buffer_oneshot net r
                else record (close_down net r.dispatcher r) { dispatcher = none }).calls)
          o
        ∙ ap (λ x. attempts x.calls) (drain_buffer_oneshot_lem net r [] v.valid v.empty)
    | inr (o, (c, d)) ↦
        ap
          (λ b.
            attempts
              (if b
                then drain_buffer_oneshot net r
                else record (close_down net r.dispatcher r) { dispatcher = none }).calls)
          o
        ∙ ap (λ m. attempts (close_down net m r).calls) d
        ∙ ap (λ x. attempts x.calls) (drain_buffer_lem net r c [] d v.valid v.empty)
  ]

  HandlesAll-nothing :
      (before : List Attempt) (after : List (Call C))
      → attempts after ≡ before
      → HandlesAll before after []
  HandlesAll-nothing before after e = record {
    log = [];
    adds = e ∙ sym (append-nil before);
    in_order = refl;
    sure = λ _. refl;
  }

  HandlesAll-one :
      (before : List Attempt) (after : List (Call C)) (ev : Pointer)
      → Handles net before after ev
      → HandlesAll before after (ev ∷ [])
  HandlesAll-one before after ev t = record {
    log = t.tries;
    adds = t.adds;
    in_order = (t.tries, [], sym (append-nil t.tries), t.bounded, refl);
    sure = t.sure;
  }

  Sends-append :
      (xs ys : List Pointer) (l m : List Attempt)
      → Sends xs l
      → Sends ys m
      → Sends (xs ++ ys) (l ++ m)
  Sends-append [] ys l m p q = rw p q
  Sends-append (ev ∷ xs) ys l m (tries, rest, e, one, p) q =
      (tries, rest ++ m, rw e (append_assoc tries rest m), one, Sends-append xs ys rest m p q)

  HandlesAll-append :
      (before : List Attempt) (middle after : List (Call C)) (xs ys : List Pointer)
      → HandlesAll before middle xs
      → HandlesAll (attempts middle) after ys
      → HandlesAll before after (xs ++ ys)
  HandlesAll-append before middle after xs ys s t = record {
    log = s.log ++ t.log;
    adds = t.adds ∙ rw (s.adds) (append_assoc before s.log t.log);
    in_order = Sends-append xs ys s.log t.log s.in_order t.in_order;
    sure = λ h. acknowledged-append s.log t.log ∙ ap₂ ◌++◌ (s.sure h) (t.sure h);
  }

  module _ (unmarshal : Text → Option ShimEvent) where
    handle_line_lem :
        (line : Text) (r : Runner C)
        → IsSettled r
        → HandlesAll
            (attempts r.calls)
            (handle_line net unmarshal line r).calls
            (events_of unmarshal line)
          × IsSettled (handle_line net unmarshal line r)
    unfolding handle_line
    handle_line_lem [] r v = (HandlesAll-nothing (attempts r.calls) r.calls refl, v)
    handle_line_lem (b ∷ bs) r v = by_parse (parse_shim_event unmarshal (b ∷ bs))
      where
        by_parse :
            (p : Parsed)
            → HandlesAll (attempts r.calls) (handle_parsed net p r).calls (event_of p)
              × IsSettled (handle_parsed net p r)
        by_parse (refused e) = (HandlesAll-nothing (attempts r.calls) r.calls refl, v)
        by_parse (parsed ev) =
            let (t, settled) = handle_event_lem net (some ev) r v in
            (HandlesAll-one (attempts r.calls) _ (some ev) t, settled)

    scan_lem :
        (lines : List Scanned) (err : Option Error) (r : Runner C)
        → IsSettled r
        → HandlesAll
            (attempts r.calls)
            (scan net unmarshal lines err r).0.calls
            (events_read unmarshal lines)
    unfolding scan events_read
    scan_lem [] err r v = HandlesAll-nothing (attempts r.calls) _ (drain_and_close_lem r v)
    scan_lem (s ∷ rest) err r v =
        let (t, settled) = handle_line_lem s.line r v in
        elim (Bool-cases s.cancelled) [
          | inl over ↦ rw over (HandlesAll-nothing (attempts r.calls) _ (drain_and_close_lem r v))
          | inr on ↦ rw on (
              HandlesAll-append (attempts r.calls) _ _ (events_of unmarshal s.line) _ t
                (scan_lem rest err (handle_line net unmarshal s.line r) settled))
        ]

    -- Whatever the network answers, what a run attempts after its first dial are the attempts for
    -- each event that it reads, in their order: failed dials, if any, and then either a last failed
    -- dial or one dispatch of the event; before them there may be one more dispatch of it, which
    -- returned an error. So no event is passed over, one is given up only after a failed dial or a
    -- dispatch that returned an error, and none is dispatched more than twice or once more after a
    -- dispatch that returned no error.
    pub run-Sends :
        (version : String) (lines : List Scanned) (err : Option Error)
        → (l : List Attempt) × (attempts (run net unmarshal lines err (new_runner version)).0.calls
            ≡ attempts (start net (new_runner version)).calls ++ l)
          × Sends (events_read unmarshal lines) l
    unfolding run
    run-Sends version lines err =
        let t = scan_lem lines err (start net (new_runner version)) (new-IsSettled version) in
        (t.log, t.adds, t.in_order)

    -- If every dial is answered and the first dispatch on every new connection returns no error,
    -- then over a run every event of the input has exactly one dispatch that returns none, in order.
    pub run-accepted :
        (version : String) (lines : List Scanned) (err : Option Error)
        → IsReliable net
        → accepted (run net unmarshal lines err (new_runner version)).0.calls
          ≡ events_read unmarshal lines
    unfolding run
    run-accepted version lines err h =
        let t = scan_lem lines err (start net (new_runner version)) (new-IsSettled version) in
        ap acknowledged t.adds
        ∙ acknowledged-append (attempts (start net (new_runner version)).calls) t.log
        ∙ ap₂ ◌++◌ (new-acknowledged version) (t.sure h)
