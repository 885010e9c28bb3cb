-- ===== src/Shim/Persistent.antt =====
-- internal/shim/persistent.go: the persistent mode of the shim, which sends the events of a shell
-- over one connection and falls back to one connection for each event. The daemon is a parameter:
-- what a dial and a dispatch answer may depend on all calls so far, which the model's runner keeps,
-- the latest first. An event is a pointer, so that the ring's empty slots are nil (`none`).
use clai.Common.{
  ℕ, ◌==◌, if◌then◌else◌, Bool, true, false, ◌&&◌, ◌||◌, List, [], ◌∷◌, Text, codes, String, Option,
  none, some, pos,
}
use clai.Shim.Event.{ShimEvent, Parsed, parsed, refused, parse_shim_event}
use clai.Shim.RingBuffer.{RingBuffer, new_ring_buffer, push, drain_all, default_ring_capacity}
pub mod Accepted
pub mod Delivery
pub mod Whole
mod Samples

-- The pauses before the attempts to reconnect, in milliseconds.
abbrev pub backoff_delays : List ℕ
backoff_delays = 100 ∷ 500 ∷ []

abbrev pub Pointer : Type 0
Pointer = Option ShimEvent

-- What `isBrokenPipe` reads of an error: whether it wraps EPIPE, and its text.
pub record Error : Type 0 where
  pub is_epipe : Bool
  pub message : Text

abbrev starts_with : Text → Text → Bool
starts_with [] text = true
starts_with (c ∷ cs) [] = false
starts_with (c ∷ cs) (d ∷ ds) = (c == d) && starts_with cs ds

abbrev contains : Text → Text → Bool
contains part [] = starts_with part []
contains part (d ∷ ds) = starts_with part (d ∷ ds) || contains part ds

unfoldable pub is_broken_pipe : Option Error → Bool
is_broken_pipe none = false
is_broken_pipe (some e) =
    e.is_epipe
    || contains (codes "broken pipe") e.message
    || contains (codes "connection refused") e.message
    || contains (codes "transport is closing") e.message

-- The calls that leave the runner, with their answers.
pub data Call (C : Type 0) : Type 0 where
  dialled : Option C → Call C
  dispatched : C → Pointer → Option Error → Call C
  closed : C → Call C
  slept : ℕ → Call C

-- `DialFunc` and `Dispatcher`: no answer is a dial that failed, no error a dispatch that succeeded.
pub record Network (C : Type 0) : Type 0 where
  pub dials : List (Call C) → Option C
  pub dispatches : List (Call C) → C → Pointer → Option Error

pub record Runner (C : Type 0) : Type 0 where
  pub dispatcher : Option C
  pub buf : RingBuffer Pointer
  pub version : String
  pub oneshot : Bool
  pub calls : List (Call C)

-- A line of the input, and whether the context is cancelled when it is read.
pub record Scanned : Type 0 where
  pub cancelled : Bool
  pub line : Text

-- What `Run` returns: nil, the error of the context, or the scanner's.
pub data Outcome : Type 0 where
  finished interrupted : Outcome
  failed : Error → Outcome

unfoldable pub new_runner : {C : Type 0} → String → Runner C
new_runner version = record {
  dispatcher = none;
  buf = new_ring_buffer none (pos default_ring_capacity);
  version = version;
  oneshot = false;
  calls = [];
}

module _ {C : Type 0} (net : Network C) where
  abbrev pub dial : Runner C → Runner C × Option C
  dial r = let answer = net.dials r.calls in (record r { calls = dialled answer ∷ r.calls }, answer)

  abbrev pub dispatch : C → Pointer → Runner C → Runner C × Option Error
  dispatch c ev r =
      let err = net.dispatches r.calls c ev in
      (record r { calls = dispatched c ev err ∷ r.calls }, err)

  abbrev pub close : C → Runner C → Runner C
  close c r = record r { calls = closed c ∷ r.calls }

  abbrev pub sleep : ℕ → Runner C → Runner C
  sleep delay r = record r { calls = slept delay ∷ r.calls }

  abbrev pub connected : Runner C → Option C → Runner C × Bool
  connected r none = (r, false)
  connected r (some c) = (record r { dispatcher = some c }, true)

  -- The new runner, and whether there was no error.
  unfoldable pub connect : Runner C → Runner C × Bool
  connect r = let (r', answer) = dial r in connected r' answer

  -- `if r.dispatcher != nil { Close; r.dispatcher = nil }`
  abbrev pub drop_dispatcher : Option C → Runner C → Runner C
  drop_dispatcher none r = r
  drop_dispatcher (some c) r = record (close c r) { dispatcher = none }

  abbrev pub send_on : Option C → Pointer → Runner C → Runner C
  send_on none ev r = r
  send_on (some c) ev r = close c (dispatch c ev r).0

  unfoldable pub send_oneshot : Pointer → Runner C → Runner C
  send_oneshot ev r = let (r', answer) = dial r in send_on answer ev r'

  unfoldable pub send_each : List Pointer → Runner C → Runner C
  send_each [] r = r
  send_each (ev ∷ evs) r = send_each evs (send_oneshot ev r)

  unfoldable pub drain_buffer_oneshot : Runner C → Runner C
  drain_buffer_oneshot r =
      let (buf, events) = drain_all none r.buf in send_each events (record r { buf = buf })

  unfoldable pub dispatch_each : C → List Pointer → Runner C → Runner C
  dispatch_each c [] r = r
  dispatch_each c (ev ∷ evs) r = dispatch_each c evs (dispatch c ev r).0

  abbrev pub dispatch_drained : Option C → List Pointer → Runner C → Runner C
  dispatch_drained none events r = r
  dispatch_drained (some c) events r = dispatch_each c events r

  unfoldable pub drain_buffer : Runner C → Runner C
  drain_buffer r =
      let (buf, events) = drain_all none r.buf in
      dispatch_drained r.dispatcher events (record r { buf = buf })

  -- What `tryReconnect` does about the answer of a dial: the ring over the new connection, or
  -- what follows.
  abbrev pub reconnected : Option C → Runner C → Runner C → Runner C
  reconnected none r next = next
  reconnected (some c) r next = drain_buffer (record r { dispatcher = some c })

  -- The loop of `tryReconnect`, and what follows when every attempt has failed.
  unfoldable pub retry : List ℕ → Runner C → Runner C
  retry [] r = drain_buffer_oneshot (record r { oneshot = true })
  retry (delay ∷ delays) r =
      let (r', answer) = dial (sleep delay r) in
      let next = retry delays r' in reconnected answer r' next

  unfoldable pub try_reconnect : Runner C → Runner C
  try_reconnect r = retry backoff_delays (drop_dispatcher r.dispatcher r)

  unfoldable pub handle_broken_pipe : Pointer → Runner C → Runner C
  handle_broken_pipe ev r =
      send_oneshot ev
        (drain_buffer_oneshot (record (drop_dispatcher r.dispatcher r) { oneshot = true }))

  unfoldable pub buffer_and_reconnect : Pointer → Runner C → Runner C
  buffer_and_reconnect ev r = try_reconnect (record r { buf = push none r.buf ev })

  -- What `handleEvent` does about the answer of `Dispatch`.
  abbrev pub after_dispatch : Pointer → Option Error → Runner C → Runner C
  after_dispatch ev none r = r
  after_dispatch ev (some e) r =
      if is_broken_pipe (some e) then handle_broken_pipe ev r else buffer_and_reconnect ev r

  abbrev pub handle_on : Option C → Pointer → Runner C → Runner C
  handle_on none ev r = buffer_and_reconnect ev r
  handle_on (some c) ev r = let (r', err) = dispatch c ev r in after_dispatch ev err r'

  unfoldable pub handle_event : Pointer → Runner C → Runner C
  handle_event ev r = if r.oneshot then send_oneshot ev r else handle_on r.dispatcher ev r

  abbrev pub close_down : Option C → Runner C → Runner C
  close_down none r = drain_buffer_oneshot r
  close_down (some c) r = close c (drain_buffer r)

  unfoldable pub drain_and_close : Runner C → Runner C
  drain_and_close r =
      if r.oneshot
      then drain_buffer_oneshot r
      else record (close_down r.dispatcher r) { dispatcher = none }

  abbrev pub handle_parsed : Parsed → Runner C → Runner C
  handle_parsed (refused e) r = r
  handle_parsed (parsed ev) r = handle_event (some ev) r

  -- The initial connection.
  unfoldable pub start : Runner C → Runner C
  start r =
      let (r', is_connected) = connect r in
      if is_connected then r' else record r' { oneshot = true }

  module _ (unmarshal : Text → Option ShimEvent) where
    unfoldable pub handle_line : Text → Runner C → Runner C
    handle_line [] r = r
    handle_line (b ∷ bs) r = handle_parsed (parse_shim_event unmarshal (b ∷ bs)) r

    abbrev pub scanner_outcome : Option Error → Outcome
    scanner_outcome none = finished
    scanner_outcome (some e) = if is_broken_pipe (some e) then finished else failed e

    -- The loop of `Run` over the lines that the scanner finds, and the scanner's error.
    unfoldable pub scan : List Scanned → Option Error → Runner C → Runner C × Outcome
    scan [] err r = (drain_and_close r, scanner_outcome err)
    scan (s ∷ rest) err r =
        let next = scan rest err (handle_line s.line r) in
        if s.cancelled then (drain_and_close r, interrupted) else next

    unfoldable pub run : List Scanned → Option Error → Runner C → Runner C × Outcome
    run lines err r = scan lines err (start r)
