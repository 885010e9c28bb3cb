-- ===== src/Shim/Persistent/Samples.antt =====
-- The theorems on internal/shim/persistent.go and event.go at concrete inputs, and tests.
use clai.Common.{
  ℕ, zero, suc, true, false, List, [], ◌∷◌, ◌++◌, Text, codes, String, Option, none, some, pos, ◌≡◌,
  ◌≢◌, ◌↔◌, refl,
}
use clai.Shim.Event.{
  ShimEvent, ClientInfo, ClientCall, called, parsed, parse_shim_event, client_dispatch, session_of,
  parse_shim_event-client_dispatch,
}
use clai.Shim.RingBuffer.{new_ring_buffer, push, drain_all}
use clai.Shim.RingBuffer.Refinement.{contents}
use clai.Shim.Persistent.{
  Error, is_broken_pipe, Call, dialled, dispatched, closed, slept, Network, Scanned, new_runner,
  start, run, connect, scan, handle_line, handle_event, drain_and_close, drain_buffer,
  drain_buffer_oneshot, send_oneshot, buffer_and_reconnect, try_reconnect, retry, send_each,
  dispatch_each,
}
use clai.Shim.Persistent.Accepted.{Attempt, lost, sent, attempts, accepted, IsReliable}
use clai.Shim.Persistent.Whole.{
  events_read, handle_all, handle_all_lem, Sends, run-Sends, run-accepted,
}

abbrev event : String → String → ShimEvent
event type session_id = record {
  type = type;
  session_id = session_id;
  command_id = "c1";
  cwd = "/";
  shell = "";
  command = "ls";
  git_branch = "";
  git_repo_name = "";
  git_repo_root = "";
  prev_command_id = "";
  duration_ms = pos 3;
  exit_code = pos 0;
}

-- Lines that start with 1 and 2 are events, others are not.
abbrev unmarshal : Text → Option ShimEvent
unmarshal (suc zero ∷ bs) = some (event "command_start" "s1")
unmarshal (suc (suc zero) ∷ bs) = some (event "command_end" "s1")
unmarshal bs = none

abbrev info : ClientInfo
info = record { version = "1"; os = "linux"; shell = "zsh"; hostname = "h"; username = "u" }

abbrev timeout : Error
timeout = record { is_epipe = false; message = codes "deadline exceeded" }

abbrev refused_connection : Error
refused_connection = record { is_epipe = false; message = codes "dial: connection refused" }

broken : is_broken_pipe (some refused_connection) ≡ true
unfolding is_broken_pipe
broken = refl

-- A daemon that takes one event on each connection.
abbrev after_dial : List (Call ℕ) → Option Error
after_dial (dialled (some c) ∷ cs) = none
after_dial cs = some timeout

abbrev one_each : Network ℕ
one_each = record { dials = λ cs. some 1; dispatches = λ cs c ev. after_dial cs }

one_each-IsReliable : IsReliable one_each
one_each-IsReliable = record { answers = λ cs. (1, refl); takes = λ cs c ev. refl }

-- A daemon that is away.
abbrev away : Network ℕ
away = record { dials = λ cs. none; dispatches = λ cs c ev. some timeout }

abbrev line : Text → Scanned
line text = record { cancelled = false; line = text }

abbrev input : List Scanned
input = line (1 ∷ []) ∷ line [] ∷ line (7 ∷ []) ∷ line (2 ∷ []) ∷ []

abbrev start_event : ShimEvent
start_event = event "command_start" "s1"

-- The second event finds the connection used up: it waits in the ring for the next one.
reconnects :
    (run one_each unmarshal input none (new_runner "1")).0.calls
    ≡ closed 1
      ∷ dispatched 1 (some (event "command_end" "s1")) none
      ∷ dialled (some 1)
      ∷ slept 100
      ∷ closed 1
      ∷ dispatched 1 (some (event "command_end" "s1")) (some timeout)
      ∷ dispatched 1 (some start_event) none
      ∷ dialled (some 1)
      ∷ []
unfolding run start connect new_runner scan handle_line parse_shim_event handle_event is_broken_pipe
    buffer_and_reconnect try_reconnect retry drain_buffer drain_buffer_oneshot dispatch_each
    send_each drain_and_close drain_all push new_ring_buffer
reconnects = refl

run-accepted_example :
    accepted (run one_each unmarshal input none (new_runner "1")).0.calls
    ≡ events_read unmarshal input
run-accepted_example = run-accepted one_each unmarshal "1" input none one_each-IsReliable

run-Sends_example :
    (l : List Attempt) × (attempts (run one_each unmarshal input none (new_runner "1")).0.calls
      ≡ attempts (start one_each (new_runner "1")).calls ++ l)
    × Sends one_each (events_read unmarshal input) l
run-Sends_example = run-Sends one_each unmarshal "1" input none

-- The attempts for an event when the daemon is away: the first dial and one for the event.
given_up :
    attempts (run away unmarshal (line (1 ∷ []) ∷ []) none (new_runner "1")).0.calls
    ≡ lost ∷ lost ∷ []
unfolding run start connect new_runner scan handle_line parse_shim_event handle_event send_oneshot
    drain_buffer_oneshot send_each drain_and_close drain_all new_ring_buffer
given_up = refl

-- A daemon that takes every event and whose first answer is lost.
abbrev after_none : List (Call ℕ) → Option Error
after_none (dispatched c ev err ∷ cs) = none
after_none (slept delay ∷ cs) = none
after_none (closed c ∷ cs) = none
after_none (dialled (some c) ∷ slept delay ∷ cs) = none
after_none cs = some timeout

abbrev forgetful : Network ℕ
forgetful = record { dials = λ cs. some 1; dispatches = λ cs c ev. after_none cs }

-- The event is sent to it twice, and acknowledged once.
sent_twice :
    attempts (run forgetful unmarshal (line (1 ∷ []) ∷ []) none (new_runner "1")).0.calls
    ≡ sent (some start_event) (some timeout) ∷ sent (some start_event) none ∷ []
unfolding run start connect new_runner scan handle_line parse_shim_event handle_event is_broken_pipe
    buffer_and_reconnect try_reconnect retry drain_buffer drain_buffer_oneshot dispatch_each
    send_each drain_and_close drain_all push new_ring_buffer
sent_twice = refl

handle_all_lem_example :
    let r =
      handle_all one_each
        (some start_event ∷ some start_event ∷ [])
        (start one_each (new_runner "1")) in
    (contents none r.buf ≡ []) × ((r.oneshot ≡ true) ↔ (r.dispatcher ≡ none))
handle_all_lem_example = handle_all_lem one_each "1" (some start_event ∷ some start_event ∷ [])

is_read : parse_shim_event unmarshal (1 ∷ []) ≡ parsed start_event
unfolding parse_shim_event
is_read = refl

parse_shim_event-client_dispatch_example :
    (c : ClientCall) × (client_dispatch info start_event ≡ called c)
    × (session_of c ≡ "s1")
    × (◌≢◌ {A = String} "s1" "")
parse_shim_event-client_dispatch_example =
    parse_shim_event-client_dispatch unmarshal (1 ∷ []) start_event info is_read
