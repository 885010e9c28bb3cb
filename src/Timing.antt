-- ===== src/Timing.antt =====
-- internal/suggestions/timing/timing.go: the typing cadence, which says at which keystrokes
-- suggestions are asked for. Timestamps are milliseconds since the epoch and not negative, so that
-- a difference of two of them does not overflow. The state is set by this code alone, so the test
-- that it is one of the four always succeeds.
use clai.Common.{
  ℕ, ◌+◌, ltb, leb, if◌then◌else◌, Bool, true, false, List, [], ◌∷◌, String, ℤ, pos, positive_or,
}
pub mod Requests
mod Samples

pub data State : Type 0 where
  idle typing fast_typing paused : State

-- `String`
unfoldable pub state_name : State → String
state_name idle = "IDLE"
state_name typing = "TYPING"
state_name fast_typing = "FAST_TYPING"
state_name paused = "PAUSED"

pub record Config : Type 0 where
  pub fast_threshold_ms : ℤ
  pub pause_threshold_ms : ℤ
  pub idle_timeout_ms : ℤ

-- A configuration with its defaults filled in: it has positive numbers only.
pub record Thresholds : Type 0 where
  pub fast_threshold_ms : ℕ
  pub pause_threshold_ms : ℕ
  pub idle_timeout_ms : ℕ

abbrev pub default_config : Thresholds
default_config = record {
  fast_threshold_ms = 100;
  pause_threshold_ms = 300;
  idle_timeout_ms = 2000;
}

unfoldable pub apply_defaults : Config → Thresholds
apply_defaults c = record {
  fast_threshold_ms = positive_or c.fast_threshold_ms default_config.fast_threshold_ms;
  pause_threshold_ms = positive_or c.pause_threshold_ms default_config.pause_threshold_ms;
  idle_timeout_ms = positive_or c.idle_timeout_ms default_config.idle_timeout_ms;
}

pub record TimingHint : Type 0 where
  pub user_speed_class : String
  pub suggested_pause_threshold_ms : ℕ

pub record Machine : Type 0 where
  pub config : Thresholds
  pub state : State
  pub last_keystroke_ms : ℕ

unfoldable pub new_machine : Config → Machine
unfolding apply_defaults
new_machine config = record { config = apply_defaults config; state = idle; last_keystroke_ms = 0 }

-- The new state and whether a suggestion is requested, `last` being the keystroke before.
abbrev pub next_state : Thresholds → State → ℕ → ℕ → State × Bool
next_state c idle last now = (typing, false)
next_state c paused last now = (typing, false)
next_state c typing last now =
    if ltb (last + c.pause_threshold_ms) now
    then (paused, true)
    else if ltb now (last + c.fast_threshold_ms)
    then (fast_typing, false)
    else (typing, false)
next_state c fast_typing last now =
    if ltb (last + c.pause_threshold_ms) now then (paused, true) else (fast_typing, false)

-- `OnKeystroke`: the state that it returns is the one that it sets.
unfoldable pub on_keystroke : Machine → ℕ → Machine × Bool
on_keystroke m now =
    let (state, request) = next_state m.config m.state m.last_keystroke_ms now in
    (record m { state = state; last_keystroke_ms = now }, request)

-- `OnIdle`, which never requests.
unfoldable pub on_idle : Machine → ℕ → Machine × Bool
on_idle m now = elim m.state [
  | idle ↦ (m, false)
  | _ ↦ (
    if leb (m.last_keystroke_ms + m.config.idle_timeout_ms) now
        then record m { state = idle }
        else m,
    false,
  )
]

unfoldable pub reset : Machine → Machine
reset m = record m { state = idle; last_keystroke_ms = 0 }

abbrev hint_of : State → TimingHint
hint_of fast_typing = record { user_speed_class = "fast"; suggested_pause_threshold_ms = 500 }
hint_of paused = record { user_speed_class = "moderate"; suggested_pause_threshold_ms = 150 }
hint_of typing = record { user_speed_class = "moderate"; suggested_pause_threshold_ms = 200 }
hint_of idle = record { user_speed_class = "exploratory"; suggested_pause_threshold_ms = 0 }

unfoldable pub hint : Machine → TimingHint
hint m = hint_of m.state
