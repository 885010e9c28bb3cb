-- ===== src/Timing/Samples.antt =====
-- The theorems on the typing cadence at concrete inputs, and a test of its code.
use clai.Common.{true, false, List, [], ◌∷◌, ◌≡◌, refl, pos, negsuc}
use clai.Timing.{Config, Machine, new_machine, typing, on_keystroke, on_idle, reset}
use clai.Timing.Requests.{
  Event, keystroke, idle_check, reset_all, answers, asked, phrase_of, keystrokes, answers-asked,
}

abbrev quick : Machine
quick = record {
  config = record { fast_threshold_ms = 10; pause_threshold_ms = 30; idle_timeout_ms = 200 };
  state = typing;
  last_keystroke_ms = 1000;
}

abbrev defaulted : Config
defaulted = record {
  fast_threshold_ms = pos 0;
  pause_threshold_ms = negsuc 3;
  idle_timeout_ms = pos 5000;
}

-- Three quick keys, a pause that ends the phrase, a new phrase that goes idle.
abbrev session : List Event
session =
    keystroke 1005
    ∷ keystroke 1030
    ∷ keystroke 1061
    ∷ keystroke 1200
    ∷ idle_check 1500
    ∷ keystroke 1600
    ∷ reset_all
    ∷ []

session_run : answers quick session ≡ false ∷ false ∷ true ∷ false ∷ false ∷ false ∷ false ∷ []
unfolding on_keystroke on_idle reset
session_run = refl

default_run :
    answers (new_machine defaulted) (keystrokes (5 ∷ 305 ∷ 606 ∷ [])) ≡ false ∷ false ∷ true ∷ []
unfolding on_keystroke new_machine
default_run = refl

answers-asked_example : answers quick session ≡ asked quick.config (phrase_of quick) session
answers-asked_example = answers-asked quick session
