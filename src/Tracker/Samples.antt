-- ===== src/Tracker/Samples.antt =====
-- The theorems on the workflow tracker at concrete inputs.
use clai.Common.{[], ◌∷◌, length, Any, ◌≡◌, refl, pos, inl, ◌≤◌, arith}
use clai.Tracker.{Pattern, ActiveWorkflow, Tracker, on_command}
use clai.Tracker.Progress.{HasLimits, on_command-follows, stepped}
use clai.Tracker.Candidates.{IsOffer, on_command-IsOffer, on_command_unlimited}

-- Deploy, in four steps.
abbrev release : Pattern
release = record {
  pattern_id = "p1";
  template_ids = "test" ∷ "build" ∷ "tag" ∷ "push" ∷ [];
  display_names = "go test" ∷ "go build" ∷ "git tag" ∷ "git push" ∷ [];
}

abbrev begun : ActiveWorkflow
begun = record {
  pattern_of = release;
  current_step = 0;
  commands_since_advance = 1;
  activated_at_ms = 5;
  last_advanced_ms = 5;
}

abbrev busy : Tracker
busy = record {
  patterns = release ∷ [];
  active = begun ∷ [];
  cfg = record {
    stale_after_commands = pos 5;
    max_candidates = pos 3;
    activation_timeout_ms = pos 60;
  };
}

abbrev unlimited : Tracker
unlimited = record busy {
  cfg = record {
    stale_after_commands = pos 5;
    max_candidates = pos 0;
    activation_timeout_ms = pos 60;
  };
}

busy_limits : HasLimits busy.cfg 4 59
busy_limits = record { stale_limit = refl; time_limit = refl }

on_command-follows_example : Any (λ a. a ≡ stepped begun 9) (on_command busy "build" 9).0.active
on_command-follows_example =
    on_command-follows busy 4 59 "build" 9 begun busy_limits (inl refl) refl (omega arith)

on_command-IsOffer_example :
    let (t', candidates) = on_command busy "build" 9 in IsOffer 3 t'.active candidates
on_command-IsOffer_example = on_command-IsOffer busy "build" 9 2 refl

on_command_unlimited_example : length (on_command unlimited "build" 9).1 ≤ 1
on_command_unlimited_example = on_command_unlimited unlimited "build" 9 0 (inl refl)
