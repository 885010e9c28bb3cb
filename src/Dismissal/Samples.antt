-- ===== src/Dismissal/Samples.antt =====
-- The theorems on the dismissal store at concrete inputs, and tests of its code.
use clai.Common.{true, false, not, List, [], ◌∷◌, ◌≡◌, refl, pos, keep}
use clai.Dismissal.{
  Key, Store, ok, state_learned, new_store, find, record_dismissal, dismissal_statement,
  record_acceptance, get_state, is_suppressed, filter_candidates,
}
use clai.Dismissal.History.{Call, dismiss, accept, run, past, expected, run-get_state}
use clai.Dismissal.Filter.{key_of, hides, filter_candidates-is_suppressed}

abbrev push_key : Key
push_key = key_of "global" "git-commit" "git-push"

abbrev calls : List Call
calls =
    record { clock = pos 1; served = true; key = push_key; action = dismiss (pos 0) }
    ∷ record { clock = pos 2; served = true; key = push_key; action = dismiss (pos 0) }
    ∷ record { clock = pos 3; served = false; key = push_key; action = accept }
    ∷ record { clock = pos 4; served = true; key = push_key; action = dismiss (pos 0) }
    ∷ []

three_dismissals : get_state (run (new_store [] (pos 3)) calls) true push_key ≡ ok state_learned
unfolding get_state run record_dismissal dismissal_statement record_acceptance new_store
three_dismissals = refl

run-get_state_example :
    get_state (run (new_store [] (pos 3)) calls) true push_key
    ≡ ok (expected (new_store [] (pos 3)).learned_threshold (past push_key [] calls))
run-get_state_example = run-get_state (pos 3) calls push_key refl

abbrev store : Store
store = record {
  learned_threshold = 3;
  table =
      (
        push_key,
        record {
          suppression_level = state_learned;
          dismissal_count = 3;
          last_dismissed_ms = pos 4;
        },
      )
      ∷ [];
}

filter_candidates-is_suppressed_example :
    filter_candidates store true "global" "git-commit" ("git-push" ∷ "git-log" ∷ [])
    ≡ ok (
        keep
          (λ c. not (hides (is_suppressed store true (key_of "global" "git-commit" c))))
          ("git-push" ∷ "git-log" ∷ []))
unfolding find
filter_candidates-is_suppressed_example =
    filter_candidates-is_suppressed store "global" "git-commit" ("git-push" ∷ "git-log" ∷ [])
      (refl, tt) refl refl (refl, (refl, tt))
