-- ===== src/Config/Fix/Unchanged.antt =====
-- internal/config/config.go: settings that pass all tests of `ValidateAndFix` are returned as they
-- are, with no warning.
use clai.Common.{ℕ, Bool, true, false, not, List, [], ◌++◌, String, ℤ, pos, ◌≡◌, refl, ap₂, ◌∙◌}
use clai.Config.Floats.{Floats}
use clai.Config.Types.{SuggestionsConfig}
use clai.Config.Checks.{
  is_negative, is_below, is_valid_incognito_mode, is_valid_shim_mode, is_valid_scorer_version,
  is_valid_fts_tokenizer, is_valid_suggestions_picker_view,
}
use clai.Config.Fix.{
  ValidationWarning, Message, warn_if, defaults, weight_fields, weight_warning, range_warning,
  weight_warnings, min_one_fields, min_one_warnings, scalar_fields, scalar_warnings, enum_fields,
  enum_warnings, eta_is_bad, steps_are_bad, validate_min_one_int_fields, validate_weight_fields,
  validate_scalar_fields, validate_enum_fields, validate_and_fix,
}
use clai.Config.Fix.Kept.{or_default_kept, weight_kept}
use clai.Config.Fix.Fixed.{IsIn, IsIn-clamp, or_default_good, IsWeight, IsFixed}

warn_if_good :
    {F : Type 0} (b : Bool) (field : String) (m : Message F) → b ≡ false → warn_if b field m ≡ []
warn_if_good b field m h = rw h refl

both_nil {ℓ} : {A : Type ℓ} {xs ys : List A} → xs ≡ [] → ys ≡ [] → xs ++ ys ≡ []
both_nil p q = ap₂ (λ a b. a ++ b) p q

module _ {F : Type 0} (fl : Floats F) where
  -- Settings that pass all tests are left as they are, with no warning.
  module _ (s : SuggestionsConfig F) (good : IsFixed fl s) where
    min_one_fields_id : min_one_fields fl s ≡ s
    min_one_fields_id = λ i. record s {
      hard_timeout_ms =
          or_default_good (defaults fl).hard_timeout_ms s.hard_timeout_ms
            (is_below s.hard_timeout_ms 1) good.hard_timeout_ms i;
      hook_connect_timeout_ms =
          or_default_good (defaults fl).hook_connect_timeout_ms s.hook_connect_timeout_ms
            (is_below s.hook_connect_timeout_ms 1) good.hook_connect_timeout_ms i;
      hook_write_timeout_ms =
          or_default_good (defaults fl).hook_write_timeout_ms s.hook_write_timeout_ms
            (is_below s.hook_write_timeout_ms 1) good.hook_write_timeout_ms i;
      ingest_sync_wait_ms =
          or_default_good (defaults fl).ingest_sync_wait_ms s.ingest_sync_wait_ms
            (is_below s.ingest_sync_wait_ms 1) good.ingest_sync_wait_ms i;
      cache_ttl_ms =
          or_default_good (defaults fl).cache_ttl_ms s.cache_ttl_ms (is_below s.cache_ttl_ms 1)
            good.cache_ttl_ms i;
      max_results =
          or_default_good (defaults fl).max_results s.max_results (is_below s.max_results 1)
            good.max_results i;
      ingest_queue_max_events =
          or_default_good (defaults fl).ingest_queue_max_events s.ingest_queue_max_events
            (is_below s.ingest_queue_max_events 1) good.ingest_queue_max_events i;
      burst_events_threshold =
          or_default_good (defaults fl).burst_events_threshold s.burst_events_threshold
            (is_below s.burst_events_threshold 1) good.burst_events_threshold i;
      cmd_raw_max_bytes =
          or_default_good (defaults fl).cmd_raw_max_bytes s.cmd_raw_max_bytes
            (is_below s.cmd_raw_max_bytes 1) good.cmd_raw_max_bytes i;
      ingest_queue_max_bytes =
          or_default_good (defaults fl).ingest_queue_max_bytes s.ingest_queue_max_bytes
            (is_below s.ingest_queue_max_bytes 1) good.ingest_queue_max_bytes i;
      cache_memory_budget_mb =
          or_default_good (defaults fl).cache_memory_budget_mb s.cache_memory_budget_mb
            (is_below s.cache_memory_budget_mb 1) good.cache_memory_budget_mb i;
      online_learning_min_samples =
          or_default_good (defaults fl).online_learning_min_samples s.online_learning_min_samples
            (is_below s.online_learning_min_samples 1) good.online_learning_min_samples i;
    }

    min_one_warnings_nil : min_one_warnings fl s ≡ []
    min_one_warnings_nil =
        both_nil (warn_if_good (is_below s.hard_timeout_ms 1) _ _ good.hard_timeout_ms) (
          both_nil
            (warn_if_good (is_below s.hook_connect_timeout_ms 1) _ _ good.hook_connect_timeout_ms)
            (both_nil
              (warn_if_good (is_below s.hook_write_timeout_ms 1) _ _ good.hook_write_timeout_ms)
              (both_nil
                (warn_if_good (is_below s.ingest_sync_wait_ms 1) _ _ good.ingest_sync_wait_ms)
                (both_nil (warn_if_good (is_below s.cache_ttl_ms 1) _ _ good.cache_ttl_ms) (
                  both_nil (warn_if_good (is_below s.max_results 1) _ _ good.max_results) (
                    both_nil
                      (warn_if_good (is_below s.ingest_queue_max_events 1) _ _
                        good.ingest_queue_max_events)
                      (both_nil
                        (warn_if_good (is_below s.burst_events_threshold 1) _ _
                          good.burst_events_threshold)
                        (both_nil
                          (warn_if_good (is_below s.cmd_raw_max_bytes 1) _ _ good.cmd_raw_max_bytes)
                          (both_nil
                            (warn_if_good (is_below s.ingest_queue_max_bytes 1) _ _
                              good.ingest_queue_max_bytes)
                            (both_nil
                              (warn_if_good (is_below s.cache_memory_budget_mb 1) _ _
                                good.cache_memory_budget_mb)
                              (warn_if_good (is_below s.online_learning_min_samples 1) _ _
                                good.online_learning_min_samples)))))))))))

    weight_fields_id : weight_fields fl s.weights ≡ s.weights
    weight_fields_id = λ i. record {
      transition = weight_kept fl s.weights.transition good.weights.transition i;
      frequency = weight_kept fl s.weights.frequency good.weights.frequency i;
      success = weight_kept fl s.weights.success good.weights.success i;
      prefix = weight_kept fl s.weights.prefix good.weights.prefix i;
      affinity = weight_kept fl s.weights.affinity good.weights.affinity i;
      task = weight_kept fl s.weights.task good.weights.task i;
      feedback = weight_kept fl s.weights.feedback good.weights.feedback i;
      risk_penalty = weight_kept fl s.weights.risk_penalty good.weights.risk_penalty i;
      project_type_affinity =
          weight_kept fl s.weights.project_type_affinity good.weights.project_type_affinity i;
      failure_recovery = weight_kept fl s.weights.failure_recovery good.weights.failure_recovery i;
    }

    weight_warning_nil : (name : String) (v : F) → IsWeight fl v → weight_warning fl name v ≡ []
    weight_warning_nil name v h = let a = h.not_below in let b = h.not_above in rw (a, b) refl

    weight_warnings_nil : weight_warnings fl s.weights ≡ []
    weight_warnings_nil =
        both_nil (weight_warning_nil _ s.weights.transition good.weights.transition) (
          both_nil (weight_warning_nil _ s.weights.frequency good.weights.frequency) (
            both_nil (weight_warning_nil _ s.weights.success good.weights.success) (
              both_nil (weight_warning_nil _ s.weights.prefix good.weights.prefix) (
                both_nil (weight_warning_nil _ s.weights.affinity good.weights.affinity) (
                  both_nil (weight_warning_nil _ s.weights.task good.weights.task) (
                    both_nil (weight_warning_nil _ s.weights.feedback good.weights.feedback) (
                      both_nil
                        (weight_warning_nil _ s.weights.risk_penalty good.weights.risk_penalty)
                        (both_nil
                          (weight_warning_nil _ s.weights.project_type_affinity
                            good.weights.project_type_affinity)
                          (weight_warning_nil _ s.weights.failure_recovery
                            good.weights.failure_recovery)))))))))

    scalar_fields_id : scalar_fields fl s ≡ s
    scalar_fields_id = λ i. record s {
      retention_days =
          or_default_good (defaults fl).retention_days s.retention_days
            (is_negative s.retention_days) good.retention_days i;
      retention_max_events =
          or_default_good (pos 1000) s.retention_max_events (is_below s.retention_max_events 1000)
            good.retention_max_events i;
      online_learning_eta =
          or_default_good (defaults fl).online_learning_eta s.online_learning_eta
            (eta_is_bad fl s.online_learning_eta) good.online_learning_eta i;
      workflow_min_steps =
          or_default_good (defaults fl).workflow_min_steps s.workflow_min_steps (steps_are_bad fl s)
            good.workflow_steps i;
      workflow_max_steps =
          or_default_good (defaults fl).workflow_max_steps s.workflow_max_steps (steps_are_bad fl s)
            good.workflow_steps i;
      pipeline_max_segments = IsIn-clamp 2 32 s.pipeline_max_segments good.pipeline_max_segments i;
      directory_scope_max_depth =
          IsIn-clamp 1 10 s.directory_scope_max_depth good.directory_scope_max_depth i;
    }

    range_warning_nil :
        (name : String) (low high : ℕ) (v : ℤ)
        → IsIn low high v
        → range_warning fl name low high v ≡ []
    range_warning_nil name low high v h =
        let a = h.not_below in let b = h.not_above in rw (a, b) refl

    scalar_warnings_nil : scalar_warnings fl s ≡ []
    scalar_warnings_nil =
        both_nil (warn_if_good (is_negative s.retention_days) _ _ good.retention_days) (
          both_nil
            (warn_if_good (is_below s.retention_max_events 1000) _ _ good.retention_max_events)
            (both_nil
              (warn_if_good (eta_is_bad fl s.online_learning_eta) _ _ good.online_learning_eta)
              (both_nil (warn_if_good (steps_are_bad fl s) _ _ good.workflow_steps) (
                both_nil
                  (range_warning_nil _ 2 32 s.pipeline_max_segments good.pipeline_max_segments)
                  (range_warning_nil _ 1 10 s.directory_scope_max_depth
                    good.directory_scope_max_depth)))))

    enum_fields_id : enum_fields fl s ≡ s
    enum_fields_id = λ i. record s {
      incognito_mode =
          or_default_kept is_valid_incognito_mode (defaults fl).incognito_mode s.incognito_mode
            good.incognito_mode i;
      shim_mode =
          or_default_kept is_valid_shim_mode (defaults fl).shim_mode s.shim_mode good.shim_mode i;
      scorer_version =
          or_default_kept is_valid_scorer_version (defaults fl).scorer_version s.scorer_version
            good.scorer_version i;
      search_fts_tokenizer =
          or_default_kept is_valid_fts_tokenizer (defaults fl).search_fts_tokenizer
            s.search_fts_tokenizer good.search_fts_tokenizer i;
      picker_view =
          or_default_kept is_valid_suggestions_picker_view (defaults fl).picker_view s.picker_view
            good.picker_view i;
    }

    not_good : (b : Bool) → b ≡ true → not b ≡ false
    not_good b h = rw h refl

    enum_warnings_nil : enum_warnings fl s ≡ []
    enum_warnings_nil =
        both_nil
          (warn_if_good (not (is_valid_incognito_mode s.incognito_mode)) _ _
            (not_good (is_valid_incognito_mode s.incognito_mode) good.incognito_mode))
          (both_nil
            (warn_if_good (not (is_valid_shim_mode s.shim_mode)) _ _
              (not_good (is_valid_shim_mode s.shim_mode) good.shim_mode))
            (both_nil
              (warn_if_good (not (is_valid_scorer_version s.scorer_version)) _ _
                (not_good (is_valid_scorer_version s.scorer_version) good.scorer_version))
              (both_nil
                (warn_if_good (not (is_valid_fts_tokenizer s.search_fts_tokenizer)) _ _ (
                  not_good (is_valid_fts_tokenizer s.search_fts_tokenizer)
                    good.search_fts_tokenizer))
                (warn_if_good (not (is_valid_suggestions_picker_view s.picker_view)) _ _
                  (not_good (is_valid_suggestions_picker_view s.picker_view) good.picker_view)))))

  -- The four groups of tests, one after the other.
  enum_stage :
      SuggestionsConfig F
      → List (ValidationWarning F)
      → SuggestionsConfig F × List (ValidationWarning F)
  enum_stage s w = (enum_fields fl s, w ++ enum_warnings fl s)

  scalar_stage :
      SuggestionsConfig F
      → List (ValidationWarning F)
      → SuggestionsConfig F × List (ValidationWarning F)
  unfolding enum_stage
  scalar_stage s w = enum_stage (scalar_fields fl s) (w ++ scalar_warnings fl s)

  weight_stage :
      SuggestionsConfig F
      → List (ValidationWarning F)
      → SuggestionsConfig F × List (ValidationWarning F)
  unfolding scalar_stage
  weight_stage s w =
      scalar_stage (record s { weights = weight_fields fl s.weights })
        (w ++ weight_warnings fl s.weights)

  -- Settings that pass all tests are left as they are, with no warning.
  pub IsFixed-validate_and_fix :
      (s : SuggestionsConfig F) → IsFixed fl s → validate_and_fix fl s ≡ (s, [])
  unfolding validate_and_fix validate_min_one_int_fields validate_weight_fields
      validate_scalar_fields validate_enum_fields weight_stage scalar_stage enum_stage
  IsFixed-validate_and_fix s good =
      ap₂ weight_stage (min_one_fields_id s good) (min_one_warnings_nil s good)
      ∙ ap₂ scalar_stage (λ i. record s { weights = weight_fields_id s good i })
          (weight_warnings_nil s good)
      ∙ ap₂ enum_stage (scalar_fields_id s good) (scalar_warnings_nil s good)
      ∙ ap₂ (λ t w. (t, w)) (enum_fields_id s good) (enum_warnings_nil s good)
