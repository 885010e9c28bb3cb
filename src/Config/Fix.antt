-- ===== src/Config/Fix.antt =====
-- internal/config/config.go: `ValidateAndFix`, which repairs the settings of the suggestions and warns
-- of what it repaired. A warning keeps the parts of its message. Each table of the source lists
-- different fields, so that the rounds of its loop do not meet.
use clai.Common.{
  ℕ, if◌then◌else◌, Bool, true, false, ◌||◌, not, List, [], ◌∷◌, ◌++◌, String, ℤ, pos, negsuc, ltb,
}
use clai.Config.Floats.{Floats}
use clai.Config.Types.{SuggestionsWeights, SuggestionsConfig}
use clai.Config.Defaults.{default_suggestions_config}
use clai.Config.Checks.{
  is_negative, is_below, is_above, clamp, is_valid_incognito_mode, is_valid_shim_mode,
  is_valid_scorer_version, is_valid_fts_tokenizer, is_valid_suggestions_picker_view,
}
pub mod Fixed
pub mod Kept
pub mod Unchanged
pub mod Warned

pub data Message (F : Type 0) : Type 0 where
  at_least : ℕ → ℤ → ℤ → Message F
  at_most : ℕ → ℤ → Message F
  weight_at_least_zero weight_at_most_one : F → Message F
  eta_out_of_range : F → F → Message F
  min_above_max : ℤ → ℤ → Message F
  not_one_of : String → String → Message F

pub record ValidationWarning (F : Type 0) : Type 0 where
  pub field : String
  pub message : Message F

-- `if bad { warn(field, …) }`
abbrev pub warn_if : {F : Type 0} → Bool → String → Message F → List (ValidationWarning F)
warn_if true field message = record { field = field; message = message } ∷ []
warn_if false field message = []

-- `v > w`
abbrev pub is_more : ℤ → ℤ → Bool
is_more (pos m) (pos n) = ltb n m
is_more (pos m) (negsuc n) = true
is_more (negsuc m) (pos n) = false
is_more (negsuc m) (negsuc n) = ltb m n

-- A value that falls back to `d` if the test says that it is bad.
abbrev pub or_default {ℓ} : {A : Type ℓ} → Bool → A → A → A
or_default true d v = d
or_default false d v = v

abbrev pub min_one : ℤ → ℤ → ℤ
min_one d v = or_default (is_below v 1) d v

module _ {F : Type 0} (fl : Floats F) where
  abbrev pub defaults : SuggestionsConfig F
  defaults = default_suggestions_config fl

  abbrev pub zero_weight : F
  zero_weight = fl.of_decimal 0 1

  abbrev pub one_weight : F
  one_weight = fl.of_decimal 10 1

  abbrev pub min_one_warning : String → ℤ → ℤ → List (ValidationWarning F)
  min_one_warning name d v = warn_if (is_below v 1) name (at_least 1 v d)

  abbrev pub min_one_fields : SuggestionsConfig F → SuggestionsConfig F
  min_one_fields s = record s {
    hard_timeout_ms = min_one defaults.hard_timeout_ms s.hard_timeout_ms;
    hook_connect_timeout_ms = min_one defaults.hook_connect_timeout_ms s.hook_connect_timeout_ms;
    hook_write_timeout_ms = min_one defaults.hook_write_timeout_ms s.hook_write_timeout_ms;
    ingest_sync_wait_ms = min_one defaults.ingest_sync_wait_ms s.ingest_sync_wait_ms;
    cache_ttl_ms = min_one defaults.cache_ttl_ms s.cache_ttl_ms;
    max_results = min_one defaults.max_results s.max_results;
    ingest_queue_max_events = min_one defaults.ingest_queue_max_events s.ingest_queue_max_events;
    burst_events_threshold = min_one defaults.burst_events_threshold s.burst_events_threshold;
    cmd_raw_max_bytes = min_one defaults.cmd_raw_max_bytes s.cmd_raw_max_bytes;
    ingest_queue_max_bytes = min_one defaults.ingest_queue_max_bytes s.ingest_queue_max_bytes;
    cache_memory_budget_mb = min_one defaults.cache_memory_budget_mb s.cache_memory_budget_mb;
    online_learning_min_samples =
        min_one defaults.online_learning_min_samples s.online_learning_min_samples;
  }

  abbrev pub min_one_warnings : SuggestionsConfig F → List (ValidationWarning F)
  min_one_warnings s =
      min_one_warning "hard_timeout_ms" defaults.hard_timeout_ms s.hard_timeout_ms
      ++ (min_one_warning "hook_connect_timeout_ms" defaults.hook_connect_timeout_ms
            s.hook_connect_timeout_ms
          ++ (min_one_warning "hook_write_timeout_ms" defaults.hook_write_timeout_ms
                s.hook_write_timeout_ms
              ++ (min_one_warning "ingest_sync_wait_ms" defaults.ingest_sync_wait_ms
                    s.ingest_sync_wait_ms
                  ++ (min_one_warning "cache_ttl_ms" defaults.cache_ttl_ms s.cache_ttl_ms
                      ++ (min_one_warning "max_results" defaults.max_results s.max_results
                          ++ (min_one_warning "ingest_queue_max_events"
                                defaults.ingest_queue_max_events s.ingest_queue_max_events
                              ++ (min_one_warning "burst_events_threshold"
                                    defaults.burst_events_threshold s.burst_events_threshold
                                  ++ (min_one_warning "cmd_raw_max_bytes" defaults.cmd_raw_max_bytes
                                        s.cmd_raw_max_bytes
                                      ++ (min_one_warning "ingest_queue_max_bytes"
                                            defaults.ingest_queue_max_bytes s.ingest_queue_max_bytes
                                          ++ (min_one_warning "cache_memory_budget_mb"
                                                defaults.cache_memory_budget_mb
                                                s.cache_memory_budget_mb
                                              ++ (min_one_warning "online_learning_min_samples"
                                                  defaults.online_learning_min_samples
                                                  s.online_learning_min_samples)))))))))))

  -- The two tests of a weight, one after the other.
  abbrev pub raise_weight : F → F
  raise_weight v = or_default (fl.lt v zero_weight) zero_weight v

  abbrev pub clamp_weight : F → F
  clamp_weight v = or_default (fl.lt one_weight (raise_weight v)) one_weight (raise_weight v)

  abbrev pub weight_warning : String → F → List (ValidationWarning F)
  weight_warning name v =
      warn_if (fl.lt v zero_weight) name (weight_at_least_zero v)
      ++ warn_if (fl.lt one_weight (raise_weight v)) name (weight_at_most_one (raise_weight v))

  abbrev pub weight_fields : SuggestionsWeights F → SuggestionsWeights F
  weight_fields w = record {
    transition = clamp_weight w.transition;
    frequency = clamp_weight w.frequency;
    success = clamp_weight w.success;
    prefix = clamp_weight w.prefix;
    affinity = clamp_weight w.affinity;
    task = clamp_weight w.task;
    feedback = clamp_weight w.feedback;
    risk_penalty = clamp_weight w.risk_penalty;
    project_type_affinity = clamp_weight w.project_type_affinity;
    failure_recovery = clamp_weight w.failure_recovery;
  }

  abbrev pub weight_warnings : SuggestionsWeights F → List (ValidationWarning F)
  weight_warnings w =
      weight_warning "weights.transition" w.transition
      ++ (weight_warning "weights.frequency" w.frequency
          ++ (weight_warning "weights.success" w.success
              ++ (weight_warning "weights.prefix" w.prefix
                  ++ (weight_warning "weights.affinity" w.affinity
                      ++ (weight_warning "weights.task" w.task
                          ++ (weight_warning "weights.feedback" w.feedback
                              ++ (weight_warning "weights.risk_penalty" w.risk_penalty
                                  ++ (weight_warning "weights.project_type_affinity"
                                        w.project_type_affinity
                                      ++ (weight_warning "weights.failure_recovery"
                                          w.failure_recovery)))))))))

  abbrev pub eta_is_bad : F → Bool
  eta_is_bad v = fl.le v zero_weight || fl.lt one_weight v

  abbrev pub steps_are_bad : SuggestionsConfig F → Bool
  steps_are_bad s = is_more s.workflow_min_steps s.workflow_max_steps

  abbrev pub scalar_fields : SuggestionsConfig F → SuggestionsConfig F
  scalar_fields s = record s {
    retention_days =
        or_default (is_negative s.retention_days) defaults.retention_days s.retention_days;
    retention_max_events =
        or_default (is_below s.retention_max_events 1000) (pos 1000) s.retention_max_events;
    online_learning_eta =
        or_default (eta_is_bad s.online_learning_eta) defaults.online_learning_eta
          s.online_learning_eta;
    workflow_min_steps =
        or_default (steps_are_bad s) defaults.workflow_min_steps s.workflow_min_steps;
    workflow_max_steps =
        or_default (steps_are_bad s) defaults.workflow_max_steps s.workflow_max_steps;
    pipeline_max_segments = clamp 2 32 s.pipeline_max_segments;
    directory_scope_max_depth = clamp 1 10 s.directory_scope_max_depth;
  }

  -- The warnings of `clampIntRange`. What is below the range is not above it once it is raised.
  abbrev pub range_warning : String → ℕ → ℕ → ℤ → List (ValidationWarning F)
  range_warning name low high v =
      warn_if (is_below v low) name (at_least low v (pos low))
      ++ warn_if (is_above v high) name (at_most high v)

  abbrev pub scalar_warnings : SuggestionsConfig F → List (ValidationWarning F)
  scalar_warnings s =
      warn_if (is_negative s.retention_days) "retention_days"
        (at_least 0 s.retention_days defaults.retention_days)
      ++ (warn_if (is_below s.retention_max_events 1000) "retention_max_events"
            (at_least 1000 s.retention_max_events (pos 1000))
          ++ (warn_if (eta_is_bad s.online_learning_eta) "online_learning_eta"
                (eta_out_of_range s.online_learning_eta defaults.online_learning_eta)
              ++ (warn_if (steps_are_bad s) "workflow_min_steps/workflow_max_steps"
                    (min_above_max s.workflow_min_steps s.workflow_max_steps)
                  ++ (range_warning "pipeline_max_segments" 2 32 s.pipeline_max_segments
                      ++ (range_warning "directory_scope_max_depth" 1 10
                          s.directory_scope_max_depth)))))

  abbrev pub enum_fields : SuggestionsConfig F → SuggestionsConfig F
  enum_fields s = record s {
    incognito_mode =
        or_default (not (is_valid_incognito_mode s.incognito_mode)) defaults.incognito_mode
          s.incognito_mode;
    shim_mode = or_default (not (is_valid_shim_mode s.shim_mode)) defaults.shim_mode s.shim_mode;
    scorer_version =
        or_default (not (is_valid_scorer_version s.scorer_version)) defaults.scorer_version
          s.scorer_version;
    search_fts_tokenizer =
        or_default (not (is_valid_fts_tokenizer s.search_fts_tokenizer))
          defaults.search_fts_tokenizer s.search_fts_tokenizer;
    picker_view =
        or_default (not (is_valid_suggestions_picker_view s.picker_view)) defaults.picker_view
          s.picker_view;
  }

  abbrev pub enum_warnings : SuggestionsConfig F → List (ValidationWarning F)
  enum_warnings s =
      warn_if (not (is_valid_incognito_mode s.incognito_mode)) "incognito_mode"
        (not_one_of s.incognito_mode defaults.incognito_mode)
      ++ (warn_if (not (is_valid_shim_mode s.shim_mode)) "shim_mode"
            (not_one_of s.shim_mode defaults.shim_mode)
          ++ (warn_if (not (is_valid_scorer_version s.scorer_version)) "scorer_version"
                (not_one_of s.scorer_version defaults.scorer_version)
              ++ (warn_if (not (is_valid_fts_tokenizer s.search_fts_tokenizer))
                    "search_fts_tokenizer"
                    (not_one_of s.search_fts_tokenizer defaults.search_fts_tokenizer)
                  ++ (warn_if (not (is_valid_suggestions_picker_view s.picker_view)) "picker_view"
                      (not_one_of s.picker_view defaults.picker_view)))))

  unfoldable pub validate_min_one_int_fields :
      SuggestionsConfig F → SuggestionsConfig F × List (ValidationWarning F)
  validate_min_one_int_fields s = (min_one_fields s, min_one_warnings s)

  unfoldable pub validate_weight_fields :
      SuggestionsConfig F → SuggestionsConfig F × List (ValidationWarning F)
  validate_weight_fields s =
      (record s { weights = weight_fields s.weights }, weight_warnings s.weights)

  unfoldable pub validate_scalar_fields :
      SuggestionsConfig F → SuggestionsConfig F × List (ValidationWarning F)
  validate_scalar_fields s = (scalar_fields s, scalar_warnings s)

  unfoldable pub validate_enum_fields :
      SuggestionsConfig F → SuggestionsConfig F × List (ValidationWarning F)
  validate_enum_fields s = (enum_fields s, enum_warnings s)

  -- `ValidateAndFix`
  unfoldable pub validate_and_fix :
      SuggestionsConfig F → SuggestionsConfig F × List (ValidationWarning F)
  unfolding validate_min_one_int_fields validate_weight_fields validate_scalar_fields
      validate_enum_fields
  validate_and_fix s =
      let (s₁, w₁) = validate_min_one_int_fields s in
      let (s₂, w₂) = validate_weight_fields s₁ in
      let (s₃, w₃) = validate_scalar_fields s₂ in
      let (s₄, w₄) = validate_enum_fields s₃ in (s₄, w₁ ++ w₂ ++ w₃ ++ w₄)
