-- ===== src/Config/Fix/Kept.antt =====
-- internal/config/config.go: what `ValidateAndFix` leaves alone, also where it repairs other settings.
use clai.Common.{Bool, true, false, not, String, pos, ◌≡◌, refl}
use clai.Config.Floats.{Floats}
use clai.Config.Types.{SuggestionsWeights, SuggestionsConfig}
use clai.Config.Checks.{
  is_below, is_negative, is_valid_incognito_mode, is_valid_shim_mode, is_valid_scorer_version,
  is_valid_fts_tokenizer, is_valid_suggestions_picker_view,
}
use clai.Config.Fix.{
  or_default, defaults, clamp_weight, weight_fields, eta_is_bad, is_more,
  validate_min_one_int_fields, validate_weight_fields, validate_scalar_fields, validate_enum_fields,
  validate_and_fix,
}
use clai.Config.Fix.Fixed.{IsIn, IsIn-clamp, IsWeight, or_default_good}

pub or_default_kept :
    (test : String → Bool) (d v : String) → test v ≡ true → or_default (not (test v)) d v ≡ v
or_default_kept test d v h = rw h refl

module _ {F : Type 0} (fl : Floats F) where
  pub record KeepsWeights (w w' : SuggestionsWeights F) : Type 0 where
    pub transition : IsWeight fl w.transition → w'.transition ≡ w.transition
    pub frequency : IsWeight fl w.frequency → w'.frequency ≡ w.frequency
    pub success : IsWeight fl w.success → w'.success ≡ w.success
    pub prefix : IsWeight fl w.prefix → w'.prefix ≡ w.prefix
    pub affinity : IsWeight fl w.affinity → w'.affinity ≡ w.affinity
    pub task : IsWeight fl w.task → w'.task ≡ w.task
    pub feedback : IsWeight fl w.feedback → w'.feedback ≡ w.feedback
    pub risk_penalty : IsWeight fl w.risk_penalty → w'.risk_penalty ≡ w.risk_penalty
    pub project_type_affinity :
        IsWeight fl w.project_type_affinity → w'.project_type_affinity ≡ w.project_type_affinity
    pub failure_recovery : IsWeight fl w.failure_recovery → w'.failure_recovery ≡ w.failure_recovery

  -- Each setting that is in its range is the same afterwards, whatever becomes of the others, and so
  -- is every setting that has no range.
  pub record Keeps (s s' : SuggestionsConfig F) : Type 0 where
    pub hard_timeout_ms :
        is_below s.hard_timeout_ms 1 ≡ false → s'.hard_timeout_ms ≡ s.hard_timeout_ms
    pub hook_connect_timeout_ms :
        is_below s.hook_connect_timeout_ms 1 ≡ false
        → s'.hook_connect_timeout_ms ≡ s.hook_connect_timeout_ms
    pub hook_write_timeout_ms :
        is_below s.hook_write_timeout_ms 1 ≡ false
        → s'.hook_write_timeout_ms ≡ s.hook_write_timeout_ms
    pub ingest_sync_wait_ms :
        is_below s.ingest_sync_wait_ms 1 ≡ false → s'.ingest_sync_wait_ms ≡ s.ingest_sync_wait_ms
    pub cache_ttl_ms : is_below s.cache_ttl_ms 1 ≡ false → s'.cache_ttl_ms ≡ s.cache_ttl_ms
    pub max_results : is_below s.max_results 1 ≡ false → s'.max_results ≡ s.max_results
    pub ingest_queue_max_events :
        is_below s.ingest_queue_max_events 1 ≡ false
        → s'.ingest_queue_max_events ≡ s.ingest_queue_max_events
    pub burst_events_threshold :
        is_below s.burst_events_threshold 1 ≡ false
        → s'.burst_events_threshold ≡ s.burst_events_threshold
    pub cmd_raw_max_bytes :
        is_below s.cmd_raw_max_bytes 1 ≡ false → s'.cmd_raw_max_bytes ≡ s.cmd_raw_max_bytes
    pub ingest_queue_max_bytes :
        is_below s.ingest_queue_max_bytes 1 ≡ false
        → s'.ingest_queue_max_bytes ≡ s.ingest_queue_max_bytes
    pub cache_memory_budget_mb :
        is_below s.cache_memory_budget_mb 1 ≡ false
        → s'.cache_memory_budget_mb ≡ s.cache_memory_budget_mb
    pub online_learning_min_samples :
        is_below s.online_learning_min_samples 1 ≡ false
        → s'.online_learning_min_samples ≡ s.online_learning_min_samples
    pub weights : KeepsWeights s.weights s'.weights
    pub retention_days : is_negative s.retention_days ≡ false → s'.retention_days ≡ s.retention_days
    pub retention_max_events :
        is_below s.retention_max_events 1000 ≡ false
        → s'.retention_max_events ≡ s.retention_max_events
    pub online_learning_eta :
        eta_is_bad fl s.online_learning_eta ≡ false → s'.online_learning_eta ≡ s.online_learning_eta
    pub workflow_steps :
        is_more s.workflow_min_steps s.workflow_max_steps ≡ false
        → (s'.workflow_min_steps ≡ s.workflow_min_steps)
          × (s'.workflow_max_steps ≡ s.workflow_max_steps)
    pub pipeline_max_segments :
        IsIn 2 32 s.pipeline_max_segments → s'.pipeline_max_segments ≡ s.pipeline_max_segments
    pub directory_scope_max_depth :
        IsIn 1 10 s.directory_scope_max_depth
        → s'.directory_scope_max_depth ≡ s.directory_scope_max_depth
    pub incognito_mode :
        is_valid_incognito_mode s.incognito_mode ≡ true → s'.incognito_mode ≡ s.incognito_mode
    pub shim_mode : is_valid_shim_mode s.shim_mode ≡ true → s'.shim_mode ≡ s.shim_mode
    pub scorer_version :
        is_valid_scorer_version s.scorer_version ≡ true → s'.scorer_version ≡ s.scorer_version
    pub search_fts_tokenizer :
        is_valid_fts_tokenizer s.search_fts_tokenizer ≡ true
        → s'.search_fts_tokenizer ≡ s.search_fts_tokenizer
    pub picker_view :
        is_valid_suggestions_picker_view s.picker_view ≡ true → s'.picker_view ≡ s.picker_view
    pub others : s' ≡ record s {
      hard_timeout_ms = s'.hard_timeout_ms;
      hook_connect_timeout_ms = s'.hook_connect_timeout_ms;
      hook_write_timeout_ms = s'.hook_write_timeout_ms;
      ingest_sync_wait_ms = s'.ingest_sync_wait_ms;
      cache_ttl_ms = s'.cache_ttl_ms;
      max_results = s'.max_results;
      ingest_queue_max_events = s'.ingest_queue_max_events;
      burst_events_threshold = s'.burst_events_threshold;
      cmd_raw_max_bytes = s'.cmd_raw_max_bytes;
      ingest_queue_max_bytes = s'.ingest_queue_max_bytes;
      cache_memory_budget_mb = s'.cache_memory_budget_mb;
      online_learning_min_samples = s'.online_learning_min_samples;
      weights = s'.weights;
      retention_days = s'.retention_days;
      retention_max_events = s'.retention_max_events;
      online_learning_eta = s'.online_learning_eta;
      workflow_min_steps = s'.workflow_min_steps;
      workflow_max_steps = s'.workflow_max_steps;
      pipeline_max_segments = s'.pipeline_max_segments;
      directory_scope_max_depth = s'.directory_scope_max_depth;
      incognito_mode = s'.incognito_mode;
      shim_mode = s'.shim_mode;
      scorer_version = s'.scorer_version;
      search_fts_tokenizer = s'.search_fts_tokenizer;
      picker_view = s'.picker_view;
    }

  pub weight_kept : (v : F) → IsWeight fl v → clamp_weight fl v ≡ v
  weight_kept v h = let a = h.not_below in let b = h.not_above in rw (a, b) refl

  weight_fields-KeepsWeights : (w : SuggestionsWeights F) → KeepsWeights w (weight_fields fl w)
  weight_fields-KeepsWeights w = record {
    transition = weight_kept w.transition;
    frequency = weight_kept w.frequency;
    success = weight_kept w.success;
    prefix = weight_kept w.prefix;
    affinity = weight_kept w.affinity;
    task = weight_kept w.task;
    feedback = weight_kept w.feedback;
    risk_penalty = weight_kept w.risk_penalty;
    project_type_affinity = weight_kept w.project_type_affinity;
    failure_recovery = weight_kept w.failure_recovery;
  }

  pub validate_and_fix-Keeps : (s : SuggestionsConfig F) → Keeps s (validate_and_fix fl s).0
  unfolding validate_and_fix validate_min_one_int_fields validate_weight_fields
      validate_scalar_fields validate_enum_fields
  validate_and_fix-Keeps s = record {
    hard_timeout_ms =
        or_default_good (defaults fl).hard_timeout_ms s.hard_timeout_ms
          (is_below s.hard_timeout_ms 1);
    hook_connect_timeout_ms =
        or_default_good (defaults fl).hook_connect_timeout_ms s.hook_connect_timeout_ms
          (is_below s.hook_connect_timeout_ms 1);
    hook_write_timeout_ms =
        or_default_good (defaults fl).hook_write_timeout_ms s.hook_write_timeout_ms
          (is_below s.hook_write_timeout_ms 1);
    ingest_sync_wait_ms =
        or_default_good (defaults fl).ingest_sync_wait_ms s.ingest_sync_wait_ms
          (is_below s.ingest_sync_wait_ms 1);
    cache_ttl_ms =
        or_default_good (defaults fl).cache_ttl_ms s.cache_ttl_ms (is_below s.cache_ttl_ms 1);
    max_results =
        or_default_good (defaults fl).max_results s.max_results (is_below s.max_results 1);
    ingest_queue_max_events =
        or_default_good (defaults fl).ingest_queue_max_events s.ingest_queue_max_events
          (is_below s.ingest_queue_max_events 1);
    burst_events_threshold =
        or_default_good (defaults fl).burst_events_threshold s.burst_events_threshold
          (is_below s.burst_events_threshold 1);
    cmd_raw_max_bytes =
        or_default_good (defaults fl).cmd_raw_max_bytes s.cmd_raw_max_bytes
          (is_below s.cmd_raw_max_bytes 1);
    ingest_queue_max_bytes =
        or_default_good (defaults fl).ingest_queue_max_bytes s.ingest_queue_max_bytes
          (is_below s.ingest_queue_max_bytes 1);
    cache_memory_budget_mb =
        or_default_good (defaults fl).cache_memory_budget_mb s.cache_memory_budget_mb
          (is_below s.cache_memory_budget_mb 1);
    online_learning_min_samples =
        or_default_good (defaults fl).online_learning_min_samples s.online_learning_min_samples
          (is_below s.online_learning_min_samples 1);
    weights = weight_fields-KeepsWeights s.weights;
    retention_days =
        or_default_good (defaults fl).retention_days s.retention_days
          (is_negative s.retention_days);
    retention_max_events =
        or_default_good (pos 1000) s.retention_max_events (is_below s.retention_max_events 1000);
    online_learning_eta =
        or_default_good (defaults fl).online_learning_eta s.online_learning_eta
          (eta_is_bad fl s.online_learning_eta);
    workflow_steps = λ h. (
      or_default_good (defaults fl).workflow_min_steps s.workflow_min_steps
          (is_more s.workflow_min_steps s.workflow_max_steps) h,
      or_default_good (defaults fl).workflow_max_steps s.workflow_max_steps
          (is_more s.workflow_min_steps s.workflow_max_steps) h,
    );
    pipeline_max_segments = IsIn-clamp 2 32 s.pipeline_max_segments;
    directory_scope_max_depth = IsIn-clamp 1 10 s.directory_scope_max_depth;
    incognito_mode =
        or_default_kept is_valid_incognito_mode (defaults fl).incognito_mode s.incognito_mode;
    shim_mode = or_default_kept is_valid_shim_mode (defaults fl).shim_mode s.shim_mode;
    scorer_version =
        or_default_kept is_valid_scorer_version (defaults fl).scorer_version s.scorer_version;
    search_fts_tokenizer =
        or_default_kept is_valid_fts_tokenizer (defaults fl).search_fts_tokenizer
          s.search_fts_tokenizer;
    picker_view =
        or_default_kept is_valid_suggestions_picker_view (defaults fl).picker_view s.picker_view;
    others = refl;
  }
