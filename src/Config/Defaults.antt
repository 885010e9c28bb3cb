-- ===== src/Config/Defaults.antt =====
-- internal/config/config.go: the default configuration. A field that the source leaves out has its
-- type's zero.
use clai.Common.{true, false, [], ◌∷◌, pos}
use clai.Config.Floats.{Floats}
use clai.Config.Types.{SuggestionsWeights, SuggestionsConfig, Config}

module _ {F : Type 0} (fl : Floats F) where
  abbrev pub default_weights : SuggestionsWeights F
  default_weights = record {
    transition = fl.of_decimal 30 2;
    frequency = fl.of_decimal 20 2;
    success = fl.of_decimal 10 2;
    prefix = fl.of_decimal 15 2;
    affinity = fl.of_decimal 10 2;
    task = fl.of_decimal 5 2;
    feedback = fl.of_decimal 15 2;
    risk_penalty = fl.of_decimal 20 2;
    project_type_affinity = fl.of_decimal 8 2;
    failure_recovery = fl.of_decimal 12 2;
  }

  -- `DefaultSuggestionsConfig`
  abbrev pub default_suggestions_config : SuggestionsConfig F
  default_suggestions_config = record {
    socket_path = "";
    incognito_mode = "ephemeral";
    scorer_version = "v2";
    search_tag_vocabulary_path = "";
    search_fts_tokenizer = "trigram";
    task_playbook_path = ".clai/tasks.yaml";
    picker_view = "detailed";
    shim_mode = "auto";
    weights = default_weights;
    dismissal_learned_halflife_hours = pos 720;
    failure_recovery_min_count = pos 2;
    ingest_sync_wait_ms = pos 5;
    max_ai = pos 3;
    cmd_raw_max_bytes = pos 16_384;
    hook_connect_timeout_ms = pos 15;
    hard_timeout_ms = pos 150;
    decay_half_life_hours = pos 168;
    feedback_boost_accept = fl.of_decimal 10 2;
    feedback_penalty_dismiss = fl.of_decimal 8 2;
    slot_max_values_per_slot = pos 20;
    feedback_match_window_ms = pos 5000;
    cache_memory_budget_mb = pos 50;
    online_learning_eta = fl.of_decimal 2 2;
    online_learning_eta_decay_constant = pos 500;
    online_learning_eta_floor = fl.of_decimal 1 3;
    online_learning_min_samples = pos 30;
    weight_min = fl.of_decimal 0 2;
    weight_max = fl.of_decimal 60 2;
    weight_risk_min = fl.of_decimal 10 2;
    weight_risk_max = fl.of_decimal 60 2;
    slot_correlation_min_confidence = fl.of_decimal 65 2;
    burst_events_threshold = pos 10;
    burst_window_ms = pos 100;
    burst_quiet_ms = pos 500;
    ingest_queue_max_events = pos 8192;
    ingest_queue_max_bytes = pos 8_388_608;
    sqlite_busy_timeout_ms = pos 50;
    cache_ttl_ms = pos 30_000;
    task_playbook_boost = fl.of_decimal 20 2;
    maintenance_vacuum_threshold_mb = pos 100;
    search_fallback_scan_limit = pos 2000;
    max_results = pos 5;
    maintenance_interval_ms = pos 300_000;
    retention_max_events = pos 500_000;
    retention_days = pos 90;
    discovery_max_confidence_threshold = fl.of_decimal 3 1;
    project_type_cache_ttl_ms = pos 60_000;
    discovery_cooldown_hours = pos 24;
    pipeline_max_segments = pos 8;
    pipeline_pattern_min_count = pos 2;
    task_playbook_workflow_seed_count = pos 100;
    hook_write_timeout_ms = pos 20;
    task_playbook_after_boost = fl.of_decimal 30 2;
    explain_min_contribution = fl.of_decimal 5 2;
    workflow_min_steps = pos 3;
    workflow_max_steps = pos 6;
    workflow_min_occurrences = pos 3;
    workflow_max_gap = pos 2;
    workflow_activation_timeout_ms = pos 600_000;
    workflow_boost = fl.of_decimal 25 2;
    workflow_mine_interval_ms = pos 600_000;
    explain_max_reasons = pos 3;
    typing_fast_threshold_cps = fl.of_decimal 60 1;
    typing_pause_threshold_ms = pos 300;
    typing_eager_prefix_length = pos 3;
    directory_scope_max_depth = pos 3;
    alias_max_expansion_depth = pos 3;
    dismissal_temporary_halflife_ms = pos 1_800_000;
    dismissal_learned_threshold = pos 3;
    max_history = pos 5;
    task_playbook_enabled = true;
    search_describe_enabled = true;
    alias_resolution_enabled = true;
    show_risk_warning = true;
    explain_enabled = true;
    adaptive_timing_enabled = true;
    alias_render_preferred = true;
    task_playbook_extended_enabled = true;
    failure_recovery_bootstrap_enabled = true;
    failure_recovery_enabled = true;
    directory_scoping_enabled = true;
    discovery_enabled = true;
    enabled = true;
    pipeline_awareness_enabled = true;
    discovery_source_playbook = true;
    discovery_source_tool_common = true;
    discovery_source_project_type = true;
    search_auto_mode_merge = true;
    workflow_detection_enabled = true;
    search_fts_enabled = true;
    project_type_detection_enabled = true;
    online_learning_enabled = true;
    interactive_require_tty = true;
    redact_sensitive_tokens = true;
  }

  -- `DefaultConfig`
  abbrev pub default_config : Config F
  default_config = record {
    daemon = record {
      socket_path = "";
      log_level = "info";
      log_file = "";
      idle_timeout_mins = pos 0;
    };
    ai = record {
      provider = "auto";
      model = "";
      cache_ttl_hours = pos 24;
      enabled = false;
      auto_diagnose = false;
    };
    workflows = record {
      default_mode = "interactive";
      default_shell = "";
      log_dir = "";
      secret_file = "";
      search_paths = [];
      retain_runs = pos 100;
      enabled = false;
      strict_permissions = false;
    };
    history = record {
      picker_backend = "builtin";
      up_arrow_trigger = "single";
      picker_tabs =
          record {
            args = ("session", "$CLAI_SESSION_ID") ∷ [];
            id = "session";
            label = "Session";
            provider = "history";
          }
          ∷ record {
            args = ("global", "true") ∷ [];
            id = "global";
            label = "Global";
            provider = "history";
          }
          ∷ [];
      picker_page_size = pos 100;
      up_arrow_double_window_ms = pos 250;
      picker_open_on_empty = false;
      picker_case_sensitive = false;
      up_arrow_opens_history = false;
    };
    suggestions = default_suggestions_config;
    client = record {
      suggest_timeout_ms = pos 50;
      connect_timeout_ms = pos 10;
      fire_and_forget = true;
      auto_start_daemon = true;
    };
    privacy = record { sanitize_ai_calls = true };
  }
