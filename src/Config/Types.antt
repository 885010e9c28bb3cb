-- ===== src/Config/Types.antt =====
-- internal/config/config.go: the configuration. A field has the name that it has in the file.
-- Floating point numbers are a parameter of the records that hold some.
use clai.Common.{Bool, List, String, ℤ}
use clai.Common.StringMap.{StringMap}

pub record DaemonConfig : Type 0 where
  pub socket_path : String
  pub log_level : String
  pub log_file : String
  pub idle_timeout_mins : ℤ

pub record ClientConfig : Type 0 where
  pub suggest_timeout_ms : ℤ
  pub connect_timeout_ms : ℤ
  pub fire_and_forget : Bool
  pub auto_start_daemon : Bool

pub record AiConfig : Type 0 where
  pub provider : String
  pub model : String
  pub cache_ttl_hours : ℤ
  pub enabled : Bool
  pub auto_diagnose : Bool

pub record SuggestionsWeights (F : Type 0) : Type 0 where
  pub transition : F
  pub frequency : F
  pub success : F
  pub prefix : F
  pub affinity : F
  pub task : F
  pub feedback : F
  pub risk_penalty : F
  pub project_type_affinity : F
  pub failure_recovery : F

pub record SuggestionsConfig (F : Type 0) : Type 0 where
  pub socket_path : String
  pub incognito_mode : String
  pub scorer_version : String
  pub search_tag_vocabulary_path : String
  pub search_fts_tokenizer : String
  pub task_playbook_path : String
  pub picker_view : String
  pub shim_mode : String
  pub weights : SuggestionsWeights F
  pub dismissal_learned_halflife_hours : ℤ
  pub failure_recovery_min_count : ℤ
  pub ingest_sync_wait_ms : ℤ
  pub max_ai : ℤ
  pub cmd_raw_max_bytes : ℤ
  pub hook_connect_timeout_ms : ℤ
  pub hard_timeout_ms : ℤ
  pub decay_half_life_hours : ℤ
  pub feedback_boost_accept : F
  pub feedback_penalty_dismiss : F
  pub slot_max_values_per_slot : ℤ
  pub feedback_match_window_ms : ℤ
  pub cache_memory_budget_mb : ℤ
  pub online_learning_eta : F
  pub online_learning_eta_decay_constant : ℤ
  pub online_learning_eta_floor : F
  pub online_learning_min_samples : ℤ
  pub weight_min : F
  pub weight_max : F
  pub weight_risk_min : F
  pub weight_risk_max : F
  pub slot_correlation_min_confidence : F
  pub burst_events_threshold : ℤ
  pub burst_window_ms : ℤ
  pub burst_quiet_ms : ℤ
  pub ingest_queue_max_events : ℤ
  pub ingest_queue_max_bytes : ℤ
  pub sqlite_busy_timeout_ms : ℤ
  pub cache_ttl_ms : ℤ
  pub task_playbook_boost : F
  pub maintenance_vacuum_threshold_mb : ℤ
  pub search_fallback_scan_limit : ℤ
  pub max_results : ℤ
  pub maintenance_interval_ms : ℤ
  pub retention_max_events : ℤ
  pub retention_days : ℤ
  pub discovery_max_confidence_threshold : F
  pub project_type_cache_ttl_ms : ℤ
  pub discovery_cooldown_hours : ℤ
  pub pipeline_max_segments : ℤ
  pub pipeline_pattern_min_count : ℤ
  pub task_playbook_workflow_seed_count : ℤ
  pub hook_write_timeout_ms : ℤ
  pub task_playbook_after_boost : F
  pub explain_min_contribution : F
  pub workflow_min_steps : ℤ
  pub workflow_max_steps : ℤ
  pub workflow_min_occurrences : ℤ
  pub workflow_max_gap : ℤ
  pub workflow_activation_timeout_ms : ℤ
  pub workflow_boost : F
  pub workflow_mine_interval_ms : ℤ
  pub explain_max_reasons : ℤ
  pub typing_fast_threshold_cps : F
  pub typing_pause_threshold_ms : ℤ
  pub typing_eager_prefix_length : ℤ
  pub directory_scope_max_depth : ℤ
  pub alias_max_expansion_depth : ℤ
  pub dismissal_temporary_halflife_ms : ℤ
  pub dismissal_learned_threshold : ℤ
  pub max_history : ℤ
  pub task_playbook_enabled : Bool
  pub search_describe_enabled : Bool
  pub alias_resolution_enabled : Bool
  pub show_risk_warning : Bool
  pub explain_enabled : Bool
  pub adaptive_timing_enabled : Bool
  pub alias_render_preferred : Bool
  pub task_playbook_extended_enabled : Bool
  pub failure_recovery_bootstrap_enabled : Bool
  pub failure_recovery_enabled : Bool
  pub directory_scoping_enabled : Bool
  pub discovery_enabled : Bool
  pub enabled : Bool
  pub pipeline_awareness_enabled : Bool
  pub discovery_source_playbook : Bool
  pub discovery_source_tool_common : Bool
  pub discovery_source_project_type : Bool
  pub search_auto_mode_merge : Bool
  pub workflow_detection_enabled : Bool
  pub search_fts_enabled : Bool
  pub project_type_detection_enabled : Bool
  pub online_learning_enabled : Bool
  pub interactive_require_tty : Bool
  pub redact_sensitive_tokens : Bool

pub record PrivacyConfig : Type 0 where
  pub sanitize_ai_calls : Bool

pub record TabDef : Type 0 where
  pub args : StringMap String
  pub id : String
  pub label : String
  pub provider : String

pub record WorkflowsConfig : Type 0 where
  pub default_mode : String
  pub default_shell : String
  pub log_dir : String
  pub secret_file : String
  pub search_paths : List String
  pub retain_runs : ℤ
  pub enabled : Bool
  pub strict_permissions : Bool

pub record HistoryConfig : Type 0 where
  pub picker_backend : String
  pub up_arrow_trigger : String
  pub picker_tabs : List TabDef
  pub picker_page_size : ℤ
  pub up_arrow_double_window_ms : ℤ
  pub picker_open_on_empty : Bool
  pub picker_case_sensitive : Bool
  pub up_arrow_opens_history : Bool

pub record Config (F : Type 0) : Type 0 where
  pub daemon : DaemonConfig
  pub ai : AiConfig
  pub workflows : WorkflowsConfig
  pub history : HistoryConfig
  pub suggestions : SuggestionsConfig F
  pub client : ClientConfig
  pub privacy : PrivacyConfig
