-- ===== src/Config/Setters.antt =====
-- internal/config/config.go: every setter of a section keeps what `Validate` accepts.
use clai.Common.{Bool, true, false, String, str_eq, ℤ, ◌≡◌, arith}
use clai.Config.Floats.{Floats}
use clai.Config.Types.{
  DaemonConfig, ClientConfig, AiConfig, SuggestionsConfig, WorkflowsConfig, HistoryConfig,
}
use clai.Config.Checks.{
  number, non_negative, positive_number, boolean, allowed, is_negative, is_below,
  is_valid_log_level, is_valid_provider, is_valid_scorer_version, is_valid_suggestions_picker_view,
  is_valid_picker_backend, is_valid_up_arrow_trigger, is_valid_workflow_mode,
}
use clai.Config.Fields.{
  set_daemon_field, set_client_field, set_ai_field, set_suggestions_field, set_history_field,
  set_workflows_field,
}
use clai.Config.Fix.Fixed.{clamp-IsIn, IsFixed}
use clai.Config.Valid.{
  bind-Ensures, if-Ensures, number-Ensures, non_negative-Ensures, positive_number-Ensures,
  boolean-Ensures, allowed-Ensures, IsDaemon, IsClient, IsAi, AreSuggestions, IsHistory,
  AreWorkflows, Ensures,
}

pub set_daemon_field-Ensures :
    (c : DaemonConfig) (field value : String)
    → IsDaemon c
    → Ensures (IsDaemon) (set_daemon_field c field value)
unfolding set_daemon_field
set_daemon_field-Ensures c field value good =
    if-Ensures (IsDaemon) (str_eq field "idle_timeout_mins") _ _
      (bind-Ensures (λ v. is_negative v ≡ false) (IsDaemon) (non_negative "idle_timeout_mins" value)
        _ (non_negative-Ensures "idle_timeout_mins" value)
        (λ v h. record { idle_timeout_mins = h; log_level = good.log_level }))
      (if-Ensures (IsDaemon) (str_eq field "socket_path") _ _
        (record { idle_timeout_mins = good.idle_timeout_mins; log_level = good.log_level })
        (if-Ensures (IsDaemon) (str_eq field "log_level") _ _
          (bind-Ensures (λ v. is_valid_log_level v ≡ true) (IsDaemon)
            (allowed is_valid_log_level "log_level" value) _
            (allowed-Ensures is_valid_log_level "log_level" value)
            (λ v h. record { idle_timeout_mins = good.idle_timeout_mins; log_level = h }))
          (if-Ensures (IsDaemon) (str_eq field "log_file") _ _
            (record { idle_timeout_mins = good.idle_timeout_mins; log_level = good.log_level })
            (tt))))

pub set_client_field-Ensures :
    (c : ClientConfig) (field value : String)
    → IsClient c
    → Ensures (IsClient) (set_client_field c field value)
unfolding set_client_field
set_client_field-Ensures c field value good =
    if-Ensures (IsClient) (str_eq field "suggest_timeout_ms") _ _
      (bind-Ensures (λ v. is_negative v ≡ false) (IsClient)
        (non_negative "suggest_timeout_ms" value) _
        (non_negative-Ensures "suggest_timeout_ms" value)
        (λ v h. record { suggest_timeout_ms = h; connect_timeout_ms = good.connect_timeout_ms }))
      (if-Ensures (IsClient) (str_eq field "connect_timeout_ms") _ _
        (bind-Ensures (λ v. is_negative v ≡ false) (IsClient)
          (non_negative "connect_timeout_ms" value) _
          (non_negative-Ensures "connect_timeout_ms" value)
          (λ v h. record { suggest_timeout_ms = good.suggest_timeout_ms; connect_timeout_ms = h }))
        (if-Ensures (IsClient) (str_eq field "fire_and_forget") _ _
          (bind-Ensures (λ b. Unit {0}) (IsClient) (boolean "fire_and_forget" value) _
            (boolean-Ensures "fire_and_forget" value)
            (λ v h. record {
              suggest_timeout_ms = good.suggest_timeout_ms;
              connect_timeout_ms = good.connect_timeout_ms;
            }))
          (if-Ensures (IsClient) (str_eq field "auto_start_daemon") _ _
            (bind-Ensures (λ b. Unit {0}) (IsClient) (boolean "auto_start_daemon" value) _
              (boolean-Ensures "auto_start_daemon" value)
              (λ v h. record {
                suggest_timeout_ms = good.suggest_timeout_ms;
                connect_timeout_ms = good.connect_timeout_ms;
              }))
            (tt))))

pub set_ai_field-Ensures :
    (c : AiConfig) (field value : String) → IsAi c → Ensures (IsAi) (set_ai_field c field value)
unfolding set_ai_field
set_ai_field-Ensures c field value good =
    if-Ensures (IsAi) (str_eq field "enabled") _ _
      (bind-Ensures (λ b. Unit {0}) (IsAi) (boolean "enabled" value) _
        (boolean-Ensures "enabled" value)
        (λ v h. record { provider = good.provider; cache_ttl_hours = good.cache_ttl_hours }))
      (if-Ensures (IsAi) (str_eq field "provider") _ _
        (bind-Ensures (λ v. is_valid_provider v ≡ true) (IsAi)
          (allowed is_valid_provider "provider" value) _
          (allowed-Ensures is_valid_provider "provider" value)
          (λ v h. record { provider = h; cache_ttl_hours = good.cache_ttl_hours }))
        (if-Ensures (IsAi) (str_eq field "model") _ _
          (record { provider = good.provider; cache_ttl_hours = good.cache_ttl_hours })
          (if-Ensures (IsAi) (str_eq field "auto_diagnose") _ _
            (bind-Ensures (λ b. Unit {0}) (IsAi) (boolean "auto_diagnose" value) _
              (boolean-Ensures "auto_diagnose" value)
              (λ v h. record { provider = good.provider; cache_ttl_hours = good.cache_ttl_hours }))
            (if-Ensures (IsAi) (str_eq field "cache_ttl_hours") _ _
              (bind-Ensures (λ v. is_negative v ≡ false) (IsAi)
                (non_negative "cache_ttl_hours" value) _
                (non_negative-Ensures "cache_ttl_hours" value)
                (λ v h. record { provider = good.provider; cache_ttl_hours = h }))
              (tt)))))

-- The settings that can be set by key are not in the way of the tests of the others.
set-IsFixed :
    {F : Type 0} (fl : Floats F) (c : SuggestionsConfig F) (enabled : Bool) (max_history max_ai : ℤ)
    (show_risk_warning : Bool) (scorer_version picker_view : String)
    → is_valid_scorer_version scorer_version ≡ true
    → is_valid_suggestions_picker_view picker_view ≡ true
    → IsFixed fl c
    → IsFixed fl (record c {
      enabled = enabled;
      max_history = max_history;
      max_ai = max_ai;
      show_risk_warning = show_risk_warning;
      scorer_version = scorer_version;
      picker_view = picker_view;
    })
set-IsFixed fl c enabled max_history max_ai show_risk_warning scorer_version picker_view version
      view good =
    record {
      hard_timeout_ms = good.hard_timeout_ms;
      hook_connect_timeout_ms = good.hook_connect_timeout_ms;
      hook_write_timeout_ms = good.hook_write_timeout_ms;
      ingest_sync_wait_ms = good.ingest_sync_wait_ms;
      cache_ttl_ms = good.cache_ttl_ms;
      max_results = good.max_results;
      ingest_queue_max_events = good.ingest_queue_max_events;
      burst_events_threshold = good.burst_events_threshold;
      cmd_raw_max_bytes = good.cmd_raw_max_bytes;
      ingest_queue_max_bytes = good.ingest_queue_max_bytes;
      cache_memory_budget_mb = good.cache_memory_budget_mb;
      online_learning_min_samples = good.online_learning_min_samples;
      weights = good.weights;
      retention_days = good.retention_days;
      retention_max_events = good.retention_max_events;
      online_learning_eta = good.online_learning_eta;
      workflow_steps = good.workflow_steps;
      pipeline_max_segments = good.pipeline_max_segments;
      directory_scope_max_depth = good.directory_scope_max_depth;
      incognito_mode = good.incognito_mode;
      shim_mode = good.shim_mode;
      scorer_version = version;
      search_fts_tokenizer = good.search_fts_tokenizer;
      picker_view = view;
    }

pub set_suggestions_field-Ensures :
    {F : Type 0} (fl : Floats F) (c : SuggestionsConfig F) (field value : String)
    → AreSuggestions fl c
    → Ensures (AreSuggestions fl) (set_suggestions_field c field value)
unfolding set_suggestions_field
set_suggestions_field-Ensures fl c field value good =
    if-Ensures (AreSuggestions fl) (str_eq field "enabled") _ _
      (bind-Ensures (λ b. Unit {0}) (AreSuggestions fl) (boolean "enabled" value) _
        (boolean-Ensures "enabled" value)
        (λ v h. record {
          max_history = good.max_history;
          max_ai = good.max_ai;
          fixed =
              set-IsFixed fl c v c.max_history c.max_ai c.show_risk_warning c.scorer_version
                c.picker_view good.fixed.scorer_version good.fixed.picker_view good.fixed;
        }))
      (if-Ensures (AreSuggestions fl) (str_eq field "max_history") _ _
        (bind-Ensures (λ v. is_negative v ≡ false) (AreSuggestions fl)
          (non_negative "max_history" value) _ (non_negative-Ensures "max_history" value)
          (λ v h. record {
            max_history = h;
            max_ai = good.max_ai;
            fixed =
                set-IsFixed fl c c.enabled v c.max_ai c.show_risk_warning c.scorer_version
                  c.picker_view good.fixed.scorer_version good.fixed.picker_view good.fixed;
          }))
        (if-Ensures (AreSuggestions fl) (str_eq field "max_ai") _ _
          (bind-Ensures (λ v. is_negative v ≡ false) (AreSuggestions fl)
            (non_negative "max_ai" value) _ (non_negative-Ensures "max_ai" value)
            (λ v h. record {
              max_history = good.max_history;
              max_ai = h;
              fixed =
                  set-IsFixed fl c c.enabled c.max_history v c.show_risk_warning c.scorer_version
                    c.picker_view good.fixed.scorer_version good.fixed.picker_view good.fixed;
            }))
          (if-Ensures (AreSuggestions fl) (str_eq field "show_risk_warning") _ _
            (bind-Ensures (λ b. Unit {0}) (AreSuggestions fl) (boolean "show_risk_warning" value) _
              (boolean-Ensures "show_risk_warning" value)
              (λ v h. record {
                max_history = good.max_history;
                max_ai = good.max_ai;
                fixed =
                    set-IsFixed fl c c.enabled c.max_history c.max_ai v c.scorer_version
                      c.picker_view good.fixed.scorer_version good.fixed.picker_view good.fixed;
              }))
            (if-Ensures (AreSuggestions fl) (str_eq field "scorer_version") _ _
              (bind-Ensures (λ v. is_valid_scorer_version v ≡ true) (AreSuggestions fl)
                (allowed is_valid_scorer_version "scorer_version" value) _
                (allowed-Ensures is_valid_scorer_version "scorer_version" value)
                (λ v h. record {
                  max_history = good.max_history;
                  max_ai = good.max_ai;
                  fixed =
                      set-IsFixed fl c c.enabled c.max_history c.max_ai c.show_risk_warning v
                        c.picker_view h good.fixed.picker_view good.fixed;
                }))
              (if-Ensures (AreSuggestions fl) (str_eq field "picker_view") _ _
                (bind-Ensures (λ v. is_valid_suggestions_picker_view v ≡ true) (AreSuggestions fl)
                  (allowed is_valid_suggestions_picker_view "picker_view" value) _
                  (allowed-Ensures is_valid_suggestions_picker_view "picker_view" value)
                  (λ v h. record {
                    max_history = good.max_history;
                    max_ai = good.max_ai;
                    fixed =
                        set-IsFixed fl c c.enabled c.max_history c.max_ai c.show_risk_warning
                          c.scorer_version v good.fixed.scorer_version h good.fixed;
                  }))
                (tt))))))

pub set_history_field-Ensures :
    (c : HistoryConfig) (field value : String)
    → IsHistory c
    → Ensures (IsHistory) (set_history_field c field value)
unfolding set_history_field
set_history_field-Ensures c field value good =
    if-Ensures (IsHistory) (str_eq field "picker_backend") _ _
      (bind-Ensures (λ v. is_valid_picker_backend v ≡ true) (IsHistory)
        (allowed is_valid_picker_backend "picker_backend" value) _
        (allowed-Ensures is_valid_picker_backend "picker_backend" value)
        (λ v h. record {
          picker_backend = h;
          up_arrow_trigger = good.up_arrow_trigger;
          picker_page_size = good.picker_page_size;
          up_arrow_double_window_ms = good.up_arrow_double_window_ms;
        }))
      (if-Ensures (IsHistory) (str_eq field "picker_open_on_empty") _ _
        (bind-Ensures (λ b. Unit {0}) (IsHistory) (boolean "picker_open_on_empty" value) _
          (boolean-Ensures "picker_open_on_empty" value)
          (λ v h. record {
            picker_backend = good.picker_backend;
            up_arrow_trigger = good.up_arrow_trigger;
            picker_page_size = good.picker_page_size;
            up_arrow_double_window_ms = good.up_arrow_double_window_ms;
          }))
        (if-Ensures (IsHistory) (str_eq field "picker_page_size") _ _
          (bind-Ensures (λ v. Unit {0}) (IsHistory) (number "picker_page_size" value) _
            (number-Ensures "picker_page_size" value)
            (λ v h. record {
              picker_backend = good.picker_backend;
              up_arrow_trigger = good.up_arrow_trigger;
              picker_page_size = clamp-IsIn 20 500 v (omega arith);
              up_arrow_double_window_ms = good.up_arrow_double_window_ms;
            }))
          (if-Ensures (IsHistory) (str_eq field "picker_case_sensitive") _ _
            (bind-Ensures (λ b. Unit {0}) (IsHistory) (boolean "picker_case_sensitive" value) _
              (boolean-Ensures "picker_case_sensitive" value)
              (λ v h. record {
                picker_backend = good.picker_backend;
                up_arrow_trigger = good.up_arrow_trigger;
                picker_page_size = good.picker_page_size;
                up_arrow_double_window_ms = good.up_arrow_double_window_ms;
              }))
            (if-Ensures (IsHistory) (str_eq field "up_arrow_opens_history") _ _
              (bind-Ensures (λ b. Unit {0}) (IsHistory) (boolean "up_arrow_opens_history" value) _
                (boolean-Ensures "up_arrow_opens_history" value)
                (λ v h. record {
                  picker_backend = good.picker_backend;
                  up_arrow_trigger = good.up_arrow_trigger;
                  picker_page_size = good.picker_page_size;
                  up_arrow_double_window_ms = good.up_arrow_double_window_ms;
                }))
              (if-Ensures (IsHistory) (str_eq field "up_arrow_trigger") _ _
                (bind-Ensures (λ v. is_valid_up_arrow_trigger v ≡ true) (IsHistory)
                  (allowed is_valid_up_arrow_trigger "up_arrow_trigger" value) _
                  (allowed-Ensures is_valid_up_arrow_trigger "up_arrow_trigger" value)
                  (λ v h. record {
                    picker_backend = good.picker_backend;
                    up_arrow_trigger = h;
                    picker_page_size = good.picker_page_size;
                    up_arrow_double_window_ms = good.up_arrow_double_window_ms;
                  }))
                (if-Ensures (IsHistory) (str_eq field "up_arrow_double_window_ms") _ _
                  (bind-Ensures (λ v. Unit {0}) (IsHistory)
                    (number "up_arrow_double_window_ms" value) _
                    (number-Ensures "up_arrow_double_window_ms" value)
                    (λ v h. record {
                      picker_backend = good.picker_backend;
                      up_arrow_trigger = good.up_arrow_trigger;
                      picker_page_size = good.picker_page_size;
                      up_arrow_double_window_ms = clamp-IsIn 50 1000 v (omega arith);
                    }))
                  (tt)))))))

pub set_workflows_field-Ensures :
    (c : WorkflowsConfig) (field value : String)
    → AreWorkflows c
    → Ensures (AreWorkflows) (set_workflows_field c field value)
unfolding set_workflows_field
set_workflows_field-Ensures c field value good =
    if-Ensures (AreWorkflows) (str_eq field "enabled") _ _
      (bind-Ensures (λ b. Unit {0}) (AreWorkflows) (boolean "enabled" value) _
        (boolean-Ensures "enabled" value)
        (λ v h. record { default_mode = good.default_mode; retain_runs = good.retain_runs }))
      (if-Ensures (AreWorkflows) (str_eq field "default_mode") _ _
        (bind-Ensures (λ v. is_valid_workflow_mode v ≡ true) (AreWorkflows)
          (allowed is_valid_workflow_mode "default_mode" value) _
          (allowed-Ensures is_valid_workflow_mode "default_mode" value)
          (λ v h. record { default_mode = h; retain_runs = good.retain_runs }))
        (if-Ensures (AreWorkflows) (str_eq field "default_shell") _ _
          (record { default_mode = good.default_mode; retain_runs = good.retain_runs })
          (if-Ensures (AreWorkflows) (str_eq field "log_dir") _ _
            (record { default_mode = good.default_mode; retain_runs = good.retain_runs })
            (if-Ensures (AreWorkflows) (str_eq field "search_paths") _ _
              (record { default_mode = good.default_mode; retain_runs = good.retain_runs })
              (if-Ensures (AreWorkflows) (str_eq field "retain_runs") _ _
                (bind-Ensures (λ v. is_below v 1 ≡ false) (AreWorkflows)
                  (positive_number "retain_runs" value) _
                  (positive_number-Ensures "retain_runs" value)
                  (λ v h. record { default_mode = good.default_mode; retain_runs = h }))
                (if-Ensures (AreWorkflows) (str_eq field "strict_permissions") _ _
                  (bind-Ensures (λ b. Unit {0}) (AreWorkflows) (boolean "strict_permissions" value)
                    _ (boolean-Ensures "strict_permissions" value)
                    (λ v h. record {
                      default_mode = good.default_mode;
                      retain_runs = good.retain_runs;
                    }))
                  (if-Ensures (AreWorkflows) (str_eq field "secret_file") _ _
                    (record { default_mode = good.default_mode; retain_runs = good.retain_runs })
                    (tt))))))))
