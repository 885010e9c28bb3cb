-- ===== src/Config/Fields.antt =====
-- internal/config/config.go: the getters and setters of the sections. A setter returns the section
-- with the field set, or the error with nothing changed. The fields of the suggestions are set by
-- methods of their own in the source, each in one branch here.
use clai.Common.{if◌then◌else◌, List, [], String, str_eq}
use clai.Common.Strconv.{itoa, format_bool, join, split}
use clai.Config.Types.{
  DaemonConfig, ClientConfig, AiConfig, SuggestionsConfig, PrivacyConfig, WorkflowsConfig,
  HistoryConfig,
}
use clai.Config.Checks.{
  Result, ok, err, unknown_field, ◌>>=◌, number, non_negative, positive_number, boolean, allowed,
  clamp, is_valid_log_level, is_valid_provider, is_valid_scorer_version,
  is_valid_suggestions_picker_view, is_valid_picker_backend, is_valid_up_arrow_trigger,
  is_valid_workflow_mode,
}

unfoldable pub get_daemon_field : DaemonConfig → String → Result String
get_daemon_field c field =
    if str_eq field "idle_timeout_mins"
    then ok (itoa c.idle_timeout_mins)
    else if str_eq field "socket_path"
    then ok c.socket_path
    else if str_eq field "log_level"
    then ok c.log_level
    else if str_eq field "log_file"
    then ok c.log_file
    else err (unknown_field "daemon" field)

unfoldable pub set_daemon_field : DaemonConfig → String → String → Result (DaemonConfig)
set_daemon_field c field value =
    if str_eq field "idle_timeout_mins"
    then (non_negative "idle_timeout_mins" value >>= λ v. ok (record c { idle_timeout_mins = v }))
    else if str_eq field "socket_path"
    then ok (record c { socket_path = value })
    else if str_eq field "log_level"
    then (allowed is_valid_log_level "log_level" value >>= λ v. ok (record c { log_level = v }))
    else if str_eq field "log_file"
    then ok (record c { log_file = value })
    else err (unknown_field "daemon" field)

unfoldable pub get_client_field : ClientConfig → String → Result String
get_client_field c field =
    if str_eq field "suggest_timeout_ms"
    then ok (itoa c.suggest_timeout_ms)
    else if str_eq field "connect_timeout_ms"
    then ok (itoa c.connect_timeout_ms)
    else if str_eq field "fire_and_forget"
    then ok (format_bool c.fire_and_forget)
    else if str_eq field "auto_start_daemon"
    then ok (format_bool c.auto_start_daemon)
    else err (unknown_field "client" field)

unfoldable pub set_client_field : ClientConfig → String → String → Result (ClientConfig)
set_client_field c field value =
    if str_eq field "suggest_timeout_ms"
    then (non_negative "suggest_timeout_ms" value >>= λ v. ok (record c { suggest_timeout_ms = v }))
    else if str_eq field "connect_timeout_ms"
    then (non_negative "connect_timeout_ms" value >>= λ v. ok (record c { connect_timeout_ms = v }))
    else if str_eq field "fire_and_forget"
    then (boolean "fire_and_forget" value >>= λ v. ok (record c { fire_and_forget = v }))
    else if str_eq field "auto_start_daemon"
    then (boolean "auto_start_daemon" value >>= λ v. ok (record c { auto_start_daemon = v }))
    else err (unknown_field "client" field)

unfoldable pub get_ai_field : AiConfig → String → Result String
get_ai_field c field =
    if str_eq field "enabled"
    then ok (format_bool c.enabled)
    else if str_eq field "provider"
    then ok c.provider
    else if str_eq field "model"
    then ok c.model
    else if str_eq field "auto_diagnose"
    then ok (format_bool c.auto_diagnose)
    else if str_eq field "cache_ttl_hours"
    then ok (itoa c.cache_ttl_hours)
    else err (unknown_field "ai" field)

unfoldable pub set_ai_field : AiConfig → String → String → Result (AiConfig)
set_ai_field c field value =
    if str_eq field "enabled"
    then (boolean "enabled" value >>= λ v. ok (record c { enabled = v }))
    else if str_eq field "provider"
    then (allowed is_valid_provider "provider" value >>= λ v. ok (record c { provider = v }))
    else if str_eq field "model"
    then ok (record c { model = value })
    else if str_eq field "auto_diagnose"
    then (boolean "auto_diagnose" value >>= λ v. ok (record c { auto_diagnose = v }))
    else if str_eq field "cache_ttl_hours"
    then (non_negative "cache_ttl_hours" value >>= λ v. ok (record c { cache_ttl_hours = v }))
    else err (unknown_field "ai" field)

unfoldable pub get_suggestions_field : {F : Type 0} → SuggestionsConfig F → String → Result String
get_suggestions_field c field =
    if str_eq field "enabled"
    then ok (format_bool c.enabled)
    else if str_eq field "max_history"
    then ok (itoa c.max_history)
    else if str_eq field "max_ai"
    then ok (itoa c.max_ai)
    else if str_eq field "show_risk_warning"
    then ok (format_bool c.show_risk_warning)
    else if str_eq field "scorer_version"
    then ok c.scorer_version
    else if str_eq field "picker_view"
    then ok c.picker_view
    else err (unknown_field "suggestions" field)

unfoldable pub set_suggestions_field :
    {F : Type 0} → SuggestionsConfig F → String → String → Result (SuggestionsConfig F)
set_suggestions_field c field value =
    if str_eq field "enabled"
    then (boolean "enabled" value >>= λ v. ok (record c { enabled = v }))
    else if str_eq field "max_history"
    then (non_negative "max_history" value >>= λ v. ok (record c { max_history = v }))
    else if str_eq field "max_ai"
    then (non_negative "max_ai" value >>= λ v. ok (record c { max_ai = v }))
    else if str_eq field "show_risk_warning"
    then (boolean "show_risk_warning" value >>= λ v. ok (record c { show_risk_warning = v }))
    else if str_eq field "scorer_version"
    then (allowed is_valid_scorer_version "scorer_version" value >>= λ v.
        ok (record c { scorer_version = v }))
    else if str_eq field "picker_view"
    then (allowed is_valid_suggestions_picker_view "picker_view" value >>= λ v.
        ok (record c { picker_view = v }))
    else err (unknown_field "suggestions" field)

unfoldable pub get_privacy_field : PrivacyConfig → String → Result String
get_privacy_field c field =
    if str_eq field "sanitize_ai_calls"
    then ok (format_bool c.sanitize_ai_calls)
    else err (unknown_field "privacy" field)

unfoldable pub set_privacy_field : PrivacyConfig → String → String → Result (PrivacyConfig)
set_privacy_field c field value =
    if str_eq field "sanitize_ai_calls"
    then (boolean "sanitize_ai_calls" value >>= λ v. ok (record c { sanitize_ai_calls = v }))
    else err (unknown_field "privacy" field)

unfoldable pub get_history_field : HistoryConfig → String → Result String
get_history_field c field =
    if str_eq field "picker_backend"
    then ok c.picker_backend
    else if str_eq field "picker_open_on_empty"
    then ok (format_bool c.picker_open_on_empty)
    else if str_eq field "picker_page_size"
    then ok (itoa c.picker_page_size)
    else if str_eq field "picker_case_sensitive"
    then ok (format_bool c.picker_case_sensitive)
    else if str_eq field "up_arrow_opens_history"
    then ok (format_bool c.up_arrow_opens_history)
    else if str_eq field "up_arrow_trigger"
    then ok c.up_arrow_trigger
    else if str_eq field "up_arrow_double_window_ms"
    then ok (itoa c.up_arrow_double_window_ms)
    else err (unknown_field "history" field)

unfoldable pub set_history_field : HistoryConfig → String → String → Result (HistoryConfig)
set_history_field c field value =
    if str_eq field "picker_backend"
    then (allowed is_valid_picker_backend "picker_backend" value >>= λ v.
        ok (record c { picker_backend = v }))
    else if str_eq field "picker_open_on_empty"
    then (boolean "picker_open_on_empty" value >>= λ v. ok (record c { picker_open_on_empty = v }))
    else if str_eq field "picker_page_size"
    then (number "picker_page_size" value >>= λ v.
        ok (record c { picker_page_size = clamp 20 500 v }))
    else if str_eq field "picker_case_sensitive"
    then (boolean "picker_case_sensitive" value >>= λ v.
        ok (record c { picker_case_sensitive = v }))
    else if str_eq field "up_arrow_opens_history"
    then (boolean "up_arrow_opens_history" value >>= λ v.
        ok (record c { up_arrow_opens_history = v }))
    else if str_eq field "up_arrow_trigger"
    then (allowed is_valid_up_arrow_trigger "up_arrow_trigger" value >>= λ v.
        ok (record c { up_arrow_trigger = v }))
    else if str_eq field "up_arrow_double_window_ms"
    then (number "up_arrow_double_window_ms" value >>= λ v.
        ok (record c { up_arrow_double_window_ms = clamp 50 1000 v }))
    else err (unknown_field "history" field)

-- No text means no paths.
unfoldable pub search_paths_of : String → List String
search_paths_of value = if str_eq value "" then [] else split 44 value

unfoldable pub get_workflows_field : WorkflowsConfig → String → Result String
get_workflows_field c field =
    if str_eq field "enabled"
    then ok (format_bool c.enabled)
    else if str_eq field "default_mode"
    then ok c.default_mode
    else if str_eq field "default_shell"
    then ok c.default_shell
    else if str_eq field "log_dir"
    then ok c.log_dir
    else if str_eq field "search_paths"
    then ok (join "," c.search_paths)
    else if str_eq field "retain_runs"
    then ok (itoa c.retain_runs)
    else if str_eq field "strict_permissions"
    then ok (format_bool c.strict_permissions)
    else if str_eq field "secret_file"
    then ok c.secret_file
    else err (unknown_field "workflows" field)

unfoldable pub set_workflows_field : WorkflowsConfig → String → String → Result (WorkflowsConfig)
set_workflows_field c field value =
    if str_eq field "enabled"
    then (boolean "enabled" value >>= λ v. ok (record c { enabled = v }))
    else if str_eq field "default_mode"
    then (allowed is_valid_workflow_mode "default_mode" value >>= λ v.
        ok (record c { default_mode = v }))
    else if str_eq field "default_shell"
    then ok (record c { default_shell = value })
    else if str_eq field "log_dir"
    then ok (record c { log_dir = value })
    else if str_eq field "search_paths"
    then ok (record c { search_paths = search_paths_of value })
    else if str_eq field "retain_runs"
    then (positive_number "retain_runs" value >>= λ v. ok (record c { retain_runs = v }))
    else if str_eq field "strict_permissions"
    then (boolean "strict_permissions" value >>= λ v. ok (record c { strict_permissions = v }))
    else if str_eq field "secret_file"
    then ok (record c { secret_file = value })
    else err (unknown_field "workflows" field)
