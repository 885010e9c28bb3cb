-- ===== src/Config/Validate.antt =====
-- internal/config/config.go: access by key, `Validate`, the overrides by the environment, and
-- loading. Where `Validate` fails the source has already changed the receiver in part; its caller
-- drops it then, and so does this model. The file system, the YAML parser and the environment are
-- parameters.
use clai.Common.{
  if◌then◌else◌, Bool, true, false, ◌||◌, not, List, [], ◌∷◌, String, str_eq, Option, none, some,
}
use clai.Common.Strconv.{split, parse_bool}
use clai.Config.Floats.{Floats}
use clai.Config.Types.{Config}
use clai.Config.Defaults.{default_config}
use clai.Config.Checks.{
  Result, ok, err, ◌>>=◌, Error, bad_key, unknown_section, must_be_non_negative, must_be_positive,
  not_allowed, unreadable_file, unparsable_file, is_negative, is_below, clamp, is_valid_log_level,
  is_valid_provider, is_valid_picker_backend, is_valid_up_arrow_trigger, is_valid_workflow_mode,
}
use clai.Config.Fields.{
  get_daemon_field, get_client_field, get_ai_field, get_suggestions_field, get_privacy_field,
  get_history_field, get_workflows_field, set_daemon_field, set_client_field, set_ai_field,
  set_suggestions_field, set_privacy_field, set_history_field, set_workflows_field,
}
use clai.Config.Fix.{validate_and_fix}

module _ {F : Type 0} where
  -- `Get` of a section and a field.
  unfoldable pub get_in : Config F → String → String → Result String
  get_in c section field =
      if str_eq section "daemon"
      then get_daemon_field c.daemon field
      else if str_eq section "client"
      then get_client_field c.client field
      else if str_eq section "ai"
      then get_ai_field c.ai field
      else if str_eq section "suggestions"
      then get_suggestions_field c.suggestions field
      else if str_eq section "privacy"
      then get_privacy_field c.privacy field
      else if str_eq section "history"
      then get_history_field c.history field
      else if str_eq section "workflows"
      then get_workflows_field c.workflows field
      else err (unknown_section section)

  abbrev pub get_parts : Config F → List String → Result String
  get_parts c (section ∷ field ∷ []) = get_in c section field
  get_parts c _ = err bad_key

  -- `Get`
  unfoldable pub get : Config F → String → Result String
  get c key = get_parts c (split 46 key)

  -- `Set` of a section and a field.
  unfoldable pub set_in : Config F → String → String → String → Result (Config F)
  set_in c section field value =
      if str_eq section "daemon"
      then (set_daemon_field c.daemon field value >>= λ v. ok (record c { daemon = v }))
      else if str_eq section "client"
      then (set_client_field c.client field value >>= λ v. ok (record c { client = v }))
      else if str_eq section "ai"
      then (set_ai_field c.ai field value >>= λ v. ok (record c { ai = v }))
      else if str_eq section "suggestions"
      then (set_suggestions_field c.suggestions field value >>= λ v.
          ok (record c { suggestions = v }))
      else if str_eq section "privacy"
      then (set_privacy_field c.privacy field value >>= λ v. ok (record c { privacy = v }))
      else if str_eq section "history"
      then (set_history_field c.history field value >>= λ v. ok (record c { history = v }))
      else if str_eq section "workflows"
      then (set_workflows_field c.workflows field value >>= λ v. ok (record c { workflows = v }))
      else err (unknown_section section)

  abbrev pub set_parts : Config F → List String → String → Result (Config F)
  set_parts c (section ∷ field ∷ []) value = set_in c section field value
  set_parts c _ value = err bad_key

  -- `Set`
  unfoldable pub set : Config F → String → String → Result (Config F)
  set c key value = set_parts c (split 46 key) value

-- A row of `if bad { return error }`: the first bad one ends it.
abbrev pub unless {ℓ} : {A : Type ℓ} → List (Bool × Error) → A → Result A
unless [] a = ok a
unless ((true, e) ∷ checks) a = err e
unless ((false, e) ∷ checks) a = unless checks a

-- The tests of `Validate`, in order.
abbrev pub checks : {F : Type 0} → Config F → List (Bool × Error)
checks c =
    (is_negative c.daemon.idle_timeout_mins, must_be_non_negative "daemon.idle_timeout_mins")
    ∷ (
      not (is_valid_log_level c.daemon.log_level),
      not_allowed "daemon.log_level" c.daemon.log_level,
    )
    ∷ (is_negative c.client.suggest_timeout_ms, must_be_non_negative "client.suggest_timeout_ms")
    ∷ (is_negative c.client.connect_timeout_ms, must_be_non_negative "client.connect_timeout_ms")
    ∷ (not (is_valid_provider c.ai.provider), not_allowed "ai.provider" c.ai.provider)
    ∷ (is_negative c.ai.cache_ttl_hours, must_be_non_negative "ai.cache_ttl_hours")
    ∷ (is_negative c.suggestions.max_history, must_be_non_negative "suggestions.max_history")
    ∷ (is_negative c.suggestions.max_ai, must_be_non_negative "suggestions.max_ai")
    ∷ (
      not (is_valid_picker_backend c.history.picker_backend),
      not_allowed "history.picker_backend" c.history.picker_backend,
    )
    ∷ (
      not (is_valid_up_arrow_trigger c.history.up_arrow_trigger),
      not_allowed "history.up_arrow_trigger" c.history.up_arrow_trigger,
    )
    ∷ (
      str_eq c.workflows.default_mode "" || not (is_valid_workflow_mode c.workflows.default_mode),
      not_allowed "workflows.default_mode" c.workflows.default_mode,
    )
    ∷ (is_below c.workflows.retain_runs 1, must_be_positive "workflows.retain_runs")
    ∷ []

module _ {F : Type 0} (fl : Floats F) where
  -- What `Validate` makes of a configuration while it tests it.
  abbrev pub repaired : Config F → Config F
  repaired c = record c {
    suggestions = (validate_and_fix fl c.suggestions).0;
    history = record c.history {
      picker_page_size = clamp 20 500 c.history.picker_page_size;
      up_arrow_double_window_ms = clamp 50 1000 c.history.up_arrow_double_window_ms;
    };
  }

  -- `Validate`, with the configuration that it leaves.
  unfoldable pub validate : Config F → Result (Config F)
  validate c = unless (checks c) (repaired c)

  -- The values of the environment, empty where a variable is not set.
  pub record Environment : Type 0 where
    pub suggestions_enabled : String
    pub debug : String
    pub log_level : String
    pub socket : String

  abbrev enabled_by : Option Bool → Bool → Bool
  enabled_by none b = b
  enabled_by (some v) b = v

  abbrev debug_by : Option Bool → String → String
  debug_by (some true) level = "debug"
  debug_by _ level = level

  -- `ApplyEnvOverrides`. No text is not a Boolean nor a log level, so that the tests for one agree
  -- with those for an unset variable.
  unfoldable pub apply_env_overrides : Environment → Config F → Config F
  apply_env_overrides env c =
      let debugged = debug_by (parse_bool env.debug) c.daemon.log_level in
      record c {
        suggestions = record c.suggestions {
          enabled = enabled_by (parse_bool env.suggestions_enabled) c.suggestions.enabled;
        };
        daemon = record c.daemon {
          log_level = if is_valid_log_level env.log_level then env.log_level else debugged;
          socket_path = if str_eq env.socket "" then c.daemon.socket_path else env.socket;
        };
      }

  -- What reading the file comes to. A parsed file is laid over the default configuration.
  pub data FileRead : Type 0 where
    not_there not_readable not_parsable : FileRead
    parsed : (Config F → Config F) → FileRead

  -- `LoadFromFile`
  unfoldable pub load_from_file : Environment → FileRead → Result (Config F)
  unfolding validate apply_env_overrides
  load_from_file env not_there = validate (apply_env_overrides env (default_config fl))
  load_from_file env not_readable = err unreadable_file
  load_from_file env not_parsable = err unparsable_file
  load_from_file env (parsed overlay) =
      validate (apply_env_overrides env (overlay (default_config fl)))

-- `ListKeys`
abbrev pub list_keys : List String
list_keys =
    "suggestions.enabled" ∷ "suggestions.max_history" ∷ "suggestions.show_risk_warning"
    ∷ "suggestions.scorer_version" ∷ "suggestions.picker_view" ∷ "history.picker_backend"
    ∷ "history.picker_open_on_empty" ∷ "history.picker_page_size" ∷ "history.picker_case_sensitive"
    ∷ "history.up_arrow_trigger" ∷ "history.up_arrow_double_window_ms" ∷ []
