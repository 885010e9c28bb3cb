-- ===== src/Config/Roundtrip.antt =====
-- Setting a key to the text that `Get` returns for it changes nothing.
use clai.Common.{
  Bool, true, false, List, [], ◌∷◌, All, String, str_eq, str_eq_iff, ℤ, ◌≡◌, ◌≢◌, refl, ap, arith,
  Bool-cases, inl, inr,
}
use clai.Common.Strconv.{
  IsInt, itoa, atoi-itoa, format_bool, parse_bool-format_bool, join, join_rest, split, IsPart,
  split-join, join-ne-empty,
}
use clai.Config.Floats.{Floats}
use clai.Config.Types.{
  DaemonConfig, ClientConfig, AiConfig, SuggestionsConfig, PrivacyConfig, WorkflowsConfig,
  HistoryConfig, Config,
}
use clai.Config.Checks.{
  Result, ok, err, ◌>>=◌, number, non_negative, positive_number, boolean, allowed, is_negative,
  is_below, is_valid_log_level, is_valid_provider, is_valid_scorer_version,
  is_valid_suggestions_picker_view, is_valid_picker_backend, is_valid_up_arrow_trigger,
  is_valid_workflow_mode,
}
use clai.Config.Fields.{
  get_daemon_field, get_client_field, get_ai_field, get_suggestions_field, get_privacy_field,
  get_history_field, get_workflows_field, set_daemon_field, set_client_field, set_ai_field,
  set_suggestions_field, set_privacy_field, set_history_field, set_workflows_field, search_paths_of,
}
use clai.Config.Fix.Fixed.{IsIn-clamp}
use clai.Config.Accepted.{IsValid, Ensures-ok}
use clai.Config.Validate.{get_in, set_in, get, set, get_parts, set_parts}
use clai.Config.Valid.{Ensures, IsDaemon, IsClient, IsAi, AreSuggestions, IsHistory, AreWorkflows}

number-itoa : (field : String) (x : ℤ) → IsInt x → number field (itoa x) ≡ ok x
unfolding number
number-itoa field x h = rw (atoi-itoa x h) refl

non_negative-itoa :
    (field : String) (x : ℤ) → IsInt x → is_negative x ≡ false → non_negative field (itoa x) ≡ ok x
unfolding non_negative
non_negative-itoa field x h n = rw (number-itoa field x h, n) refl

positive_number-itoa :
    (field : String) (x : ℤ)
    → IsInt x
    → is_below x 1 ≡ false
    → positive_number field (itoa x) ≡ ok x
unfolding positive_number
positive_number-itoa field x h n = rw (number-itoa field x h, n) refl

boolean-format_bool : (field : String) (b : Bool) → boolean field (format_bool b) ≡ ok b
unfolding boolean
boolean-format_bool field b = rw (parse_bool-format_bool b) refl

allowed-same :
    (test : String → Bool) (field value : String)
    → test value ≡ true
    → allowed test field value ≡ ok value
unfolding allowed
allowed-same test field value h = rw (allowed, h) refl

daemon_same :
    (c : DaemonConfig) (field : String)
    → IsDaemon c
    → IsInt c.idle_timeout_mins
    → Ensures (λ v. set_daemon_field c field v ≡ ok c) (get_daemon_field c field)
unfolding get_daemon_field set_daemon_field
daemon_same c field v i =
    let idle = non_negative-itoa "idle_timeout_mins" c.idle_timeout_mins i v.idle_timeout_mins in
    let level = allowed-same is_valid_log_level "log_level" c.log_level v.log_level in ground arith

client_same :
    (c : ClientConfig) (field : String)
    → IsClient c
    → IsInt c.suggest_timeout_ms
    → IsInt c.connect_timeout_ms
    → Ensures (λ v. set_client_field c field v ≡ ok c) (get_client_field c field)
unfolding get_client_field set_client_field
client_same c field v i j =
    let a = non_negative-itoa "suggest_timeout_ms" c.suggest_timeout_ms i v.suggest_timeout_ms in
    let b = non_negative-itoa "connect_timeout_ms" c.connect_timeout_ms j v.connect_timeout_ms in
    let d = boolean-format_bool "fire_and_forget" c.fire_and_forget in
    let e = boolean-format_bool "auto_start_daemon" c.auto_start_daemon in ground arith

ai_same :
    (c : AiConfig) (field : String)
    → IsAi c
    → IsInt c.cache_ttl_hours
    → Ensures (λ v. set_ai_field c field v ≡ ok c) (get_ai_field c field)
unfolding get_ai_field set_ai_field
ai_same c field v i =
    let a = non_negative-itoa "cache_ttl_hours" c.cache_ttl_hours i v.cache_ttl_hours in
    let b = allowed-same is_valid_provider "provider" c.provider v.provider in
    let d = boolean-format_bool "enabled" c.enabled in
    let e = boolean-format_bool "auto_diagnose" c.auto_diagnose in ground arith

privacy_same :
    (c : PrivacyConfig) (field : String)
    → Ensures (λ v. set_privacy_field c field v ≡ ok c) (get_privacy_field c field)
unfolding get_privacy_field set_privacy_field
privacy_same c field =
    let a = boolean-format_bool "sanitize_ai_calls" c.sanitize_ai_calls in ground arith

suggestions_same :
    {F : Type 0} (fl : Floats F) (c : SuggestionsConfig F) (field : String)
    → AreSuggestions fl c
    → IsInt c.max_history
    → IsInt c.max_ai
    → Ensures (λ v. set_suggestions_field c field v ≡ ok c) (get_suggestions_field c field)
unfolding get_suggestions_field set_suggestions_field
suggestions_same fl c field v i j =
    let a = non_negative-itoa "max_history" c.max_history i v.max_history in
    let b = non_negative-itoa "max_ai" c.max_ai j v.max_ai in
    let d = boolean-format_bool "enabled" c.enabled in
    let e = boolean-format_bool "show_risk_warning" c.show_risk_warning in
    let f =
      allowed-same is_valid_scorer_version "scorer_version" c.scorer_version
        v.fixed.scorer_version in
    let g =
      allowed-same is_valid_suggestions_picker_view "picker_view" c.picker_view
        v.fixed.picker_view in
    ground arith

history_same :
    (c : HistoryConfig) (field : String)
    → IsHistory c
    → IsInt c.picker_page_size
    → IsInt c.up_arrow_double_window_ms
    → Ensures (λ v. set_history_field c field v ≡ ok c) (get_history_field c field)
unfolding get_history_field set_history_field
history_same c field v i j =
    let a = number-itoa "picker_page_size" c.picker_page_size i in
    let a' = IsIn-clamp 20 500 c.picker_page_size v.picker_page_size in
    let b = number-itoa "up_arrow_double_window_ms" c.up_arrow_double_window_ms j in
    let b' = IsIn-clamp 50 1000 c.up_arrow_double_window_ms v.up_arrow_double_window_ms in
    let d = boolean-format_bool "picker_open_on_empty" c.picker_open_on_empty in
    let e = boolean-format_bool "picker_case_sensitive" c.picker_case_sensitive in
    let f = boolean-format_bool "up_arrow_opens_history" c.up_arrow_opens_history in
    let g =
      allowed-same is_valid_picker_backend "picker_backend" c.picker_backend v.picker_backend in
    let h =
      allowed-same is_valid_up_arrow_trigger "up_arrow_trigger" c.up_arrow_trigger
        v.up_arrow_trigger in
    ground arith

workflows_same :
    (c : WorkflowsConfig) (field : String)
    → AreWorkflows c
    → IsInt c.retain_runs
    → search_paths_of (join "," c.search_paths) ≡ c.search_paths
    → Ensures (λ v. set_workflows_field c field v ≡ ok c) (get_workflows_field c field)
unfolding get_workflows_field set_workflows_field
workflows_same c field v i other =
    let a = positive_number-itoa "retain_runs" c.retain_runs i v.retain_runs in
    let b = boolean-format_bool "enabled" c.enabled in
    let d = boolean-format_bool "strict_permissions" c.strict_permissions in
    let e = allowed-same is_valid_workflow_mode "default_mode" c.default_mode v.default_mode in
    ground arith

-- Paths that a comma-separated list can hold: without commas, and not the empty path alone.
pub record ArePaths (ps : List String) : Type 0 where
  pub parts : All (IsPart 44) ps
  pub not_blank : ps ≢ "" ∷ []

paths_same : (ps : List String) → ArePaths ps → search_paths_of (join "," ps) ≡ ps
unfolding search_paths_of join
paths_same [] h = refl
paths_same (p ∷ []) h =
    let named : str_eq p "" ≡ false = blank in rw named (split-join p [] h.parts)
  where
    blank : str_eq p "" ≡ false
    blank = elim (Bool-cases (str_eq p "")) [
      | inl e ↦ absurd (h.not_blank (ap (λ t. t ∷ []) ((str_eq_iff p "").0 e)))
      | inr e ↦ e
    ]
paths_same (p ∷ q ∷ ps) h =
    let named : str_eq (join_rest "," p (q ∷ ps)) "" ≡ false = blank in
    rw named (split-join p (q ∷ ps) h.parts)
  where
    blank : str_eq (join_rest "," p (q ∷ ps)) "" ≡ false
    blank = elim (Bool-cases (str_eq (join_rest "," p (q ∷ ps)) "")) [
      | inl e ↦ absurd (join-ne-empty p q ps ((str_eq_iff (join_rest "," p (q ∷ ps)) "").0 e))
      | inr e ↦ e
    ]

-- The numbers of the fields that can be set by key are ints, and the search paths can be listed.
pub record IsPrintable {F : Type 0} (c : Config F) : Type 0 where
  pub idle_timeout_mins : IsInt c.daemon.idle_timeout_mins
  pub suggest_timeout_ms : IsInt c.client.suggest_timeout_ms
  pub connect_timeout_ms : IsInt c.client.connect_timeout_ms
  pub cache_ttl_hours : IsInt c.ai.cache_ttl_hours
  pub max_history : IsInt c.suggestions.max_history
  pub max_ai : IsInt c.suggestions.max_ai
  pub picker_page_size : IsInt c.history.picker_page_size
  pub up_arrow_double_window_ms : IsInt c.history.up_arrow_double_window_ms
  pub retain_runs : IsInt c.workflows.retain_runs
  pub search_paths : ArePaths c.workflows.search_paths

module _ {F : Type 0} (fl : Floats F) (c : Config F) (v : IsValid fl c) (ints : IsPrintable c) where
  lift :
      {S : Type 0} (put : S → Config F) (s : S) (set : String → Result S) (r : Result String)
      → put s ≡ c
      → Ensures (λ t. set t ≡ ok s) r
      → Ensures (λ t. (set t >>= λ x. ok (put x)) ≡ ok c) r
  lift put s set (ok t) e h = rw h (ap ok e)
  lift put s set (err x) e h = tt

  set_in_same :
      (section field : String)
      → Ensures (λ t. set_in c section field t ≡ ok c) (get_in c section field)
  unfolding set_in get_in
  set_in_same section field =
      let daemon =
        lift (λ x. record c { daemon = x }) c.daemon (set_daemon_field c.daemon field)
          (get_daemon_field c.daemon field) refl
          (daemon_same c.daemon field v.daemon ints.idle_timeout_mins) in
      let client =
        lift (λ x. record c { client = x }) c.client (set_client_field c.client field)
          (get_client_field c.client field) refl
          (client_same c.client field v.client ints.suggest_timeout_ms ints.connect_timeout_ms) in
      let ai =
        lift (λ x. record c { ai = x }) c.ai (set_ai_field c.ai field) (get_ai_field c.ai field)
          refl (ai_same c.ai field v.ai ints.cache_ttl_hours) in
      let suggestions =
        lift (λ x. record c { suggestions = x }) c.suggestions
          (set_suggestions_field c.suggestions field) (get_suggestions_field c.suggestions field)
          refl
          (suggestions_same fl c.suggestions field v.suggestions ints.max_history ints.max_ai) in
      let privacy =
        lift (λ x. record c { privacy = x }) c.privacy (set_privacy_field c.privacy field)
          (get_privacy_field c.privacy field) refl (privacy_same c.privacy field) in
      let history =
        lift (λ x. record c { history = x }) c.history (set_history_field c.history field)
          (get_history_field c.history field) refl
          (history_same c.history field v.history ints.picker_page_size
            ints.up_arrow_double_window_ms) in
      let workflows =
        lift (λ x. record c { workflows = x }) c.workflows (set_workflows_field c.workflows field)
          (get_workflows_field c.workflows field) refl
          (workflows_same c.workflows field v.workflows ints.retain_runs
            (paths_same c.workflows.search_paths ints.search_paths)) in
      elim (Bool-cases (str_eq section "daemon")) [
        | inl e ↦ rw e daemon
        | inr n0 ↦ elim (Bool-cases (str_eq section "client")) [
          | inl e ↦ rw (n0, e) client
          | inr n1 ↦ elim (Bool-cases (str_eq section "ai")) [
            | inl e ↦ rw (n0, n1, e) ai
            | inr n2 ↦ elim (Bool-cases (str_eq section "suggestions")) [
              | inl e ↦ rw (n0, n1, n2, e) suggestions
              | inr n3 ↦ elim (Bool-cases (str_eq section "privacy")) [
                | inl e ↦ rw (n0, n1, n2, n3, e) privacy
                | inr n4 ↦ elim (Bool-cases (str_eq section "history")) [
                  | inl e ↦ rw (n0, n1, n2, n3, n4, e) history
                  | inr n5 ↦ elim (Bool-cases (str_eq section "workflows")) [
                    | inl e ↦ rw (n0, n1, n2, n3, n4, n5, e) workflows
                    | inr n6 ↦ rw (n0, n1, n2, n3, n4, n5, n6) tt
                  ]
                ]
              ]
            ]
          ]
        ]
      ]

  set_parts_same :
      (parts : List String) → Ensures (λ t. set_parts c parts t ≡ ok c) (get_parts c parts)
  set_parts_same [] = tt
  set_parts_same (a ∷ []) = tt
  set_parts_same (a ∷ b ∷ []) = set_in_same a b
  set_parts_same (a ∷ b ∷ d ∷ rest) = tt

-- In a valid configuration whose numbers are ints and whose search paths can be listed, setting a
-- key to the text that `Get` returns for it changes nothing.
pub set-get :
    {F : Type 0} (fl : Floats F) (c : Config F) (key value : String)
    → IsValid fl c
    → IsPrintable c
    → get c key ≡ ok value
    → set c key value ≡ ok c
unfolding get set
set-get fl c key value v ints h =
    Ensures-ok (λ t. set_parts c (split 46 key) t ≡ ok c) (get_parts c (split 46 key)) value
      (set_parts_same fl c v ints (split 46 key)) h
