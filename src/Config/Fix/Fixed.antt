-- ===== src/Config/Fix/Fixed.antt =====
-- What `ValidateAndFix` repairs: its result passes all its own tests.
use clai.Common.{
  ℕ, Bool, true, false, not, String, ℤ, pos, negsuc, ◌≡◌, refl, arith, Bool-cases, inl, inr, ◌≤◌,
}
use clai.Config.Floats.{Floats, HasOrder}
use clai.Config.Types.{SuggestionsWeights, SuggestionsConfig}
use clai.Config.Checks.{
  is_negative, is_below, is_above, clamp, is_valid_incognito_mode, is_valid_shim_mode,
  is_valid_scorer_version, is_valid_fts_tokenizer, is_valid_suggestions_picker_view,
}
use clai.Config.Fix.{
  or_default, is_more, defaults, zero_weight, one_weight, clamp_weight, scalar_fields, eta_is_bad,
  steps_are_bad, validate_min_one_int_fields, validate_weight_fields, validate_scalar_fields,
  validate_enum_fields, validate_and_fix,
}

-- From `low` to `high`.
pub record IsIn (low high : ℕ) (v : ℤ) : Type 0 where
  pub not_below : is_below v low ≡ false
  pub not_above : is_above v high ≡ false

pub clamp-IsIn : (low high : ℕ) (v : ℤ) → low ≤ high → IsIn low high (clamp low high v)
unfolding clamp
clamp-IsIn low high (pos n) h = ground arith
clamp-IsIn low high (negsuc n) h = ground arith

pub IsIn-clamp : (low high : ℕ) (v : ℤ) → IsIn low high v → clamp low high v ≡ v
unfolding clamp
IsIn-clamp low high v h = let a = h.not_below in let b = h.not_above in rw (clamp, a, b) refl

-- A default that passes a test leaves nothing that fails it.
or_default_passes {ℓ} :
    {A : Type ℓ} (bad : A → Bool) (d v : A) → bad d ≡ false → bad (or_default (bad v) d v) ≡ false
or_default_passes bad d v h = elim (Bool-cases (bad v)) [ inl e ↦ rw e h | inr e ↦ rw e e ]

or_default_allowed :
    (test : String → Bool) (d v : String)
    → test d ≡ true
    → test (or_default (not (test v)) d v) ≡ true
or_default_allowed test d v h = elim (Bool-cases (test v)) [ inl e ↦ rw e e | inr e ↦ rw e h ]

pub or_default_good {ℓ} : {A : Type ℓ} (d v : A) (b : Bool) → b ≡ false → or_default b d v ≡ v
or_default_good d v b h = rw h refl

module _ {F : Type 0} (fl : Floats F) where
  pub record IsWeight (v : F) : Type 0 where
    pub not_below : fl.lt v (zero_weight fl) ≡ false
    pub not_above : fl.lt (one_weight fl) v ≡ false

  pub record AreWeights (w : SuggestionsWeights F) : Type 0 where
    pub transition : IsWeight w.transition
    pub frequency : IsWeight w.frequency
    pub success : IsWeight w.success
    pub prefix : IsWeight w.prefix
    pub affinity : IsWeight w.affinity
    pub task : IsWeight w.task
    pub feedback : IsWeight w.feedback
    pub risk_penalty : IsWeight w.risk_penalty
    pub project_type_affinity : IsWeight w.project_type_affinity
    pub failure_recovery : IsWeight w.failure_recovery

  -- Settings that pass all tests.
  pub record IsFixed (s : SuggestionsConfig F) : Type 0 where
    pub hard_timeout_ms : is_below s.hard_timeout_ms 1 ≡ false
    pub hook_connect_timeout_ms : is_below s.hook_connect_timeout_ms 1 ≡ false
    pub hook_write_timeout_ms : is_below s.hook_write_timeout_ms 1 ≡ false
    pub ingest_sync_wait_ms : is_below s.ingest_sync_wait_ms 1 ≡ false
    pub cache_ttl_ms : is_below s.cache_ttl_ms 1 ≡ false
    pub max_results : is_below s.max_results 1 ≡ false
    pub ingest_queue_max_events : is_below s.ingest_queue_max_events 1 ≡ false
    pub burst_events_threshold : is_below s.burst_events_threshold 1 ≡ false
    pub cmd_raw_max_bytes : is_below s.cmd_raw_max_bytes 1 ≡ false
    pub ingest_queue_max_bytes : is_below s.ingest_queue_max_bytes 1 ≡ false
    pub cache_memory_budget_mb : is_below s.cache_memory_budget_mb 1 ≡ false
    pub online_learning_min_samples : is_below s.online_learning_min_samples 1 ≡ false
    pub weights : AreWeights s.weights
    pub retention_days : is_negative s.retention_days ≡ false
    pub retention_max_events : is_below s.retention_max_events 1000 ≡ false
    pub online_learning_eta : eta_is_bad fl s.online_learning_eta ≡ false
    pub workflow_steps : is_more s.workflow_min_steps s.workflow_max_steps ≡ false
    pub pipeline_max_segments : IsIn 2 32 s.pipeline_max_segments
    pub directory_scope_max_depth : IsIn 1 10 s.directory_scope_max_depth
    pub incognito_mode : is_valid_incognito_mode s.incognito_mode ≡ true
    pub shim_mode : is_valid_shim_mode s.shim_mode ≡ true
    pub scorer_version : is_valid_scorer_version s.scorer_version ≡ true
    pub search_fts_tokenizer : is_valid_fts_tokenizer s.search_fts_tokenizer ≡ true
    pub picker_view : is_valid_suggestions_picker_view s.picker_view ≡ true

  module _ (order : HasOrder fl) where
    clamp_weight-IsWeight : (v : F) → IsWeight (clamp_weight fl v)
    clamp_weight-IsWeight v =
        let zz = order.zero_zero in
        let oz = order.one_zero in
        let oo = order.one_one in
        elim (Bool-cases (fl.lt v (zero_weight fl))) [
          | inl e ↦ rw (e, oz) (record { not_below = zz; not_above = oz })
          | inr e ↦ rw e (elim (Bool-cases (fl.lt (one_weight fl) v)) [
            | inl f ↦ rw f (record { not_below = oz; not_above = oo })
            | inr f ↦ rw f (record { not_below = e; not_above = f })
          ])
        ]

    eta-good :
        (v : F)
        → eta_is_bad fl (or_default (eta_is_bad fl v) (defaults fl).online_learning_eta v) ≡ false
    eta-good v = elim (Bool-cases (eta_is_bad fl v)) [
      | inl e ↦ rw (e, order.eta_zero, order.one_eta) refl
      | inr e ↦ rw e e
    ]

    steps_good :
        (s : SuggestionsConfig F)
        → is_more (scalar_fields fl s).workflow_min_steps (scalar_fields fl s).workflow_max_steps
          ≡ false
    steps_good s = elim (Bool-cases (steps_are_bad fl s)) [ inl e ↦ rw e refl | inr e ↦ rw e e ]

    -- What `ValidateAndFix` leaves passes all its tests.
    pub validate_and_fix-IsFixed : (s : SuggestionsConfig F) → IsFixed (validate_and_fix fl s).0
    unfolding validate_and_fix validate_min_one_int_fields validate_weight_fields
        validate_scalar_fields validate_enum_fields is_valid_incognito_mode is_valid_shim_mode
        is_valid_scorer_version is_valid_fts_tokenizer is_valid_suggestions_picker_view
    validate_and_fix-IsFixed s = record {
      hard_timeout_ms =
          or_default_passes (λ v. is_below v 1) (defaults fl).hard_timeout_ms s.hard_timeout_ms
            refl;
      hook_connect_timeout_ms =
          or_default_passes (λ v. is_below v 1) (defaults fl).hook_connect_timeout_ms
            s.hook_connect_timeout_ms refl;
      hook_write_timeout_ms =
          or_default_passes (λ v. is_below v 1) (defaults fl).hook_write_timeout_ms
            s.hook_write_timeout_ms refl;
      ingest_sync_wait_ms =
          or_default_passes (λ v. is_below v 1) (defaults fl).ingest_sync_wait_ms
            s.ingest_sync_wait_ms refl;
      cache_ttl_ms =
          or_default_passes (λ v. is_below v 1) (defaults fl).cache_ttl_ms s.cache_ttl_ms refl;
      max_results =
          or_default_passes (λ v. is_below v 1) (defaults fl).max_results s.max_results refl;
      ingest_queue_max_events =
          or_default_passes (λ v. is_below v 1) (defaults fl).ingest_queue_max_events
            s.ingest_queue_max_events refl;
      burst_events_threshold =
          or_default_passes (λ v. is_below v 1) (defaults fl).burst_events_threshold
            s.burst_events_threshold refl;
      cmd_raw_max_bytes =
          or_default_passes (λ v. is_below v 1) (defaults fl).cmd_raw_max_bytes s.cmd_raw_max_bytes
            refl;
      ingest_queue_max_bytes =
          or_default_passes (λ v. is_below v 1) (defaults fl).ingest_queue_max_bytes
            s.ingest_queue_max_bytes refl;
      cache_memory_budget_mb =
          or_default_passes (λ v. is_below v 1) (defaults fl).cache_memory_budget_mb
            s.cache_memory_budget_mb refl;
      online_learning_min_samples =
          or_default_passes (λ v. is_below v 1) (defaults fl).online_learning_min_samples
            s.online_learning_min_samples refl;
      weights = record {
        transition = clamp_weight-IsWeight s.weights.transition;
        frequency = clamp_weight-IsWeight s.weights.frequency;
        success = clamp_weight-IsWeight s.weights.success;
        prefix = clamp_weight-IsWeight s.weights.prefix;
        affinity = clamp_weight-IsWeight s.weights.affinity;
        task = clamp_weight-IsWeight s.weights.task;
        feedback = clamp_weight-IsWeight s.weights.feedback;
        risk_penalty = clamp_weight-IsWeight s.weights.risk_penalty;
        project_type_affinity = clamp_weight-IsWeight s.weights.project_type_affinity;
        failure_recovery = clamp_weight-IsWeight s.weights.failure_recovery;
      };
      retention_days =
          or_default_passes is_negative (defaults fl).retention_days s.retention_days refl;
      retention_max_events =
          or_default_passes (λ v. is_below v 1000) (pos 1000) s.retention_max_events refl;
      online_learning_eta = eta-good s.online_learning_eta;
      workflow_steps = steps_good s;
      pipeline_max_segments = clamp-IsIn 2 32 s.pipeline_max_segments (omega arith);
      directory_scope_max_depth = clamp-IsIn 1 10 s.directory_scope_max_depth (omega arith);
      incognito_mode =
          or_default_allowed is_valid_incognito_mode (defaults fl).incognito_mode s.incognito_mode
            refl;
      shim_mode = or_default_allowed is_valid_shim_mode (defaults fl).shim_mode s.shim_mode refl;
      scorer_version =
          or_default_allowed is_valid_scorer_version (defaults fl).scorer_version s.scorer_version
            refl;
      search_fts_tokenizer =
          or_default_allowed is_valid_fts_tokenizer (defaults fl).search_fts_tokenizer
            s.search_fts_tokenizer refl;
      picker_view =
          or_default_allowed is_valid_suggestions_picker_view (defaults fl).picker_view
            s.picker_view refl;
    }
