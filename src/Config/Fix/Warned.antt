-- ===== src/Config/Fix/Warned.antt =====
-- internal/config/config.go: what the warnings of `ValidateAndFix` tell of the settings it was given.
use clai.Common.{ℕ, Bool, true, false, not, List, [], ◌∷◌, ◌++◌, String, ℤ, ◌≡◌, refl, ◌↔◌, ap}
use clai.Config.Floats.{Floats, HasOrder}
use clai.Config.Types.{SuggestionsWeights, SuggestionsConfig}
use clai.Config.Checks.{
  is_below, is_above, is_negative, is_valid_incognito_mode, is_valid_shim_mode,
  is_valid_scorer_version, is_valid_fts_tokenizer, is_valid_suggestions_picker_view,
}
use clai.Config.Fix.{
  Message, warn_if, zero_weight, weight_warning, weight_warnings, range_warning, min_one_warnings,
  scalar_warnings, enum_warnings, eta_is_bad, steps_are_bad, validate_min_one_int_fields,
  validate_weight_fields, validate_scalar_fields, validate_enum_fields, validate_and_fix,
}
use clai.Config.Fix.Unchanged.{IsFixed-validate_and_fix}
use clai.Config.Fix.Kept.{Keeps, validate_and_fix-Keeps}
use clai.Config.Fix.Fixed.{IsIn, IsWeight, AreWeights, IsFixed, validate_and_fix-IsFixed}

split_nil {ℓ} : {A : Type ℓ} (xs : List A) {ys : List A} → xs ++ ys ≡ [] → (xs ≡ []) × (ys ≡ [])
split_nil [] h = (refl, h)
split_nil (x ∷ xs) h = cc

warn_if-nil :
    {F : Type 0} (b : Bool) (field : String) (m : Message F) → warn_if b field m ≡ [] → b ≡ false
warn_if-nil true field m h = cc
warn_if-nil false field m h = refl

not-false : (b : Bool) → not b ≡ false → b ≡ true
not-false true h = refl
not-false false h = cc

module _ {F : Type 0} (fl : Floats F) where
  weight_warning-nil : (name : String) (v : F) → weight_warning fl name v ≡ [] → IsWeight fl v
  weight_warning-nil name v h =
      let (low, high) = split_nil (warn_if (fl.lt v (zero_weight fl)) _ _) h in
      let not_low = warn_if-nil (fl.lt v (zero_weight fl)) _ _ low in
      record { not_below = not_low; not_above = warn_if-nil _ _ _ (rw not_low at high) }

  weight_warnings-nil : (w : SuggestionsWeights F) → weight_warnings fl w ≡ [] → AreWeights fl w
  weight_warnings-nil w h =
      let (a, h1) = split_nil (weight_warning fl _ w.transition) h in
      let (b, h2) = split_nil (weight_warning fl _ w.frequency) h1 in
      let (c, h3) = split_nil (weight_warning fl _ w.success) h2 in
      let (d, h4) = split_nil (weight_warning fl _ w.prefix) h3 in
      let (e, h5) = split_nil (weight_warning fl _ w.affinity) h4 in
      let (f, h6) = split_nil (weight_warning fl _ w.task) h5 in
      let (g, h7) = split_nil (weight_warning fl _ w.feedback) h6 in
      let (k, h8) = split_nil (weight_warning fl _ w.risk_penalty) h7 in
      let (l, m) = split_nil (weight_warning fl _ w.project_type_affinity) h8 in
      record {
        transition = weight_warning-nil _ w.transition a;
        frequency = weight_warning-nil _ w.frequency b;
        success = weight_warning-nil _ w.success c;
        prefix = weight_warning-nil _ w.prefix d;
        affinity = weight_warning-nil _ w.affinity e;
        task = weight_warning-nil _ w.task f;
        feedback = weight_warning-nil _ w.feedback g;
        risk_penalty = weight_warning-nil _ w.risk_penalty k;
        project_type_affinity = weight_warning-nil _ w.project_type_affinity l;
        failure_recovery = weight_warning-nil _ w.failure_recovery m;
      }

  range_warning-nil :
      (name : String) (low high : ℕ) (v : ℤ)
      → range_warning fl name low high v ≡ []
      → IsIn low high v
  range_warning-nil name low high v h =
      let (a, b) = split_nil (warn_if (is_below v low) _ _) h in
      record {
        not_below = warn_if-nil (is_below v low) _ _ a;
        not_above = warn_if-nil (is_above v high) _ _ b;
      }

  module _ (s : SuggestionsConfig F) where
    min_one_warnings-nil :
        min_one_warnings fl s ≡ []
        → (is_below s.hard_timeout_ms 1 ≡ false)
          × (is_below s.hook_connect_timeout_ms 1 ≡ false)
          × (is_below s.hook_write_timeout_ms 1 ≡ false)
          × (is_below s.ingest_sync_wait_ms 1 ≡ false)
          × (is_below s.cache_ttl_ms 1 ≡ false)
          × (is_below s.max_results 1 ≡ false)
          × (is_below s.ingest_queue_max_events 1 ≡ false)
          × (is_below s.burst_events_threshold 1 ≡ false)
          × (is_below s.cmd_raw_max_bytes 1 ≡ false)
          × (is_below s.ingest_queue_max_bytes 1 ≡ false)
          × (is_below s.cache_memory_budget_mb 1 ≡ false)
          × (is_below s.online_learning_min_samples 1 ≡ false)
    min_one_warnings-nil h =
        let (w0, r0) = split_nil (warn_if (is_below s.hard_timeout_ms 1) _ _) h in
        let (w1, r1) = split_nil (warn_if (is_below s.hook_connect_timeout_ms 1) _ _) r0 in
        let (w2, r2) = split_nil (warn_if (is_below s.hook_write_timeout_ms 1) _ _) r1 in
        let (w3, r3) = split_nil (warn_if (is_below s.ingest_sync_wait_ms 1) _ _) r2 in
        let (w4, r4) = split_nil (warn_if (is_below s.cache_ttl_ms 1) _ _) r3 in
        let (w5, r5) = split_nil (warn_if (is_below s.max_results 1) _ _) r4 in
        let (w6, r6) = split_nil (warn_if (is_below s.ingest_queue_max_events 1) _ _) r5 in
        let (w7, r7) = split_nil (warn_if (is_below s.burst_events_threshold 1) _ _) r6 in
        let (w8, r8) = split_nil (warn_if (is_below s.cmd_raw_max_bytes 1) _ _) r7 in
        let (w9, r9) = split_nil (warn_if (is_below s.ingest_queue_max_bytes 1) _ _) r8 in
        let (w10, r10) = split_nil (warn_if (is_below s.cache_memory_budget_mb 1) _ _) r9 in
        (
          warn_if-nil (is_below s.hard_timeout_ms 1) _ _ w0,
          warn_if-nil (is_below s.hook_connect_timeout_ms 1) _ _ w1,
          warn_if-nil (is_below s.hook_write_timeout_ms 1) _ _ w2,
          warn_if-nil (is_below s.ingest_sync_wait_ms 1) _ _ w3,
          warn_if-nil (is_below s.cache_ttl_ms 1) _ _ w4,
          warn_if-nil (is_below s.max_results 1) _ _ w5,
          warn_if-nil (is_below s.ingest_queue_max_events 1) _ _ w6,
          warn_if-nil (is_below s.burst_events_threshold 1) _ _ w7,
          warn_if-nil (is_below s.cmd_raw_max_bytes 1) _ _ w8,
          warn_if-nil (is_below s.ingest_queue_max_bytes 1) _ _ w9,
          warn_if-nil (is_below s.cache_memory_budget_mb 1) _ _ w10,
          warn_if-nil (is_below s.online_learning_min_samples 1) _ _ r10,
        )

    scalar_warnings-nil :
        scalar_warnings fl s ≡ []
        → (is_negative s.retention_days ≡ false)
          × (is_below s.retention_max_events 1000 ≡ false)
          × (eta_is_bad fl s.online_learning_eta ≡ false)
          × (steps_are_bad fl s ≡ false)
          × IsIn 2 32 s.pipeline_max_segments
          × IsIn 1 10 s.directory_scope_max_depth
    scalar_warnings-nil h =
        let (w0, r0) = split_nil (warn_if (is_negative s.retention_days) _ _) h in
        let (w1, r1) = split_nil (warn_if (is_below s.retention_max_events 1000) _ _) r0 in
        let (w2, r2) = split_nil (warn_if (eta_is_bad fl s.online_learning_eta) _ _) r1 in
        let (w3, r3) = split_nil (warn_if (steps_are_bad fl s) _ _) r2 in
        let (w4, w5) = split_nil (range_warning fl _ 2 32 s.pipeline_max_segments) r3 in
        (
          warn_if-nil (is_negative s.retention_days) _ _ w0,
          warn_if-nil (is_below s.retention_max_events 1000) _ _ w1,
          warn_if-nil (eta_is_bad fl s.online_learning_eta) _ _ w2,
          warn_if-nil (steps_are_bad fl s) _ _ w3,
          range_warning-nil _ 2 32 s.pipeline_max_segments w4,
          range_warning-nil _ 1 10 s.directory_scope_max_depth w5,
        )

    enum_warnings-nil :
        enum_warnings fl s ≡ []
        → (is_valid_incognito_mode s.incognito_mode ≡ true)
          × (is_valid_shim_mode s.shim_mode ≡ true)
          × (is_valid_scorer_version s.scorer_version ≡ true)
          × (is_valid_fts_tokenizer s.search_fts_tokenizer ≡ true)
          × (is_valid_suggestions_picker_view s.picker_view ≡ true)
    enum_warnings-nil h =
        let (w0, r0) = split_nil (warn_if (not (is_valid_incognito_mode s.incognito_mode)) _ _) h in
        let (w1, r1) = split_nil (warn_if (not (is_valid_shim_mode s.shim_mode)) _ _) r0 in
        let (w2, r2) =
          split_nil (warn_if (not (is_valid_scorer_version s.scorer_version)) _ _) r1 in
        let (w3, r3) =
          split_nil (warn_if (not (is_valid_fts_tokenizer s.search_fts_tokenizer)) _ _) r2 in
        (
          not-false (is_valid_incognito_mode s.incognito_mode)
              (warn_if-nil (not (is_valid_incognito_mode s.incognito_mode)) _ _ w0),
          not-false (is_valid_shim_mode s.shim_mode)
              (warn_if-nil (not (is_valid_shim_mode s.shim_mode)) _ _ w1),
          not-false (is_valid_scorer_version s.scorer_version)
              (warn_if-nil (not (is_valid_scorer_version s.scorer_version)) _ _ w2),
          not-false (is_valid_fts_tokenizer s.search_fts_tokenizer)
              (warn_if-nil (not (is_valid_fts_tokenizer s.search_fts_tokenizer)) _ _ w3),
          not-false (is_valid_suggestions_picker_view s.picker_view)
              (warn_if-nil (not (is_valid_suggestions_picker_view s.picker_view)) _ _ r3),
        )

    -- Settings with nothing to warn of pass all tests.
    warnings_nil-IsFixed : (validate_and_fix fl s).1 ≡ [] → IsFixed fl s
    unfolding validate_and_fix validate_min_one_int_fields validate_weight_fields
        validate_scalar_fields validate_enum_fields
    warnings_nil-IsFixed h =
        let (first_three, last) =
          split_nil (min_one_warnings fl s ++ weight_warnings fl s.weights ++ scalar_warnings fl s)
            h in
        let (first_two, third) =
          split_nil (min_one_warnings fl s ++ weight_warnings fl s.weights) first_three in
        let (first, second) = split_nil (min_one_warnings fl s) first_two in
        let (a, b, c, d, e, f, g, k, l, m, n, o) = min_one_warnings-nil first in
        let (days, events, eta, steps, segments, depth) = scalar_warnings-nil third in
        let (incognito, shim, scorer, tokenizer, view) = enum_warnings-nil last in
        record {
          hard_timeout_ms = a;
          hook_connect_timeout_ms = b;
          hook_write_timeout_ms = c;
          ingest_sync_wait_ms = d;
          cache_ttl_ms = e;
          max_results = f;
          ingest_queue_max_events = g;
          burst_events_threshold = k;
          cmd_raw_max_bytes = l;
          ingest_queue_max_bytes = m;
          cache_memory_budget_mb = n;
          online_learning_min_samples = o;
          weights = weight_warnings-nil s.weights second;
          retention_days = days;
          retention_max_events = events;
          online_learning_eta = eta;
          workflow_steps = steps;
          pipeline_max_segments = segments;
          directory_scope_max_depth = depth;
          incognito_mode = incognito;
          shim_mode = shim;
          scorer_version = scorer;
          search_fts_tokenizer = tokenizer;
          picker_view = view;
        }

-- The settings that `ValidateAndFix` returns are all in their ranges. Each that was in its range
-- before, and each that has none, is left as it was. There is no warning exactly if all were in
-- their ranges before. A weight's range is what compares neither below 0 nor above 1, and the
-- learning rate's what compares neither as at most 0 nor above 1, so that what is not a number is
-- in both; the two workflow step counts have one range, the first at most the second.
pub validate_and_fix_lem :
    {F : Type 0} (fl : Floats F) (s : SuggestionsConfig F)
    → HasOrder fl
    → let (s', warnings) = validate_and_fix fl s in
      IsFixed fl s' × Keeps fl s s' × (warnings ≡ [] ↔ IsFixed fl s)
validate_and_fix_lem fl s order = (
  validate_and_fix-IsFixed fl order s,
  validate_and_fix-Keeps fl s,
  (warnings_nil-IsFixed fl s, λ good. ap (λ r. r.1) (IsFixed-validate_and_fix fl s good)),
)
