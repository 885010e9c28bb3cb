-- ===== src/Workflow/Validate/Whole.antt =====
-- When `ValidateWorkflow` finds nothing wrong in a workflow.
use clai.Common.{
  ℕ, ◌+◌, Bool, true, not, List, [], ◌∷◌, ◌++◌, All, String, str_eq, Option, none, some, ◌≡◌, ◌≢◌,
  ◌↔◌, arith,
}
use clai.Workflow.Types.{SecretDef, JobDef, one_of, valid_secret_sources}
use clai.Workflow.Validate.{
  Field, Message, fail_if, key, index, under, secret_errors, validate_secrets, validate_requires,
  has_steps, matrix_of, validate_steps, validate_matrix_include_keys, validate_job,
}
use clai.Workflow.Validate.Steps.{
  append_is_nil, nonempty-nil, valid-nil, IsRightStep, IsUnrepeated, step_ids, validate_steps-nil,
}
use clai.Workflow.Validate.Matrix.{IsMap, OfEntries, IsConsistent, validate_matrix_include_keys-nil}

pub record IsSecret (sec : SecretDef) : Type 0 where
  pub named : sec.name ≢ ""
  pub sourced : one_of valid_secret_sources sec.from ≡ true

secret_errors-nil : (i : ℕ) (sec : SecretDef) → (secret_errors i sec ≡ []) ↔ IsSecret sec
secret_errors-nil i sec =
    let field = key "secrets" ∷ index i ∷ [] in
    let name = nonempty-nil (under field "name") Message.secret_name_is_required sec.name in
    let source =
      valid-nil (under field "from") (Message.invalid_secret_source sec.from)
        (one_of valid_secret_sources sec.from) in
    let both = append_is_nil _ _ in
    (
      λ h. let p = both.0 h in record { named = name.0 p.0; sourced = source.0 p.1 },
      λ r. both.1 (name.1 r.named, source.1 r.sourced),
    )

pub validate_secrets-nil :
    (i : ℕ) (secrets : List SecretDef) → (validate_secrets i secrets ≡ []) ↔ All IsSecret secrets
unfolding validate_secrets
validate_secrets-nil i [] = ground arith
validate_secrets-nil i (sec ∷ secrets) =
    let here = secret_errors-nil i sec in
    let rest = validate_secrets-nil (i + 1) secrets in
    let both = append_is_nil (secret_errors i sec) (validate_secrets (i + 1) secrets) in
    (λ h. let p = both.0 h in (here.0 p.0, rest.0 p.1), λ h. both.1 (here.1 h.0, rest.1 h.1))

pub validate_requires-nil :
    (i : ℕ) (reqs : List String) → (validate_requires i reqs ≡ []) ↔ All (λ req. req ≢ "") reqs
unfolding validate_requires
validate_requires-nil i [] = ground arith
validate_requires-nil i (req ∷ reqs) =
    let here = nonempty-nil (key "requires" ∷ index i ∷ []) Message.requires_is_empty req in
    let rest = validate_requires-nil (i + 1) reqs in
    let both =
      append_is_nil
        (fail_if (str_eq req "") (key "requires" ∷ index i ∷ []) Message.requires_is_empty)
        (validate_requires (i + 1) reqs) in
    (λ h. let p = both.0 h in (here.0 p.0, rest.0 p.1), λ h. both.1 (here.1 h.0, rest.1 h.1))

module _ (contains_expression : String → Bool) where
  pub record IsJob (job : JobDef) : Type 0 where
    pub has_a_step : has_steps job.steps ≡ true
    pub steps : All (IsRightStep contains_expression) job.steps
    pub ids : IsUnrepeated (step_ids job.steps)
    pub matrix : OfEntries IsConsistent (matrix_of job.strategy)

  -- A job that is there and right.
  abbrev pub IsRightJob : Option JobDef → Type 0
  IsRightJob none = ⊥
  IsRightJob (some job) = IsJob job

  -- No key stands twice in an entry of its matrix.
  abbrev pub HasMaps : Option JobDef → Type 0
  HasMaps none = Unit
  HasMaps (some job) = OfEntries (All IsMap) (matrix_of job.strategy)

  -- The checks of a job report nothing exactly if it is there and has a step, all its steps are
  -- there and right, no two of them have the same id, and the entries of its matrix, in which no
  -- key stands twice, have the same keys.
  pub validate_job-nil :
      (field : Field) (name : String) (job : Option JobDef)
      → HasMaps job
      → (validate_job contains_expression field name job ≡ []) ↔ IsRightJob job
  unfolding validate_job
  validate_job-nil field name none k = ground arith
  validate_job-nil field name (some job) k =
      let some_step =
        valid-nil (under field "steps") Message.at_least_one_step (has_steps job.steps) in
      let steps = validate_steps-nil contains_expression field job.steps in
      let matrix = validate_matrix_include_keys-nil name job k in
      let first =
        append_is_nil
          (fail_if (not (has_steps job.steps)) (under field "steps") Message.at_least_one_step)
          (validate_steps contains_expression field 0 job.steps []) in
      let both =
        append_is_nil
          (fail_if (not (has_steps job.steps)) (under field "steps") Message.at_least_one_step
            ++ validate_steps contains_expression field 0 job.steps [])
          (validate_matrix_include_keys name job) in
      (
        λ h.
            let p = both.0 h in
            let q = first.0 p.0 in
            let s = steps.0 q.1 in
            record { has_a_step = some_step.0 q.0; steps = s.0; ids = s.1; matrix = matrix.0 p.1 },
        λ r.
            both.1
              (first.1 (some_step.1 r.has_a_step, steps.1 (r.steps, r.ids)), matrix.1 r.matrix),
      )
