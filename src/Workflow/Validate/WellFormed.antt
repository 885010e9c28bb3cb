-- ===== src/Workflow/Validate/WellFormed.antt =====
-- The whole of `ValidateWorkflow`.
use clai.Common.{
  ℕ, Bool, List, [], ◌∷◌, ◌++◌, length, All, Option-cases, inl, inr, String, Option, none, some,
  ◌≡◌, ◌≢◌, ◌↔◌, ap, ◌∙◌, arith,
}
use mathlib.Core.Option
use clai.Common.StringMap.{lookup, lookup-keys}
use clai.Workflow.Types.{JobDef, WorkflowDef}
use clai.Workflow.Cycles.{Jobs, job_of, validate_dependency_cycles}
use clai.Workflow.Cycles.Edges.{Needs, In}
use clai.Workflow.Cycles.Fuel.{validate_dependency_cycles-ends}
use clai.Workflow.Cycles.Sound.{validate_dependency_cycles_iff}
use clai.Workflow.Validate.{
  ValidationError, Message, key, keys_set, validate_job, validate_jobs, count_errors, cycle_errors,
  workflow_errors, validate_workflow,
}
use clai.Workflow.Validate.Steps.{append_is_nil, nonempty-nil}
use clai.Workflow.Validate.Needs.{HasNeeds, validate_needs-nil}
use clai.Workflow.Validate.Whole.{
  IsSecret, validate_secrets-nil, validate_requires-nil, IsRightJob, HasMaps, validate_job-nil,
}

count_errors-nil : (n : ℕ) → (count_errors n ≡ []) ↔ (n ≡ 1)
count_errors-nil n = ground arith

cycle_errors-nil : (cycles : List (List String)) → (cycle_errors cycles ≡ []) ↔ (cycles ≡ [])
cycle_errors-nil [] = ground arith
cycle_errors-nil (path ∷ paths) = ground arith

nil₇ {ℓ} :
    {A : Type ℓ} (a b c d e f g : List A)
    → (a ++ b ++ c ++ d ++ e ++ f ++ g ≡ [])
      ↔ ((a ≡ []) × (b ≡ []) × (c ≡ []) × (d ≡ []) × (e ≡ []) × (f ≡ []) × (g ≡ []))
nil₇ a b c d e f g = ground (
  arith,
  append_is_nil (a ++ b ++ c ++ d ++ e ++ f) g,
  append_is_nil (a ++ b ++ c ++ d ++ e) f,
  append_is_nil (a ++ b ++ c ++ d) e,
  append_is_nil (a ++ b ++ c) d,
  append_is_nil (a ++ b) c,
  append_is_nil a b,
)

-- Every job's name is a key.
job_of-In :
    (jobs : Jobs) (j : String) (def : JobDef) → job_of jobs j ≡ some def → In j (keys_set jobs)
unfolding job_of
job_of-In jobs j def e = elim (Option-cases (lookup j jobs)) [
  | inl gone ↦ absurd (absent gone)
  | inr (job, there) ↦ lookup-keys j job jobs there
]
  where
    absent : lookup j jobs ≡ none → ⊥
    absent gone = cc

module _ (contains_expression : String → Bool) where
  validate_jobs-nil :
      (jobs : Jobs)
      → All (λ (e : String × Option JobDef). HasMaps contains_expression e.1) jobs
      → (validate_jobs contains_expression jobs ≡ [])
        ↔ All (λ (e : String × Option JobDef). IsRightJob contains_expression e.1) jobs
  unfolding validate_jobs
  validate_jobs-nil [] k = ground arith
  validate_jobs-nil ((name, job) ∷ jobs) k =
      let field = key "jobs" ∷ key name ∷ [] in
      let here = validate_job-nil contains_expression field name job k.0 in
      let rest = validate_jobs-nil jobs k.1 in
      let both =
        append_is_nil (validate_job contains_expression field name job)
          (validate_jobs contains_expression jobs) in
      (λ h. let p = both.0 h in (here.0 p.0, rest.0 p.1), λ h. both.1 (here.1 h.0, rest.1 h.1))

  -- A workflow with one job, right in all its parts.
  pub record IsWellFormed (wf : WorkflowDef) : Type 0 where
    pub named : wf.name ≢ ""
    pub one_job : length wf.jobs ≡ 1
    pub secrets : All IsSecret wf.secrets
    pub requires : All (λ req. req ≢ "") wf.requires
    pub jobs : All (λ (e : String × Option JobDef). IsRightJob contains_expression e.1) wf.jobs
    pub needs : All (λ (e : String × Option JobDef). HasNeeds wf.jobs e.1) wf.jobs
    pub acyclic : (a : String) → Needs wf.jobs a a → ⊥

  module _ (sort : List String → List String)
      (sort_keeps : (xs : List String) (x : String) → In x xs → In x (sort xs)) (wf : WorkflowDef)
      (maps : All (λ (e : String × Option JobDef). HasMaps contains_expression e.1) wf.jobs) where
    names : List String
    names = sort (keys_set wf.jobs)

    complete : (j : String) (def : JobDef) → job_of wf.jobs j ≡ some def → In j names
    unfolding names
    complete j def e = sort_keeps (keys_set wf.jobs) j (job_of-In wf.jobs j def e)

    workflow_errors-nil :
        (paths : List (List String))
        → validate_dependency_cycles wf.jobs names ≡ some paths
        → (workflow_errors sort contains_expression wf paths ≡ []) ↔ IsWellFormed wf
    workflow_errors-nil paths e =
        let name = nonempty-nil (key "name" ∷ []) Message.name_is_required wf.name in
        let count = count_errors-nil (length wf.jobs) in
        let secrets = validate_secrets-nil 0 wf.secrets in
        let requires = validate_requires-nil 0 wf.requires in
        let jobs = validate_jobs-nil wf.jobs maps in
        let needs = validate_needs-nil wf.jobs wf.jobs in
        let cycles = cycle_errors-nil paths in
        let search = validate_dependency_cycles_iff wf.jobs names complete in
        let parts = nil₇ _ _ _ _ _ _ _ in
        (
          λ h.
              let p = parts.0 h in
              record {
                named = name.0 p.0;
                one_job = count.0 p.1;
                secrets = secrets.0 p.2;
                requires = requires.0 p.3;
                jobs = jobs.0 p.4;
                needs = needs.0 p.5;
                acyclic = search.0 (e ∙ ap some (cycles.0 p.6));
              },
          λ r. parts.1 (
            name.1 r.named,
            count.1 r.one_job,
            secrets.1 r.secrets,
            requires.1 r.requires,
            jobs.1 r.jobs,
            needs.1 r.needs,
            cycles.1 (let f = search.1 r.acyclic in cc),
          ),
        )

-- If the sort keeps what it is given and no key stands twice in a matrix entry, `ValidateWorkflow`
-- ends, and reports nothing exactly if the workflow has a name and one job, its secrets have names
-- and known sources, its requirements are not empty, the job and its steps are right, and no job
-- needs one that is not there or, directly or not, itself.
pub validate_workflow-nil :
    (sort : List String → List String) (contains_expression : String → Bool) (wf : WorkflowDef)
    → ((xs : List String) (x : String) → In x xs → In x (sort xs))
    → All (λ (e : String × Option JobDef). HasMaps contains_expression e.1) wf.jobs
    → (errors : List ValidationError) × (validate_workflow sort contains_expression (some wf)
        ≡ some errors)
      × ((errors ≡ []) ↔ IsWellFormed contains_expression wf)
unfolding validate_workflow names
validate_workflow-nil sort contains_expression wf sort_keeps maps =
    let all = sort (keys_set wf.jobs) in
    let found = complete contains_expression sort sort_keeps wf maps in
    let (paths, e) = validate_dependency_cycles-ends wf.jobs all found in
    (
      workflow_errors sort contains_expression wf paths,
      ap (Option.map (workflow_errors sort contains_expression wf)) e,
      workflow_errors-nil contains_expression sort sort_keeps wf maps paths e,
    )
