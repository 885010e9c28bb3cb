-- ===== src/Workflow/Validate.antt =====
-- internal/workflow/validate.go: the checks of a parsed workflow. An error keeps the parts that the code prints: its field as the segments of the path,
-- its message as a constructor with what is quoted in it. A map is walked in the order of its
-- entries. `containsExpression` runs a regular expression of Go's library and is a parameter.
use clai.Common.{
  ℕ, suc, ◌+◌, leb, if◌then◌else◌, Bool, true, false, not, ◌&&◌, ◌||◌, List, [], ◌∷◌, ◌++◌, length,
  String, str_eq, Option, none, some, ◌==◌,
}
use clai.Common.StringMap.{StringMap, keys}
use clai.Workflow.Types.{
  WorkflowDef, SecretDef, JobDef, StrategyDef, MatrixDef, StepDef, one_of, valid_shell_values,
  valid_secret_sources, valid_risk_levels,
}
use mathlib.Core.Option
use clai.Workflow.Cycles.{Jobs, job_of, validate_dependency_cycles}
pub mod Steps
pub mod Needs
pub mod Matrix
pub mod Whole
pub mod WellFormed
mod Samples

pub data Segment : Type 0 where
  key : String → Segment
  index : ℕ → Segment

pub data Message : Type 0 where
  name_is_required at_least_one_job exactly_one_job secret_name_is_required : Message
  invalid_secret_source : String → Message
  requires_is_empty job_is_nil at_least_one_step : Message
  step_is_nil step_name_is_required run_is_required id_is_required : Message
  duplicate_id : String → Message
  invalid_risk_level : String → Message
  prompt_is_required : Message
  invalid_shell : String → Message
  dependency_is_empty : Message
  unknown_job : String → String → Message
  inconsistent_keys workflow_is_required : Message
  circular_dependency : List String → Message

abbrev pub Field : Type 0
Field = List Segment

pub record ValidationError : Type 0 where
  pub field : Field
  pub message : Message

-- `if bad { errs = append(errs, …) }`
abbrev pub fail_if : Bool → Field → Message → List ValidationError
fail_if true field message = record { field = field; message = message } ∷ []
fail_if false field message = []

abbrev pub under : Field → String → Field
under field name = field ++ key name ∷ []

abbrev pub nth : Field → ℕ → Field
nth field i = field ++ index i ∷ []

abbrev pub secret_errors : ℕ → SecretDef → List ValidationError
secret_errors i sec =
    let field = key "secrets" ∷ index i ∷ [] in
    fail_if (str_eq sec.name "") (under field "name") secret_name_is_required
    ++ fail_if (not (one_of valid_secret_sources sec.from)) (under field "from")
        (invalid_secret_source sec.from)

-- The loop over the secrets, from index `i`.
unfoldable pub validate_secrets : ℕ → List SecretDef → List ValidationError
validate_secrets i [] = []
validate_secrets i (sec ∷ secrets) = secret_errors i sec ++ validate_secrets (i + 1) secrets

-- The loop over the requirements, from index `i`.
unfoldable pub validate_requires : ℕ → List String → List ValidationError
validate_requires i [] = []
validate_requires i (req ∷ reqs) =
    fail_if (str_eq req "") (key "requires" ∷ index i ∷ []) requires_is_empty
    ++ validate_requires (i + 1) reqs

-- `keysSet`
abbrev pub keys_set {ℓ} : {V : Type ℓ} → StringMap V → List String
keys_set m = keys m

abbrev pub all_in : List String → List String → Bool
all_in [] b = true
all_in (k ∷ a) b = one_of b k && all_in a b

-- `sameKeySet`
unfoldable pub same_key_set : List String → List String → Bool
same_key_set a b = length a == length b && all_in a b

-- The loop over the entries after the first, from index `i`: the first mismatch ends it.
unfoldable pub check_include :
    String → List String → ℕ → List (StringMap String) → List ValidationError
unfolding same_key_set
check_include job_name baseline i [] = []
check_include job_name baseline i (entry ∷ entries) =
    let rest = check_include job_name baseline (i + 1) entries in
    if same_key_set baseline (keys_set entry)
    then rest
    else fail_if true
        (key "jobs" ∷ key job_name ∷ key "strategy" ∷ key "matrix" ∷ key "include" ∷ index i ∷ [])
        inconsistent_keys

-- The entries against the first one; no entry or a single one passes.
unfoldable pub check_entries : String → List (StringMap String) → List ValidationError
unfolding check_include
check_entries job_name [] = []
check_entries job_name (baseline ∷ entries) = check_include job_name (keys_set baseline) 1 entries

unfoldable pub check_matrix : String → Option MatrixDef → List ValidationError
unfolding check_entries
check_matrix job_name none = []
check_matrix job_name (some matrix) = check_entries job_name matrix.include

abbrev pub matrix_of : Option StrategyDef → Option MatrixDef
matrix_of none = none
matrix_of (some strategy) = strategy.matrix

unfoldable pub validate_matrix_include_keys : String → JobDef → List ValidationError
unfolding check_matrix
validate_matrix_include_keys job_name job = check_matrix job_name (matrix_of job.strategy)

abbrev pub has_steps : List (Option StepDef) → Bool
has_steps [] = false
has_steps (_ ∷ _) = true

-- The checks of a step's id.
abbrev pub id_errors : Field → String → List String → List ValidationError
id_errors field id seen =
    if str_eq id ""
    then fail_if true field id_is_required
    else fail_if (one_of seen id) field (duplicate_id id)

module _ (contains_expression : String → Bool) where
  -- What `validateStep` says of a step that is not nil, with the ids seen before it.
  abbrev pub step_errors : Field → StepDef → List String → List ValidationError
  step_errors field step seen =
      fail_if (str_eq step.name "") (under field "name") step_name_is_required
      ++ fail_if (str_eq step.run "") (under field "run") run_is_required
      ++ id_errors (under field "id") step.id seen
      ++ fail_if
          (not (one_of valid_risk_levels step.risk_level)
            && not (contains_expression step.risk_level))
          (under field "risk_level") (invalid_risk_level step.risk_level)
      ++ fail_if (step.analyze && str_eq step.analysis_prompt "") (under field "analysis_prompt")
          prompt_is_required
      ++ fail_if (not (one_of valid_shell_values step.shell)) (under field "shell")
          (invalid_shell step.shell)

  -- `validateStep`, with the ids seen after it.
  unfoldable pub validate_step :
      Field → Option StepDef → List String → List ValidationError × List String
  validate_step field none seen = (fail_if true field step_is_nil, seen)
  validate_step field (some step) seen =
      (step_errors field step seen, if str_eq step.id "" then seen else step.id ∷ seen)

  -- The loop over the steps of a job, from index `i`.
  unfoldable pub validate_steps :
      Field → ℕ → List (Option StepDef) → List String → List ValidationError
  unfolding validate_step
  validate_steps field i [] seen = []
  validate_steps field i (step ∷ steps) seen =
      let (errs, seen') = validate_step (nth (under field "steps") i) step seen in
      errs ++ validate_steps field (i + 1) steps seen'

  unfoldable pub validate_job : Field → String → Option JobDef → List ValidationError
  unfolding validate_steps validate_matrix_include_keys
  validate_job field job_name none = fail_if true field job_is_nil
  validate_job field job_name (some job) =
      fail_if (not (has_steps job.steps)) (under field "steps") at_least_one_step
      ++ validate_steps field 0 job.steps []
      ++ validate_matrix_include_keys job_name job

  -- The loop over the jobs.
  unfoldable pub validate_jobs : Jobs → List ValidationError
  unfolding validate_job
  validate_jobs [] = []
  validate_jobs ((name, job) ∷ jobs) =
      validate_job (key "jobs" ∷ key name ∷ []) name job ++ validate_jobs jobs

abbrev pub is_missing : Option JobDef → Bool
is_missing none = true
is_missing (some _) = false

-- The loop over the dependencies of one job, from index `i`.
unfoldable pub check_needs : Jobs → String → ℕ → List String → List ValidationError
check_needs jobs name i [] = []
check_needs jobs name i (dep ∷ deps) =
    let rest = check_needs jobs name (i + 1) deps in
    let field = key "jobs" ∷ key name ∷ key "needs" ∷ index i ∷ [] in
    if str_eq dep ""
    then fail_if true field dependency_is_empty ++ rest
    else fail_if (is_missing (job_of jobs dep)) field (unknown_job name dep) ++ rest

-- `validateNeeds`: `all` is the whole map, the other argument what is left to walk.
unfoldable pub validate_needs : Jobs → Jobs → List ValidationError
unfolding check_needs
validate_needs all [] = []
validate_needs all ((name, none) ∷ jobs) = validate_needs all jobs
validate_needs all ((name, some job) ∷ jobs) =
    check_needs all name 0 job.needs ++ validate_needs all jobs

-- The tests on the number of jobs.
abbrev pub count_errors : ℕ → List ValidationError
count_errors n =
    if n == 0
    then fail_if true (key "jobs" ∷ []) at_least_one_job
    else fail_if (leb 2 n) (key "jobs" ∷ []) exactly_one_job

abbrev pub cycle_errors : List (List String) → List ValidationError
cycle_errors [] = []
cycle_errors (path ∷ paths) =
    record { field = key "jobs" ∷ []; message = circular_dependency path } ∷ cycle_errors paths

-- `sort.Strings` is a parameter.
module _ (sort : List String → List String) (contains_expression : String → Bool) where
  -- The errors of a workflow, given those of the search for cycles.
  abbrev pub workflow_errors : WorkflowDef → List (List String) → List ValidationError
  workflow_errors wf cycles =
      fail_if (str_eq wf.name "") (key "name" ∷ []) name_is_required
      ++ count_errors (length wf.jobs)
      ++ validate_secrets 0 wf.secrets
      ++ validate_requires 0 wf.requires
      ++ validate_jobs contains_expression wf.jobs
      ++ validate_needs wf.jobs wf.jobs
      ++ cycle_errors cycles

  -- `ValidateWorkflow`; `none` if the search for cycles ran out of fuel.
  unfoldable pub validate_workflow : Option WorkflowDef → Option (List ValidationError)
  unfolding validate_dependency_cycles
  validate_workflow none = some (fail_if true (key "workflow" ∷ []) workflow_is_required)
  validate_workflow (some wf) =
      Option.map (workflow_errors wf) (validate_dependency_cycles wf.jobs (sort (keys_set wf.jobs)))
