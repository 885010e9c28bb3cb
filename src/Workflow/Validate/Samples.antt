-- ===== src/Workflow/Validate/Samples.antt =====
-- The theorems on the validation of workflows at concrete inputs.
use clai.Common.{Bool, false, List, [], ◌∷◌, All, String, Option, none, some, ◌≡◌, ◌↔◌, refl}
use clai.Workflow.Types.{StepDef, JobDef, WorkflowDef}
use clai.Workflow.Validate.{
  ValidationError, validate_steps, validate_job, validate_needs, validate_workflow,
  validate_secrets, validate_requires, validate_jobs, validate_matrix_include_keys, check_matrix,
  check_entries, check_include, same_key_set, check_needs,
}
use clai.Workflow.Validate.Whole.{HasMaps}
use clai.Workflow.Validate.WellFormed.{IsWellFormed, validate_workflow-nil}

abbrev plain_step : String → StepDef
plain_step id = record {
  env = [];
  id = id;
  name = "Build";
  run = "make";
  shell = "bash";
  analysis_prompt = "";
  risk_level = "low";
  analyze = false;
}

abbrev no_expression : String → Bool
no_expression s = false

abbrev two_steps : List (Option StepDef)
two_steps = some (plain_step "a") ∷ some (plain_step "b") ∷ []

abbrev built : Option JobDef
built = some (record {
  name = "Build";
  needs = [];
  env = [];
  strategy = some (record {
    matrix = some (record {
      include =
          (("os", "linux") ∷ ("go", "1.24") ∷ []) ∷ (("go", "1.25") ∷ ("os", "darwin") ∷ []) ∷ [];
      exclude = [];
    });
    fail_fast = none;
  });
  steps = two_steps;
})

abbrev release : WorkflowDef
release = record {
  env = [];
  jobs = ("build", built) ∷ [];
  name = "Release";
  description = "";
  secrets = record { name = "TOKEN"; from = "env"; path = ""; prompt = "" } ∷ [];
  requires = "git" ∷ [];
}

-- The names of a workflow with one job are sorted.
abbrev same : List String → List String
same xs = xs

release_maps : All (λ (e : String × Option JobDef). HasMaps no_expression e.1) release.jobs
release_maps = (((refl, (refl, tt)), ((refl, (refl, tt)), tt)), tt)

validate_workflow-nil_example :
    (errors : List ValidationError) × (validate_workflow same no_expression (some release)
      ≡ some errors)
    × ((errors ≡ []) ↔ IsWellFormed no_expression release)
validate_workflow-nil_example =
    validate_workflow-nil same no_expression release (λ xs x i. i) release_maps

release_run : validate_workflow same no_expression (some release) ≡ some []
unfolding validate_workflow validate_secrets validate_requires validate_jobs validate_job
    validate_steps validate_matrix_include_keys check_matrix check_entries check_include
    same_key_set validate_needs check_needs
release_run = refl
