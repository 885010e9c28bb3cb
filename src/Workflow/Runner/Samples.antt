-- ===== src/Workflow/Runner/Samples.antt =====
-- The theorems on internal/workflow/runner.go at concrete inputs, and tests of it and of the files
-- that it uses.
use clai.Common.{
  if◌then◌else◌, false, List, [], ◌∷◌, map, String, str_eq, Option, none, some, pos, ◌≡◌, ◌↔◌, refl,
  All, codes,
}
use clai.Common.StringMap.{lookup, insert}
use clai.Workflow.Types.{StepDef, SecretDef}
use clai.Workflow.Expression.{
  ExpressionContext, ok, err, unresolved_env, unmatched_delimiter, resolve_expressions, contains,
  trim_left, trim_right, cut, body, pieces, resolve_env, resolve_matrix, resolve_steps,
  resolve_expr, replacement, replace_all, without_matches,
}
use clai.Workflow.Secrets.{
  new_secret_masker, entries, place, sorted, replace_from, mask_values, mask,
}
use clai.Workflow.Output.{
  scanned, missing, outputs, is_valid_key, add_line, add_lines, parse_output_file,
}
use clai.Workflow.Runner.{
  Host, HostError, RunnerConfig, Call, process_started, step_passed, step_failed, step_skipped,
  run_passed, overlay, build_expr_env, os_layer, merged_env, resolve_step_env,
}
use clai.Workflow.Runner.Execute.{execute_step, run_step, visit, run_all, run}
use clai.Workflow.Runner.Sequence.{HaltsOnce, IsPassed, run-HaltsOnce, run-IsPassed}
use clai.Workflow.Runner.Env.{first_of, layers, merged_env-first_of}

abbrev context : ExpressionContext
context = record {
  env = ("WHO", "me") ∷ ("RAW", "${{ matrix.os }}") ∷ [];
  matrix = ("os", "linux") ∷ [];
  steps = ("build", ("tag", "v1") ∷ []) ∷ [];
}

resolved :
    resolve_expressions "echo ${{ env.WHO }} ${{steps.build.outputs.tag}}!" (some context)
    ≡ ok "echo me v1!"
unfolding resolve_expressions contains trim_left trim_right cut body pieces resolve_env
    resolve_steps resolve_expr replacement replace_all without_matches lookup
resolved = refl

-- What a value brings in is not resolved again.
resolved_once : resolve_expressions "${{ env.RAW }}" (some context) ≡ ok "${{ matrix.os }}"
unfolding resolve_expressions contains trim_left trim_right cut body pieces resolve_env resolve_expr
    replacement replace_all without_matches lookup
resolved_once = refl

unresolved : resolve_expressions "${{ env.NOT }}" (some context) ≡ err (unresolved_env "NOT")
unfolding resolve_expressions contains trim_left trim_right cut body pieces resolve_env resolve_expr
    replacement replace_all without_matches lookup
unresolved = refl

unmatched :
    resolve_expressions "a ${{ env.WHO" (some context) ≡ err (unmatched_delimiter "a ${{ env.WHO")
unfolding resolve_expressions contains body pieces replace_all without_matches
unmatched = refl

abbrev secret : String → SecretDef
secret name = record { name = name; from = "env"; path = ""; prompt = "" }

-- The longer secret is masked before the shorter one that it starts with.
masked :
    mask (new_secret_masker codes (secret "ab" ∷ secret "abc" ∷ [])) (codes "xabcab")
    ≡ codes "x******"
unfolding new_secret_masker entries place sorted replace_from mask_values mask
masked = refl

parsed :
    parse_output_file {E = HostError} (scanned ("# out" ∷ " tag=v1 " ∷ "1bad=2" ∷ "none" ∷ []) none)
    ≡ outputs (("tag", "v1") ∷ [])
unfolding parse_output_file add_line add_lines is_valid_key trim_left trim_right cut insert
parsed = refl

abbrev step : String → String → StepDef
step id command = record {
  env = ("OS", "${{ matrix.os }}") ∷ [];
  id = id;
  name = "a step";
  run = command;
  shell = "";
  analysis_prompt = "";
  risk_level = "low";
  analyze = false;
}

abbrev exit_three : HostError
exit_three = record { exit_code = some (pos 3); message = "exit status 3" }

-- A process fails if its command is `false`.
abbrev outcome : List Call → Option HostError
outcome (process_started s ∷ calls) = if str_eq s.run "false" then some exit_three else none
outcome calls = none

abbrev host : Host
host = record {
  getenv = codes;
  environ = "HOME=/root" ∷ "WHO=nobody" ∷ [];
  done = λ calls. none;
  create_temp_file = λ calls. none;
  build_command = λ calls s env. none;
  start = λ calls s. none;
  wait = outcome;
  stdout = λ calls. codes "ok" ∷ [];
  stderr = λ calls. [];
  output_file = λ calls. missing;
  on_step_end = λ calls s r. none;
}

abbrev cfg : RunnerConfig
cfg = record {
  env = ("WHO", "me") ∷ [];
  job_env = [];
  matrix_vars = ("os", "linux") ∷ [];
  var_overrides = [];
  secrets = [];
  buffer_size = pos 8;
  has_callback = false;
}

abbrev steps : List StepDef
steps = step "a" "echo ${{ env.WHO }}" ∷ step "b" "false" ∷ step "c" "true" ∷ []

statuses :
    map (λ r. r.status) (run host cfg steps).steps ≡ step_passed ∷ step_failed ∷ step_skipped ∷ []
unfolding run run_all visit run_step execute_step resolve_expressions contains trim_left trim_right
    cut body pieces resolve_env resolve_matrix resolve_expr replacement replace_all without_matches
    lookup insert overlay build_expr_env resolve_step_env
statuses = refl

run-HaltsOnce_example :
    (map (λ r. r.step_id) (run host cfg steps).steps ≡ "a" ∷ "b" ∷ "c" ∷ [])
    × HaltsOnce host cfg (run host cfg steps).steps
run-HaltsOnce_example = run-HaltsOnce host cfg steps

run-IsPassed_example :
    ((run host cfg steps).status ≡ run_passed) ↔ All (IsPassed host cfg) (run host cfg steps).steps
run-IsPassed_example = run-IsPassed host cfg steps refl

abbrev test_step : StepDef
test_step = step "a" "true"

-- The variable OS is resolved for the process, and not in an expression.
merged_env-first_of_example :
    (lookup "OS" (build_expr_env cfg test_step [])
      ≡ first_of (layers cfg test_step.env []) "OS" none)
    × (lookup "OS" (merged_env host.environ [] cfg (("OS", "linux") ∷ []))
        ≡ first_of
            (layers cfg (("OS", "linux") ∷ []) [])
            "OS"
            (lookup "OS" (os_layer host.environ [])))
unfolding lookup
merged_env-first_of_example =
    merged_env-first_of host.environ [] cfg test_step (("OS", "linux") ∷ []) "OS"
      (tt, ((refl, tt), ((refl, tt), (tt, ((refl, tt), (tt, tt)))))) (refl, tt)
