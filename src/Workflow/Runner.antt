-- ===== src/Workflow/Runner.antt =====
-- internal/workflow/runner.go: the runner that executes the steps of a job one after the other.
-- The operating system, the shell adapter, the process controller, the context and the callback are
-- parameters (`Host`), whose answers may depend on all calls so far; the model keeps these, the
-- latest first. Maps are walked in the order of their entries. Durations and logging are left out.
use Prim.Native.String.{◌++◌ as append}
use clai.Common.{
  ℕ, ◌==◌, if◌then◌else◌, Bool, true, false, List, [], ◌∷◌, ◌++◌, String, str_eq, Option, none,
  some, ℤ, pos, ◌⊎◌, inl, inr,
}
use clai.Common.StringMap.{StringMap, insert}
use clai.Workflow.Types.{SecretDef, StepDef}
use clai.Workflow.LimitedBuffer.{new_limited_buffer, bytes}
use clai.Workflow.LimitedBuffer.Tail.{write_all}
use clai.Workflow.Expression.{
  ExpressionContext, ExpressionError, Result, ok, err, cut, resolve_expressions,
}
use clai.Workflow.Secrets.{SecretMasker, new_secret_masker, mask}
use clai.Workflow.Output.{FileRead, Parsed, outputs, failed, parse_output_file}
pub mod Execute
pub mod Steps
pub mod Sequence
pub mod Env
mod Samples

abbrev pub default_buffer_size : ℕ
default_buffer_size = 4096

-- An error from outside: the exit code if it wraps an `exec.ExitError`, and its text.
pub record HostError : Type 0 where
  pub exit_code : Option ℤ
  pub message : String

pub data RunnerError : Type 0 where
  creating_temp_file building_command starting_process waiting of_context of_callback :
      HostError → RunnerError
  resolving_run : ExpressionError → RunnerError
  resolving_env : String → ExpressionError → RunnerError

pub data StepStatus : Type 0 where
  step_passed step_failed step_skipped step_cancelled : StepStatus

pub data RunStatus : Type 0 where
  run_passed run_failed run_cancelled : RunStatus

pub record StepResult : Type 0 where
  pub error : Option RunnerError
  pub outputs : StringMap String
  pub command : String
  pub step_id : String
  pub name : String
  pub status : StepStatus
  pub stdout_tail : List ℕ
  pub stderr_tail : List ℕ
  pub risk_level : String
  pub analysis_prompt : String
  pub resolved_env : List String
  pub exit_code : ℤ

pub record RunResult : Type 0 where
  pub error : Option RunnerError
  pub status : RunStatus
  pub steps : List StepResult

pub record RunnerConfig : Type 0 where
  pub env : StringMap String
  pub job_env : StringMap String
  pub matrix_vars : StringMap String
  pub var_overrides : StringMap String
  pub secrets : List SecretDef
  pub buffer_size : ℤ
  pub has_callback : Bool

-- The calls that leave the runner.
pub data Call : Type 0 where
  step_started : StepDef → Call
  step_ended : StepDef → StepResult → Call
  temp_file_created : Call
  command_built : StepDef → List String → Call
  process_started : StepDef → Call
  process_waited : Call

pub record Host : Type 0 where
  pub getenv : String → List ℕ
  pub environ : List String
  pub done : List Call → Option HostError
  pub create_temp_file : List Call → Option HostError
  pub build_command : List Call → StepDef → List String → Option HostError
  pub start : List Call → StepDef → Option HostError
  pub wait : List Call → Option HostError
  -- What the process has written, one element for each write.
  pub stdout : List Call → List (List ℕ)
  pub stderr : List Call → List (List ℕ)
  pub output_file : List Call → FileRead HostError
  -- The callback at the end of a step.
  pub on_step_end : List Call → StepDef → StepResult → Option HostError

-- `for k, v := range layer { env[k] = v }`
unfoldable pub overlay : StringMap String → StringMap String → StringMap String
overlay [] env = env
overlay ((k, v) ∷ layer) env = overlay layer (insert k v env)

unfoldable pub build_expr_env : RunnerConfig → StepDef → StringMap String → StringMap String
build_expr_env cfg step output_env = overlay cfg.var_overrides (
    overlay cfg.matrix_vars
      (overlay step.env (overlay cfg.job_env (overlay cfg.env (overlay output_env [])))))

-- An entry of the environment, if it has a `=`.
abbrev pub add_variable : Option (String × String) → StringMap String → StringMap String
add_variable none merged = merged
add_variable (some (k, v)) merged = insert k v merged

unfoldable pub os_layer : List String → StringMap String → StringMap String
os_layer [] merged = merged
os_layer (kv ∷ rest) merged = os_layer rest (add_variable (cut 61 kv) merged)

unfoldable pub merged_env :
    List String → StringMap String → RunnerConfig → StringMap String → StringMap String
merged_env environ output_env cfg step_env = overlay cfg.var_overrides (
    overlay cfg.matrix_vars (
      overlay step_env
        (overlay cfg.job_env (overlay cfg.env (overlay output_env (os_layer environ []))))))

unfoldable pub assignments : StringMap String → List String
assignments [] = []
assignments ((k, v) ∷ env) = append k (append "=" v) ∷ assignments env

-- `mergeEnv`
unfoldable pub merge_env :
    List String → StringMap String → RunnerConfig → StringMap String → List String
merge_env environ output_env cfg step_env = assignments (merged_env environ output_env cfg step_env)

-- `exitCodeFromError` of an error that is not nil.
abbrev pub code_or_one : Option ℤ → ℤ
code_or_one none = pos 1
code_or_one (some c) = c

unfoldable pub exit_code_from_error : Option HostError → ℤ
exit_code_from_error none = pos 0
exit_code_from_error (some e) = code_or_one e.exit_code

-- The results before anything is known but the step; `status` is set before it is read.
abbrev pub fresh : StepDef → StepStatus → StepResult
fresh step status = record {
  error = none;
  outputs = [];
  command = "";
  step_id = step.id;
  name = step.name;
  status = status;
  stdout_tail = [];
  stderr_tail = [];
  risk_level = "";
  analysis_prompt = "";
  resolved_env = [];
  exit_code = pos 0;
}

abbrev pub fail : RunnerError → StepResult → StepResult
fail e sr = record sr { status = step_failed; exit_code = pos 1; error = some e }

-- The values of the step's variables, or the first error with its key.
abbrev pub with_value :
    String → Result String → StringMap String ⊎ RunnerError → StringMap String ⊎ RunnerError
with_value k (err e) rest = inr (resolving_env k e)
with_value k (ok v) (inr e) = inr e
with_value k (ok v) (inl env) = inl (insert k v env)

unfoldable pub resolve_step_env :
    StringMap String → ExpressionContext → StringMap String ⊎ RunnerError
resolve_step_env [] ctx = inl []
resolve_step_env ((k, v) ∷ env) ctx =
    with_value k (resolve_expressions v (some ctx)) (resolve_step_env env ctx)

abbrev pub resolved_or : String → Result String → String
resolved_or s (ok t) = t
resolved_or s (err e) = s

-- A text that is resolved if it is not empty, and kept if it cannot be.
abbrev pub resolved_text : String → ExpressionContext → String
resolved_text s ctx = if str_eq s "" then "" else resolved_or s (resolve_expressions s (some ctx))

abbrev pub present : Parsed HostError → StringMap String
present (outputs m) = m
present (failed e) = []
