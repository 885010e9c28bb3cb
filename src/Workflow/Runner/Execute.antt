-- ===== src/Workflow/Runner/Execute.antt =====
-- internal/workflow/runner.go: one step, and the loop over the steps. The pointers to steps are not
-- nil, as a file that passed validation has none.
use clai.Common.{
  if◌then◌else◌, Bool, true, false, List, [], ◌∷◌, ◌++◌, String, str_eq, Option, none, some, ℤ, pos,
  negsuc, ℕ, ◌⊎◌, inl, inr, ◌==◌, length, positive_or,
}
use clai.Common.StringMap.{StringMap, insert}
use clai.Workflow.Types.{StepDef}
use clai.Workflow.LimitedBuffer.{new_limited_buffer, bytes}
use clai.Workflow.LimitedBuffer.Tail.{write_all}
use clai.Workflow.Expression.{ExpressionContext, Result, ok, err, resolve_expressions}
use clai.Workflow.Secrets.{new_secret_masker, mask}
use clai.Workflow.Output.{parse_output_file}
use clai.Workflow.Runner.{
  Host, HostError, RunnerConfig, RunnerError, creating_temp_file, building_command,
  starting_process, waiting, of_context, of_callback, resolving_run, StepStatus, step_passed,
  step_failed, step_skipped, step_cancelled, run_passed, run_failed, run_cancelled, StepResult,
  RunResult, Call, step_started, step_ended, temp_file_created, command_built, process_started,
  process_waited, overlay, build_expr_env, merge_env, exit_code_from_error, fresh, fail,
  resolve_step_env, resolved_or, resolved_text, present, default_buffer_size,
}

-- What `Run` keeps between the steps.
pub record RunState : Type 0 where
  pub result : RunResult
  pub step_outputs : StringMap (StringMap String)
  pub step_output_env : StringMap String
  pub has_failed : Bool
  pub calls : List Call

module _ (host : Host) (cfg : RunnerConfig) where
  abbrev pub context : StepDef → RunState → ExpressionContext
  context step s = record {
    env = build_expr_env cfg step s.step_output_env;
    matrix = cfg.matrix_vars;
    steps = s.step_outputs;
  }

  abbrev pub tail_of : List (List ℕ) → List ℕ
  tail_of writes = mask (new_secret_masker host.getenv cfg.secrets) (
      bytes (
        write_all (new_limited_buffer (pos (positive_or cfg.buffer_size default_buffer_size)))
          writes))

  -- The step and its result when the command is known.
  abbrev pub resolved_step : StepDef → String → StepDef
  resolved_step step command = record step { run = command }

  abbrev pub prepared : StepDef → ExpressionContext → String → List String → StepResult
  prepared step ctx command env = record (fresh step step_failed) {
    name = resolved_or step.name (resolve_expressions step.name (some ctx));
    risk_level = resolved_text step.risk_level ctx;
    analysis_prompt = resolved_text step.analysis_prompt ctx;
    command = command;
    resolved_env = env;
  }

  abbrev pub interrupted_code : ℤ → ℤ
  interrupted_code (pos n) = if n == 0 then pos 130 else pos n
  interrupted_code (negsuc n) = negsuc n

  -- The exit code and the status, from the context's error and the error of `Wait`.
  abbrev pub concluded : Option HostError → Option HostError → StepResult → StepResult
  concluded (some e) waited sr = record sr {
    exit_code = interrupted_code (exit_code_from_error waited);
    status = step_cancelled;
    error = some (of_context e);
  }
  concluded none (some e) sr = record sr {
    exit_code = exit_code_from_error (some e);
    status = step_failed;
    error = some (waiting e);
  }
  concluded none none sr = record sr { exit_code = pos 0; status = step_passed }

  abbrev pub finish : StepResult → List Call → StepResult × List Call
  finish sr calls =
      let after = process_waited ∷ calls in
      let captured = record sr {
        stdout_tail = tail_of (host.stdout after);
        stderr_tail = tail_of (host.stderr after);
        outputs = present (parse_output_file (host.output_file after));
      } in
      (concluded (host.done after) (host.wait calls) captured, after)

  abbrev pub started : Option HostError → StepResult → List Call → StepResult × List Call
  started (some e) sr calls = (fail (starting_process e) sr, calls)
  started none sr calls = finish sr calls

  abbrev pub built : Option HostError → StepDef → StepResult → List Call → StepResult × List Call
  built (some e) step sr calls = (fail (building_command e) sr, calls)
  built none step sr calls = started (host.start calls step) sr (process_started step ∷ calls)

  abbrev pub launch :
      StepDef → ExpressionContext → String → List String → List Call → StepResult × List Call
  launch step ctx command env calls =
      let resolved = resolved_step step command in
      built (host.build_command calls resolved env) resolved (prepared step ctx command env)
        (command_built resolved env ∷ calls)

  abbrev pub with_env :
      StepDef
      → RunState
      → String
      → StringMap String ⊎ RunnerError
      → List Call
      → StepResult × List Call
  with_env step s command (inr e) calls = (fail e (fresh step step_failed), calls)
  with_env step s command (inl step_env) calls =
      launch step (context step s) command (merge_env host.environ s.step_output_env cfg step_env)
        calls

  abbrev pub with_command : StepDef → RunState → Result String → List Call → StepResult × List Call
  with_command step s (err e) calls = (fail (resolving_run e) (fresh step step_failed), calls)
  with_command step s (ok command) calls =
      with_env step s command (resolve_step_env step.env (context step s)) calls

  abbrev pub with_temp_file :
      StepDef → RunState → Option HostError → List Call → StepResult × List Call
  with_temp_file step s (some e) calls =
      (fail (creating_temp_file e) (fresh step step_failed), calls)
  with_temp_file step s none calls =
      with_command step s (resolve_expressions step.run (some (context step s))) calls

  -- `executeStep`, with the calls it makes.
  unfoldable pub execute_step : StepDef → RunState → StepResult × List Call
  execute_step step s =
      with_temp_file step s (host.create_temp_file s.calls) (temp_file_created ∷ s.calls)

  abbrev pub add_result : StepResult → RunResult → RunResult
  add_result sr r = record r { steps = r.steps ++ sr ∷ [] }

  abbrev pub skipped : StepDef → StepResult
  skipped step = fresh step step_skipped

  abbrev pub skip_step : StepDef → RunState → RunState
  skip_step step s = record s { result = add_result (skipped step) s.result }

  abbrev pub with_start : StepDef → RunState → RunState
  with_start step s =
      if cfg.has_callback then record s { calls = step_started step ∷ s.calls } else s

  -- An error of the callback at the end of a step halts the run.
  abbrev pub callback_error : Option HostError → RunState → RunState
  callback_error none s = s
  callback_error (some e) s = record s {
    has_failed = true;
    result = record s.result { status = run_failed; error = some (of_callback e) };
  }

  abbrev pub with_end : StepDef → StepResult → RunState → RunState
  with_end step sr s =
      if cfg.has_callback
      then callback_error (host.on_step_end s.calls step sr)
          (record s { calls = step_ended step sr ∷ s.calls })
      else s

  abbrev pub store_outputs : StepDef → StepResult → RunState → RunState
  store_outputs step sr s = record s {
    step_outputs =
        if str_eq step.id ""
        then s.step_outputs
        else if length sr.outputs == 0
        then s.step_outputs
        else insert step.id sr.outputs s.step_outputs;
    step_output_env = overlay sr.outputs s.step_output_env;
  }

  abbrev pub judge : StepStatus → StepResult → RunState → RunState
  judge step_cancelled sr s = record s {
    has_failed = true;
    result = record s.result { status = run_cancelled; error = sr.error };
  }
  judge step_failed sr s = record s {
    has_failed = true;
    result = record s.result { status = run_failed };
  }
  judge _ sr s = s

  abbrev pub after_execution : StepDef → StepResult × List Call → RunState → RunState
  after_execution step (sr, calls) s = judge sr.status sr (
      store_outputs step sr
        (with_end step sr (record s { calls = calls; result = add_result sr s.result })))

  unfoldable pub run_step : StepDef → RunState → RunState
  run_step step s = let s' = with_start step s in after_execution step (execute_step step s') s'

  -- One round of the loop where the context is not done.
  unfoldable pub visit : StepDef → RunState → RunState
  visit step s = if s.has_failed then skip_step step s else run_step step s

  unfoldable pub skip_all : List StepDef → RunState → RunState
  skip_all [] s = s
  skip_all (step ∷ steps) s = skip_all steps (skip_step step s)

  abbrev pub cancelled : HostError → RunState → RunState
  cancelled e s = record s {
    result = record s.result { status = run_cancelled; error = some (of_context e) };
  }

  -- The check of the context before a round: the run with the rest skipped, or what follows.
  abbrev pub unless_done : Option HostError → RunState → RunState → RunState
  unless_done none skipped next = next
  unless_done (some e) skipped next = cancelled e skipped

  -- The loop of `Run`.
  unfoldable pub run_all : List StepDef → RunState → RunState
  run_all [] s = s
  run_all (step ∷ steps) s =
      let next = run_all steps (visit step s) in
      unless_done (host.done s.calls) (skip_all (step ∷ steps) s) next

  abbrev pub initial : RunState
  initial = record {
    result = record { error = none; status = run_passed; steps = [] };
    step_outputs = [];
    step_output_env = [];
    has_failed = false;
    calls = [];
  }

  unfoldable pub run : List StepDef → RunResult
  run steps = (run_all steps initial).result
