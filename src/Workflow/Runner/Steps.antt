-- ===== src/Workflow/Runner/Steps.antt =====
-- internal/workflow/runner.go: what one round of the loop adds to a run.
use clai.Common.{
  true, false, List, [], ◌∷◌, ◌++◌, String, Option, none, some, ◌≡◌, ◌≢◌, ◌↔◌, refl, ap, ◌∙◌, ◌⊎◌,
  inl, inr, arith,
}
use clai.Workflow.Types.{StepDef}
use clai.Workflow.Expression.{Result, ok, err}
use clai.Workflow.Runner.{
  Host, HostError, RunnerConfig, StepStatus, step_passed, step_failed, step_skipped, step_cancelled,
  run_passed, StepResult, Call,
}
use clai.Workflow.Runner.Execute.{
  RunState, concluded, started, built, with_env, with_command, with_temp_file, execute_step,
  skipped, skip_step, with_start, with_end, store_outputs, judge, run_step,
}

-- A step that is executed has a result of its own, which does not say that it was skipped.
abbrev IsExecuted : StepDef → StepResult → Type 0
IsExecuted step sr = (sr.step_id ≡ step.id) × (sr.status ≢ step_skipped)

module _ (host : Host) (cfg : RunnerConfig) where
  concluded-IsExecuted :
      (step : StepDef) (a b : Option HostError) (sr : StepResult)
      → sr.step_id ≡ step.id
      → IsExecuted step (concluded host cfg a b sr)
  concluded-IsExecuted step (some e) b sr h = (h, λ x. cc)
  concluded-IsExecuted step none (some e) sr h = (h, λ x. cc)
  concluded-IsExecuted step none none sr h = (h, λ x. cc)

  started-IsExecuted :
      (step : StepDef) (o : Option HostError) (sr : StepResult) (calls : List Call)
      → sr.step_id ≡ step.id
      → IsExecuted step (started host cfg o sr calls).0
  started-IsExecuted step (some e) sr calls h = (h, λ x. cc)
  started-IsExecuted step none sr calls h = concluded-IsExecuted step _ _ _ h

  built-IsExecuted :
      (step resolved : StepDef) (o : Option HostError) (sr : StepResult) (calls : List Call)
      → sr.step_id ≡ step.id
      → IsExecuted step (built host cfg o resolved sr calls).0
  built-IsExecuted step resolved (some e) sr calls h = (h, λ x. cc)
  built-IsExecuted step resolved none sr calls h = started-IsExecuted step _ sr _ h

  with_env-IsExecuted :
      (step : StepDef) (s : RunState) (command : String) (o : _) (calls : List Call)
      → IsExecuted step (with_env host cfg step s command o calls).0
  with_env-IsExecuted step s command (inr e) calls = (refl, λ x. cc)
  with_env-IsExecuted step s command (inl env) calls = built-IsExecuted step _ _ _ _ refl

  with_command-IsExecuted :
      (step : StepDef) (s : RunState) (o : Result String) (calls : List Call)
      → IsExecuted step (with_command host cfg step s o calls).0
  with_command-IsExecuted step s (err e) calls = (refl, λ x. cc)
  with_command-IsExecuted step s (ok command) calls = with_env-IsExecuted step s command _ calls

  with_temp_file-IsExecuted :
      (step : StepDef) (s : RunState) (o : Option HostError) (calls : List Call)
      → IsExecuted step (with_temp_file host cfg step s o calls).0
  with_temp_file-IsExecuted step s (some e) calls = (refl, λ x. cc)
  with_temp_file-IsExecuted step s none calls = with_command-IsExecuted step s _ calls

  execute_step-IsExecuted :
      (step : StepDef) (s : RunState) → IsExecuted step (execute_step host cfg step s).0
  unfolding execute_step
  execute_step-IsExecuted step s = with_temp_file-IsExecuted step s _ _

-- The run has passed so far unless it has failed.
abbrev pub IsConsistent : RunState → Type 0
IsConsistent s =
    (s.has_failed ≡ true) × (s.result.status ≢ run_passed)
    ⊎ (s.has_failed ≡ false) × (s.result.status ≡ run_passed)

-- The results and the verdict stay as they are.
record SameVerdict (s t : RunState) : Type 0 where
  has_failed : t.has_failed ≡ s.has_failed
  status : t.result.status ≡ s.result.status

module _ (host : Host) (cfg : RunnerConfig) where
  judge-steps :
      (st : StepStatus) (sr : StepResult) (s : RunState)
      → (judge host cfg st sr s).result.steps ≡ s.result.steps
  judge-steps step_cancelled sr s = refl
  judge-steps step_failed sr s = refl
  judge-steps step_passed sr s = refl
  judge-steps step_skipped sr s = refl

  judge-IsConsistent :
      (st : StepStatus) (sr : StepResult) (s : RunState)
      → IsConsistent s
      → IsConsistent (judge host cfg st sr s)
  judge-IsConsistent step_cancelled sr s v = inl (refl, λ x. cc)
  judge-IsConsistent step_failed sr s v = inl (refl, λ x. cc)
  judge-IsConsistent step_passed sr s v = v
  judge-IsConsistent step_skipped sr s v = v

  -- A run that goes on after a step that was executed has passed it.
  judge-passed :
      (st : StepStatus) (sr : StepResult) (s : RunState)
      → st ≢ step_skipped
      → (judge host cfg st sr s).has_failed ≡ false
      → st ≡ step_passed
  judge-passed step_cancelled sr s n h = absurd (cc)
  judge-passed step_failed sr s n h = absurd (cc)
  judge-passed step_passed sr s n h = refl
  judge-passed step_skipped sr s n h = absurd (n refl)

  judge-verdict :
      (st : StepStatus) (sr : StepResult) (s : RunState)
      → st ≡ step_passed
      → SameVerdict s (judge host cfg st sr s)
  judge-verdict st sr s h = rw h record { has_failed = refl; status = refl }

  with_end-steps :
      (step : StepDef) (sr : StepResult) (s : RunState)
      → (with_end host cfg step sr s).result.steps ≡ s.result.steps
  with_end-steps step sr s = ground arith

  with_end-IsConsistent :
      (step : StepDef) (sr : StepResult) (s : RunState)
      → IsConsistent s
      → IsConsistent (with_end host cfg step sr s)
  with_end-IsConsistent step sr s v = ground arith

  with_end-verdict :
      (step : StepDef) (sr : StepResult) (s : RunState)
      → cfg.has_callback ≡ false
      → SameVerdict s (with_end host cfg step sr s)
  with_end-verdict step sr s h = record { has_failed = ground arith; status = ground arith }

  with_start-steps :
      (step : StepDef) (s : RunState) → (with_start host cfg step s).result.steps ≡ s.result.steps
  with_start-steps step s = ground arith

  with_start-verdict : (step : StepDef) (s : RunState) → SameVerdict s (with_start host cfg step s)
  with_start-verdict step s = record { has_failed = ground arith; status = ground arith }

  -- One round of the loop.
  pub record Visited (step : StepDef) (s t : RunState) : Type 0 where
    pub result : StepResult
    pub adds : t.result.steps ≡ s.result.steps ++ result ∷ []
    pub id : result.step_id ≡ step.id
    pub consistent : IsConsistent t
    pub skips : s.has_failed ≡ true → (result.status ≡ step_skipped) × (t.has_failed ≡ true)
    pub goes_on : t.has_failed ≡ false → result.status ≡ step_passed
    pub verdict :
        cfg.has_callback ≡ false
        → (t.result.status ≡ run_passed)
          ↔ ((s.result.status ≡ run_passed) × (result.status ≡ step_passed))

  pub skip_step-Visited :
      (step : StepDef) (s : RunState)
      → s.has_failed ≡ true
      → IsConsistent s
      → Visited step s (skip_step host cfg step s)
  skip_step-Visited step s f v = record {
    result = skipped host cfg step;
    adds = refl;
    id = refl;
    consistent = v;
    skips = λ h. (refl, h);
    goes_on = λ h. absurd (ground arith);
    verdict = λ h. ground (arith, v);
  }

  passed_so_far :
      (s : RunState) → s.has_failed ≡ false → IsConsistent s → s.result.status ≡ run_passed
  passed_so_far s f v = ground arith

  not_failed : (s : RunState) → IsConsistent s → s.result.status ≡ run_passed → s.has_failed ≡ false
  not_failed s v e = ground arith

  pub run_step-Visited :
      (step : StepDef) (s : RunState)
      → s.has_failed ≡ false
      → IsConsistent s
      → Visited step s (run_step host cfg step s)
  unfolding run_step
  run_step-Visited step s f v =
      let s₀ = with_start host cfg step s in
      let (sr, calls) = execute_step host cfg step s₀ in
      let (id, executed) = execute_step-IsExecuted host cfg step s₀ in
      let t₀ : RunState = record s₀ {
        calls = calls;
        result = record s₀.result { steps = s₀.result.steps ++ sr ∷ [] };
      } in
      let start = with_start-verdict step s in
      let v₀ : IsConsistent t₀ = ground (arith, start.has_failed, start.status) in
      let t₁ = with_end host cfg step sr t₀ in
      let t₂ = store_outputs host cfg step sr t₁ in
      let v₂ : IsConsistent t₂ = with_end-IsConsistent step sr t₀ v₀ in
      let t₃ = judge host cfg sr.status sr t₂ in
      let v₃ : IsConsistent t₃ = judge-IsConsistent sr.status sr t₂ v₂ in
      let goes_on : (t₃.has_failed ≡ false → sr.status ≡ step_passed) =
        judge-passed sr.status sr t₂ executed in
      record {
        result = sr;
        adds =
            judge-steps sr.status sr t₂
            ∙ with_end-steps step sr t₀
            ∙ ap (λ l. l ++ sr ∷ []) (with_start-steps step s);
        id = id;
        consistent = v₃;
        skips = λ h. absurd (ground arith);
        goes_on = goes_on;
        verdict = λ h. (
          λ e. (passed_so_far s f v, goes_on (not_failed t₃ v₃ e)),
          λ p.
              (judge-verdict sr.status sr t₂ p.1).status
              ∙ (with_end-verdict step sr t₀ h).status
              ∙ start.status
              ∙ p.0,
        );
      }
