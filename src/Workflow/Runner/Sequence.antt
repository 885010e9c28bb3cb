-- ===== src/Workflow/Runner/Sequence.antt =====
-- internal/workflow/runner.go: the results of a run, step by step.
use clai.Common.{
  if◌then◌else◌, true, false, List, [], ◌∷◌, ◌++◌, map, ◌≡◌, ◌↔◌, refl, sym, ap, ap₂, subst, ◌∙◌,
  ◌⊎◌, inl, inr, All, Option-cases, Bool-cases, append-nil, append_assoc, arith,
}
use clai.Workflow.Types.{StepDef}
use clai.Workflow.Runner.{
  Host, HostError, RunnerConfig, step_passed, step_skipped, run_passed, StepResult,
}
use clai.Workflow.Runner.Execute.{
  RunState, skipped, skip_step, run_step, visit, skip_all, unless_done, cancelled, run_all, initial,
  run,
}
use clai.Workflow.Runner.Steps.{IsConsistent, Visited, skip_step-Visited, run_step-Visited}

module _ (host : Host) (cfg : RunnerConfig) where
  visit-Visited :
      (step : StepDef) (s : RunState)
      → IsConsistent s
      → Visited host cfg step s (visit host cfg step s)
  unfolding visit
  visit-Visited step s v = elim (Bool-cases s.has_failed) [
    | inl f ↦
        subst (Visited host cfg step s)
          (sym (ap (λ b. if b then skip_step host cfg step s else run_step host cfg step s) f))
          (skip_step-Visited host cfg step s f v)
    | inr f ↦
        subst (Visited host cfg step s)
          (sym (ap (λ b. if b then skip_step host cfg step s else run_step host cfg step s) f))
          (run_step-Visited host cfg step s f v)
  ]

  abbrev pub IsSkipped : StepResult → Type 0
  IsSkipped r = r.status ≡ step_skipped

  abbrev pub IsPassed : StepResult → Type 0
  IsPassed r = r.status ≡ step_passed

  -- Steps that pass, then perhaps one that was executed last, then only steps that are skipped.
  abbrev pub HaltsOnce : List StepResult → Type 0
  HaltsOnce [] = Unit
  HaltsOnce (r ∷ rs) = (IsPassed r × HaltsOnce rs) ⊎ All IsSkipped rs

  -- The rounds over some steps.
  record Added (steps : List StepDef) (s t : RunState) : Type 0 where
    results : List StepResult
    adds : t.result.steps ≡ s.result.steps ++ results
    ids : map (λ r. r.step_id) results ≡ map (λ step. step.id) steps
    halts : HaltsOnce results
    skips : s.has_failed ≡ true → All IsSkipped results
    verdict :
        cfg.has_callback ≡ false
        → (t.result.status ≡ run_passed) ↔ ((s.result.status ≡ run_passed) × All IsPassed results)

  skipped-HaltsOnce : (rs : List StepResult) → All IsSkipped rs → HaltsOnce rs
  skipped-HaltsOnce [] h = tt
  skipped-HaltsOnce (r ∷ rs) h = inr h.1

  -- What `skip_all` adds.
  skip_all_lem :
      (steps : List StepDef) (s : RunState)
      → let t = skip_all host cfg steps s in
        (t.result.steps ≡ s.result.steps ++ map (skipped host cfg) steps)
        × (t.result.status ≡ s.result.status)
  unfolding skip_all
  skip_all_lem [] s = (sym (append-nil s.result.steps), refl)
  skip_all_lem (step ∷ steps) s =
      let (adds, same) = skip_all_lem steps (skip_step host cfg step s) in
      (
        adds
            ∙ append_assoc s.result.steps (skipped host cfg step ∷ [])
                (map (skipped host cfg) steps),
        same,
      )

  all_skipped : (steps : List StepDef) → All IsSkipped (map (skipped host cfg) steps)
  all_skipped [] = tt
  all_skipped (step ∷ steps) = (refl, all_skipped steps)

  skipped_ids :
      (steps : List StepDef)
      → map (λ r. r.step_id) (map (skipped host cfg) steps) ≡ map (λ step. step.id) steps
  skipped_ids [] = refl
  skipped_ids (step ∷ steps) = ap (◌∷◌ step.id) (skipped_ids steps)

  -- A context that is done: the rest is skipped.
  cancelled-Added :
      (step : StepDef) (steps : List StepDef) (s : RunState) (e : HostError)
      → Added (step ∷ steps) s (cancelled host cfg e (skip_all host cfg (step ∷ steps) s))
  cancelled-Added step steps s e = record {
    results = map (skipped host cfg) (step ∷ steps);
    adds = (skip_all_lem (step ∷ steps) s).0;
    ids = skipped_ids (step ∷ steps);
    halts = inr (all_skipped steps);
    skips = λ _. all_skipped (step ∷ steps);
    verdict = λ _. ((λ p. absurd (cc)), (λ p. absurd (cc)));
  }

  Visited-Added :
      (step : StepDef) (steps : List StepDef) (s u t : RunState)
      → Visited host cfg step s u
      → Added steps u t
      → Added (step ∷ steps) s t
  Visited-Added step steps s u t v a = record {
    results = v.result ∷ a.results;
    adds =
        a.adds
        ∙ ap (λ l. l ++ a.results) v.adds
        ∙ append_assoc s.result.steps (v.result ∷ []) a.results;
    ids = ap₂ ◌∷◌ v.id a.ids;
    halts = elim (Bool-cases u.has_failed) [
      | inl f ↦ inr (a.skips f)
      | inr f ↦ inl (v.goes_on f, a.halts)
    ];
    skips = λ h. ((v.skips h).0, a.skips (v.skips h).1);
    verdict = λ h. ground (arith, v.verdict h, a.verdict h);
  }

  run_all_lem :
      (steps : List StepDef) (s : RunState)
      → IsConsistent s
      → Added steps s (run_all host cfg steps s)
  unfolding run_all
  run_all_lem [] s c = record {
    results = [];
    adds = sym (append-nil s.result.steps);
    ids = refl;
    halts = tt;
    skips = λ _. tt;
    verdict = λ _. ((λ e. (e, tt)), (λ p. p.0));
  }
  run_all_lem (step ∷ steps) s c =
      let v = visit-Visited step s c in
      let next = run_all host cfg steps (visit host cfg step s) in
      let over = skip_all host cfg (step ∷ steps) s in
      elim (Option-cases (host.done s.calls)) [
        | inl on ↦
            subst (Added (step ∷ steps) s) (sym (ap (λ o. unless_done host cfg o over next) on)) (
              Visited-Added step steps s _ _ v
                (run_all_lem steps (visit host cfg step s) v.consistent))
        | inr (e, done) ↦
            subst (Added (step ∷ steps) s) (sym (ap (λ o. unless_done host cfg o over next) done))
              (cancelled-Added step steps s e)
      ]

  initial-IsConsistent : IsConsistent (initial host cfg)
  initial-IsConsistent = inr (refl, refl)

  -- A run returns one result for each step, in order and with its id: steps that passed, then
  -- perhaps one more that was executed, then only steps that are skipped.
  pub run-HaltsOnce :
      (steps : List StepDef)
      → let result = run host cfg steps in
        (map (λ r. r.step_id) result.steps ≡ map (λ step. step.id) steps) × HaltsOnce result.steps
  unfolding run
  run-HaltsOnce steps =
      let a = run_all_lem steps (initial host cfg) initial-IsConsistent in
      rw a.adds (a.ids, a.halts)

  -- Without a callback a run has passed exactly if every step has.
  pub run-IsPassed :
      (steps : List StepDef)
      → cfg.has_callback ≡ false
      → ((run host cfg steps).status ≡ run_passed) ↔ All IsPassed (run host cfg steps).steps
  unfolding run
  run-IsPassed steps h =
      let a = run_all_lem steps (initial host cfg) initial-IsConsistent in
      let (forth, back) = a.verdict h in rw a.adds ((λ e. (forth e).1), (λ p. back (refl, p)))
