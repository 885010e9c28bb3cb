-- ===== src/Workflow/Runner/Env.antt =====
-- internal/workflow/runner.go: which layer of the environment a name is read from, in an expression
-- and in the process.
use clai.Common.{
  List, [], ◌∷◌, String, str_eq, str_eq_iff, Option, none, some, ◌≡◌, refl, ap, subst, ◌∙◌, All,
  Bool-cases, inl, inr,
}
use clai.Common.StringMap.{StringMap, lookup, insert, lookup-insert, IsKeyed}
use clai.Workflow.Types.{StepDef}
use clai.Workflow.Runner.{RunnerConfig, overlay, build_expr_env, os_layer, merged_env}

abbrev pub or_else : Option String → Option String → Option String
or_else none o = o
or_else (some v) o = some v

-- The value of a name in the first of some layers that has it.
unfoldable pub first_of : List (StringMap String) → String → Option String → Option String
first_of [] k o = o
first_of (layer ∷ layers) k o = or_else (lookup k layer) (first_of layers k o)

-- The layers above the environment of the operating system, the strongest first.
abbrev pub layers : RunnerConfig → StringMap String → StringMap String → List (StringMap String)
layers cfg step_env output_env =
    cfg.var_overrides ∷ cfg.matrix_vars ∷ step_env ∷ cfg.job_env ∷ cfg.env ∷ output_env ∷ []

lookup-overlay :
    (k : String) (layer env : StringMap String)
    → IsKeyed layer
    → lookup k (overlay layer env) ≡ or_else (lookup k layer) (lookup k env)
unfolding lookup overlay
lookup-overlay k [] env h = refl
lookup-overlay k ((j, v) ∷ layer) env h =
    lookup-overlay k layer (insert j v env) h.1
    ∙ ap (or_else (lookup k layer)) (lookup-insert j k v env)
    ∙ elim (Bool-cases (str_eq j k)) [
      | inl same ↦
          let e : j ≡ k = (str_eq_iff j k).0 same in
          let missing : lookup k layer ≡ none = subst (λ x. lookup x layer ≡ none) e h.0 in
          rw (same, missing) refl
      | inr other ↦ rw other refl
    ]

-- Layers put over an environment, the last one first.
abbrev stack : List (StringMap String) → StringMap String → StringMap String
stack [] env = env
stack (layer ∷ layers) env = overlay layer (stack layers env)

lookup-stack :
    (k : String) (layers : List (StringMap String)) (env : StringMap String)
    → All IsKeyed layers
    → lookup k (stack layers env) ≡ first_of layers k (lookup k env)
unfolding first_of
lookup-stack k [] env h = refl
lookup-stack k (layer ∷ layers) env h =
    lookup-overlay k layer (stack layers env) h.0
    ∙ ap (or_else (lookup k layer)) (lookup-stack k layers env h.1)

-- If no name stands twice in a layer, a name has in an expression and in the process the value of
-- the strongest layer that has it: the overrides, the matrix, the step, the job, the workflow, the
-- outputs of earlier steps, and in the process last the operating system's. The step's layer holds
-- the values as they are written in an expression, and the resolved ones in the process.
pub merged_env-first_of :
    (environ : List String) (output_env : StringMap String) (cfg : RunnerConfig) (step : StepDef)
    (step_env : StringMap String) (k : String)
    → All IsKeyed (layers cfg step.env output_env)
    → IsKeyed step_env
    → (lookup k (build_expr_env cfg step output_env)
        ≡ first_of (layers cfg step.env output_env) k none)
      × (lookup k (merged_env environ output_env cfg step_env)
          ≡ first_of (layers cfg step_env output_env) k (lookup k (os_layer environ [])))
unfolding build_expr_env merged_env lookup
merged_env-first_of environ output_env cfg step step_env k (v, (m, (s, below))) h = (
  lookup-stack k (layers cfg step.env output_env) [] (v, (m, (s, below))),
  lookup-stack k (layers cfg step_env output_env) (os_layer environ []) (v, (m, (h, below))),
)
