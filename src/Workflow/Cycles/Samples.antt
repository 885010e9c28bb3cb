-- ===== src/Workflow/Cycles/Samples.antt =====
-- The theorems on the search for dependency cycles at concrete inputs, and runs of the search.
use clai.Common.{List, [], ◌∷◌, String, Option, none, some, ◌≡◌, ◌↔◌, refl, Option-cases, inl, inr}
use clai.Common.StringMap.{lookup, keys, lookup-keys}
use clai.Workflow.Types.{JobDef}
use clai.Workflow.Cycles.{Jobs, job_of, validate_dependency_cycles}
use clai.Workflow.Cycles.Edges.{Needs, In}
use clai.Workflow.Cycles.Fuel.{validate_dependency_cycles-ends}
use clai.Workflow.Cycles.Sound.{validate_dependency_cycles_iff}

abbrev job_with : List String → Option JobDef
job_with needs = some (record { name = ""; needs = needs; env = []; strategy = none; steps = [] })

-- Test after build, ship after both.
abbrev pipeline : Jobs
pipeline =
    ("build", job_with [])
    ∷ ("ship", job_with ("build" ∷ "test" ∷ "" ∷ []))
    ∷ ("test", job_with ("build" ∷ "lint" ∷ []))
    ∷ []

-- Two jobs that need each other.
abbrev tangle : Jobs
tangle = ("a", job_with ("b" ∷ [])) ∷ ("b", job_with ("a" ∷ [])) ∷ []

pipeline_run : validate_dependency_cycles pipeline (keys pipeline) ≡ some []
unfolding validate_dependency_cycles
pipeline_run = refl

tangle_run : validate_dependency_cycles tangle (keys tangle) ≡ some (("a" ∷ "b" ∷ "a" ∷ []) ∷ [])
unfolding validate_dependency_cycles
tangle_run = refl

keys_complete :
    (jobs : Jobs) (j : String) (def : JobDef) → job_of jobs j ≡ some def → In j (keys jobs)
unfolding job_of
keys_complete jobs j def e = elim (Option-cases (lookup j jobs)) [
  | inl gone ↦ absurd (absent gone)
  | inr (job, there) ↦ lookup-keys j job jobs there
]
  where
    absent : lookup j jobs ≡ none → ⊥
    absent gone = cc

validate_dependency_cycles_iff_example :
    (validate_dependency_cycles tangle (keys tangle) ≡ some [])
    ↔ ((a : String) → Needs tangle a a → ⊥)
validate_dependency_cycles_iff_example =
    validate_dependency_cycles_iff tangle (keys tangle) (keys_complete tangle)

validate_dependency_cycles-ends_example :
    (paths : List (List String)) × (validate_dependency_cycles pipeline (keys pipeline)
      ≡ some paths)
validate_dependency_cycles-ends_example =
    validate_dependency_cycles-ends pipeline (keys pipeline) (keys_complete pipeline)
