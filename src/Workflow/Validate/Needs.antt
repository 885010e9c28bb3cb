-- ===== src/Workflow/Validate/Needs.antt =====
-- When the checks of the needs of the jobs find nothing wrong.
use clai.Common.{
  ℕ, ◌+◌, if◌then◌else◌, true, false, List, [], ◌∷◌, ◌++◌, All, Bool-cases, inl, inr, String,
  str_eq, str_eq_iff, Option, none, some, ◌≡◌, ◌≢◌, ◌↔◌, refl, sym, ◌∙◌, arith,
}
use clai.Workflow.Types.{JobDef}
use clai.Workflow.Cycles.{Jobs, job_of}
use clai.Workflow.Validate.{
  ValidationError, Field, Message, fail_if, key, index, is_missing, check_needs, validate_needs,
}
use clai.Workflow.Validate.Steps.{append_is_nil, fail_if-nil}

-- A name that a job may need: not empty, and the name of a job that is there.
pub record IsNeed (jobs : Jobs) (dep : String) : Type 0 where
  pub named : dep ≢ ""
  pub there : job_of jobs dep ≢ none

-- All that a job needs is right, if the job is there.
abbrev pub HasNeeds : Jobs → Option JobDef → Type 0
HasNeeds jobs none = Unit
HasNeeds jobs (some job) = All (IsNeed jobs) job.needs

need_errors : Jobs → Field → String → String → List ValidationError
need_errors jobs field name dep =
    if str_eq dep ""
    then fail_if true field Message.dependency_is_empty
    else fail_if (is_missing (job_of jobs dep)) field (Message.unknown_job name dep)

is_missing-false : (o : Option JobDef) → (is_missing o ≡ false) ↔ (o ≢ none)
is_missing-false none = ground arith
is_missing-false (some job) = ground arith

need_errors-nil :
    (jobs : Jobs) (field : Field) (name dep : String)
    → (need_errors jobs field name dep ≡ []) ↔ IsNeed jobs dep
unfolding need_errors
need_errors-nil jobs field name dep =
    let nil = fail_if-nil (is_missing (job_of jobs dep)) field (Message.unknown_job name dep) in
    let tests : (need_errors jobs field name dep ≡ [])
        ↔ ((dep ≢ "") × (is_missing (job_of jobs dep) ≡ false)) =
      ground (arith, str_eq_iff dep "") in
    let found = is_missing-false (job_of jobs dep) in
    (
      λ h. let (named, there) = tests.0 h in record { named = named; there = found.0 there },
      λ r. tests.1 (r.named, found.1 r.there),
    )

check_needs-cons :
    (jobs : Jobs) (name : String) (i : ℕ) (dep : String) (deps : List String)
    → check_needs jobs name i (dep ∷ deps)
      ≡ need_errors jobs (key "jobs" ∷ key name ∷ key "needs" ∷ index i ∷ []) name dep
        ++ check_needs jobs name (i + 1) deps
unfolding check_needs need_errors
check_needs-cons jobs name i dep deps = elim (Bool-cases (str_eq dep "")) [
  | inl empty ↦ rw empty refl
  | inr named ↦ rw named refl
]

check_needs-nil :
    (jobs : Jobs) (name : String) (i : ℕ) (deps : List String)
    → (check_needs jobs name i deps ≡ []) ↔ All (IsNeed jobs) deps
unfolding check_needs
check_needs-nil jobs name i [] = ground arith
check_needs-nil jobs name i (dep ∷ deps) =
    let rest = check_needs-nil jobs name (i + 1) deps in
    let here = need_errors-nil jobs (key "jobs" ∷ key name ∷ key "needs" ∷ index i ∷ []) name dep in
    let both =
      append_is_nil (need_errors jobs (key "jobs" ∷ key name ∷ key "needs" ∷ index i ∷ []) name dep)
        (check_needs jobs name (i + 1) deps) in
    let e = check_needs-cons jobs name i dep deps in
    (
      λ h. let p = both.0 (sym e ∙ h) in (here.0 p.0, rest.0 p.1),
      λ h. e ∙ both.1 (here.1 h.0, rest.1 h.1),
    )

-- The check of the needs of some jobs reports nothing exactly if each name that one of those jobs
-- needs is not empty and is the name of a job of the whole workflow that is there.
pub validate_needs-nil :
    (all jobs : Jobs)
    → (validate_needs all jobs ≡ []) ↔ All (λ (e : String × Option JobDef). HasNeeds all e.1) jobs
unfolding validate_needs
validate_needs-nil all [] = ground arith
validate_needs-nil all ((name, none) ∷ jobs) =
    let rest = validate_needs-nil all jobs in (λ h. (tt, rest.0 h), λ h. rest.1 h.1)
validate_needs-nil all ((name, some job) ∷ jobs) =
    let rest = validate_needs-nil all jobs in
    let here = check_needs-nil all name 0 job.needs in
    let both = append_is_nil (check_needs all name 0 job.needs) (validate_needs all jobs) in
    (λ h. let p = both.0 h in (here.0 p.0, rest.0 p.1), λ h. both.1 (here.1 h.0, rest.1 h.1))
