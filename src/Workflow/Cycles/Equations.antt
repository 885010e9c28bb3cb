-- ===== src/Workflow/Cycles/Equations.antt =====
-- The equations of the search for dependency cycles, one for each way that it goes.
use clai.Common.{
  ℕ, suc, Bool, true, false, List, ◌∷◌, String, str_eq, str_eq_iff, Option, none, some, ◌≡◌, ◌≢◌,
  refl, arith, Option-cases, inl, inr, ◌⊎◌,
}
use clai.Workflow.Types.{JobDef}
use clai.Workflow.Cycles.{
  Jobs, job_of, Mark, unvisited, visiting, visited, Search, mark_of, enter, leave, report, ignored,
  Visit, scan, finished, dfs, search_all,
}

ignored-gone : (jobs : Jobs) (dep : String) → job_of jobs dep ≡ none → ignored jobs dep ≡ true
unfolding ignored
ignored-gone jobs dep gone = rw (ignored, gone) refl

ignored-there :
    (jobs : Jobs) (dep : String) (def : JobDef)
    → job_of jobs dep ≡ some def
    → ignored jobs dep ≡ str_eq dep ""
unfolding ignored
ignored-there jobs dep def there = rw (ignored, there) refl

-- A need that the loop does not pass over names a job.
pub not_ignored-job :
    (jobs : Jobs) (dep : String)
    → ignored jobs dep ≡ false
    → (def : JobDef) × (job_of jobs dep ≡ some def)
not_ignored-job jobs dep i = elim (Option-cases (job_of jobs dep)) [
  | inl gone ↦ absurd (let e = ignored-gone jobs dep gone in cc)
  | inr there ↦ there
]

pub not_ignored-named : (jobs : Jobs) (dep : String) → ignored jobs dep ≡ false → dep ≢ ""
not_ignored-named jobs dep i empty =
    let (def, there) = not_ignored-job jobs dep i in
    let e = ignored-there jobs dep def there in ground (arith, str_eq_iff dep "")

module _ (jobs : Jobs) where
  -- How the loop goes on after a need that was searched.
  unfoldable pub scan_on : Visit → List String → Option (Search × Bool) → Option (Search × Bool)
  scan_on visit deps none = none
  scan_on visit deps (some (s', true)) = some (s', true)
  scan_on visit deps (some (s', false)) = scan visit jobs deps s'

  module _ (visit : Visit) (dep : String) (deps : List String) (s : Search) where
    pub scan-ignored :
        ignored jobs dep ≡ true → scan visit jobs (dep ∷ deps) s ≡ scan visit jobs deps s
    unfolding scan
    scan-ignored i = rw (scan, i)

    module _ (i : ignored jobs dep ≡ false) where
      pub scan-visited :
          mark_of dep s.state ≡ visited → scan visit jobs (dep ∷ deps) s ≡ scan visit jobs deps s
      unfolding scan
      scan-visited v = rw (scan, i, v)

      pub scan-visiting :
          mark_of dep s.state ≡ visiting
          → scan visit jobs (dep ∷ deps) s ≡ some (report dep s, true)
      unfolding scan
      scan-visiting v = rw (scan, i, v)

      pub scan-unvisited :
          mark_of dep s.state ≡ unvisited
          → scan visit jobs (dep ∷ deps) s ≡ scan_on visit deps (visit dep s)
      unfolding scan scan_on
      scan-unvisited v = elim (Option-cases (visit dep s)) [
        | inl n ↦ rw (scan, i, v, n)
        | inr ((s', true), e) ↦ rw (scan, i, v, e)
        | inr ((s', false), e) ↦ rw (scan, i, v, e)
      ]

  pub Mark-cases : (m : Mark) → (m ≡ unvisited) ⊎ ((m ≡ visiting) ⊎ (m ≡ visited))
  Mark-cases unvisited = inl refl
  Mark-cases visiting = inr (inl refl)
  Mark-cases visited = inr (inr refl)

  pub not_ignored :
      (b : String) (other : JobDef) → job_of jobs b ≡ some other → b ≢ "" → ignored jobs b ≡ false
  unfolding ignored
  not_ignored b other e named = rw (ignored, e) (ground (arith, str_eq_iff b ""))

  pub dfs-none :
      (fuel : ℕ) (job : String) (s : Search)
      → job_of jobs job ≡ none
      → dfs (suc fuel) jobs job s ≡ some (leave job (enter job s), false)
  unfolding dfs
  dfs-none fuel job s e = rw (dfs, e)

  pub dfs-some :
      (fuel : ℕ) (job : String) (s : Search) (def : JobDef)
      → job_of jobs job ≡ some def
      → dfs (suc fuel) jobs job s ≡ finished job (scan (dfs fuel jobs) jobs def.needs (enter job s))
  unfolding dfs
  dfs-some fuel job s def e = rw (dfs, e)

  -- How the loop over the names goes on after one that was searched.
  unfoldable pub search_on : ℕ → List String → Option (Search × Bool) → Option Search
  search_on fuel names none = none
  search_on fuel names (some (s', true)) = some s'
  search_on fuel names (some (s', false)) = search_all fuel jobs names s'

  pub search_all-unvisited :
      (fuel : ℕ) (name : String) (names : List String) (s : Search)
      → mark_of name s.state ≡ unvisited
      → search_all fuel jobs (name ∷ names) s ≡ search_on fuel names (dfs fuel jobs name s)
  unfolding search_all search_on
  search_all-unvisited fuel name names s v = elim (Option-cases (dfs fuel jobs name s)) [
    | inl n ↦ rw (search_all, v, n)
    | inr ((s', true), e) ↦ rw (search_all, v, e)
    | inr ((s', false), e) ↦ rw (search_all, v, e)
  ]

  pub search_all-visited :
      (fuel : ℕ) (name : String) (names : List String) (s : Search)
      → mark_of name s.state ≡ visited
      → search_all fuel jobs (name ∷ names) s ≡ search_all fuel jobs names s
  unfolding search_all
  search_all-visited fuel name names s v = rw (search_all, v)

  pub search_all-visiting :
      (fuel : ℕ) (name : String) (names : List String) (s : Search)
      → mark_of name s.state ≡ visiting
      → search_all fuel jobs (name ∷ names) s ≡ search_all fuel jobs names s
  unfolding search_all
  search_all-visiting fuel name names s v = rw (search_all, v)
