-- ===== src/Workflow/Cycles.antt =====
-- internal/workflow/validate.go, validateDependencyCycles and cyclePath: a depth-first search for a
-- circular dependency. The recursion runs on fuel; `none` means that the fuel ran out. The stack is
-- kept with its top first. A job's name that the map lacks and one whose job is nil look alike to
-- this code, as `wf.Jobs[job]` is nil for both.
use clai.Common.{
  ℕ, zero, suc, ◌+◌, if◌then◌else◌, Bool, true, false, ◌||◌, List, [], ◌∷◌, ◌++◌, length, String,
  str_eq, Option, none, some,
}
use clai.Common.StringMap.{StringMap}
use clai.Common.StringMap
use mathlib.Core.List.{reverse}
use clai.Workflow.Types.{JobDef}
pub mod Edges
mod Equations
mod Below
pub mod Acyclic
pub mod Fuel
pub mod Sound
mod Samples

abbrev pub Jobs : Type 0
Jobs = StringMap (Option JobDef)

abbrev joined : Option (Option JobDef) → Option JobDef
joined none = none
joined (some job) = job

-- `wf.Jobs[job]`, nil where the map has no such job.
unfoldable pub job_of : Jobs → String → Option JobDef
unfolding StringMap.lookup
job_of jobs name = joined (StringMap.lookup name jobs)

-- 0=unvisited, 1=visiting, 2=visited
pub data Mark : Type 0 where
  unvisited visiting visited : Mark

pub record Search : Type 0 where
  pub state : List (String × Mark)
  pub stack : List String
  pub cycles : List (List String)

-- `state[job]`: the entry written last.
unfoldable pub mark_of : String → List (String × Mark) → Mark
mark_of k [] = unvisited
mark_of k ((j, m) ∷ rest) = if str_eq j k then m else mark_of k rest

-- The stack down to the target, the whole stack if it is not there.
unfoldable pub down_to : String → List String → List String
down_to target [] = []
down_to target (x ∷ xs) = if str_eq x target then x ∷ [] else x ∷ down_to target xs

-- `cyclePath`
unfoldable pub cycle_path : List String → String → List String
unfolding down_to
cycle_path stack target = reverse (down_to target stack) ++ target ∷ []

abbrev pub enter : String → Search → Search
enter job s = record s { state = (job, visiting) ∷ s.state; stack = job ∷ s.stack }

abbrev pop : List String → List String
pop [] = []
pop (_ ∷ xs) = xs

abbrev pub leave : String → Search → Search
leave job s = record s { state = (job, visited) ∷ s.state; stack = pop s.stack }

abbrev pub report : String → Search → Search
report dep s = record s { cycles = s.cycles ++ cycle_path s.stack dep ∷ [] }

-- `dep == ""`, or a job that is not there.
unfoldable pub ignored : Jobs → String → Bool
ignored jobs dep = elim (job_of jobs dep) [ none ↦ true | some _ ↦ str_eq dep "" ]

abbrev pub Visit : Type 0
Visit = String → Search → Option (Search × Bool)

-- The loop over the dependencies of a job: `true` stops the search.
unfoldable pub scan : Visit → Jobs → List String → Search → Option (Search × Bool)
scan dfs jobs [] s = some (s, false)
scan dfs jobs (dep ∷ deps) s = elim (ignored jobs dep) [
  | true ↦ scan dfs jobs deps s
  | false ↦ elim (mark_of dep s.state) [
    | unvisited ↦ elim (dfs dep s) [
      | none ↦ none
      | some (s', found) ↦ elim found [ true ↦ some (s', true) | false ↦ scan dfs jobs deps s' ]
    ]
    | visiting ↦ some (report dep s, true)
    | visited ↦ scan dfs jobs deps s
  ]
]

-- Leave the job unless a cycle was found below it.
abbrev pub finish : String → Search × Bool → Search × Bool
finish job (s, true) = (s, true)
finish job (s, false) = (leave job s, false)

abbrev pub finished : String → Option (Search × Bool) → Option (Search × Bool)
finished job none = none
finished job (some r) = some (finish job r)

-- `dfs`
unfoldable pub dfs : ℕ → Jobs → Visit
dfs zero jobs job s = none
dfs (suc fuel) jobs job s = elim (job_of jobs job) [
  | none ↦ some (leave job (enter job s), false)
  | some def ↦ finished job (scan (dfs fuel jobs) jobs def.needs (enter job s))
]

-- The loop over the sorted names of the jobs.
unfoldable pub search_all : ℕ → Jobs → List String → Search → Option Search
search_all fuel jobs [] s = some s
search_all fuel jobs (name ∷ names) s = elim (mark_of name s.state) [
  | unvisited ↦ elim (dfs fuel jobs name s) [
    | none ↦ none
    | some (s', found) ↦ elim found [ true ↦ some s' | false ↦ search_all fuel jobs names s' ]
  ]
  | _ ↦ search_all fuel jobs names s
]

abbrev pub start : Search
start = record { state = []; stack = []; cycles = [] }

abbrev pub found_cycles : Option Search → Option (List (List String))
found_cycles none = none
found_cycles (some s) = some s.cycles

-- `validateDependencyCycles`: the paths that its errors print. `names` is the sorted list of the
-- keys of `jobs`; every job is entered once at most, so one more than their number is fuel enough.
unfoldable pub validate_dependency_cycles : Jobs → List String → Option (List (List String))
unfolding search_all dfs scan ignored job_of mark_of cycle_path
validate_dependency_cycles jobs names =
    found_cycles (search_all (suc (length names)) jobs names start)
