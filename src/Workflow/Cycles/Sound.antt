-- ===== src/Workflow/Cycles/Sound.antt =====
-- The search for dependency cycles is sound: where it reports one, some job needs itself.
use clai.Common.{
  ℕ, zero, suc, length, Bool, true, false, List, [], ◌∷◌, All, All-from, String, str_eq, str_eq_iff,
  Option, none, some, ◌≡◌, ◌≢◌, ◌↔◌, refl, subst, sym, ◌∙◌, arith, Bool-cases, Option-cases, inl,
  inr, ◌⊎◌,
}
use clai.Workflow.Types.{JobDef}
use clai.Workflow.Cycles.{
  Jobs, job_of, unvisited, visiting, Search, mark_of, enter, ignored, Visit, scan, finished, dfs,
  search_all, start, found_cycles, validate_dependency_cycles,
}
use clai.Workflow.Cycles.Edges.{Edge, Needs, direct, via, In}
use clai.Workflow.Cycles.Equations.{
  scan_on, Mark-cases, dfs-none, dfs-some, scan-ignored, scan-visited, scan-visiting,
  scan-unvisited, search_on, search_all-unvisited, search_all-visited, not_ignored-job,
  not_ignored-named,
}
use clai.Workflow.Cycles.Below.{Settles, leave-Settles}
use clai.Workflow.Cycles.Acyclic.{validate_dependency_cycles-acyclic}
use clai.Workflow.Cycles.Fuel.{validate_dependency_cycles-ends}

module _ (jobs : Jobs) where
  Needs-Edge : (a b c : String) → Needs jobs a b → Edge jobs b c → Needs jobs a c
  Needs-Edge a b c (direct e) f = via e (direct f)
  Needs-Edge a b c (via {b = d} e p) f = via e (Needs-Edge d b c p f)

  -- Some job needs itself.
  abbrev HasCycle : Type 0
  HasCycle = (a : String) × Needs jobs a a

  Outcome : Search → Option (Search × Bool) → Type 0
  Outcome s none = Unit
  Outcome s (some (s', true)) = HasCycle
  Outcome s (some (s', false)) = (s'.cycles ≡ s.cycles) × Settles s s'

  Outcome-after :
      (s s₁ : Search) (r : Option (Search × Bool))
      → s₁.cycles ≡ s.cycles
      → Settles s s₁
      → Outcome s₁ r
      → Outcome s r
  unfolding Outcome Settles
  Outcome-after s s₁ none same w o = tt
  Outcome-after s s₁ (some (s', true)) same w o = o
  Outcome-after s s₁ (some (s', false)) same w o = (o.0 ∙ same, λ y v. w y (o.1 y v))

  -- All that is open when the search comes to a job leads to it.
  Leads : String → Search → Type 0
  Leads job s = (y : String) → mark_of y s.state ≡ visiting → Needs jobs y job

  -- The same once it has entered the job.
  LeadsInto : String → Search → Type 0
  LeadsInto job s = (y : String) → mark_of y s.state ≡ visiting → (y ≡ job) ⊎ Needs jobs y job

  Sound : Visit → Type 0
  Sound visit =
      (job : String) (s : Search)
      → mark_of job s.state ≡ unvisited
      → Leads job s
      → Outcome s (visit job s)

  scan_on-Outcome :
      (visit : Visit) (job : String) (deps : List String) (s : Search) (r : Option (Search × Bool))
      → ((s' : Search) → LeadsInto job s' → Outcome s' (scan visit jobs deps s'))
      → LeadsInto job s
      → Outcome s r
      → Outcome s (scan_on jobs visit deps r)
  unfolding Outcome scan_on LeadsInto Settles
  scan_on-Outcome visit job deps s none goes l o = tt
  scan_on-Outcome visit job deps s (some (s', true)) goes l o = o
  scan_on-Outcome visit job deps s (some (s', false)) goes l o =
      Outcome-after s s' (scan visit jobs deps s') o.0 o.1 (goes s' (λ y v. l y (o.1 y v)))

  module _ (visit : Visit) (sound : Sound visit) (job : String) (def : JobDef)
      (there : job_of jobs job ≡ some def) where
    Edge-to : (dep : String) → In dep def.needs → ignored jobs dep ≡ false → Edge jobs job dep
    Edge-to dep needed i =
        let (other, other_there) = not_ignored-job jobs dep i in
        record {
          def = def;
          there = there;
          needed = needed;
          other = other;
          other_there = other_there;
          named = not_ignored-named jobs dep i;
        }

    scan-Outcome :
        (deps : List String) (s : Search)
        → All (λ dep. In dep def.needs) deps
        → LeadsInto job s
        → Outcome s (scan visit jobs deps s)
    unfolding Outcome Settles scan Sound LeadsInto Leads
    scan-Outcome [] s needed l = (refl, λ y v. v)
    scan-Outcome (dep ∷ deps) s needed l =
        let rest = scan-Outcome deps s needed.1 l in
        elim (Bool-cases (ignored jobs dep)) [
          | inl i ↦ subst (Outcome s) (sym (scan-ignored jobs visit dep deps s i)) rest
          | inr i ↦
              let e = Edge-to dep needed.0 i in
              elim (Mark-cases jobs (mark_of dep s.state)) [
                | inl new ↦ subst (Outcome s) (sym (scan-unvisited jobs visit dep deps s i new)) (
                    scan_on-Outcome visit job deps s (visit dep s)
                      (λ s' l'. scan-Outcome deps s' needed.1 l') l
                      (sound dep s new (λ y v. extend y dep (l y v) e)))
                | inr (inl busy) ↦
                    subst (Outcome s) (sym (scan-visiting jobs visit dep deps s i busy))
                      (dep, extend dep dep (l dep busy) e)
                | inr (inr done) ↦
                    subst (Outcome s) (sym (scan-visited jobs visit dep deps s i done)) rest
              ]
        ]
      where
        extend : (y c : String) → (y ≡ job) ⊎ Needs jobs y job → Edge jobs job c → Needs jobs y c
        extend y c (inl same) f = subst (λ z. Needs jobs z c) (sym same) (direct f)
        extend y c (inr p) f = Needs-Edge y job c p f

  needs-In : (xs : List String) → All (λ dep. In dep xs) xs
  needs-In xs = All-from (λ dep. In dep xs) xs (λ x i. i)

  enter-LeadsInto : (job : String) (s : Search) → Leads job s → LeadsInto job (enter job s)
  unfolding Leads LeadsInto mark_of
  enter-LeadsInto job s l y v = elim (Bool-cases (str_eq job y)) [
    | inl same ↦ inl (sym ((str_eq_iff job y).0 same))
    | inr other ↦ inr (l y (ground (arith)))
  ]

  finished-Outcome :
      (job : String) (s : Search) (r : Option (Search × Bool))
      → mark_of job s.state ≡ unvisited
      → Outcome (enter job s) r
      → Outcome s (finished job r)
  unfolding Outcome
  finished-Outcome job s none new o = tt
  finished-Outcome job s (some (s', true)) new o = o
  finished-Outcome job s (some (s', false)) new o = (o.0, leave-Settles jobs job s s' new o.1)

  dfs-Sound : (fuel : ℕ) → Sound (dfs fuel jobs)
  unfolding Sound Outcome dfs Settles
  dfs-Sound zero job s new l = tt
  dfs-Sound (suc fuel) job s new l = elim (Option-cases (job_of jobs job)) [
    | inl gone ↦
        subst (Outcome s) (sym (dfs-none jobs fuel job s gone))
          (refl, leave-Settles jobs job s (enter job s) new (λ y v. v))
    | inr (def, there) ↦ subst (Outcome s) (sym (dfs-some jobs fuel job s def there)) (
        finished-Outcome job s _ new (
          scan-Outcome (dfs fuel jobs) (dfs-Sound fuel) job def there def.needs (enter job s)
            (needs-In def.needs) (enter-LeadsInto job s l)))
  ]

  -- A report of the whole search is due to a cycle.
  Reported : Search → Option Search → Type 0
  Reported s none = Unit
  Reported s (some s') = (s'.cycles ≡ s.cycles) ⊎ HasCycle

  IsCalm : Search → Type 0
  IsCalm s = (y : String) → mark_of y s.state ≢ visiting

  Reported-after :
      (s s' : Search) (r : Option Search) → s'.cycles ≡ s.cycles → Reported s' r → Reported s r
  unfolding Reported
  Reported-after s s' none same o = tt
  Reported-after s s' (some s₂) same (inl o) = inl (o ∙ same)
  Reported-after s s' (some s₂) same (inr o) = inr o

  search_on-Reported :
      (fuel : ℕ) (names : List String) (s : Search) (r : Option (Search × Bool))
      → ((s' : Search) → IsCalm s' → Reported s' (search_all fuel jobs names s'))
      → IsCalm s
      → Outcome s r
      → Reported s (search_on jobs fuel names r)
  unfolding Reported Outcome search_on IsCalm Settles
  search_on-Reported fuel names s none goes calm o = tt
  search_on-Reported fuel names s (some (s', true)) goes calm o = inr o
  search_on-Reported fuel names s (some (s', false)) goes calm o =
      Reported-after s s' (search_all fuel jobs names s') o.0 (goes s' (λ y v. calm y (o.1 y v)))

  search_all-Reported :
      (fuel : ℕ) (names : List String) (s : Search)
      → IsCalm s
      → Reported s (search_all fuel jobs names s)
  unfolding Reported IsCalm search_all Sound Leads
  search_all-Reported fuel [] s calm = inl refl
  search_all-Reported fuel (name ∷ names) s calm =
      let rest = search_all-Reported fuel names s calm in
      elim (Mark-cases jobs (mark_of name s.state)) [
        | inl new ↦ subst (Reported s) (sym (search_all-unvisited jobs fuel name names s new)) (
            search_on-Reported fuel names s (dfs fuel jobs name s)
              (λ s' calm'. search_all-Reported fuel names s' calm') calm
              (dfs-Sound fuel name s new (λ y v. absurd (calm y v))))
        | inr (inl busy) ↦ absurd (calm name busy)
        | inr (inr done) ↦
            subst (Reported s) (sym (search_all-visited jobs fuel name names s done)) rest
      ]

-- If the search ends with an error, some job needs itself, directly or through other jobs.
pub validate_dependency_cycles-cyclic :
    (jobs : Jobs) (names : List String) (path : List String) (paths : List (List String))
    → validate_dependency_cycles jobs names ≡ some (path ∷ paths)
    → (a : String) × Needs jobs a a
unfolding validate_dependency_cycles IsCalm mark_of Reported
validate_dependency_cycles-cyclic jobs names path paths e =
    let fuel = suc (length names) in
    found (search_all fuel jobs names start) e
      (search_all-Reported jobs fuel names start (λ y v. cc))
  where
    found :
        (r : Option Search)
        → found_cycles r ≡ some (path ∷ paths)
        → Reported jobs start r
        → (a : String) × Needs jobs a a
    found none f o = absurd (cc)
    found (some s) f (inl same) = absurd (cc)
    found (some s) f (inr cycle) = cycle

Needs-job :
    (jobs : Jobs) (a b : String) → Needs jobs a b → (def : JobDef) × (job_of jobs a ≡ some def)
Needs-job jobs a b (direct e) = (e.def, e.there)
Needs-job jobs a b (via e p) = (e.def, e.there)

-- If every job is among the names, the search ends without an error exactly if no job needs
-- itself, directly or through other jobs.
pub validate_dependency_cycles_iff :
    (jobs : Jobs) (names : List String)
    → ((j : String) (def : JobDef) → job_of jobs j ≡ some def → In j names)
    → (validate_dependency_cycles jobs names ≡ some []) ↔ ((a : String) → Needs jobs a a → ⊥)
validate_dependency_cycles_iff jobs names complete = (
  λ quiet a p.
      let (def, there) = Needs-job jobs a a p in
      validate_dependency_cycles-acyclic jobs names a quiet (complete a def there) p,
  λ none_cyclic.
      let (paths, e) = validate_dependency_cycles-ends jobs names complete in
      silent none_cyclic paths e,
)
  where
    silent :
        ((a : String) → Needs jobs a a → ⊥)
        → (paths : List (List String)) → validate_dependency_cycles jobs names ≡ some paths
        → validate_dependency_cycles jobs names ≡ some []
    silent calm [] e = e
    silent calm (path ∷ paths) e =
        let (a, p) = validate_dependency_cycles-cyclic jobs names path paths e in absurd (calm a p)
