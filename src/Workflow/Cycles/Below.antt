-- ===== src/Workflow/Cycles/Below.antt =====
-- What the search below one job achieves when it finds no cycle: the jobs that it has left, the last
-- one first, come each before all that it needs.
use clai.Common.{
  ℕ, zero, suc, Bool, true, false, List, [], ◌∷◌, ◌++◌, Any, All, All-pick, String, str_eq_iff,
  str_eq_refl, Option, none, some, ◌≡◌, ◌≢◌, refl, subst, sym, arith, Bool-cases, Option-cases, inl,
  inr,
}
use clai.Workflow.Types.{JobDef}
use clai.Workflow.Cycles.{
  Jobs, job_of, Mark, unvisited, visiting, visited, Search, mark_of, enter, leave, report, ignored,
  Visit, scan, finished, dfs,
}
use clai.Workflow.Cycles.Edges.{In, IsOrdered}
use clai.Workflow.Cycles.Equations.{
  scan_on, Mark-cases, not_ignored, dfs-none, dfs-some, scan-ignored, scan-visited, scan-visiting,
  scan-unvisited,
}

-- The jobs that were left, the last one first.
abbrev pub left_jobs : List (String × Mark) → List String
left_jobs [] = []
left_jobs ((j, visited) ∷ rest) = j ∷ left_jobs rest
left_jobs ((_, _) ∷ rest) = left_jobs rest

pub visited-In :
    (a : String) (state : List (String × Mark)) → mark_of a state ≡ visited → In a (left_jobs state)
unfolding mark_of
visited-In a [] h = absurd (cc)
visited-In a ((j, visited) ∷ rest) h =
    let later = visited-In a rest in ground (arith, str_eq_iff j a)
visited-In a ((j, unvisited) ∷ rest) h =
    let later = visited-In a rest in ground (arith, str_eq_iff j a)
visited-In a ((j, visiting) ∷ rest) h =
    let later = visited-In a rest in ground (arith, str_eq_iff j a)

-- All that was left before is left after.
unfoldable pub Keeps : Search → Search → Type 0
Keeps s s' = (y : String) → mark_of y s.state ≡ visited → mark_of y s'.state ≡ visited

-- What is open after was open before.
unfoldable pub Settles : Search → Search → Type 0
Settles s s' = (y : String) → mark_of y s'.state ≡ visiting → mark_of y s.state ≡ visiting

module _ (jobs : Jobs) where
  -- What the search below a job achieves when it finds no cycle.
  pub record Done (job : String) (s s' : Search) : Type 0 where
    pub ordered : IsOrdered jobs (left_jobs s'.state)
    pub here : mark_of job s'.state ≡ visited
    pub keeps : Keeps s s'
    pub settles : Settles s s'

  unfoldable pub Outcome : String → Search → Option (Search × Bool) → Type 0
  Outcome job s none = Unit
  Outcome job s (some (s', true)) = s'.cycles ≢ []
  Outcome job s (some (s', false)) = Done job s s'

  -- The same for the loop over the needs of a job.
  record AllDone (deps : List String) (s s' : Search) : Type 0 where
    ordered : IsOrdered jobs (left_jobs s'.state)
    all : All (λ dep. ignored jobs dep ≡ false → mark_of dep s'.state ≡ visited) deps
    keeps : Keeps s s'
    settles : Settles s s'

  AllOutcome : List String → Search → Option (Search × Bool) → Type 0
  AllOutcome deps s none = Unit
  AllOutcome deps s (some (s', true)) = s'.cycles ≢ []
  AllOutcome deps s (some (s', false)) = AllDone deps s s'

  unfoldable pub Works : Visit → Type 0
  Works visit =
      (job : String) (s : Search)
      → mark_of job s.state ≡ unvisited
      → IsOrdered jobs (left_jobs s.state)
      → Outcome job s (visit job s)

  AllOutcome-cons :
      (dep : String) (deps : List String) (s s₁ : Search) (r : Option (Search × Bool))
      → Keeps s s₁
      → Settles s s₁
      → (ignored jobs dep ≡ false → mark_of dep s₁.state ≡ visited)
      → AllOutcome deps s₁ r
      → AllOutcome (dep ∷ deps) s r
  unfolding AllOutcome Keeps Settles
  AllOutcome-cons dep deps s s₁ none k w here o = tt
  AllOutcome-cons dep deps s s₁ (some (s', true)) k w here o = o
  AllOutcome-cons dep deps s s₁ (some (s', false)) k w here o = record {
    ordered = o.ordered;
    all = (λ i. o.keeps dep (here i), o.all);
    keeps = λ y v. o.keeps y (k y v);
    settles = λ y v. w y (o.settles y v);
  }

  report-cycles : (dep : String) (s : Search) → (report dep s).cycles ≢ []
  report-cycles dep s = nonempty s.cycles _
    where
      nonempty : (xs : List (List String)) (x : List String) → (xs ++ x ∷ []) ≢ []
      nonempty [] x e = cc
      nonempty (y ∷ ys) x e = cc

  module _ (visit : Visit) (deps : List String) where
    Goes : Type 0
    Goes =
        (s : Search)
        → IsOrdered jobs (left_jobs s.state)
        → AllOutcome deps s (scan visit jobs deps s)

    scan_on-AllOutcome :
        (dep : String) (s : Search) (r : Option (Search × Bool))
        → Goes
        → Outcome dep s r
        → AllOutcome (dep ∷ deps) s (scan_on jobs visit deps r)
    unfolding AllOutcome Outcome scan_on Goes
    scan_on-AllOutcome dep s none goes o = tt
    scan_on-AllOutcome dep s (some (s', true)) goes o = o
    scan_on-AllOutcome dep s (some (s', false)) goes o =
        AllOutcome-cons dep deps s s' (scan visit jobs deps s') o.keeps o.settles (λ i. o.here)
          (goes s' o.ordered)

    -- A need that is passed over.
    pass-AllOutcome :
        (dep : String) (s : Search)
        → AllOutcome deps s (scan visit jobs deps s)
        → (ignored jobs dep ≡ false → mark_of dep s.state ≡ visited)
        → AllOutcome (dep ∷ deps) s (scan visit jobs deps s)
    unfolding Keeps Settles
    pass-AllOutcome dep s o here =
        AllOutcome-cons dep deps s s (scan visit jobs deps s) (λ y v. v) (λ y v. v) here o

  module _ (visit : Visit) (works : Works visit) where
    scan-AllOutcome :
        (deps : List String) (s : Search)
        → IsOrdered jobs (left_jobs s.state)
        → AllOutcome deps s (scan visit jobs deps s)
    unfolding AllOutcome Keeps Settles scan Goes Works
    scan-AllOutcome [] s o = record { ordered = o; all = tt; keeps = λ y v. v; settles = λ y v. v }
    scan-AllOutcome (dep ∷ deps) s o =
        let rest = scan-AllOutcome deps s o in
        elim (Bool-cases (ignored jobs dep)) [
          | inl i ↦
              subst (AllOutcome (dep ∷ deps) s) (sym (scan-ignored jobs visit dep deps s i))
                (pass-AllOutcome visit deps dep s rest (λ j. absurd (cc)))
          | inr i ↦ elim (Mark-cases jobs (mark_of dep s.state)) [
            | inl new ↦
                subst (AllOutcome (dep ∷ deps) s) (sym (scan-unvisited jobs visit dep deps s i new))
                  (scan_on-AllOutcome visit deps dep s (visit dep s)
                    (λ s' o'. scan-AllOutcome deps s' o') (works dep s new o))
            | inr (inl busy) ↦
                subst (AllOutcome (dep ∷ deps) s) (sym (scan-visiting jobs visit dep deps s i busy))
                  (report-cycles dep s)
            | inr (inr done) ↦
                subst (AllOutcome (dep ∷ deps) s) (sym (scan-visited jobs visit dep deps s i done))
                  (pass-AllOutcome visit deps dep s rest (λ j. done))
          ]
        ]

  enter-Keeps :
      (job : String) (s : Search) → mark_of job s.state ≡ unvisited → Keeps s (enter job s)
  unfolding Keeps mark_of
  enter-Keeps job s new y v = ground (arith, str_eq_iff job y)

  leave-Keeps : (job : String) (s : Search) → Keeps s (leave job s)
  unfolding Keeps mark_of
  leave-Keeps job s y v = ground arith

  pub leave-Settles :
      (job : String) (s s' : Search)
      → mark_of job s.state ≡ unvisited
      → Settles (enter job s) s'
      → Settles s (leave job s')
  unfolding Settles mark_of
  leave-Settles job s s' new w y v = let before = w y in ground (arith, str_eq_iff job y)

  leave-here : (job : String) (s : Search) → mark_of job (leave job s).state ≡ visited
  unfolding mark_of
  leave-here job s = rw (str_eq_refl) refl

  finished-Outcome :
      (job : String) (s : Search) (def : JobDef) (r : Option (Search × Bool))
      → mark_of job s.state ≡ unvisited
      → job_of jobs job ≡ some def
      → AllOutcome def.needs (enter job s) r
      → Outcome job s (finished job r)
  unfolding AllOutcome Outcome Keeps IsOrdered
  finished-Outcome job s def none new there o = tt
  finished-Outcome job s def (some (s', true)) new there o = o
  finished-Outcome job s def (some (s', false)) new there o = record {
    ordered = (
      λ y e.
          let same : e.def ≡ def = cc in
          visited-In y s'.state (
            All-pick _ y def.needs o.all (subst (λ d. Any (λ x. x ≡ y) d.needs) same e.needed)
              (not_ignored jobs y e.other e.other_there e.named)),
      o.ordered,
    );
    here = leave-here job s';
    keeps = λ y v. leave-Keeps job s' y (o.keeps y (enter-Keeps job s new y v));
    settles = leave-Settles job s s' new o.settles;
  }

  pub dfs-Works : (fuel : ℕ) → Works (dfs fuel jobs)
  unfolding Works Outcome dfs IsOrdered Keeps Settles
  dfs-Works zero job s new o = tt
  dfs-Works (suc fuel) job s new o = elim (Option-cases (job_of jobs job)) [
    | inl gone ↦ subst (Outcome job s) (sym (dfs-none jobs fuel job s gone)) (record {
      ordered = (λ y e. absurd (let f = e.there in cc), o);
      here = leave-here job (enter job s);
      keeps = λ y v. leave-Keeps job (enter job s) y (enter-Keeps job s new y v);
      settles = leave-Settles job s (enter job s) new (λ y v. v);
    })
    | inr (def, there) ↦ subst (Outcome job s) (sym (dfs-some jobs fuel job s def there)) (
        finished-Outcome job s def _ new there
          (scan-AllOutcome (dfs fuel jobs) (dfs-Works fuel) def.needs (enter job s) o))
  ]
