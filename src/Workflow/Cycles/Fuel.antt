-- ===== src/Workflow/Cycles/Fuel.antt =====
-- The search for dependency cycles ends: each call of `dfs` marks one more of the names, so one
-- more unit of fuel than there are names is enough.
use clai.Common.{
  ℕ, zero, suc, ◌+◌, ◌≤◌, ◌<◌, length, Bool, true, false, List, [], ◌∷◌, All, All-from, String,
  str_eq_iff, Option, none, some, ◌≡◌, ◌≢◌, subst, sym, ap, arith, Bool-cases, Option-cases, inl,
  inr,
}
use clai.Workflow.Types.{JobDef}
use clai.Workflow.Cycles.{
  Jobs, job_of, Mark, unvisited, visiting, visited, Search, mark_of, enter, leave, ignored, Visit,
  scan, finished, dfs, search_all, start, found_cycles, validate_dependency_cycles,
}
use clai.Workflow.Cycles.Edges.{In}
use clai.Workflow.Cycles.Equations.{
  not_ignored-job, scan_on, Mark-cases, dfs-none, dfs-some, scan-ignored, scan-visited,
  scan-visiting, scan-unvisited, search_on, search_all-unvisited, search_all-visited,
  search_all-visiting,
}

abbrev is_unvisited : Mark → ℕ
is_unvisited unvisited = 1
is_unvisited visiting = 0
is_unvisited visited = 0

-- How many of the names are unvisited.
abbrev count_unvisited : List String → Search → ℕ
count_unvisited [] s = 0
count_unvisited (name ∷ names) s = is_unvisited (mark_of name s.state) + count_unvisited names s

-- What was marked before is marked after.
Marks : Search → Search → Type 0
Marks s s' = (y : String) → mark_of y s'.state ≡ unvisited → mark_of y s.state ≡ unvisited

Marks-count :
    (names : List String) (s s' : Search)
    → Marks s s'
    → count_unvisited names s' ≤ count_unvisited names s
unfolding Marks
Marks-count [] s s' m = omega arith
Marks-count (name ∷ names) s s' m =
    let rest = Marks-count names s s' m in let here = m name in ground arith

enter-Marks : (job : String) (s : Search) → Marks s (enter job s)
unfolding Marks mark_of
enter-Marks job s y v = ground (arith, str_eq_iff job y)

leave-Marks : (job : String) (s : Search) → Marks s (leave job s)
unfolding Marks mark_of
leave-Marks job s y v = ground (arith, str_eq_iff job y)

enter-count :
    (names : List String) (job : String) (s : Search)
    → In job names
    → mark_of job s.state ≡ unvisited
    → count_unvisited names (enter job s) < count_unvisited names s
unfolding mark_of Marks
enter-count [] job s i new = absurd i
enter-count (name ∷ names) job s (inl same) new =
    let rest = Marks-count names s (enter job s) (enter-Marks job s) in
    let here : mark_of name s.state ≡ unvisited =
      subst (λ x. mark_of x s.state ≡ unvisited) (sym same) new in
    ground (arith, str_eq_iff job name)
enter-count (name ∷ names) job s (inr i) new =
    let rest = enter-count names job s i new in
    let here = enter-Marks job s name in ground (arith, str_eq_iff job name)

-- Something is returned, and what was marked stays marked.
Ends : Search → Option (Search × Bool) → Type 0
Ends s none = ⊥
Ends s (some (s', _)) = Marks s s'

Ends-after : (s s₁ : Search) (r : Option (Search × Bool)) → Marks s s₁ → Ends s₁ r → Ends s r
unfolding Ends Marks
Ends-after s s₁ none m e = e
Ends-after s s₁ (some (s', b)) m e = λ y v. m y (e y v)

Ends-finished :
    (job : String) (s : Search) (r : Option (Search × Bool)) → Ends s r → Ends s (finished job r)
unfolding Ends Marks
Ends-finished job s none e = e
Ends-finished job s (some (s', true)) e = e
Ends-finished job s (some (s', false)) e = λ y v. e y (leave-Marks job s' y v)

module _ (jobs : Jobs) (names : List String)
    (complete : (j : String) (def : JobDef) → job_of jobs j ≡ some def → In j names) where
  Enough : ℕ → Visit → Type 0
  Enough fuel visit =
      (job : String) (s : Search)
      → In job names
      → mark_of job s.state ≡ unvisited
      → count_unvisited names s ≤ fuel
      → Ends s (visit job s)

  scan_on-Ends :
      (visit : Visit) (fuel : ℕ) (deps : List String) (s : Search) (r : Option (Search × Bool))
      → ((s' : Search) → count_unvisited names s' ≤ fuel → Ends s' (scan visit jobs deps s'))
      → count_unvisited names s ≤ fuel
      → Ends s r
      → Ends s (scan_on jobs visit deps r)
  unfolding Ends scan_on
  scan_on-Ends visit fuel deps s none goes c e = e
  scan_on-Ends visit fuel deps s (some (s', true)) goes c e = e
  scan_on-Ends visit fuel deps s (some (s', false)) goes c e =
      Ends-after s s' (scan visit jobs deps s') e
        (goes s' (omega (arith, Marks-count names s s' e)))

  scan-Ends :
      (visit : Visit) (fuel : ℕ)
      → Enough fuel visit
      → (deps : List String) (s : Search) → count_unvisited names s ≤ fuel
      → Ends s (scan visit jobs deps s)
  unfolding Ends Marks scan Enough
  scan-Ends visit fuel enough [] s c = λ y v. v
  scan-Ends visit fuel enough (dep ∷ deps) s c =
      let rest = scan-Ends visit fuel enough deps s c in
      elim (Bool-cases (ignored jobs dep)) [
        | inl i ↦ subst (Ends s) (sym (scan-ignored jobs visit dep deps s i)) rest
        | inr i ↦ elim (Mark-cases jobs (mark_of dep s.state)) [
          | inl new ↦
              let (def, there) = not_ignored-job jobs dep i in
              subst (Ends s) (sym (scan-unvisited jobs visit dep deps s i new)) (
                scan_on-Ends visit fuel deps s (visit dep s)
                  (λ s' c'. scan-Ends visit fuel enough deps s' c') c
                  (enough dep s (complete dep def there) new c))
          | inr (inl busy) ↦
              subst (Ends s) (sym (scan-visiting jobs visit dep deps s i busy)) (λ y v. v)
          | inr (inr done) ↦ subst (Ends s) (sym (scan-visited jobs visit dep deps s i done)) rest
        ]
      ]

  dfs-Enough : (fuel : ℕ) → Enough fuel (dfs fuel jobs)
  unfolding Enough Ends Marks dfs
  dfs-Enough zero job s i new c = absurd (omega (arith, enter-count names job s i new))
  dfs-Enough (suc fuel) job s i new c =
      let less = enter-count names job s i new in
      elim (Option-cases (job_of jobs job)) [
        | inl gone ↦
            subst (Ends s) (sym (dfs-none jobs fuel job s gone))
              (λ y v. enter-Marks job s y (leave-Marks job (enter job s) y v))
        | inr (def, there) ↦ subst (Ends s) (sym (dfs-some jobs fuel job s def there)) (
            Ends-finished job s _ (
              Ends-after s (enter job s) _ (enter-Marks job s) (
                scan-Ends (dfs fuel jobs) fuel (dfs-Enough fuel) def.needs (enter job s)
                  (omega arith))))
      ]

  search_on-some :
      (fuel : ℕ) (rest : List String) (s : Search) (r : Option (Search × Bool))
      → ((s' : Search) → count_unvisited names s' ≤ fuel → search_all fuel jobs rest s' ≢ none)
      → count_unvisited names s ≤ fuel
      → Ends s r
      → search_on jobs fuel rest r ≢ none
  unfolding Ends search_on
  search_on-some fuel rest s none goes c e = absurd e
  search_on-some fuel rest s (some (s', true)) goes c e = λ f. absurd (cc)
  search_on-some fuel rest s (some (s', false)) goes c e =
      goes s' (omega (arith, Marks-count names s s' e))

  search_all-some :
      (fuel : ℕ) (rest : List String) (s : Search)
      → All (λ name. In name names) rest
      → count_unvisited names s ≤ fuel
      → search_all fuel jobs rest s ≢ none
  unfolding search_all Enough
  search_all-some fuel [] s i c = λ f. absurd (cc)
  search_all-some fuel (name ∷ rest) s i c = elim (Mark-cases jobs (mark_of name s.state)) [
    | inl new ↦
        subst (λ r. r ≢ none) (sym (search_all-unvisited jobs fuel name rest s new))
          (search_on-some fuel rest s (dfs fuel jobs name s)
            (λ s' c'. search_all-some fuel rest s' i.1 c') c (dfs-Enough fuel name s i.0 new c))
    | inr (inl busy) ↦
        subst (λ r. r ≢ none) (sym (search_all-visiting jobs fuel name rest s busy))
          (search_all-some fuel rest s i.1 c)
    | inr (inr done) ↦
        subst (λ r. r ≢ none) (sym (search_all-visited jobs fuel name rest s done))
          (search_all-some fuel rest s i.1 c)
  ]

-- If every job is among the names, the search ends with a result.
pub validate_dependency_cycles-ends :
    (jobs : Jobs) (names : List String)
    → ((j : String) (def : JobDef) → job_of jobs j ≡ some def → In j names)
    → (paths : List (List String)) × (validate_dependency_cycles jobs names ≡ some paths)
unfolding validate_dependency_cycles
validate_dependency_cycles-ends jobs names complete =
    elim (Option-cases (search_all (suc (length names)) jobs names start)) [
      | inl n ↦ absurd (
          search_all-some jobs names complete (suc (length names)) names start
            (All-from (λ name. In name names) names (λ x i. i)) (count names) n)
      | inr (s, e) ↦ (s.cycles, ap found_cycles e)
    ]
  where
    count : (xs : List String) → count_unvisited xs start ≤ suc (length xs)
    count [] = omega arith
    count (x ∷ xs) = let rest = count xs in omega arith
