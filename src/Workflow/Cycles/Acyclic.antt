-- ===== src/Workflow/Cycles/Acyclic.antt =====
-- The search for dependency cycles is complete: where it reports nothing there is no cycle.
use clai.Common.{
  ℕ, suc, length, Bool, true, false, List, [], ◌∷◌, All, All-pick, String, Option, none, some, ◌≡◌,
  ◌≢◌, subst, sym, inl, inr,
}
use clai.Workflow.Cycles.{
  Jobs, visiting, visited, Search, mark_of, dfs, search_all, start, found_cycles,
  validate_dependency_cycles,
}
use clai.Workflow.Cycles.Edges.{In, Needs, IsOrdered, IsOrdered-acyclic}
use clai.Workflow.Cycles.Equations.{search_on, Mark-cases, search_all-unvisited, search_all-visited}
use clai.Workflow.Cycles.Below.{left_jobs, visited-In, Keeps, Settles, Outcome, Works, dfs-Works}

module _ (jobs : Jobs) where
  -- What the loop over the names achieves: what is in `names` was left, or a cycle was reported.
  record Searched (names : List String) (s s' : Search) : Type 0 where
    ordered : IsOrdered jobs (left_jobs s'.state)
    all : All (λ name. mark_of name s'.state ≡ visited) names
    keeps : Keeps s s'

  SearchedUnless : List String → Search → Option Search → Type 0
  SearchedUnless names s none = Unit
  SearchedUnless names s (some s') = s'.cycles ≡ [] → Searched names s s'

  Searched-cons :
      (name : String) (names : List String) (s s₁ : Search) (r : Option Search)
      → mark_of name s₁.state ≡ visited
      → Keeps s s₁
      → SearchedUnless names s₁ r
      → SearchedUnless (name ∷ names) s r
  unfolding SearchedUnless Keeps
  Searched-cons name names s s₁ none here k o = tt
  Searched-cons name names s s₁ (some s') here k o = λ quiet.
      let done = o quiet in
      record {
        ordered = done.ordered;
        all = (done.keeps name here, done.all);
        keeps = λ y v. done.keeps y (k y v);
      }

  -- No job is open.
  IsSettled : Search → Type 0
  IsSettled s = (y : String) → mark_of y s.state ≢ visiting

  search_on-Searched :
      (fuel : ℕ) (name : String) (names : List String) (s : Search) (r : Option (Search × Bool))
      → ((s' : Search)
          → IsOrdered jobs (left_jobs s'.state)
          → IsSettled s'
          → SearchedUnless names s' (search_all fuel jobs names s'))
      → IsSettled s
      → Outcome jobs name s r
      → SearchedUnless (name ∷ names) s (search_on jobs fuel names r)
  unfolding SearchedUnless search_on Outcome IsSettled Settles
  search_on-Searched fuel name names s none goes calm o = tt
  search_on-Searched fuel name names s (some (s', true)) goes calm o = λ quiet. absurd (o quiet)
  search_on-Searched fuel name names s (some (s', false)) goes calm o =
      Searched-cons name names s s' (search_all fuel jobs names s') o.here o.keeps
        (goes s' o.ordered (λ y v. calm y (o.settles y v)))

  search_all-Searched :
      (fuel : ℕ) (names : List String) (s : Search)
      → IsOrdered jobs (left_jobs s.state)
      → IsSettled s
      → SearchedUnless names s (search_all fuel jobs names s)
  unfolding SearchedUnless Keeps IsSettled search_all Works
  search_all-Searched fuel [] s o calm = λ quiet. record { ordered = o; all = tt; keeps = λ y v. v }
  search_all-Searched fuel (name ∷ names) s o calm = elim (Mark-cases jobs (mark_of name s.state)) [
    | inl new ↦
        subst (SearchedUnless (name ∷ names) s)
          (sym (search_all-unvisited jobs fuel name names s new))
          (search_on-Searched fuel name names s (dfs fuel jobs name s)
            (λ s' o' calm'. search_all-Searched fuel names s' o' calm') calm
            (dfs-Works jobs fuel name s new o))
    | inr (inl busy) ↦ absurd (calm name busy)
    | inr (inr done) ↦
        subst (SearchedUnless (name ∷ names) s)
          (sym (search_all-visited jobs fuel name names s done))
          (Searched-cons name names s s (search_all fuel jobs names s) done (λ y v. v)
            (search_all-Searched fuel names s o calm))
  ]

-- If the search ends without an error, no job among the names that it is given needs itself,
-- directly or through other jobs.
pub validate_dependency_cycles-acyclic :
    (jobs : Jobs) (names : List String) (a : String)
    → validate_dependency_cycles jobs names ≡ some []
    → In a names
    → Needs jobs a a
    → ⊥
unfolding validate_dependency_cycles IsOrdered IsSettled mark_of SearchedUnless
validate_dependency_cycles-acyclic jobs names a quiet i p =
    let fuel = suc (length names) in
    acyclic (search_all fuel jobs names start) quiet
      (search_all-Searched jobs fuel names start ordered settled)
  where
    ordered : IsOrdered jobs []
    ordered = tt

    settled : IsSettled jobs start
    settled y = λ e. cc

    acyclic : (r : Option Search) → found_cycles r ≡ some [] → SearchedUnless jobs names start r → ⊥
    acyclic none e o = cc
    acyclic (some s) e o =
        let done = o (let same : s.cycles ≡ [] = cc in same) in
        IsOrdered-acyclic jobs (left_jobs s.state) a done.ordered
          (visited-In a s.state (All-pick _ a names done.all i)) p
