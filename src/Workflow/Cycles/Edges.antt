-- ===== src/Workflow/Cycles/Edges.antt =====
-- Which job needs which, and orders of the jobs in which each comes before all that it needs.
use clai.Common.{List, [], ◌∷◌, Any, String, some, ◌≡◌, ◌≢◌, subst, sym, inl, inr}
use clai.Workflow.Types.{JobDef}
use clai.Workflow.Cycles.{Jobs, job_of}

-- `a` needs `b`, which is there.
pub record Edge (jobs : Jobs) (a b : String) : Type 0 where
  pub def : JobDef
  pub there : job_of jobs a ≡ some def
  pub needed : Any (λ d. d ≡ b) def.needs
  pub other : JobDef
  pub other_there : job_of jobs b ≡ some other
  pub named : b ≢ ""

-- One need or more lead from one job to another.
pub data Needs (jobs : Jobs) : String → String → Type 0 where
  direct : {a b : String} → Edge jobs a b → Needs jobs a b
  via : {a b c : String} → Edge jobs a b → Needs jobs b c → Needs jobs a c

abbrev pub In : String → List String → Type 0
In a = Any (λ x. x ≡ a)

module _ (jobs : Jobs) where
  -- Each name comes before all that it needs.
  unfoldable pub IsOrdered : List String → Type 0
  IsOrdered [] = Unit
  IsOrdered (x ∷ l) = ((y : String) → Edge jobs x y → In y l) × IsOrdered l

  Edge-later : (l : List String) (a b : String) → IsOrdered l → In a l → Edge jobs a b → In b l
  unfolding IsOrdered
  Edge-later [] a b o h e = absurd h
  Edge-later (x ∷ l) a b o (inl same) e = inr (o.0 b (subst (λ z. Edge jobs z b) (sym same) e))
  Edge-later (x ∷ l) a b o (inr h) e = inr (Edge-later l a b o.1 h e)

  Needs-later : (l : List String) (a b : String) → IsOrdered l → In a l → Needs jobs a b → In b l
  Needs-later l a b o h (direct e) = Edge-later l a b o h e
  Needs-later l a b o h (via {b = c} e p) = Needs-later l c b o (Edge-later l a c o h e) p

  Needs-tail :
      (x : String) (l : List String) (b : String) → IsOrdered (x ∷ l) → Needs jobs x b → In b l
  unfolding IsOrdered
  Needs-tail x l b o (direct e) = o.0 b e
  Needs-tail x l b o (via {b = c} e p) = Needs-later l c b o.1 (o.0 c e) p

  pub IsOrdered-acyclic : (l : List String) (a : String) → IsOrdered l → In a l → Needs jobs a a → ⊥
  unfolding IsOrdered
  IsOrdered-acyclic [] a o h p = h
  IsOrdered-acyclic (x ∷ l) a o (inl same) p =
      IsOrdered-acyclic l a o.1 (Needs-tail x l a o (subst (λ z. Needs jobs z a) (sym same) p)) p
  IsOrdered-acyclic (x ∷ l) a o (inr h) p = IsOrdered-acyclic l a o.1 h p
