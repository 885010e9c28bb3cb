-- ===== src/Tracker/Progress.antt =====
-- Which workflows are active after a command, and how one that is followed advances.
use clai.Common.{
  ℕ, zero, suc, ◌+◌, ◌≤◌, ◌<◌, false, List, [], ◌∷◌, length, get_elem?, Any, Any-append_left,
  Any-weaken, str_eq_refl, String, some, ◌≡◌, refl, arith, Bool-cases, inl, inr, pos,
}
use clai.Tracker.{
  TrackerConfig, ActiveWorkflow, Tracker, advance, advance_active, is_stale, clean_stale,
  activations, try_activate, on_command,
}

-- What holds of an active workflow after a command at `now`: it was not idle for too long, and its
-- current step is one of its steps.
pub record IsLive (n timeout now : ℕ) (aw : ActiveWorkflow) : Type 0 where
  pub followed : aw.commands_since_advance < n
  pub in_time : now ≤ aw.last_advanced_ms + timeout
  pub on_a_step : aw.current_step < length aw.pattern_of.template_ids

get_elem?-length {ℓ} :
    {A : Type ℓ} (xs : List A) (i : ℕ) {x : A} → get_elem? xs i ≡ some x → i < length xs
get_elem?-length [] i h = cc
get_elem?-length (y ∷ xs) zero h = omega arith
get_elem?-length (y ∷ xs) (suc i) h = omega (arith, get_elem?-length xs i h)

-- A tracker whose limits on idle commands and idle time are positive.
pub record HasLimits (cfg : TrackerConfig) (n timeout : ℕ) : Type 0 where
  pub stale_limit : cfg.stale_after_commands ≡ pos (suc n)
  pub time_limit : cfg.activation_timeout_ms ≡ pos (suc timeout)

-- The state of a workflow that takes its next step at `now`.
abbrev pub stepped : ActiveWorkflow → ℕ → ActiveWorkflow
stepped aw now = record aw {
  current_step = aw.current_step + 1;
  commands_since_advance = 0;
  last_advanced_ms = now;
}

advance_active-Any :
    (P : ActiveWorkflow → Type 0) (template_id : String) (now : ℕ) (aws : List ActiveWorkflow)
    → Any (λ aw. P (advance template_id now aw)) aws
    → Any P (advance_active template_id now aws)
unfolding advance_active
advance_active-Any P template_id now [] h = absurd h
advance_active-Any P template_id now (aw ∷ aws) (inl h) = inl h
advance_active-Any P template_id now (aw ∷ aws) (inr h) =
    inr (advance_active-Any P template_id now aws h)

clean_stale-Any :
    (cfg : TrackerConfig) (now : ℕ) (x : ActiveWorkflow) (aws : List ActiveWorkflow)
    → is_stale cfg now x ≡ false
    → Any (λ aw. aw ≡ x) aws
    → Any (λ aw. aw ≡ x) (clean_stale cfg now aws)
unfolding clean_stale
clean_stale-Any cfg now x [] f h = absurd h
clean_stale-Any cfg now x (aw ∷ aws) f (inl e) = rw (e, f) (inl refl)
clean_stale-Any cfg now x (aw ∷ aws) f (inr h) =
    let rest = clean_stale-Any cfg now x aws f h in
    elim (Bool-cases (is_stale cfg now aw)) [
      | inl stale ↦ rw stale rest
      | inr fine ↦ rw fine (inr rest)
    ]

advance-next :
    (aw : ActiveWorkflow) (template_id : String) (now : ℕ)
    → get_elem? aw.pattern_of.template_ids (aw.current_step + 1) ≡ some template_id
    → advance template_id now aw ≡ stepped aw now
unfolding advance
advance-next aw template_id now next = rw (next, str_eq_refl)

stepped-live :
    (cfg : TrackerConfig) (n timeout now : ℕ) (aw : ActiveWorkflow)
    → HasLimits cfg n timeout
    → aw.current_step + 2 < length aw.pattern_of.template_ids
    → is_stale cfg now (stepped aw now) ≡ false
unfolding is_stale
stepped-live cfg n timeout now aw limits more =
    let stale = limits.stale_limit in let time = limits.time_limit in ground (arith, stale, time)

-- With positive limits on idle commands and idle time, a command that is the next step of an active
-- workflow with a further step to come takes that workflow one step on, at the time of the command,
-- and keeps it active.
pub on_command-follows :
    (t : Tracker) (n timeout : ℕ) (template_id : String) (now : ℕ) (aw : ActiveWorkflow)
    → HasLimits t.cfg n timeout
    → Any (λ a. a ≡ aw) t.active
    → get_elem? aw.pattern_of.template_ids (aw.current_step + 1) ≡ some template_id
    → aw.current_step + 2 < length aw.pattern_of.template_ids
    → Any (λ a. a ≡ stepped aw now) (on_command t template_id now).0.active
unfolding on_command try_activate
on_command-follows t n timeout template_id now aw limits member next more =
    let advanced = advance_active template_id now t.active in
    let kept = clean_stale t.cfg now advanced in
    let x = stepped aw now in
    let here =
      advance_active-Any (λ a. a ≡ x) template_id now t.active
        (Any-weaken (λ a. a ≡ aw) (λ a. advance template_id now a ≡ x) t.active
          (λ a (e : a ≡ aw). rw e (advance-next aw template_id now next)) member) in
    Any-append_left (λ a. a ≡ x) kept (activations kept template_id now t.patterns)
      (clean_stale-Any t.cfg now x advanced (stepped-live t.cfg n timeout now aw limits more) here)
