-- ===== src/Workflow/Validate/Steps.antt =====
-- When `validateStep` and the loop over the steps of a job find nothing wrong.
use clai.Common.{
  ℕ, ◌+◌, if◌then◌else◌, Bool, true, false, not, ◌&&◌, List, [], ◌∷◌, ◌++◌, All, ◌⊎◌, String,
  str_eq, str_eq_iff, Option, none, some, ◌≡◌, ◌≢◌, ◌↔◌, refl, ap, sym, ◌∙◌, arith,
}
use clai.Workflow.Types.{StepDef, one_of, valid_shell_values, valid_risk_levels}
use clai.Workflow.Validate.{
  Field, Message, fail_if, under, nth, id_errors, step_errors, validate_step, validate_steps,
}

pub append_is_nil {ℓ} : {A : Type ℓ} (xs ys : List A) → (xs ++ ys ≡ []) ↔ ((xs ≡ []) × (ys ≡ []))
append_is_nil [] ys = ground arith
append_is_nil (x ∷ xs) ys = ground arith

pub fail_if-nil :
    (b : Bool) (field : Field) (message : Message) → (fail_if b field message ≡ []) ↔ (b ≡ false)
fail_if-nil true field message = ground arith
fail_if-nil false field message = ground arith

nil₆ {ℓ} :
    {A : Type ℓ} (a b c d e f : List A)
    → (a ++ b ++ c ++ d ++ e ++ f ≡ [])
      ↔ ((a ≡ []) × (b ≡ []) × (c ≡ []) × (d ≡ []) × (e ≡ []) × (f ≡ []))
nil₆ a b c d e f = ground (
  arith,
  append_is_nil (a ++ b ++ c ++ d ++ e) f,
  append_is_nil (a ++ b ++ c ++ d) e,
  append_is_nil (a ++ b ++ c) d,
  append_is_nil (a ++ b) c,
  append_is_nil a b,
)

module _ (field : Field) (message : Message) where
  pub nonempty-nil : (s : String) → (fail_if (str_eq s "") field message ≡ []) ↔ (s ≢ "")
  nonempty-nil s = ground (arith, str_eq_iff s "", fail_if-nil (str_eq s "") field message)

  either-nil :
      (v c : Bool) → (fail_if (not v && not c) field message ≡ []) ↔ ((v ≡ true) ⊎ (c ≡ true))
  either-nil v c = ground (arith, fail_if-nil (not v && not c) field message)

  prompt-nil :
      (b : Bool) (p : String)
      → (fail_if (b && str_eq p "") field message ≡ []) ↔ (b ≡ true → p ≢ "")
  prompt-nil true p = ground (arith, str_eq_iff p "", fail_if-nil (str_eq p "") field message)
  prompt-nil false p = ground (arith, fail_if-nil false field message)

  pub valid-nil : (v : Bool) → (fail_if (not v) field message ≡ []) ↔ (v ≡ true)
  valid-nil v = ground (arith, fail_if-nil (not v) field message)

pub nonempty-false : (s : String) → (str_eq s "" ≡ false) ↔ (s ≢ "")
nonempty-false s = ground (arith, str_eq_iff s "")

id_errors-nil :
    (field : Field) (id : String) (seen : List String)
    → (id_errors field id seen ≡ []) ↔ ((id ≢ "") × (one_of seen id ≡ false))
id_errors-nil field id seen = ground (arith, str_eq_iff id "")

module _ (contains_expression : String → Bool) where
  -- A step that is right by itself.
  pub record IsStep (s : StepDef) : Type 0 where
    pub named : s.name ≢ ""
    pub runs : s.run ≢ ""
    pub identified : s.id ≢ ""
    pub risk :
        (one_of valid_risk_levels s.risk_level ≡ true) ⊎ (contains_expression s.risk_level ≡ true)
    pub prompted : s.analyze ≡ true → s.analysis_prompt ≢ ""
    pub shelled : one_of valid_shell_values s.shell ≡ true

  step_errors-nil :
      (field : Field) (s : StepDef) (seen : List String)
      → (step_errors contains_expression field s seen ≡ [])
        ↔ (IsStep s × (one_of seen s.id ≡ false))
  step_errors-nil field s seen =
      let name = nonempty-nil (under field "name") Message.step_name_is_required s.name in
      let run = nonempty-nil (under field "run") Message.run_is_required s.run in
      let id = id_errors-nil (under field "id") s.id seen in
      let risk =
        either-nil (under field "risk_level") (Message.invalid_risk_level s.risk_level)
          (one_of valid_risk_levels s.risk_level) (contains_expression s.risk_level) in
      let prompt =
        prompt-nil (under field "analysis_prompt") Message.prompt_is_required s.analyze
          s.analysis_prompt in
      let shell =
        valid-nil (under field "shell") (Message.invalid_shell s.shell)
          (one_of valid_shell_values s.shell) in
      let parts = nil₆ _ _ _ _ _ _ in
      (
        λ h.
            let p = parts.0 h in
            (
              record {
                named = name.0 p.0;
                runs = run.0 p.1;
                identified = (id.0 p.2).0;
                risk = risk.0 p.3;
                prompted = prompt.0 p.4;
                shelled = shell.0 p.5;
              },
              (id.0 p.2).1,
            ),
        λ r. parts.1 (
          name.1 r.0.named,
          run.1 r.0.runs,
          id.1 (r.0.identified, r.1),
          risk.1 r.0.risk,
          prompt.1 r.0.prompted,
          shell.1 r.0.shelled,
        ),
      )

  -- A step that is there and right.
  abbrev pub IsRightStep : Option StepDef → Type 0
  IsRightStep none = ⊥
  IsRightStep (some s) = IsStep s

-- The ids of the steps, in order.
abbrev pub step_ids : List (Option StepDef) → List String
step_ids [] = []
step_ids (none ∷ steps) = step_ids steps
step_ids (some s ∷ steps) = s.id ∷ step_ids steps

-- No string stands twice in the list.
abbrev pub IsUnrepeated : List String → Type 0
IsUnrepeated [] = Unit
IsUnrepeated (x ∷ xs) = (one_of xs x ≡ false) × IsUnrepeated xs

abbrev IsNew : List String → String → Type 0
IsNew seen id = one_of seen id ≡ false

All-IsNew-cons :
    (seen : List String) (x : String) (ids : List String)
    → All (IsNew (x ∷ seen)) ids ↔ ((one_of ids x ≡ false) × All (IsNew seen) ids)
All-IsNew-cons seen x [] = ground arith
All-IsNew-cons seen x (id ∷ ids) =
    ground (arith, All-IsNew-cons seen x ids, str_eq_iff x id, str_eq_iff id x)

All-IsNew : (ids : List String) → All (IsNew []) ids
All-IsNew [] = tt
All-IsNew (id ∷ ids) = (refl, All-IsNew ids)

module _ (contains_expression : String → Bool) where
  RightSteps : List (Option StepDef) → List String → Type 0
  RightSteps steps seen =
      All (IsRightStep contains_expression) steps
      × IsUnrepeated (step_ids steps)
      × All (IsNew seen) (step_ids steps)

  validate_steps_seen :
      (field : Field) (i : ℕ) (steps : List (Option StepDef)) (seen : List String)
      → (validate_steps contains_expression field i steps seen ≡ []) ↔ RightSteps steps seen
  unfolding validate_steps validate_step RightSteps
  validate_steps_seen field i [] seen = ground arith
  validate_steps_seen field i (none ∷ steps) seen = ground arith
  validate_steps_seen field i (some s ∷ steps) seen =
      let rest = validate_steps_seen field (i + 1) steps (s.id ∷ seen) in
      let here = step_errors-nil contains_expression (nth (under field "steps") i) s seen in
      let new = All-IsNew-cons seen s.id (step_ids steps) in
      let both =
        append_is_nil (step_errors contains_expression (nth (under field "steps") i) s seen) in
      let after : s.id ≢ "" → (if str_eq s.id "" then seen else s.id ∷ seen) ≡ s.id ∷ seen =
        λ named. rw ((nonempty-false s.id).1 named) refl in
      let later = validate_steps contains_expression field (i + 1) steps in
      (
        λ h.
            let p = (both _).0 h in
            let (right, fresh) = here.0 p.0 in
            let r = rest.0 (sym (ap later (after right.identified)) ∙ p.1) in
            let n = new.0 r.2 in ((right, r.0), (n.0, r.1), (fresh, n.1)),
        λ r.
            let ((right, rights), (once, onces), (fresh, freshes)) = r in
            (both _).1 (
              here.1 (right, fresh),
              ap later (after right.identified) ∙ rest.1 (rights, onces, new.1 (once, freshes)),
            ),
      )

  -- The loop over the steps of a job reports nothing exactly if every step is there and right by
  -- itself, and no two steps have the same id.
  pub validate_steps-nil :
      (field : Field) (steps : List (Option StepDef))
      → (validate_steps contains_expression field 0 steps [] ≡ [])
        ↔ (All (IsRightStep contains_expression) steps × IsUnrepeated (step_ids steps))
  unfolding RightSteps
  validate_steps-nil field steps =
      let seen = validate_steps_seen field 0 steps [] in
      (λ h. let r = seen.0 h in (r.0, r.1), λ r. seen.1 (r.0, r.1, All-IsNew (step_ids steps)))
