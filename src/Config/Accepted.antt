-- ===== src/Config/Accepted.antt =====
-- What `Validate` accepts is what it leaves, what loading returns and what `Set` keeps.
use clai.Common.{
  Bool, true, false, not, ◌||◌, List, [], ◌∷◌, All, String, str_eq, str_eq_iff, ◌≡◌, refl, sym, ap,
  ◌∙◌, subst, arith, Bool-cases, inl, inr,
}
use clai.Common.Strconv.{split}
use clai.Config.Floats.{Floats, HasOrder}
use clai.Config.Types.{PrivacyConfig, SuggestionsConfig, Config}
use clai.Config.Defaults.{default_config}
use clai.Config.Checks.{Result, ok, err, Error, boolean, is_negative, is_valid_workflow_mode}
use clai.Config.Fields.{
  set_daemon_field, set_client_field, set_ai_field, set_suggestions_field, set_privacy_field,
  set_history_field, set_workflows_field,
}
use clai.Config.Fix.{validate_and_fix}
use clai.Config.Fix.Unchanged.{IsFixed-validate_and_fix}
use clai.Config.Fix.Fixed.{IsIn-clamp, clamp-IsIn, validate_and_fix-IsFixed}
use clai.Config.Valid.{
  Ensures, bind-Ensures, if-Ensures, IsDaemon, IsClient, IsAi, AreSuggestions, IsHistory,
  AreWorkflows,
}
use clai.Config.Setters.{
  set_daemon_field-Ensures, set_client_field-Ensures, set_ai_field-Ensures,
  set_suggestions_field-Ensures, set_history_field-Ensures, set_workflows_field-Ensures,
}
use clai.Config.Validate.{
  set_in, set, set_parts, unless, checks, repaired, validate, Environment, apply_env_overrides,
  FileRead, not_there, not_readable, not_parsable, parsed, load_from_file,
}

-- A configuration with valid values in all sections.
pub record IsValid {F : Type 0} (fl : Floats F) (c : Config F) : Type 0 where
  pub daemon : IsDaemon c.daemon
  pub client : IsClient c.client
  pub ai : IsAi c.ai
  pub suggestions : AreSuggestions fl c.suggestions
  pub history : IsHistory c.history
  pub workflows : AreWorkflows c.workflows

-- A value that is there meets what the result ensures.
pub Ensures-ok {ℓ κ} :
    {A : Type ℓ} (P : A → Type κ) (r : Result A) (a : A) → Ensures P r → r ≡ ok a → P a
Ensures-ok P (ok b) a p e = subst P (unwrap e) p
  where
    unwrap : ok b ≡ ok a → b ≡ a
    unwrap e = cc
Ensures-ok P (err x) a p e = absurd (cc)

-- A row of tests passes exactly if none of them finds anything bad.
unless-ok {ℓ} :
    {A : Type ℓ} (cs : List (Bool × Error)) (a b : A)
    → unless cs a ≡ ok b
    → All (λ (t : Bool × Error). t.0 ≡ false) cs × (a ≡ b)
unless-ok [] a b h = (tt, unwrap h)
  where
    unwrap : ok a ≡ ok b → a ≡ b
    unwrap e = cc
unless-ok ((true, e) ∷ cs) a b h = absurd (cc)
unless-ok ((false, e) ∷ cs) a b h = let r = unless-ok cs a b h in ((refl, r.0), r.1)

unless-pass {ℓ} :
    {A : Type ℓ} (cs : List (Bool × Error)) (a : A)
    → All (λ (t : Bool × Error). t.0 ≡ false) cs
    → unless cs a ≡ ok a
unless-pass [] a h = refl
unless-pass ((true, e) ∷ cs) a h = absurd (let f = h.0 in cc)
unless-pass ((false, e) ∷ cs) a h = unless-pass cs a h.1

not-false : (b : Bool) → not b ≡ false → b ≡ true
not-false true h = refl
not-false false h = cc

not-true : (b : Bool) → b ≡ true → not b ≡ false
not-true true h = refl
not-true false h = cc

mode_good :
    (s : String)
    → (str_eq s "" || not (is_valid_workflow_mode s)) ≡ false
    → is_valid_workflow_mode s ≡ true
mode_good s h = ground arith

mode_passes :
    (s : String)
    → is_valid_workflow_mode s ≡ true
    → (str_eq s "" || not (is_valid_workflow_mode s)) ≡ false
unfolding is_valid_workflow_mode
mode_passes s h = elim (Bool-cases (str_eq s "interactive")) [
  | inl e ↦ good_at "interactive" ((str_eq_iff s "interactive").0 e) refl
  | inr other ↦
      good_at "non-interactive-fail" ((str_eq_iff s "non-interactive-fail").0 (ground arith)) refl
]
  where
    good_at :
        (t : String)
        → s ≡ t
        → (str_eq t "" || not (is_valid_workflow_mode t)) ≡ false
        → (str_eq s "" || not (is_valid_workflow_mode s)) ≡ false
    good_at t e k = subst (λ x. (str_eq x "" || not (is_valid_workflow_mode x)) ≡ false) (sym e) k

module _ {F : Type 0} (fl : Floats F) where
  kept_limits :
      (s : SuggestionsConfig F)
      → ((validate_and_fix fl s).0.max_history ≡ s.max_history)
        × ((validate_and_fix fl s).0.max_ai ≡ s.max_ai)
  unfolding validate_and_fix
  kept_limits s = (refl, refl)

  repaired-IsValid :
      (c : Config F)
      → HasOrder fl
      → All (λ (t : Bool × Error). t.0 ≡ false) (checks c)
      → IsValid fl (repaired fl c)
  repaired-IsValid c order h =
      let (
        idle,
        (
          level,
          (
            suggest,
            (
              connect,
              (provider, (ttl, (max_history, (max_ai, (backend, (trigger, (mode, (retain, u)))))))),
            ),
          ),
        ),
      ) =
        h in
      let kept = kept_limits c.suggestions in
      record {
        daemon = record { idle_timeout_mins = idle; log_level = not-false _ level };
        client = record { suggest_timeout_ms = suggest; connect_timeout_ms = connect };
        ai = record { provider = not-false _ provider; cache_ttl_hours = ttl };
        suggestions = record {
          max_history = ap is_negative kept.0 ∙ max_history;
          max_ai = ap is_negative kept.1 ∙ max_ai;
          fixed = validate_and_fix-IsFixed fl order c.suggestions;
        };
        history = record {
          picker_backend = not-false _ backend;
          up_arrow_trigger = not-false _ trigger;
          picker_page_size = clamp-IsIn 20 500 c.history.picker_page_size (omega arith);
          up_arrow_double_window_ms =
              clamp-IsIn 50 1000 c.history.up_arrow_double_window_ms (omega arith);
        };
        workflows = record { default_mode = mode_good _ mode; retain_runs = retain };
      }

  validate-IsValid : (c c' : Config F) → HasOrder fl → validate fl c ≡ ok c' → IsValid fl c'
  unfolding validate
  validate-IsValid c c' order h =
      let r = unless-ok (checks c) (repaired fl c) c' h in
      subst (IsValid fl) r.1 (repaired-IsValid c order r.0)

  checks_pass : (c : Config F) → IsValid fl c → All (λ (t : Bool × Error). t.0 ≡ false) (checks c)
  checks_pass c v = (
    v.daemon.idle_timeout_mins,
    (
      not-true _ v.daemon.log_level,
      (
        v.client.suggest_timeout_ms,
        (
          v.client.connect_timeout_ms,
          (
            not-true _ v.ai.provider,
            (
              v.ai.cache_ttl_hours,
              (
                v.suggestions.max_history,
                (
                  v.suggestions.max_ai,
                  (
                    not-true _ v.history.picker_backend,
                    (
                      not-true _ v.history.up_arrow_trigger,
                      (mode_passes _ v.workflows.default_mode, (v.workflows.retain_runs, tt)),
                    ),
                  ),
                ),
              ),
            ),
          ),
        ),
      ),
    ),
  )

  repaired_id : (c : Config F) → IsValid fl c → repaired fl c ≡ c
  repaired_id c v = λ i. record c {
    suggestions = (IsFixed-validate_and_fix fl c.suggestions v.suggestions.fixed i).0;
    history = record c.history {
      picker_page_size = IsIn-clamp 20 500 c.history.picker_page_size v.history.picker_page_size i;
      up_arrow_double_window_ms =
          IsIn-clamp 50 1000 c.history.up_arrow_double_window_ms v.history.up_arrow_double_window_ms
            i;
    };
  }

  -- `Validate` accepts a valid configuration and leaves it as it is, and what it leaves of any
  -- configuration that it accepts is valid, so that it accepts that as it is.
  pub validate_lem :
      (c : Config F)
      → HasOrder fl
      → (IsValid fl c → validate fl c ≡ ok c)
        × ((c' : Config F) → validate fl c ≡ ok c' → IsValid fl c' × (validate fl c' ≡ ok c'))
  validate_lem c order = (
    λ v. valid_passes c v,
    λ c' h. let v = validate-IsValid c c' order h in (v, valid_passes c' v),
  )
    where
      valid_passes : (c : Config F) → IsValid fl c → validate fl c ≡ ok c
      valid_passes c v =
          unfold validate in
          (unless-pass (checks c) (repaired fl c) (checks_pass c v) ∙ ap ok (repaired_id c v))

  -- Whatever the file and the environment hold, a configuration that is loaded is valid.
  pub load_from_file-IsValid :
      (env : Environment fl) (file : FileRead fl) (c : Config F)
      → HasOrder fl
      → load_from_file fl env file ≡ ok c
      → IsValid fl c
  unfolding load_from_file
  load_from_file-IsValid env not_there c order h =
      validate-IsValid (apply_env_overrides fl env (default_config fl)) c order h
  load_from_file-IsValid env not_readable c order h = absurd (cc)
  load_from_file-IsValid env not_parsable c order h = absurd (cc)
  load_from_file-IsValid env (parsed overlay) c order h =
      validate-IsValid (apply_env_overrides fl env (overlay (default_config fl))) c order h

  set_privacy_field-Ensures :
      (c : PrivacyConfig) (field value : String)
      → Ensures (λ v. Unit {0}) (set_privacy_field c field value)
  unfolding set_privacy_field
  set_privacy_field-Ensures c field value =
      if-Ensures (λ v. Unit {0}) (str_eq field "sanitize_ai_calls") _ _
        (bind-Ensures (λ b. Unit {0}) (λ v. Unit {0}) (boolean "sanitize_ai_calls" value) _
          (always _) (λ v h. tt))
        tt
    where
      always : (r : Result Bool) → Ensures (λ b. Unit {0}) r
      always (ok b) = tt
      always (err e) = tt

  set_in-Ensures :
      (c : Config F) (section field value : String)
      → IsValid fl c
      → Ensures (IsValid fl) (set_in c section field value)
  unfolding set_in
  set_in-Ensures c section field value v =
      if-Ensures (IsValid fl) (str_eq section "daemon") _ _
        (bind-Ensures IsDaemon (IsValid fl) (set_daemon_field c.daemon field value) _
          (set_daemon_field-Ensures c.daemon field value v.daemon)
          (λ d h. record {
            daemon = h;
            client = v.client;
            ai = v.ai;
            suggestions = v.suggestions;
            history = v.history;
            workflows = v.workflows;
          }))
        (if-Ensures (IsValid fl) (str_eq section "client") _ _
          (bind-Ensures IsClient (IsValid fl) (set_client_field c.client field value) _
            (set_client_field-Ensures c.client field value v.client)
            (λ d h. record {
              daemon = v.daemon;
              client = h;
              ai = v.ai;
              suggestions = v.suggestions;
              history = v.history;
              workflows = v.workflows;
            }))
          (if-Ensures (IsValid fl) (str_eq section "ai") _ _
            (bind-Ensures IsAi (IsValid fl) (set_ai_field c.ai field value) _
              (set_ai_field-Ensures c.ai field value v.ai)
              (λ d h. record {
                daemon = v.daemon;
                client = v.client;
                ai = h;
                suggestions = v.suggestions;
                history = v.history;
                workflows = v.workflows;
              }))
            (if-Ensures (IsValid fl) (str_eq section "suggestions") _ _
              (bind-Ensures (AreSuggestions fl) (IsValid fl)
                (set_suggestions_field c.suggestions field value) _
                (set_suggestions_field-Ensures fl c.suggestions field value v.suggestions)
                (λ d h. record {
                  daemon = v.daemon;
                  client = v.client;
                  ai = v.ai;
                  suggestions = h;
                  history = v.history;
                  workflows = v.workflows;
                }))
              (if-Ensures (IsValid fl) (str_eq section "privacy") _ _
                (bind-Ensures (λ d. Unit {0}) (IsValid fl) (set_privacy_field c.privacy field value)
                  _ (set_privacy_field-Ensures c.privacy field value)
                  (λ d h. record {
                    daemon = v.daemon;
                    client = v.client;
                    ai = v.ai;
                    suggestions = v.suggestions;
                    history = v.history;
                    workflows = v.workflows;
                  }))
                (if-Ensures (IsValid fl) (str_eq section "history") _ _
                  (bind-Ensures IsHistory (IsValid fl) (set_history_field c.history field value) _
                    (set_history_field-Ensures c.history field value v.history)
                    (λ d h. record {
                      daemon = v.daemon;
                      client = v.client;
                      ai = v.ai;
                      suggestions = v.suggestions;
                      history = h;
                      workflows = v.workflows;
                    }))
                  (if-Ensures (IsValid fl) (str_eq section "workflows") _ _
                    (bind-Ensures AreWorkflows (IsValid fl)
                      (set_workflows_field c.workflows field value) _
                      (set_workflows_field-Ensures c.workflows field value v.workflows)
                      (λ d h. record {
                        daemon = v.daemon;
                        client = v.client;
                        ai = v.ai;
                        suggestions = v.suggestions;
                        history = v.history;
                        workflows = h;
                      }))
                    (tt)))))))

  set_parts-Ensures :
      (c : Config F) (parts : List String) (value : String)
      → IsValid fl c
      → Ensures (IsValid fl) (set_parts c parts value)
  set_parts-Ensures c [] value v = tt
  set_parts-Ensures c (a ∷ []) value v = tt
  set_parts-Ensures c (a ∷ b ∷ []) value v = set_in-Ensures c a b value v
  set_parts-Ensures c (a ∷ b ∷ d ∷ rest) value v = tt

  -- `Set` keeps a configuration valid, whatever the key and the value.
  pub set-IsValid :
      (c c' : Config F) (key value : String)
      → IsValid fl c
      → set c key value ≡ ok c'
      → IsValid fl c'
  unfolding set
  set-IsValid c c' key value v h =
      Ensures-ok (IsValid fl) (set c key value) c' (set_parts-Ensures c (split 46 key) value v) h
