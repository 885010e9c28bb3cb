-- ===== src/Config/Valid.antt =====
-- What `Validate` accepts, and what it takes for a result to be so.
use clai.Common.{if◌then◌else◌, Bool, true, false, String, ◌≡◌, arith, inl, inr, Option-cases}
use clai.Common.Strconv.{atoi}
use clai.Config.Floats.{Floats}
use clai.Config.Types.{
  DaemonConfig, ClientConfig, AiConfig, SuggestionsConfig, WorkflowsConfig, HistoryConfig,
}
use clai.Config.Checks.{
  Result, ok, err, ◌>>=◌, number, non_negative, positive_number, boolean, allowed, is_negative,
  is_below, is_valid_log_level, is_valid_provider, is_valid_picker_backend,
  is_valid_up_arrow_trigger, is_valid_workflow_mode,
}
use clai.Config.Fix.Fixed.{IsIn, IsFixed}

-- A predicate of the value, if there is one.
abbrev pub Ensures {ℓ κ} : {A : Type ℓ} → (A → Type κ) → Result A → Type κ
Ensures P (ok a) = P a
Ensures P (err e) = Unit

pub bind-Ensures {ℓ κ μ ν} :
    {A : Type ℓ} {B : Type κ} (Q : A → Type μ) (P : B → Type ν) (r : Result A) (f : A → Result B)
    → Ensures Q r
    → ((a : A) → Q a → Ensures P (f a))
    → Ensures P (r >>= f)
bind-Ensures Q P (ok a) f q h = h a q
bind-Ensures Q P (err e) f q h = tt

pub if-Ensures {ℓ κ} :
    {A : Type ℓ} (P : A → Type κ) (b : Bool) (x y : Result A)
    → Ensures P x
    → Ensures P y
    → Ensures P (if b then x else y)
if-Ensures P true x y p q = p
if-Ensures P false x y p q = q

pub number-Ensures : (field value : String) → Ensures (λ v. Unit {0}) (number field value)
unfolding number
number-Ensures field value = elim (Option-cases (atoi value)) [
  | inl e ↦ rw e tt
  | inr (v, e) ↦ rw e tt
]

pub non_negative-Ensures :
    (field value : String) → Ensures (λ v. is_negative v ≡ false) (non_negative field value)
unfolding non_negative number
non_negative-Ensures field value = ground arith

pub positive_number-Ensures :
    (field value : String) → Ensures (λ v. is_below v 1 ≡ false) (positive_number field value)
unfolding positive_number number
positive_number-Ensures field value = ground arith

pub boolean-Ensures : (field value : String) → Ensures (λ b. Unit {0}) (boolean field value)
unfolding boolean
boolean-Ensures field value = ground arith

pub allowed-Ensures :
    (test : String → Bool) (field value : String)
    → Ensures (λ v. test v ≡ true) (allowed test field value)
unfolding allowed
allowed-Ensures test field value = ground arith

pub record IsDaemon (c : DaemonConfig) : Type 0 where
  pub idle_timeout_mins : is_negative c.idle_timeout_mins ≡ false
  pub log_level : is_valid_log_level c.log_level ≡ true

pub record IsClient (c : ClientConfig) : Type 0 where
  pub suggest_timeout_ms : is_negative c.suggest_timeout_ms ≡ false
  pub connect_timeout_ms : is_negative c.connect_timeout_ms ≡ false

pub record IsAi (c : AiConfig) : Type 0 where
  pub provider : is_valid_provider c.provider ≡ true
  pub cache_ttl_hours : is_negative c.cache_ttl_hours ≡ false

pub record AreSuggestions {F : Type 0} (fl : Floats F) (c : SuggestionsConfig F) : Type 0 where
  pub max_history : is_negative c.max_history ≡ false
  pub max_ai : is_negative c.max_ai ≡ false
  pub fixed : IsFixed fl c

pub record IsHistory (c : HistoryConfig) : Type 0 where
  pub picker_backend : is_valid_picker_backend c.picker_backend ≡ true
  pub up_arrow_trigger : is_valid_up_arrow_trigger c.up_arrow_trigger ≡ true
  pub picker_page_size : IsIn 20 500 c.picker_page_size
  pub up_arrow_double_window_ms : IsIn 50 1000 c.up_arrow_double_window_ms

pub record AreWorkflows (c : WorkflowsConfig) : Type 0 where
  pub default_mode : is_valid_workflow_mode c.default_mode ≡ true
  pub retain_runs : is_below c.retain_runs 1 ≡ false
