-- ===== src/Config/Samples.antt =====
-- The theorems on the configuration at concrete inputs, and runs of its code. The floating point
-- numbers are whole numbers of ten-thousandths here.
use clai.Common.{ℕ, ◌*◌, ◌^◌, ◌-◌, ltb, leb, false, [], pos, negsuc, ◌≡◌, ◌↔◌, refl, arith}
use clai.Common.Strconv.{atoi, itoa, decimal, digits_from, split, parse_bool}
use clai.Config.Floats.{Floats, HasOrder}
use clai.Config.Types.{SuggestionsConfig, Config}
use clai.Config.Defaults.{default_config, default_suggestions_config}
use clai.Config.Checks.{
  ok, clamp, number, is_valid_log_level, is_valid_provider, is_valid_picker_backend,
  is_valid_up_arrow_trigger, is_valid_workflow_mode, is_valid_incognito_mode, is_valid_shim_mode,
  is_valid_scorer_version, is_valid_fts_tokenizer, is_valid_suggestions_picker_view,
}
use clai.Config.Fields.{get_history_field, set_history_field}
use clai.Config.Fix.{
  validate_and_fix, validate_min_one_int_fields, validate_weight_fields, validate_scalar_fields,
  validate_enum_fields,
}
use clai.Config.Fix.Fixed.{IsFixed}
use clai.Config.Fix.Kept.{Keeps}
use clai.Config.Fix.Warned.{validate_and_fix_lem}
use clai.Config.Validate.{
  get, set, get_in, set_in, validate, Environment, apply_env_overrides, parsed, load_from_file,
}
use clai.Config.Accepted.{IsValid, validate_lem, load_from_file-IsValid, set-IsValid}
use clai.Config.Roundtrip.{IsPrintable, set-get}

abbrev parts : Floats ℕ
parts = record { of_decimal = λ m d. m * 10 ^ (4 - d); lt = ltb; le = leb }

parts_order : HasOrder parts
parts_order = record {
  zero_zero = refl;
  one_zero = refl;
  one_one = refl;
  eta_zero = refl;
  one_eta = refl;
}

abbrev start : Config ℕ
start = default_config parts

-- A file that sets a bad timeout and a page size out of range, and an environment.
abbrev overlay : Config ℕ → Config ℕ
overlay c = record c {
  suggestions = record c.suggestions { hard_timeout_ms = negsuc 4 };
  history = record c.history { picker_page_size = pos 3 };
}

abbrev shell : Environment parts
shell = record { suggestions_enabled = "0"; debug = "T"; log_level = "loud"; socket = "/tmp/s" }

-- What is loaded then.
abbrev loaded : Config ℕ
loaded = record start {
  daemon = record start.daemon { log_level = "debug"; socket_path = "/tmp/s" };
  suggestions = record start.suggestions { enabled = false };
  history = record start.history { picker_page_size = pos 20 };
}

load_run : load_from_file parts shell (parsed overlay) ≡ ok loaded
unfolding load_from_file validate apply_env_overrides validate_and_fix validate_min_one_int_fields
    validate_weight_fields validate_scalar_fields validate_enum_fields clamp parse_bool
    is_valid_log_level is_valid_provider is_valid_picker_backend is_valid_up_arrow_trigger
    is_valid_workflow_mode is_valid_incognito_mode is_valid_shim_mode is_valid_scorer_version
    is_valid_fts_tokenizer is_valid_suggestions_picker_view
load_run = refl

load_from_file-IsValid_example : IsValid parts loaded
load_from_file-IsValid_example =
    load_from_file-IsValid parts shell (parsed overlay) loaded parts_order load_run

loaded-IsValid : IsValid parts loaded
loaded-IsValid = load_from_file-IsValid parts shell (parsed overlay) loaded parts_order load_run

validate_lem_example :
    (IsValid parts loaded → validate parts loaded ≡ ok loaded)
    × ((c' : Config ℕ)
        → validate parts loaded ≡ ok c'
        → IsValid parts c' × (validate parts c' ≡ ok c'))
validate_lem_example = validate_lem parts loaded parts_order

abbrev bad_settings : SuggestionsConfig ℕ
bad_settings = record (default_suggestions_config parts) {
  hard_timeout_ms = negsuc 4;
  shim_mode = "often";
  workflow_min_steps = pos 9;
}

validate_and_fix_lem_example :
    let (s', warnings) = validate_and_fix parts bad_settings in
    IsFixed parts s' × Keeps parts bad_settings s' × (warnings ≡ [] ↔ IsFixed parts bad_settings)
validate_and_fix_lem_example = validate_and_fix_lem parts bad_settings parts_order

abbrev paged : Config ℕ
paged = record loaded { history = record loaded.history { picker_page_size = pos 500 } }

set_run : set loaded "history.picker_page_size" "+9000" ≡ ok paged
unfolding set set_in set_history_field number atoi digits_from clamp split
set_run = refl

set-IsValid_example : IsValid parts paged
set-IsValid_example =
    set-IsValid parts loaded paged "history.picker_page_size" "+9000" loaded-IsValid set_run

loaded-IsPrintable : IsPrintable loaded
loaded-IsPrintable = record {
  idle_timeout_mins = omega arith;
  suggest_timeout_ms = omega arith;
  connect_timeout_ms = omega arith;
  cache_ttl_hours = omega arith;
  max_history = omega arith;
  max_ai = omega arith;
  picker_page_size = omega arith;
  up_arrow_double_window_ms = omega arith;
  retain_runs = omega arith;
  search_paths = record { parts = tt; not_blank = λ e. cc };
}

get_run : get loaded "history.up_arrow_double_window_ms" ≡ ok "250"
unfolding get get_in get_history_field itoa decimal split
get_run = refl

set-get_example : set loaded "history.up_arrow_double_window_ms" "250" ≡ ok loaded
set-get_example =
    set-get parts loaded "history.up_arrow_double_window_ms" "250" loaded-IsValid loaded-IsPrintable
      get_run
