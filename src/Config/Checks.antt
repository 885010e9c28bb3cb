-- ===== src/Config/Checks.antt =====
-- internal/config/config.go: the tests of single values, and what a failed call reports. An error
-- keeps the parts that its text is made of.
use clai.Common.{
  ℕ, Bool, true, false, ◌||◌, List, [], ◌∷◌, String, str_eq, Option, none, some, ℤ, pos, negsuc,
  ltb,
}
use clai.Common.Strconv.{atoi, parse_bool}

pub data Error : Type 0 where
  bad_key : Error
  unknown_section : String → Error
  unknown_field : String → String → Error
  invalid_number : String → Error
  invalid_bool : String → Error
  must_be_non_negative : String → Error
  must_be_positive : String → Error
  not_allowed : String → String → Error
  unreadable_file unparsable_file : Error

pub data Result {ℓ} (A : Type ℓ) : Type ℓ where
  ok : A → Result A
  err : Error → Result A

infixl 5 ◌>>=◌
abbrev pub ◌>>=◌ {ℓ κ} : {A : Type ℓ} {B : Type κ} → Result A → (A → Result B) → Result B
ok a >>= f = f a
err e >>= f = err e

-- One of the values of a switch.
abbrev pub is_one_of : List String → String → Bool
is_one_of [] s = false
is_one_of (x ∷ xs) s = str_eq s x || is_one_of xs s

unfoldable pub is_valid_log_level : String → Bool
is_valid_log_level = is_one_of ("debug" ∷ "info" ∷ "warn" ∷ "error" ∷ [])

unfoldable pub is_valid_provider : String → Bool
is_valid_provider = is_one_of ("anthropic" ∷ "auto" ∷ [])

unfoldable pub is_valid_picker_backend : String → Bool
is_valid_picker_backend = is_one_of ("builtin" ∷ "fzf" ∷ "clai" ∷ [])

unfoldable pub is_valid_up_arrow_trigger : String → Bool
is_valid_up_arrow_trigger = is_one_of ("single" ∷ "double" ∷ [])

unfoldable pub is_valid_workflow_mode : String → Bool
is_valid_workflow_mode = is_one_of ("interactive" ∷ "non-interactive-fail" ∷ [])

unfoldable pub is_valid_incognito_mode : String → Bool
is_valid_incognito_mode = is_one_of ("off" ∷ "ephemeral" ∷ "no_send" ∷ [])

unfoldable pub is_valid_shim_mode : String → Bool
is_valid_shim_mode = is_one_of ("auto" ∷ "persistent" ∷ "oneshot" ∷ [])

unfoldable pub is_valid_fts_tokenizer : String → Bool
is_valid_fts_tokenizer = is_one_of ("trigram" ∷ "unicode61" ∷ [])

unfoldable pub is_valid_scorer_version : String → Bool
is_valid_scorer_version = is_one_of ("v1" ∷ "v2" ∷ [])

unfoldable pub is_valid_suggestions_picker_view : String → Bool
is_valid_suggestions_picker_view = is_one_of ("compact" ∷ "detailed" ∷ [])

-- `v < 0`
abbrev pub is_negative : ℤ → Bool
is_negative (pos n) = false
is_negative (negsuc n) = true

-- `v < n` for a number `n`.
abbrev pub is_below : ℤ → ℕ → Bool
is_below (pos m) n = ltb m n
is_below (negsuc m) n = true

abbrev pub is_above : ℤ → ℕ → Bool
is_above (pos m) n = ltb n m
is_above (negsuc m) n = false

-- `if v < low { v = low }; if v > high { v = high }`
unfoldable pub clamp : ℕ → ℕ → ℤ → ℤ
clamp low high v = elim (is_below v low) [
  | true ↦ pos low
  | false ↦ elim (is_above v high) [ true ↦ pos high | false ↦ v ]
]

abbrev number_or : String → Option ℤ → Result ℤ
number_or field none = err (invalid_number field)
number_or field (some v) = ok v

-- `strconv.Atoi` with its error.
unfoldable pub number : String → String → Result ℤ
number field value = number_or field (atoi value)

abbrev checked : Bool → Error → ℤ → Result ℤ
checked true e v = err e
checked false e v = ok v

-- `strconv.Atoi` and the test that the number is not negative.
unfoldable pub non_negative : String → String → Result ℤ
unfolding number
non_negative field value =
    number field value >>= λ v. checked (is_negative v) (must_be_non_negative field) v

-- `strconv.Atoi` and the test that the number is positive.
unfoldable pub positive_number : String → String → Result ℤ
unfolding number
positive_number field value =
    number field value >>= λ v. checked (is_below v 1) (must_be_positive field) v

abbrev bool_or : String → Option Bool → Result Bool
bool_or field none = err (invalid_bool field)
bool_or field (some b) = ok b

-- `strconv.ParseBool` with its error.
unfoldable pub boolean : String → String → Result Bool
boolean field value = bool_or field (parse_bool value)

-- A text that has to pass a test.
unfoldable pub allowed : (String → Bool) → String → String → Result String
allowed test field value = elim (test value) [
  | true ↦ ok value
  | false ↦ err (not_allowed field value)
]
