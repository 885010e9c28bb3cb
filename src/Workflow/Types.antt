-- ===== src/Workflow/Types.antt =====
-- internal/workflow/types.go: a parsed workflow file. A pointer that may be nil is an option, and
-- a map is the list of its entries, one for each key, in the order in which Go happens to walk it.
use clai.Common.{if◌then◌else◌, Bool, false, ◌||◌, List, [], ◌∷◌, String, str_eq, Option}
use clai.Common.StringMap.{StringMap}

pub record SecretDef : Type 0 where
  pub name : String
  pub from : String
  pub path : String
  pub prompt : String

pub record MatrixDef : Type 0 where
  pub include : List (StringMap String)
  pub exclude : List (StringMap String)

pub record StrategyDef : Type 0 where
  pub matrix : Option MatrixDef
  pub fail_fast : Option Bool

-- The fields that are read from the file.
pub record StepDef : Type 0 where
  pub env : StringMap String
  pub id : String
  pub name : String
  pub run : String
  pub shell : String
  pub analysis_prompt : String
  pub risk_level : String
  pub analyze : Bool

pub record JobDef : Type 0 where
  pub name : String
  pub needs : List String
  pub env : StringMap String
  pub strategy : Option StrategyDef
  pub steps : List (Option StepDef)

pub record WorkflowDef : Type 0 where
  pub env : StringMap String
  pub jobs : StringMap (Option JobDef)
  pub name : String
  pub description : String
  pub secrets : List SecretDef
  pub requires : List String

-- Membership in a set of strings.
abbrev pub one_of : List String → String → Bool
one_of [] s = false
one_of (x ∷ xs) s = str_eq x s || one_of xs s

abbrev pub valid_shell_values : List String
valid_shell_values = "" ∷ "true" ∷ "false" ∷ "sh" ∷ "bash" ∷ "zsh" ∷ "fish" ∷ "pwsh" ∷ "cmd" ∷ []

abbrev pub valid_secret_sources : List String
valid_secret_sources = "env" ∷ "file" ∷ "interactive" ∷ []

abbrev pub valid_risk_levels : List String
valid_risk_levels = "" ∷ "low" ∷ "medium" ∷ "high" ∷ []

-- `ShellMode`
unfoldable pub shell_mode : StepDef → String
shell_mode s =
    if str_eq s.shell "false"
    then "argv"
    else if str_eq s.shell "" || str_eq s.shell "true"
    then "default"
    else s.shell
