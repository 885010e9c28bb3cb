-- ===== src/Workflow/Secrets.antt =====
-- internal/workflow/secrets.go: the masking of secret values, over the bytes of a text. What the
-- environment holds (`os.Getenv`) is a parameter.
use clai.Common.{
  ℕ, zero, suc, ◌==◌, ltb, if◌then◌else◌, Bool, true, false, ◌&&◌, List, [], ◌∷◌, ◌++◌, length,
  codes, String, str_eq,
}
use clai.Workflow.Types.{SecretDef}

abbrev Bytes : Type 0
Bytes = List ℕ

pub record SecretEntry : Type 0 where
  pub value : List ℕ
  pub name : String

-- The sorted entries; the source keeps their values and names in two slices.
pub record SecretMasker : Type 0 where
  pub values : List (List ℕ)
  pub names : List String

abbrev mask_text : Bytes
mask_text = codes "***"

-- The secrets that the environment has.
unfoldable pub entries : (String → List ℕ) → List SecretDef → List SecretEntry
entries getenv [] = []
entries getenv (s ∷ rest) =
    let later = entries getenv rest in
    if str_eq s.from "env"
    then (if length (getenv s.name) == 0
        then later
        else record { value = getenv s.name; name = s.name } ∷ later)
    else later

-- A stable sort, the longest value first.
unfoldable pub place : SecretEntry → List SecretEntry → List SecretEntry
place e [] = e ∷ []
place e (f ∷ fs) =
    let later = f ∷ place e fs in
    if ltb (length e.value) (length f.value) then later else e ∷ f ∷ fs

unfoldable pub sorted : List SecretEntry → List SecretEntry
sorted [] = []
sorted (e ∷ es) = place e (sorted es)

abbrev values_of : List SecretEntry → List (List ℕ)
values_of [] = []
values_of (e ∷ es) = e.value ∷ values_of es

abbrev names_of : List SecretEntry → List String
names_of [] = []
names_of (e ∷ es) = e.name ∷ names_of es

unfoldable pub new_secret_masker : (String → List ℕ) → List SecretDef → SecretMasker
new_secret_masker getenv secrets =
    let es = sorted (entries getenv secrets) in
    record { values = values_of es; names = names_of es }

abbrev pub has_prefix : List ℕ → List ℕ → Bool
has_prefix [] text = true
has_prefix (c ∷ cs) [] = false
has_prefix (c ∷ cs) (d ∷ ds) = (c == d) && has_prefix cs ds

-- `strings.ReplaceAll(text, old, "***")`, where `old` is `c` and `cs`; the number is how much of the
-- text the last match still takes.
unfoldable pub replace_from : ℕ → ℕ → List ℕ → List ℕ → List ℕ
replace_from n c cs [] = []
replace_from (suc n) c cs (d ∷ text) = replace_from n c cs text
replace_from zero c cs (d ∷ text) = elim (has_prefix (c ∷ cs) (d ∷ text)) [
  | true ↦ mask_text ++ replace_from (length cs) c cs text
  | false ↦ d ∷ replace_from zero c cs text
]

-- No entry is empty, so that the empty `old` is never asked for.
abbrev pub replace_all : List ℕ → List ℕ → List ℕ
replace_all [] text = text
replace_all (c ∷ cs) text = replace_from 0 c cs text

unfoldable pub mask_values : List (List ℕ) → List ℕ → List ℕ
mask_values [] text = text
mask_values (v ∷ vs) text = mask_values vs (replace_all v text)

-- `Mask`
unfoldable pub mask : SecretMasker → List ℕ → List ℕ
mask m text = mask_values m.values text

unfoldable pub secret_names : SecretMasker → List String
secret_names m = m.names
