-- ===== src/Workflow/Output.antt =====
-- internal/workflow/output.go: the outputs that a step writes to its file. What reading the file
-- comes to is a parameter: the lines that the scanner finds and the error that it ends with.
use Prim.Native.Char.{code}
use clai.Common.{
  ℕ, ◌==◌, leb, if◌then◌else◌, Bool, true, false, ◌&&◌, ◌||◌, List, [], ◌∷◌, String, str_eq, Option,
  none, some, codes,
}
use clai.Common.StringMap.{StringMap, insert}
use clai.Workflow.Expression.{has_prefix, trim_space, cut}

pub data FileRead (E : Type 0) : Type 0 where
  missing : FileRead E
  unreadable : E → FileRead E
  scanned : List String → Option E → FileRead E

-- `[A-Za-z_]`
abbrev starts_key : ℕ → Bool
starts_key c = (leb 65 c && leb c 90) || (leb 97 c && leb c 122) || c == 95

-- `[A-Za-z0-9_]`
abbrev in_key : ℕ → Bool
in_key c = starts_key c || (leb 48 c && leb c 57)

abbrev all_in_key : String → Bool
all_in_key String.[] = true
all_in_key (String.◌∷◌ c s) = in_key (code c) && all_in_key s

-- `validKeyRe`
unfoldable pub is_valid_key : String → Bool
is_valid_key String.[] = false
is_valid_key (String.◌∷◌ c s) = starts_key (code c) && all_in_key s

abbrev pub add_pair : Option (String × String) → StringMap String → StringMap String
add_pair none result = result
add_pair (some (key, value)) result = if is_valid_key key then insert key value result else result

unfoldable pub add_line : String → StringMap String → StringMap String
add_line line result =
    let trimmed = trim_space line in
    if str_eq trimmed "" || has_prefix (codes "#") trimmed
    then result
    else add_pair (cut 61 trimmed) result

unfoldable pub add_lines : List String → StringMap String → StringMap String
add_lines [] result = result
add_lines (line ∷ lines) result = add_lines lines (add_line line result)

pub data Parsed (E : Type 0) : Type 0 where
  outputs : StringMap String → Parsed E
  failed : E → Parsed E

abbrev pub unless_failed : {E : Type 0} → StringMap String → Option E → Parsed E
unless_failed result none = outputs result
unless_failed result (some e) = failed e

unfoldable pub parse_output_file : {E : Type 0} → FileRead E → Parsed E
parse_output_file missing = outputs []
parse_output_file (unreadable e) = failed e
parse_output_file (scanned lines e) = unless_failed (add_lines lines []) e
