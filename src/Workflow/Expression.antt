-- ===== src/Workflow/Expression.antt =====
-- internal/workflow/expression.go: the expressions `${{ … }}` of a workflow file. The pattern
-- `\$\{\{(.*?)\}\}` is written out: from the left, each `${{` with the nearest `}}` of its line. A
-- missing map and an empty one answer alike.
use Prim.Native.Char.{Char, code}
use Prim.Native.String.{◌++◌ as append}
use clai.Common.{
  ℕ, zero, suc, ◌+◌, ◌==◌, leb, if◌then◌else◌, Bool, true, false, not, ◌&&◌, ◌||◌, List, [], ◌∷◌,
  Text, codes, String, str_eq, Option, none, some,
}
use clai.Common.StringMap.{StringMap, lookup}

pub record ExpressionContext : Type 0 where
  pub env : StringMap String
  pub matrix : StringMap String
  pub steps : StringMap (StringMap String)

pub data ExpressionError : Type 0 where
  nil_context : ExpressionError
  nested_expression empty_expression invalid_expression : String → ExpressionError
  unknown_namespace : String → String → ExpressionError
  unresolved_env unresolved_matrix invalid_steps only_outputs : String → ExpressionError
  unresolved_output : String → String → ExpressionError
  unmatched_delimiter : String → ExpressionError

pub data Result {ℓ} (A : Type ℓ) : Type ℓ where
  ok : A → Result A
  err : ExpressionError → Result A

infixl 5 ◌>>=◌
abbrev pub ◌>>=◌ {ℓ κ} : {A : Type ℓ} {B : Type κ} → Result A → (A → Result B) → Result B
ok a >>= f = f a
err e >>= f = err e

abbrev pub opening : Text
opening = codes "${{"

abbrev pub closing : Text
closing = codes "}}"

abbrev pub has_prefix : Text → String → Bool
has_prefix [] s = true
has_prefix (c ∷ cs) String.[] = false
has_prefix (c ∷ cs) (String.◌∷◌ d s) = (c == code d) && has_prefix cs s

unfoldable pub contains : Text → String → Bool
contains part String.[] = has_prefix part String.[]
contains part (String.◌∷◌ d s) = has_prefix part (String.◌∷◌ d s) || contains part s

-- `unicode.IsSpace`
abbrev pub is_space : ℕ → Bool
is_space c =
    (leb 9 c && leb c 13)
    || c == 32
    || c == 133
    || c == 160
    || c == 5760
    || (leb 8192 c && leb c 8202)
    || c == 8232
    || c == 8233
    || c == 8239
    || c == 8287
    || c == 12288

unfoldable pub trim_left : String → String
trim_left String.[] = String.[]
trim_left (String.◌∷◌ c s) = if is_space (code c) then trim_left s else String.◌∷◌ c s

-- A character in front of a text that is trimmed at the end.
abbrev pub trimmed_cons : Char → String → String
trimmed_cons c String.[] = if is_space (code c) then String.[] else String.◌∷◌ c String.[]
trimmed_cons c (String.◌∷◌ d s) = String.◌∷◌ c (String.◌∷◌ d s)

unfoldable pub trim_right : String → String
trim_right String.[] = String.[]
trim_right (String.◌∷◌ c s) = trimmed_cons c (trim_right s)

-- `strings.TrimSpace`
abbrev pub trim_space : String → String
trim_space s = trim_right (trim_left s)

abbrev pub in_front : Char → Option (String × String) → Option (String × String)
in_front c none = none
in_front c (some (before, after)) = some (String.◌∷◌ c before, after)

-- The parts before and after the first of a character.
unfoldable pub cut : ℕ → String → Option (String × String)
cut sep String.[] = none
cut sep (String.◌∷◌ c s) =
    let rest = in_front c (cut sep s) in if code c == sep then some (String.[], s) else rest

abbrev pub in_front_of_body : Char → Option String → Option String
in_front_of_body c none = none
in_front_of_body c (some s) = some (String.◌∷◌ c s)

-- What stands between the opening and the nearest closing, on one line.
unfoldable pub body : String → Option String
body String.[] = none
body (String.◌∷◌ c s) =
    let rest = in_front_of_body c (body s) in
    if has_prefix closing (String.◌∷◌ c s)
    then some String.[]
    else if code c == 10
    then none
    else rest

abbrev pub skip : ℕ → String → String
skip zero s = s
skip (suc n) String.[] = String.[]
skip (suc n) (String.◌∷◌ c s) = skip n s

abbrev pub text_length : String → ℕ
text_length String.[] = 0
text_length (String.◌∷◌ c s) = suc (text_length s)

-- The expression that starts here.
abbrev pub match_here : String → Option String
match_here s = if has_prefix opening s then body (skip 3 s) else none

pub data Piece : Type 0 where
  literal : Char → Piece
  expression : String → Piece

-- The text as characters and expressions; the number is how much of it a match has taken.
unfoldable pub pieces : ℕ → String → List Piece
pieces n String.[] = []
pieces (suc n) (String.◌∷◌ c s) = pieces n s
pieces zero (String.◌∷◌ c s) = elim (match_here (String.◌∷◌ c s)) [
  | none ↦ literal c ∷ pieces zero s
  | some inner ↦ expression inner ∷ pieces (text_length inner + 4) s
]

abbrev pub value_or : ExpressionError → Option String → Result String
value_or e none = err e
value_or e (some v) = ok v

unfoldable pub resolve_env : String → ExpressionContext → Result String
resolve_env key ctx = value_or (unresolved_env key) (lookup key ctx.env)

unfoldable pub resolve_matrix : String → ExpressionContext → Result String
resolve_matrix key ctx = value_or (unresolved_matrix key) (lookup key ctx.matrix)

abbrev pub output_of : ExpressionError → String → Option (StringMap String) → Result String
output_of e key none = err e
output_of e key (some outputs) = value_or e (lookup key outputs)

-- `steps.ID.outputs.KEY`, cut at its first two dots.
abbrev pub resolve_output :
    String → String → Option (String × String) → ExpressionContext → Result String
resolve_output path id none ctx = err (invalid_steps path)
resolve_output path id (some (segment, key)) ctx =
    if str_eq segment "outputs"
    then output_of (unresolved_output id key) key (lookup id ctx.steps)
    else err (only_outputs path)

abbrev pub resolve_segments : String → Option (String × String) → ExpressionContext → Result String
resolve_segments path none ctx = err (invalid_steps path)
resolve_segments path (some (id, rest)) ctx = resolve_output path id (cut 46 rest) ctx

unfoldable pub resolve_steps : String → ExpressionContext → Result String
resolve_steps path ctx = resolve_segments path (cut 46 path) ctx

abbrev pub resolve_parts : String → Option (String × String) → ExpressionContext → Result String
resolve_parts expr none ctx = err (invalid_expression expr)
resolve_parts expr (some (namespace, rest)) ctx =
    if str_eq namespace "env"
    then resolve_env rest ctx
    else if str_eq namespace "matrix"
    then resolve_matrix rest ctx
    else if str_eq namespace "steps"
    then resolve_steps rest ctx
    else err (unknown_namespace namespace expr)

unfoldable pub resolve_expr : String → ExpressionContext → Result String
resolve_expr expr ctx = resolve_parts expr (cut 46 expr) ctx

-- What replaces a match.
unfoldable pub replacement : ExpressionContext → String → Result String
replacement ctx inner =
    let expr = trim_space inner in
    if contains opening inner
    then err (nested_expression inner)
    else if str_eq expr ""
    then err (empty_expression inner)
    else resolve_expr expr ctx

-- The replaced text, or the first error.
unfoldable pub replace_all : ExpressionContext → List Piece → Result String
replace_all ctx [] = ok ""
replace_all ctx (literal c ∷ ps) = do rest ← replace_all ctx ps; ok (String.◌∷◌ c rest)
replace_all ctx (expression inner ∷ ps) = do
  v ← replacement ctx inner
  rest ← replace_all ctx ps
  ok (append v rest)

unfoldable pub without_matches : List Piece → String
without_matches [] = ""
without_matches (literal c ∷ ps) = String.◌∷◌ c (without_matches ps)
without_matches (expression inner ∷ ps) = without_matches ps

abbrev pub resolve_in : String → Option ExpressionContext → Result String
resolve_in input none = err nil_context
resolve_in input (some ctx) = do
  result ← replace_all ctx (pieces 0 input)
  if contains opening (without_matches (pieces 0 result))
      then err (unmatched_delimiter input)
      else ok result

unfoldable pub resolve_expressions : String → Option ExpressionContext → Result String
resolve_expressions input ctx =
    if not (contains opening input) then ok input else resolve_in input ctx
