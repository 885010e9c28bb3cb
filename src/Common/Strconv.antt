-- ===== src/Common/Strconv.antt =====
-- What the source uses of Go's strconv and strings: numbers and Booleans as text, and lists of
-- texts with a separator. An int has 64 bits.
use Prim.Native.Nat.{ℕ, zero, suc, ◌+◌, ◌-◌, ◌*◌, ◌/◌, ◌%◌, ◌^◌, ◌<◌}
use Prim.Native.Char.{Char, code}
use Prim.Native.String.{String, char_at, ◌++◌ as append}
use mathlib.Core.Path.{◌≡◌, refl, sym, ap, ◌∙◌}
use mathlib.Core.Logic.{◌≢◌, inl, inr}
use mathlib.Core.Bool.{Bool, true, false, ◌&&◌, ◌||◌}
use mathlib.Core.Option.{Option, none, some}
use mathlib.Core.List.{List, [], ◌∷◌}
use native.Mathlib.Omega.{arith}
use native.Mathlib.Nat.{pow-suc}
use text.Mathlib.TextLemmas.{nil-append, cons-append, append-ne-nil_of_right_ne-nil, cons≢nil}
use clai.Common.Tests.{ltb, leb, ◌==◌, if◌then◌else◌, Bool-cases}
use clai.Common.Int.{ℤ, pos, negsuc}
use clai.Common.Lists.{All}
use clai.Common.Strings.{str_eq}

abbrev pub digit : ℕ → Char
digit d = char_at "0123456789" d

-- The decimal digits of a number in front of a text. Twenty rounds are enough for 64 bits.
unfoldable pub decimal : ℕ → ℕ → String → String
decimal zero n rest = rest
decimal (suc fuel) n rest = elim (ltb n 10) [
  | true ↦ String.◌∷◌ (digit n) rest
  | false ↦ decimal fuel (n / 10) (String.◌∷◌ (digit (n % 10)) rest)
]

-- `strconv.Itoa`
unfoldable pub itoa : ℤ → String
itoa (pos n) = decimal 20 n ""
itoa (negsuc n) = String.◌∷◌ (char_at "-" 0) (decimal 20 (n + 1) "")

abbrev pub is_digit : ℕ → Bool
is_digit c = leb 48 c && leb c 57

-- The number that the digits after `acc` make.
unfoldable pub digits_from : ℕ → String → Option ℕ
digits_from acc String.[] = some acc
digits_from acc (String.◌∷◌ c s) =
    let rest = digits_from (acc * 10 + (code c - 48)) s in if is_digit (code c) then rest else none

abbrev pub unsigned : String → Option ℕ
unsigned String.[] = none
unsigned (String.◌∷◌ c s) = digits_from 0 (String.◌∷◌ c s)

abbrev pub positive : Option ℕ → Option ℤ
positive none = none
positive (some n) = if ltb n (2 ^ 63) then some (pos n) else none

abbrev pub negative : Option ℕ → Option ℤ
negative none = none
negative (some zero) = some (pos 0)
negative (some (suc n)) = if ltb n (2 ^ 63) then some (negsuc n) else none

-- `strconv.Atoi`
unfoldable pub atoi : String → Option ℤ
unfolding digits_from
atoi String.[] = none
atoi (String.◌∷◌ c s) =
    if code c == 45
    then negative (unsigned s)
    else if code c == 43
    then positive (unsigned s)
    else positive (unsigned (String.◌∷◌ c s))

-- The numbers that an int can hold.
abbrev pub IsInt : ℤ → Type 0
IsInt (pos n) = n < 2 ^ 63
IsInt (negsuc n) = n < 2 ^ 63

code-digit : (d : ℕ) → d < 10 → code (digit d) ≡ d + 48
code-digit zero h = refl
code-digit (suc zero) h = refl
code-digit (suc (suc zero)) h = refl
code-digit (suc (suc (suc zero))) h = refl
code-digit (suc (suc (suc (suc zero)))) h = refl
code-digit (suc (suc (suc (suc (suc zero))))) h = refl
code-digit (suc (suc (suc (suc (suc (suc zero)))))) h = refl
code-digit (suc (suc (suc (suc (suc (suc (suc zero))))))) h = refl
code-digit (suc (suc (suc (suc (suc (suc (suc (suc zero)))))))) h = refl
code-digit (suc (suc (suc (suc (suc (suc (suc (suc (suc zero))))))))) h = refl
code-digit (suc (suc (suc (suc (suc (suc (suc (suc (suc (suc d)))))))))) h = absurd (omega arith)

digits_from-digit :
    (acc d : ℕ) (s : String)
    → d < 10
    → digits_from acc (String.◌∷◌ (digit d) s) ≡ digits_from (acc * 10 + d) s
unfolding digits_from
digits_from-digit acc d s h =
    let e = code-digit d h in
    let same : acc * 10 + (code (digit d) - 48) ≡ acc * 10 + d = omega arith in
    ground (arith, ap (λ k. digits_from k s) same)

decimal-last :
    (fuel n : ℕ) (rest : String)
    → ltb n 10 ≡ true
    → decimal (suc fuel) n rest ≡ String.◌∷◌ (digit n) rest
unfolding decimal
decimal-last fuel n rest e = rw (decimal, e)

decimal-more :
    (fuel n : ℕ) (rest : String)
    → ltb n 10 ≡ false
    → decimal (suc fuel) n rest ≡ decimal fuel (n / 10) (String.◌∷◌ (digit (n % 10)) rest)
unfolding decimal
decimal-more fuel n rest e = rw (decimal, e)

-- Reading on after printing a number gives the number.
digits_from-decimal :
    (fuel n : ℕ) (rest : String)
    → n < 10 ^ suc fuel
    → digits_from 0 (decimal (suc fuel) n rest) ≡ digits_from n rest
digits_from-decimal zero n rest h =
    ap (digits_from 0) (decimal-last zero n rest (ground arith))
    ∙ digits_from-digit 0 n rest (omega arith)
    ∙ ap (λ k. digits_from k rest) (omega arith)
digits_from-decimal (suc fuel) n rest h = elim (Bool-cases (ltb n 10)) [
  | inl small ↦
      ap (digits_from 0) (decimal-last (suc fuel) n rest small)
      ∙ digits_from-digit 0 n rest (ground arith)
      ∙ ap (λ k. digits_from k rest) (omega arith)
  | inr large ↦
      ap (digits_from 0) (decimal-more (suc fuel) n rest large)
      ∙ digits_from-decimal fuel (n / 10) (String.◌∷◌ (digit (n % 10)) rest)
          (omega (arith, pow-suc 10 (suc fuel)))
      ∙ digits_from-digit (n / 10) (n % 10) rest (omega arith)
      ∙ ap (λ k. digits_from k rest) (omega arith)
]

-- A printed number begins with a digit.
decimal-digit :
    (fuel n : ℕ) (rest : String)
    → (d : ℕ) × (s : String) × (d < 10) × (decimal (suc fuel) n rest ≡ String.◌∷◌ (digit d) s)
decimal-digit zero n rest = elim (Bool-cases (ltb n 10)) [
  | inl small ↦ (n, rest, ground arith, decimal-last zero n rest small)
  | inr large ↦
      (n % 10, rest, omega arith, decimal-more zero n rest large ∙ decimal-none (n / 10) _)
]
  where
    decimal-none : (n : ℕ) (r : String) → decimal zero n r ≡ r
    decimal-none n r = unfold decimal in refl
decimal-digit (suc fuel) n rest = elim (Bool-cases (ltb n 10)) [
  | inl small ↦ (n, rest, ground arith, decimal-last (suc fuel) n rest small)
  | inr large ↦
      let (d, s, lt, e) = decimal-digit fuel (n / 10) (String.◌∷◌ (digit (n % 10)) rest) in
      (d, s, lt, decimal-more (suc fuel) n rest large ∙ e)
]

unsigned-decimal : (n : ℕ) → n < 2 ^ 64 → unsigned (decimal 20 n "") ≡ some n
unsigned-decimal n h =
    let (d, s, lt, e) = decimal-digit 19 n "" in
    let read : digits_from 0 (decimal 20 n "") ≡ some n =
      digits_from-decimal 19 n "" (omega arith) ∙ (unfold digits_from in refl) in
    ap unsigned e ∙ sym (ap (digits_from 0) e) ∙ read

atoi-digit :
    (d : ℕ) (s : String)
    → d < 10
    → atoi (String.◌∷◌ (digit d) s) ≡ positive (unsigned (String.◌∷◌ (digit d) s))
unfolding atoi
atoi-digit d s h = ground (arith, code-digit d h)

atoi-minus : (s : String) → atoi (String.◌∷◌ (char_at "-" 0) s) ≡ negative (unsigned s)
unfolding atoi
atoi-minus s = refl

negative-suc : (n : ℕ) → n < 2 ^ 63 → negative (some (suc n)) ≡ some (negsuc n)
negative-suc n h = ground arith

-- `Atoi` reads back every int that `Itoa` prints.
pub atoi-itoa : (x : ℤ) → IsInt x → atoi (itoa x) ≡ some x
unfolding itoa
atoi-itoa (pos n) h =
    let (d, s, lt, e) = decimal-digit 19 n "" in
    ap atoi e
    ∙ atoi-digit d s lt
    ∙ ap (λ t. positive (unsigned t)) (sym e)
    ∙ ap positive (unsigned-decimal n (omega arith))
    ∙ ground arith
atoi-itoa (negsuc n) h =
    atoi-minus (decimal 20 (n + 1) "")
    ∙ ap negative (unsigned-decimal (n + 1) (omega arith))
    ∙ ap (λ k. negative (some k)) {x = n + 1} {y = suc n} (omega arith)
    ∙ negative-suc n h

-- `strconv.FormatBool`
abbrev pub format_bool : Bool → String
format_bool true = "true"
format_bool false = "false"

abbrev is_among : List String → String → Bool
is_among [] s = false
is_among (x ∷ xs) s = str_eq x s || is_among xs s

-- `strconv.ParseBool`
unfoldable pub parse_bool : String → Option Bool
parse_bool s =
    if is_among ("1" ∷ "t" ∷ "T" ∷ "TRUE" ∷ "true" ∷ "True" ∷ []) s
    then some true
    else if is_among ("0" ∷ "f" ∷ "F" ∷ "FALSE" ∷ "false" ∷ "False" ∷ []) s
    then some false
    else none

pub parse_bool-format_bool : (b : Bool) → parse_bool (format_bool b) ≡ some b
unfolding parse_bool
parse_bool-format_bool true = refl
parse_bool-format_bool false = refl

abbrev before : Char → List String → List String
before c [] = String.◌∷◌ c "" ∷ []
before c (p ∷ ps) = String.◌∷◌ c p ∷ ps

-- `strings.Split` by a separator of one rune: one part more than there are separators.
unfoldable pub split : ℕ → String → List String
split sep String.[] = "" ∷ []
split sep (String.◌∷◌ c s) =
    let parts = split sep s in if code c == sep then "" ∷ parts else before c parts

abbrev pub join_rest : String → String → List String → String
join_rest sep p [] = p
join_rest sep p (q ∷ qs) = append p (append sep (join_rest sep q qs))

-- `strings.Join`
unfoldable pub join : String → List String → String
join sep [] = ""
join sep (p ∷ ps) = join_rest sep p ps

-- The separator does not occur in the text.
abbrev pub IsPart : ℕ → String → Type 0
IsPart sep String.[] = Unit
IsPart sep (String.◌∷◌ c s) = ((code c == sep) ≡ false) × IsPart sep s

split-more :
    (sep : ℕ) (c : Char) (s : String)
    → (code c == sep) ≡ false
    → split sep (String.◌∷◌ c s) ≡ before c (split sep s)
unfolding split
split-more sep c s h = rw h refl

split-part :
    (sep : Char) (p rest : String)
    → IsPart (code sep) p
    → split (code sep) (append p (String.◌∷◌ sep rest)) ≡ p ∷ split (code sep) rest
unfolding split
split-part sep String.[] rest h =
    ap (split (code sep)) (nil-append (String.◌∷◌ sep rest)) ∙ ground arith
split-part sep (String.◌∷◌ c p) rest h =
    ap (split (code sep)) (cons-append c p (String.◌∷◌ sep rest))
    ∙ split-more (code sep) c (append p (String.◌∷◌ sep rest)) h.0
    ∙ ap (before c) (split-part sep p rest h.1)

split-last : (sep : ℕ) (p : String) → IsPart sep p → split sep p ≡ p ∷ []
unfolding split
split-last sep String.[] h = refl
split-last sep (String.◌∷◌ c p) h = rw (h.0, split-last sep p h.1) refl

comma-append : (s : String) → append "," s ≡ String.◌∷◌ (char_at "," 0) s
comma-append s = cons-append (char_at "," 0) "" s ∙ ap (String.◌∷◌ (char_at "," 0)) (nil-append s)

-- Splitting by commas gives the parts that were joined by them.
pub split-join :
    (p : String) (ps : List String)
    → All (IsPart 44) (p ∷ ps)
    → split 44 (join_rest "," p ps) ≡ p ∷ ps
split-join p [] h = split-last 44 p h.0
split-join p (q ∷ ps) h =
    ap (λ t. split 44 (append p t)) (comma-append (join_rest "," q ps))
    ∙ split-part (char_at "," 0) p (join_rest "," q ps) h.0
    ∙ ap (λ t. p ∷ t) (split-join q ps h.1)

pub join-ne-empty : (p q : String) (ps : List String) → join_rest "," p (q ∷ ps) ≢ ""
join-ne-empty p q ps =
    append-ne-nil_of_right_ne-nil p (λ e. cons≢nil (sym (comma-append (join_rest "," q ps)) ∙ e))
