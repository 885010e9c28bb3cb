-- ===== src/Dismissal.antt =====
-- internal/suggestions/dismissal/dismissal.go: which suggestions a user does not want to see.
-- The table `dismissal_pattern` is the list of its rows; its primary key is the triple `Key`, and
-- each statement is the function that its SQL text says, applied to the table. The database
-- driver is outside the program: `served` says of each call whether it carries the statement out
-- or reports an error and changes nothing. `clock` is `time.Now().UnixMilli()`.
use clai.Common.{
  ℕ, zero, suc, ◌+◌, leb, if◌then◌else◌, Bool, true, false, not, ◌&&◌, ◌||◌, List, [], ◌∷◌, String,
  str_eq, Option, none, some, ℤ, pos, positive_or,
}
pub mod Table
pub mod History
pub mod Filter
mod Samples

-- `State` is a string; `unrecognized` stands for every string but the four constants.
pub data State : Type 0 where
  state_none state_temporary state_learned state_permanent : State
  unrecognized : String → State

abbrev pub is_valid : State → Bool
is_valid (unrecognized s) = false
is_valid _ = true

pub record Key : Type 0 where
  pub scope : String
  pub context_template_id : String
  pub dismissed_template_id : String

-- The other columns of a row.
pub record Pattern : Type 0 where
  pub suppression_level : State
  pub dismissal_count : ℕ
  pub last_dismissed_ms : ℤ

pub record PatternRecord : Type 0 where
  pub key : Key
  pub pattern_of : Pattern

abbrev pub Table : Type 0
Table = List (Key × Pattern)

pub record Store : Type 0 where
  pub learned_threshold : ℕ
  pub table : Table

abbrev pub default_learned_threshold : ℕ
default_learned_threshold = 3

-- `NewStore`, over a table that is there already.
unfoldable pub new_store : Table → ℤ → Store
new_store table threshold = record {
  learned_threshold = positive_or threshold default_learned_threshold;
  table = table;
}

unfoldable pub key_eq : Key → Key → Bool
key_eq a b =
    str_eq a.scope b.scope
    && str_eq a.context_template_id b.context_template_id
    && str_eq a.dismissed_template_id b.dismissed_template_id

-- `WHERE scope = ? AND context_template_id = ? AND dismissed_template_id = ?`
unfoldable pub find : Key → Table → Option Pattern
unfolding key_eq
find k [] = none
find k ((j, p) ∷ t) = if key_eq j k then some p else find k t

-- `INSERT … ON CONFLICT(scope, …) DO UPDATE SET …`
unfoldable pub upsert : Key → Pattern → (Pattern → Pattern) → Table → Table
unfolding key_eq
upsert k p f [] = (k, p) ∷ []
upsert k p f ((j, q) ∷ t) = if key_eq j k then (j, f q) ∷ t else (j, q) ∷ upsert k p f t

-- `DELETE FROM dismissal_pattern WHERE scope = ? AND …`, and a further condition on the row.
unfoldable pub delete_where : Key → (Pattern → Bool) → Table → Table
unfolding key_eq
delete_where k c [] = []
delete_where k c ((j, q) ∷ t) =
    let rest = delete_where k c t in if key_eq j k && c q then rest else (j, q) ∷ rest

pub data Error : Type 0 where
  required_fields : Error
  query_failed : Error
  invalid_level : String → Error

abbrev pub missing_field : Key → Bool
missing_field k =
    str_eq k.scope "" || (str_eq k.context_template_id "" || str_eq k.dismissed_template_id "")

-- `if nowMs == 0 { nowMs = time.Now().UnixMilli() }`
abbrev pub or_now : ℤ → ℤ → ℤ
or_now (pos zero) clock = clock
or_now now clock = now

-- A statement on a key: refused without its fields, lost with an error, or carried out.
abbrev pub execute : Store → Bool → Key → (Table → Table) → Store × Option Error
execute s served k statement =
    if missing_field k
    then (s, some required_fields)
    else if served
    then (record s { table = statement s.table }, none)
    else (s, some query_failed)

abbrev pub is_permanent_level : State → Bool
is_permanent_level state_permanent = true
is_permanent_level _ = false

-- The `DO UPDATE SET` of `RecordDismissal`; every right side reads the row as it was.
dismiss_row : ℕ → ℤ → Pattern → Pattern
dismiss_row threshold now p =
    if is_permanent_level p.suppression_level
    then record p { last_dismissed_ms = now }
    else (record p {
      dismissal_count = p.dismissal_count + 1;
      last_dismissed_ms = now;
      suppression_level =
          if leb threshold (p.dismissal_count + 1) then state_learned else state_temporary;
    })

-- The statement of `RecordDismissal`: the first dismissal is a new row.
unfoldable pub dismissal_statement : ℕ → ℤ → Key → Table → Table
unfolding dismiss_row upsert
dismissal_statement threshold now k =
    upsert k
      (record {
        suppression_level = if leb threshold 1 then state_learned else state_temporary;
        dismissal_count = 1;
        last_dismissed_ms = now;
      })
      (dismiss_row threshold now)

unfoldable pub acceptance_statement : Key → Table → Table
unfolding delete_where
acceptance_statement k = delete_where k (λ _. true)

unfoldable pub never_statement : ℤ → Key → Table → Table
unfolding upsert
never_statement now k =
    upsert k
      (record { suppression_level = state_permanent; dismissal_count = 1; last_dismissed_ms = now })
      (λ p. record p { suppression_level = state_permanent; last_dismissed_ms = now })

unfoldable pub unblock_statement : Key → Table → Table
unfolding delete_where
unblock_statement k = delete_where k (λ p. is_permanent_level p.suppression_level)

unfoldable pub record_dismissal : Store → Bool → ℤ → Key → ℤ → Store × Option Error
record_dismissal s served clock k now_ms =
    execute s served k (dismissal_statement s.learned_threshold (or_now now_ms clock) k)

unfoldable pub record_acceptance : Store → Bool → Key → Store × Option Error
record_acceptance s served k = execute s served k (acceptance_statement k)

unfoldable pub record_never : Store → Bool → ℤ → Key → ℤ → Store × Option Error
record_never s served clock k now_ms = execute s served k (never_statement (or_now now_ms clock) k)

unfoldable pub record_unblock : Store → Bool → Key → Store × Option Error
record_unblock s served k = execute s served k (unblock_statement k)

pub data Result {ℓ} (A : Type ℓ) : Type ℓ where
  ok : A → Result A
  err : Error → Result A

abbrev pub read_state : Option Pattern → Result State
read_state none = ok state_none
read_state (some p) = elim p.suppression_level [
  | unrecognized s ↦ err (invalid_level s)
  | level ↦ ok level
]

unfoldable pub get_state : Store → Bool → Key → Result State
unfolding find
get_state s served k =
    if missing_field k
    then ok state_none
    else if served
    then read_state (find k s.table)
    else err query_failed

abbrev record_of : Key → Option Pattern → Option PatternRecord
record_of k none = none
record_of k (some p) = some (record { key = k; pattern_of = p })

unfoldable pub get_record : Store → Bool → Key → Result (Option PatternRecord)
get_record s served k =
    if missing_field k
    then ok none
    else if served
    then ok (record_of k (find k s.table))
    else err query_failed

abbrev pub suppressing : State → Bool
suppressing state_learned = true
suppressing state_permanent = true
suppressing _ = false

-- `IsSuppressed`
abbrev pub suppressing_result : Result State → Result Bool
suppressing_result (ok level) = ok (suppressing level)
suppressing_result (err e) = err e

unfoldable pub is_suppressed : Store → Bool → Key → Result Bool
is_suppressed s served k = suppressing_result (get_state s served k)

-- `SELECT dismissed_template_id … WHERE scope = ? AND context_template_id = ? AND
-- suppression_level IN ('learned', 'permanent')`
unfoldable pub select_suppressed : String → String → Table → List String
select_suppressed scope context [] = []
select_suppressed scope context ((j, p) ∷ t) =
    let rest = select_suppressed scope context t in
    if str_eq j.scope scope
      && (str_eq j.context_template_id context && suppressing p.suppression_level)
    then j.dismissed_template_id ∷ rest
    else rest

abbrev pub contains : String → List String → Bool
contains x [] = false
contains x (y ∷ ys) = str_eq y x || contains x ys

-- The loop that drops the suppressed candidates; a candidate is its template id.
unfoldable pub filter_out : List String → List String → List String
filter_out suppressed [] = []
filter_out suppressed (c ∷ cs) =
    let rest = filter_out suppressed cs in if contains c suppressed then rest else c ∷ rest

abbrev pub filter_by : List String → List String → List String
filter_by [] candidates = candidates
filter_by (t ∷ ts) candidates = filter_out (t ∷ ts) candidates

abbrev pub no_filter : List String → String → String → Bool
no_filter [] scope context = true
no_filter (_ ∷ _) scope context = str_eq scope "" || str_eq context ""

unfoldable pub filter_candidates :
    Store → Bool → String → String → List String → Result (List String)
unfolding select_suppressed filter_out
filter_candidates s served scope context candidates =
    if no_filter candidates scope context
    then ok candidates
    else if served
    then ok (filter_by (select_suppressed scope context s.table) candidates)
    else err query_failed
