-- ===== src/Dismissal/History.antt =====
-- The state machine as a function of the history: what `GetState` returns after any sequence of
-- operations on any keys is told by the past operations on that key alone.
use clai.Common.{
  ℕ, suc, ◌<◌, leb, ◌==◌, if◌then◌else◌, Bool, true, false, ◌&&◌, List, [], ◌∷◌, Option, none, some,
  ◌≡◌, refl, sym, ap, ◌∙◌, arith, Bool-cases, inl, inr, ◌⊎◌, subst, ℤ,
}
use clai.Dismissal.{
  State, state_none, state_temporary, state_learned, state_permanent, Key, Pattern, Store, Error,
  ok, new_store, missing_field, read_state, execute, key_eq, find, dismiss_row, dismissal_statement,
  acceptance_statement, never_statement, unblock_statement, record_dismissal, record_acceptance,
  record_never, record_unblock, get_state, Table, or_now, is_permanent_level,
}
use clai.Dismissal.Table.{
  key_eq_iff, IsKeyed, written, surviving, find-upsert, find-delete_where, upsert-IsKeyed,
  delete_where-IsKeyed,
}

pub data Action : Type 0 where
  dismiss : ℤ → Action
  accept : Action
  never : ℤ → Action
  unblock : Action

-- A call of the store at a clock reading; `served` tells whether the driver carries it out.
pub record Call : Type 0 where
  pub clock : ℤ
  pub served : Bool
  pub key : Key
  pub action : Action

abbrev act_on : Store → Bool → ℤ → Key → Action → Store × Option Error
act_on s served clock k (dismiss now) = record_dismissal s served clock k now
act_on s served clock k accept = record_acceptance s served k
act_on s served clock k (never now) = record_never s served clock k now
act_on s served clock k unblock = record_unblock s served k

unfoldable pub act : Store → Call → Store × Option Error
act s c = act_on s c.served c.clock c.key c.action

unfoldable pub run : Store → List Call → Store
unfolding act
run s [] = s
run s (c ∷ cs) = run (act s c).0 cs

-- The past of one key, the latest action first: the calls on it that were carried out.
abbrev pub past : Key → List Action → List Call → List Action
past k h [] = h
past k h (c ∷ cs) = past k (if c.served && key_eq c.key k then c.action ∷ h else h) cs

-- Whether a `never` stands that no acceptance or unblocking has lifted.
abbrev pub banned : List Action → Bool
banned [] = false
banned (dismiss _ ∷ h) = banned h
banned (accept ∷ h) = false
banned (never _ ∷ h) = true
banned (unblock ∷ h) = false

-- The dismissals since the key was last forgiven. An unblocking forgives only what was banned.
abbrev pub dismissals : List Action → ℕ
dismissals [] = 0
dismissals (dismiss _ ∷ h) = suc (dismissals h)
dismissals (accept ∷ h) = 0
dismissals (never _ ∷ h) = 0
dismissals (unblock ∷ h) = let before = dismissals h in if banned h then 0 else before

abbrev pub expected : ℕ → List Action → State
expected threshold h =
    if banned h
    then state_permanent
    else if dismissals h == 0
    then state_none
    else if leb threshold (dismissals h)
    then state_learned
    else state_temporary

-- What the row of a key is to be, its times apart.
abbrev Agrees : ℕ → List Action → Option Pattern → Type 0
Agrees threshold h none = (banned h ≡ false) × (dismissals h ≡ 0)
Agrees threshold h (some p) =
    (p.suppression_level ≡ expected threshold h)
    × (banned h ≡ false → (0 < dismissals h) × (p.dismissal_count ≡ dismissals h))

-- The statement of an action, as what it makes of the row of its key.
row_after : ℕ → ℤ → Action → Option Pattern → Option Pattern
row_after threshold clock (dismiss now) o = some (
    written
      (record {
        suppression_level = if leb threshold 1 then state_learned else state_temporary;
        dismissal_count = 1;
        last_dismissed_ms = or_now now clock;
      })
      (dismiss_row threshold (or_now now clock)) o)
row_after threshold clock accept o = none
row_after threshold clock (never now) o = some (
    written
      (record {
        suppression_level = state_permanent;
        dismissal_count = 1;
        last_dismissed_ms = or_now now clock;
      })
      (λ p. record p { suppression_level = state_permanent; last_dismissed_ms = or_now now clock })
      o)
row_after threshold clock unblock o = surviving (λ p. is_permanent_level p.suppression_level) o

row_after-Agrees :
    (threshold : ℕ) (clock : ℤ) (h : List Action) (a : Action) (o : Option Pattern)
    → 0 < threshold
    → Agrees threshold h o
    → Agrees threshold (a ∷ h) (row_after threshold clock a o)
unfolding row_after dismiss_row
row_after-Agrees threshold clock h (dismiss now) none t g = ground arith
row_after-Agrees threshold clock h (dismiss now) (some p) t g = ground arith
row_after-Agrees threshold clock h accept o t g = (refl, refl)
row_after-Agrees threshold clock h (never now) none t g = ground arith
row_after-Agrees threshold clock h (never now) (some p) t g = ground arith
row_after-Agrees threshold clock h unblock none t g = ground arith
row_after-Agrees threshold clock h unblock (some p) t g = ground arith

surviving_all : (o : Option Pattern) → surviving (λ _. true) o ≡ none
surviving_all none = refl
surviving_all (some p) = refl

-- The statement that an action stands for.
abbrev statement : ℕ → ℤ → Key → Action → Table → Table
statement threshold clock k (dismiss now) = dismissal_statement threshold (or_now now clock) k
statement threshold clock k accept = acceptance_statement k
statement threshold clock k (never now) = never_statement (or_now now clock) k
statement threshold clock k unblock = unblock_statement k

act-execute :
    (s : Store) (c : Call)
    → act s c ≡ execute s c.served c.key (statement s.learned_threshold c.clock c.key c.action)
unfolding act record_dismissal record_acceptance record_never record_unblock
act-execute s c = by_action c.action
  where
    by_action :
        (a : Action)
        → act_on s c.served c.clock c.key a
          ≡ execute s c.served c.key (statement s.learned_threshold c.clock c.key a)
    by_action (dismiss now) = refl
    by_action accept = refl
    by_action (never now) = refl
    by_action unblock = refl

module _ (threshold : ℕ) (clock : ℤ) (k : Key) (t : Table) (keyed : IsKeyed t) where
  find-statement :
      (j : Key) (a : Action)
      → find j (statement threshold clock k a t)
        ≡ (if key_eq k j then row_after threshold clock a (find k t) else find j t)
  unfolding row_after dismissal_statement acceptance_statement never_statement unblock_statement
  find-statement j (dismiss now) = find-upsert k j _ _ t
  find-statement j accept =
      find-delete_where k j (λ _. true) t keyed
      ∙ ap (λ o. if key_eq k j then o else find j t) (surviving_all (find k t))
  find-statement j (never now) = find-upsert k j _ _ t
  find-statement j unblock = find-delete_where k j _ t keyed

  statement-IsKeyed : (a : Action) → IsKeyed (statement threshold clock k a t)
  unfolding dismissal_statement acceptance_statement never_statement unblock_statement
  statement-IsKeyed (dismiss now) = upsert-IsKeyed k _ _ t keyed
  statement-IsKeyed accept = delete_where-IsKeyed k _ t keyed
  statement-IsKeyed (never now) = upsert-IsKeyed k _ _ t keyed
  statement-IsKeyed unblock = delete_where-IsKeyed k _ t keyed

-- What one call does, by its guards: nothing, or its statement.
execute-cases :
    (s : Store) (served : Bool) (k : Key) (st : Table → Table)
    → let t' = (execute s served k st).0 in
      (t'.learned_threshold ≡ s.learned_threshold)
      × ((t'.table ≡ s.table) × ((missing_field k ≡ true) ⊎ (served ≡ false))
          ⊎ (t'.table ≡ st s.table) × (served ≡ true))
execute-cases s served k st = by_guards (missing_field k) served refl refl
  where
    by_guards :
        (m b : Bool)
        → missing_field k ≡ m
        → served ≡ b
        → let t' = (execute s served k st).0 in
          (t'.learned_threshold ≡ s.learned_threshold)
          × ((t'.table ≡ s.table) × ((missing_field k ≡ true) ⊎ (served ≡ false))
              ⊎ (t'.table ≡ st s.table) × (served ≡ true))
    by_guards true b m s = rw m (refl, inl (refl, inl refl))
    by_guards false true m s = rw (m, s) (refl, inr (refl, refl))
    by_guards false false m s = rw (m, s) (refl, inl (refl, inr refl))

module _ (k : Key) (whole : missing_field k ≡ false) where
  -- A call that is refused for its fields is not about `k`.
  other_key : (j : Key) → missing_field j ≡ true → key_eq j k ≡ false
  other_key j m = elim (Bool-cases (key_eq j k)) [
    | inl same ↦ let e = subst (λ x. missing_field x ≡ true) ((key_eq_iff j k).0 same) m in cc
    | inr other ↦ other
  ]

  skipped :
      (c : Call)
      → (missing_field c.key ≡ true) ⊎ (c.served ≡ false)
      → (c.served && key_eq c.key k) ≡ false
  skipped c (inl m) = let e = other_key c.key m in ground arith
  skipped c (inr lost) = ground arith

  -- The row of `k`, after a statement on `c.key`, agrees with its longer past.
  stated-Agrees :
      (threshold : ℕ) (c : Call) (h : List Action) (t : Table)
      → IsKeyed t
      → 0 < threshold
      → c.served ≡ true
      → Agrees threshold h (find k t)
      → Agrees threshold
          (if c.served && key_eq c.key k then c.action ∷ h else h)
          (find k (statement threshold c.clock c.key c.action t))
  stated-Agrees threshold c h t keyed pos served g =
      rw (find-statement threshold c.clock c.key t keyed k c.action, served)
        (elim (Bool-cases (key_eq c.key k)) [
          | inl same ↦
              rw (same, (key_eq_iff c.key k).0 same)
                (row_after-Agrees threshold c.clock h c.action (find k t) pos g)
          | inr other ↦ rw other g
        ])

  act-Agrees :
      (s : Store) (c : Call) (h : List Action)
      → IsKeyed s.table
      → 0 < s.learned_threshold
      → Agrees s.learned_threshold h (find k s.table)
      → let s' = (act s c).0 in
        IsKeyed s'.table
        × (s'.learned_threshold ≡ s.learned_threshold)
        × Agrees s.learned_threshold
            (if c.served && key_eq c.key k then c.action ∷ h else h)
            (find k s'.table)
  act-Agrees s c h keyed pos g =
      let st = statement s.learned_threshold c.clock c.key c.action in
      let (same, outcome) = execute-cases s c.served c.key st in
      rw act-execute (elim outcome [
        | inl (kept, why) ↦ (rw kept keyed, same, rw (kept, skipped c why) g)
        | inr (written_to, served) ↦ (
          rw written_to
              (statement-IsKeyed s.learned_threshold c.clock c.key s.table keyed c.action),
          same,
          rw written_to (stated-Agrees s.learned_threshold c h s.table keyed pos served g),
        )
      ])

  run-Agrees :
      (threshold : ℕ) (s : Store) (cs : List Call) (h : List Action)
      → s.learned_threshold ≡ threshold
      → 0 < threshold
      → IsKeyed s.table
      → Agrees threshold h (find k s.table)
      → Agrees threshold (past k h cs) (find k (run s cs).table)
  unfolding run
  run-Agrees threshold s [] h e pos keyed g = g
  run-Agrees threshold s (c ∷ cs) h e pos keyed g =
      let (still, same, next) =
        act-Agrees s c h keyed (omega arith) (subst (λ n. Agrees n h (find k s.table)) (sym e) g) in
      run-Agrees threshold (act s c).0 cs (if c.served && key_eq c.key k then c.action ∷ h else h)
        (same ∙ e) pos still
        (subst
          (λ n.
            Agrees n (if c.served && key_eq c.key k then c.action ∷ h else h)
              (find k (act s c).0.table))
          e next)

read-Agrees :
    (threshold : ℕ) (h : List Action) (o : Option Pattern)
    → Agrees threshold h o
    → read_state o ≡ ok (expected threshold h)
read-Agrees threshold h none g = ground arith
read-Agrees threshold h (some p) g = ground arith

-- After any sequence of calls of the four `Record` operations on a new store, on any keys and
-- with the driver failing on any of them, `GetState` of a key that has all its fields returns
-- what the past calls on that key that were carried out tell: permanent if a `never` stands
-- that no later acceptance or unblocking has lifted; else none, temporary or learned, by the
-- number of dismissals since the key was last forgiven.
pub run-get_state :
    (threshold : ℤ) (cs : List Call) (k : Key)
    → missing_field k ≡ false
    → let s = new_store [] threshold in
      get_state (run s cs) true k ≡ ok (expected s.learned_threshold (past k [] cs))
unfolding get_state new_store find
run-get_state threshold cs k whole =
    let s = new_store [] threshold in
    rw whole (
      read-Agrees s.learned_threshold (past k [] cs) (find k (run s cs).table)
        (run-Agrees k whole s.learned_threshold s cs [] refl (ground arith) tt (refl, refl)))
