-- ===== src/Dismissal/Table.antt =====
-- The table under its statements: lookup laws, and one row for each key.
use clai.Common.{
  if◌then◌else◌, Bool, true, false, [], ◌∷◌, str_eq_iff, Option, none, some, ◌≡◌, ◌↔◌, refl, arith,
  Bool-cases, inl, inr, subst,
}
use clai.Dismissal.{Key, Pattern, Table, key_eq, find, upsert, delete_where}

pub key_eq_iff : (a b : Key) → (key_eq a b ≡ true) ↔ (a ≡ b)
unfolding key_eq
key_eq_iff a b = ground (
  arith,
  str_eq_iff a.scope b.scope,
  str_eq_iff a.context_template_id b.context_template_id,
  str_eq_iff a.dismissed_template_id b.dismissed_template_id,
)

-- The primary key: no two rows have the same.
abbrev pub IsKeyed : Table → Type 0
IsKeyed [] = Unit
IsKeyed ((k, _) ∷ t) = (find k t ≡ none) × IsKeyed t

-- What a row becomes when it is written: a new one if there was none.
abbrev pub written : Pattern → (Pattern → Pattern) → Option Pattern → Pattern
written p f none = p
written p f (some q) = f q

pub find-upsert :
    (k j : Key) (p : Pattern) (f : Pattern → Pattern) (t : Table)
    → find j (upsert k p f t) ≡ (if key_eq k j then some (written p f (find k t)) else find j t)
unfolding find upsert
find-upsert k j p f [] = refl
find-upsert k j p f ((i, q) ∷ t) =
    ground (arith, key_eq_iff k j, key_eq_iff i k, key_eq_iff i j, find-upsert k j p f t)

abbrev pub surviving : (Pattern → Bool) → Option Pattern → Option Pattern
surviving c none = none
surviving c (some q) = if c q then none else some q

find-delete_other :
    (k j : Key) (c : Pattern → Bool) (t : Table)
    → find j t ≡ none
    → find j (delete_where k c t) ≡ none
unfolding find delete_where
find-delete_other k j c [] h = refl
find-delete_other k j c ((i, q) ∷ t) h =
    ground (arith, key_eq_iff i k, key_eq_iff i j, find-delete_other k j c t)

pub find-delete_where :
    (k j : Key) (c : Pattern → Bool) (t : Table)
    → IsKeyed t
    → find j (delete_where k c t) ≡ (if key_eq k j then surviving c (find k t) else find j t)
unfolding find delete_where
find-delete_where k j c [] h = ground arith
find-delete_where k j c ((i, q) ∷ t) h = elim (Bool-cases (key_eq i k)) [
  | inl same ↦
      let alone : find k t ≡ none = subst (λ x. find x t ≡ none) ((key_eq_iff i k).0 same) h.0 in
      ground (
        arith,
        same,
        alone,
        key_eq_iff k j,
        key_eq_iff i k,
        key_eq_iff i j,
        find-delete_where k j c t h.1,
      )
  | inr other ↦
      ground (
        arith,
        other,
        key_eq_iff k j,
        key_eq_iff i k,
        key_eq_iff i j,
        find-delete_where k j c t h.1,
      )
]

find-upsert-none :
    (k j : Key) (p : Pattern) (f : Pattern → Pattern) (t : Table)
    → key_eq k j ≡ false
    → find j t ≡ none
    → find j (upsert k p f t) ≡ none
find-upsert-none k j p f t n h = rw (find-upsert, n) h

pub upsert-IsKeyed :
    (k : Key) (p : Pattern) (f : Pattern → Pattern) (t : Table)
    → IsKeyed t
    → IsKeyed (upsert k p f t)
unfolding find upsert
upsert-IsKeyed k p f [] h = (refl, tt)
upsert-IsKeyed k p f ((i, q) ∷ t) h = elim (Bool-cases (key_eq i k)) [
  | inl same ↦ rw same h
  | inr other ↦
      let apart : key_eq k i ≡ false = ground (arith, key_eq_iff k i, key_eq_iff i k) in
      rw other (find-upsert-none k i p f t apart h.0, upsert-IsKeyed k p f t h.1)
]

pub delete_where-IsKeyed :
    (k : Key) (c : Pattern → Bool) (t : Table) → IsKeyed t → IsKeyed (delete_where k c t)
unfolding delete_where
delete_where-IsKeyed k c [] h = tt
delete_where-IsKeyed k c ((i, q) ∷ t) h =
    ground (arith, find-delete_other k i c t, delete_where-IsKeyed k c t h.1)
