-- ===== src/Dismissal/Filter.antt =====
-- The filter that runs before ranking agrees with the state of each candidate.
use clai.Common.{
  Bool, true, false, not, List, [], ◌∷◌, String, str_eq, Option, none, some, ◌≡◌, refl, sym, ap,
  ◌∙◌, arith, Bool-cases, inl, inr, keep, All, All-weaken, subst,
}
use clai.Dismissal.{
  Key, Pattern, Store, Table, Result, ok, err, missing_field, key_eq, find, suppressing,
  select_suppressed, contains, suppressing_result, read_state, filter_out, filter_by,
  filter_candidates, get_state, is_suppressed,
}
use clai.Dismissal.Table.{key_eq_iff, IsKeyed}

-- Whether the row of a template suppresses it.
abbrev suppressed_row : Option Pattern → Bool
suppressed_row none = false
suppressed_row (some p) = suppressing p.suppression_level

abbrev pub key_of : String → String → String → Key
key_of scope context c = record {
  scope = scope;
  context_template_id = context;
  dismissed_template_id = c;
}

contains-select_suppressed :
    (scope context c : String) (t : Table)
    → IsKeyed t
    → contains c (select_suppressed scope context t)
      ≡ suppressed_row (find (key_of scope context c) t)
unfolding select_suppressed find key_eq
contains-select_suppressed scope context c [] h = refl
contains-select_suppressed scope context c ((j, p) ∷ t) h =
    let k = key_of scope context c in
    let ih = contains-select_suppressed scope context c t h.1 in
    elim (Bool-cases (key_eq j k)) [
      | inl same ↦
          let alone : find k t ≡ none =
            subst (λ x. find x t ≡ none) ((key_eq_iff j k).0 same) h.0 in
          ground (arith, same, alone, ih)
      | inr other ↦ ground (arith, other, ih)
    ]

filter_out-keep :
    (suppressed : List String) (cs : List String)
    → filter_out suppressed cs ≡ keep (λ c. not (contains c suppressed)) cs
unfolding filter_out
filter_out-keep suppressed [] = refl
filter_out-keep suppressed (c ∷ cs) = ground (arith, filter_out-keep suppressed cs)

keep_ext :
    (p q : String → Bool) (cs : List String) → All (λ c. p c ≡ q c) cs → keep p cs ≡ keep q cs
keep_ext p q [] e = refl
keep_ext p q (c ∷ cs) e = ground (arith, e.0, keep_ext p q cs e.1)

keep_all : (cs : List String) → keep (λ (c : String). true) cs ≡ cs
keep_all [] = refl
keep_all (c ∷ cs) = ap (λ t. c ∷ t) (keep_all cs)

filter_by-keep :
    (suppressed : List String) (cs : List String)
    → filter_by suppressed cs ≡ keep (λ c. not (contains c suppressed)) cs
filter_by-keep [] cs = sym (keep_all cs)
filter_by-keep (t ∷ ts) cs = filter_out-keep (t ∷ ts) cs

-- Whether `GetState` reports a level that suppresses, errors counting as not.
abbrev pub hides : Result Bool → Bool
hides (ok b) = b
hides (err e) = false

hides-row :
    (s : Store) (k : Key)
    → missing_field k ≡ false
    → hides (is_suppressed s true k) ≡ suppressed_row (find k s.table)
unfolding is_suppressed get_state
hides-row s k whole = rw whole (by_row (find k s.table))
  where
    by_row : (o : Option Pattern) → hides (suppressing_result (read_state o)) ≡ suppressed_row o
    by_row none = refl
    by_row (some p) = ground arith

filter_candidates-filter_by :
    (s : Store) (scope context : String) (cs : List String)
    → str_eq scope "" ≡ false
    → str_eq context "" ≡ false
    → filter_candidates s true scope context cs
      ≡ ok (filter_by (select_suppressed scope context s.table) cs)
unfolding filter_candidates
filter_candidates-filter_by s scope context [] a b = ap ok (sym (filter_by-keep _ []))
filter_candidates-filter_by s scope context (c ∷ cs) a b = rw (a, b)

-- Given a scope and a context, a table with one row for each key and a driver that answers,
-- `FilterCandidates` keeps, in order, exactly the candidates that `IsSuppressed` does not report
-- as suppressed, where every candidate has a template id.
pub filter_candidates-is_suppressed :
    (s : Store) (scope context : String) (cs : List String)
    → IsKeyed s.table
    → str_eq scope "" ≡ false
    → str_eq context "" ≡ false
    → All (λ c. str_eq c "" ≡ false) cs
    → filter_candidates s true scope context cs
      ≡ ok (keep (λ c. not (hides (is_suppressed s true (key_of scope context c)))) cs)
filter_candidates-is_suppressed s scope context cs keyed a b named = rw unfiltered (
    ap ok (
      filter_by-keep (select_suppressed scope context s.table) cs
      ∙ keep_ext _ _ cs (All-weaken _ _ cs same named)))
  where
    unfiltered :
        filter_candidates s true scope context cs
        ≡ ok (filter_by (select_suppressed scope context s.table) cs)
    unfiltered = filter_candidates-filter_by s scope context cs a b

    same :
        (c : String)
        → str_eq c "" ≡ false
        → not (contains c (select_suppressed scope context s.table))
          ≡ not (hides (is_suppressed s true (key_of scope context c)))
    same c e = ap not (
        contains-select_suppressed scope context c s.table keyed
        ∙ sym (hides-row s (key_of scope context c) (ground arith)))
