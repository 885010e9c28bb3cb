-- ===== src/Workflow/Validate/Matrix.antt =====
-- When the check of the matrix entries of a job finds nothing wrong: `sameKeySet` compares the
-- number of the keys and one inclusion, which is enough as no key stands twice in a map.
use clai.Common.{
  ℕ, suc, ◌+◌, ◌≤◌, if◌then◌else◌, true, false, List, [], ◌∷◌, length, All, Bool-cases, inl, inr,
  String, str_eq, str_eq_iff, Option, none, some, ◌≡◌, ◌↔◌, refl, arith,
}
use clai.Common.StringMap.{StringMap}
use clai.Workflow.Types.{one_of, JobDef, MatrixDef}
use clai.Workflow.Validate.{
  keys_set, all_in, same_key_set, check_include, check_entries, check_matrix, matrix_of,
  validate_matrix_include_keys,
}
use clai.Workflow.Validate.Steps.{IsUnrepeated}

-- The list without the first place of a string.
abbrev without : String → List String → List String
without x [] = []
without x (y ∷ ys) = let rest = without x ys in if str_eq y x then ys else y ∷ rest

length-without :
    (x : String) (ys : List String) → one_of ys x ≡ true → length ys ≡ suc (length (without x ys))
length-without x [] h = cc
length-without x (y ∷ ys) h = elim (Bool-cases (str_eq y x)) [
  | inl same ↦ rw same (omega arith)
  | inr other ↦
      let there : one_of ys x ≡ true = ground arith in
      let rest = length-without x ys there in rw other (omega arith)
]

one_of-without :
    (x z : String) (ys : List String) → str_eq x z ≡ false → one_of (without x ys) z ≡ one_of ys z
one_of-without x z [] h = refl
one_of-without x z (y ∷ ys) h =
    ground (arith, one_of-without x z ys h, str_eq_iff y x, str_eq_iff y z, str_eq_iff x z)

all_in-without :
    (x : String) (a b : List String)
    → one_of a x ≡ false
    → all_in a b ≡ true
    → all_in a (without x b) ≡ true
all_in-without x [] b h k = refl
all_in-without x (z ∷ a) b h k =
    let apart : str_eq x z ≡ false = ground (arith, str_eq_iff x z, str_eq_iff z x) in
    let rest = all_in-without x a b (ground arith) (ground arith) in
    ground (arith, one_of-without x z b apart)

all_in-length : (a b : List String) → IsUnrepeated a → all_in a b ≡ true → length a ≤ length b
all_in-length [] b u h = omega arith
all_in-length (x ∷ a) b u h =
    let there : one_of b x ≡ true = ground arith in
    let rest : all_in a b ≡ true = ground arith in
    omega (
      arith,
      length-without x b there,
      all_in-length a (without x b) u.1 (all_in-without x a b u.0 rest),
    )

-- Every string of one list is in the other.
abbrev Within : List String → List String → Type 0
Within a b = (k : String) → one_of a k ≡ true → one_of b k ≡ true

all_in_iff : (a b : List String) → (all_in a b ≡ true) ↔ Within a b
all_in_iff a b = (forth a, back a)
  where
    forth : (a : List String) → all_in a b ≡ true → Within a b
    forth [] h k i = absurd (cc)
    forth (x ∷ a) h k i =
        let rest : one_of a k ≡ true → one_of b k ≡ true = forth a (ground arith) k in
        ground (arith, str_eq_iff x k)

    back : (a : List String) → Within a b → all_in a b ≡ true
    back [] w = refl
    back (x ∷ a) w =
        let rest = back a (λ k i. w k (ground arith)) in
        let here = w x in ground (arith, str_eq_iff x x)

all_in-back :
    (a b : List String) → IsUnrepeated a → all_in a b ≡ true → length a ≡ length b → Within b a
all_in-back a b u h same k i = elim (Bool-cases (one_of a k)) [
  | inl there ↦ there
  | inr gone ↦ absurd (
      omega (
        arith,
        length-without k b i,
        all_in-length a (without k b) u (all_in-without k a b gone h),
      ))
]

same_key_set_iff :
    (a b : List String)
    → IsUnrepeated a
    → IsUnrepeated b
    → (same_key_set a b ≡ true) ↔ (Within a b × Within b a)
unfolding same_key_set
same_key_set_iff a b u v = (
  λ h.
      let same : length a ≡ length b = ground (arith) in
      let h' : all_in a b ≡ true = ground (arith) in
      ((all_in_iff a b).0 h', all_in-back a b u h' same),
  λ w.
      let h = (all_in_iff a b).1 w.0 in
      let h' = (all_in_iff b a).1 w.1 in
      let less = all_in-length a b u h in let more = all_in-length b a v h' in ground (arith),
)

-- Two maps with the same keys.
abbrev pub HasSameKeys : StringMap String → StringMap String → Type 0
HasSameKeys m n = Within (keys_set m) (keys_set n) × Within (keys_set n) (keys_set m)

-- All entries have the keys of the first.
abbrev pub IsConsistent : List (StringMap String) → Type 0
IsConsistent [] = Unit
IsConsistent (baseline ∷ entries) = All (HasSameKeys baseline) entries

abbrev pub IsMap : StringMap String → Type 0
IsMap m = IsUnrepeated (keys_set m)

-- A property of the entries of a matrix, if there is one.
abbrev pub OfEntries : (List (StringMap String) → Type 0) → Option MatrixDef → Type 0
OfEntries P none = Unit
OfEntries P (some matrix) = P matrix.include

check_include-nil :
    (name : String) (baseline : StringMap String) (i : ℕ) (entries : List (StringMap String))
    → IsMap baseline
    → All IsMap entries
    → (check_include name (keys_set baseline) i entries ≡ []) ↔ All (HasSameKeys baseline) entries
unfolding check_include
check_include-nil name baseline i [] u v = ground arith
check_include-nil name baseline i (entry ∷ entries) u v =
    let rest = check_include-nil name baseline (i + 1) entries u v.1 in
    let same = same_key_set_iff (keys_set baseline) (keys_set entry) u v.0 in
    elim (Bool-cases (same_key_set (keys_set baseline) (keys_set entry))) [
      | inl fits ↦ rw fits (λ h. (same.0 fits, rest.0 h), λ h. rest.1 h.1)
      | inr differs ↦ rw differs (λ h. absurd (cc), λ h. absurd (let e = same.1 h.0 in cc))
    ]

check_entries-nil :
    (name : String) (entries : List (StringMap String))
    → All IsMap entries
    → (check_entries name entries ≡ []) ↔ IsConsistent entries
unfolding check_entries
check_entries-nil name [] k = ground arith
check_entries-nil name (baseline ∷ rest) k = check_include-nil name baseline 1 rest k.0 k.1

check_matrix-nil :
    (name : String) (matrix : Option MatrixDef)
    → OfEntries (All IsMap) matrix
    → (check_matrix name matrix ≡ []) ↔ OfEntries IsConsistent matrix
unfolding check_matrix
check_matrix-nil name none k = ground arith
check_matrix-nil name (some matrix) k = check_entries-nil name matrix.include k

-- Where no key stands twice in an entry, the check of the matrix of a job reports nothing exactly
-- if the job has no matrix or all its entries have the same keys.
pub validate_matrix_include_keys-nil :
    (name : String) (job : JobDef)
    → OfEntries (All IsMap) (matrix_of job.strategy)
    → (validate_matrix_include_keys name job ≡ []) ↔ OfEntries IsConsistent (matrix_of job.strategy)
unfolding validate_matrix_include_keys
validate_matrix_include_keys-nil name job k = check_matrix-nil name (matrix_of job.strategy) k
