-- ===== src/Common/StringMap.antt =====
-- A Go map with string keys, as an association list with one entry for each key.
use Prim.Native.String.{String}
use mathlib.Core.Path.{◌≡◌, refl, sym, ◌∙◌}
use mathlib.Core.Logic.{inl, inr}
use mathlib.Core.Option
use mathlib.Core.Option.{Option, none, some}
use mathlib.Core.List.{List, [], ◌∷◌}
use native.Mathlib.Omega.{arith}
use clai.Common.Tests.{if◌then◌else◌, Bool-cases}
use clai.Common.Lists.{Any}
use clai.Common.Strings.{str_eq, str_eq_iff}

abbrev pub StringMap {ℓ} : Type ℓ → Type ℓ
StringMap V = List (String × V)

module _ {ℓ} {V : Type ℓ} where
  -- `v, ok := m[k]`
  unfoldable pub lookup : String → StringMap V → Option V
  lookup k [] = none
  lookup k ((j, v) ∷ m) = if str_eq j k then some v else lookup k m

  -- `m[k] = v`
  unfoldable pub insert : String → V → StringMap V → StringMap V
  insert k v [] = (k, v) ∷ []
  insert k v ((j, w) ∷ m) = if str_eq j k then (k, v) ∷ m else (j, w) ∷ insert k v m

  -- `delete(m, k)`
  unfoldable pub erase : String → StringMap V → StringMap V
  erase k [] = []
  erase k ((j, w) ∷ m) = let rest = erase k m in if str_eq j k then rest else (j, w) ∷ rest

  -- A change of the value that `k` has, if it has one: `if v, ok := m[k]; ok { … }`.
  unfoldable pub adjust : String → (V → V) → StringMap V → StringMap V
  adjust k f [] = []
  adjust k f ((j, w) ∷ m) = if str_eq j k then (j, f w) ∷ m else (j, w) ∷ adjust k f m

  pub lookup-insert :
      (k j : String) (v : V) (m : StringMap V)
      → lookup j (insert k v m) ≡ (if str_eq k j then some v else lookup j m)
  unfolding lookup insert
  lookup-insert k j v [] = refl
  lookup-insert k j v ((i, w) ∷ m) =
      ground (arith, str_eq_iff k j, str_eq_iff i k, str_eq_iff i j, lookup-insert k j v m)

  pub lookup-erase :
      (k j : String) (m : StringMap V)
      → lookup j (erase k m) ≡ (if str_eq k j then none else lookup j m)
  unfolding lookup erase
  lookup-erase k j [] = ground arith
  lookup-erase k j ((i, w) ∷ m) =
      ground (arith, str_eq_iff k j, str_eq_iff i k, str_eq_iff i j, lookup-erase k j m)

  pub lookup-adjust :
      (k j : String) (f : V → V) (m : StringMap V)
      → lookup j (adjust k f m) ≡ (if str_eq k j then Option.map f (lookup j m) else lookup j m)
  unfolding lookup adjust
  lookup-adjust k j f [] = ground arith
  lookup-adjust k j f ((i, w) ∷ m) =
      ground (arith, str_eq_iff k j, str_eq_iff i k, str_eq_iff i j, lookup-adjust k j f m)

  -- One entry for each key.
  abbrev pub IsKeyed : StringMap V → Type ℓ
  IsKeyed [] = Unit
  IsKeyed ((k, _) ∷ m) = (lookup k m ≡ none) × IsKeyed m

  abbrev pub keys : StringMap V → List String
  keys [] = []
  keys ((k, _) ∷ m) = k ∷ keys m

  pub lookup-keys :
      (k : String) (v : V) (m : StringMap V) → lookup k m ≡ some v → Any (λ j. j ≡ k) (keys m)
  unfolding lookup
  lookup-keys k v [] e = absurd (cc)
  lookup-keys k v ((j, w) ∷ m) e = elim (Bool-cases (str_eq j k)) [
    | inl same ↦ inl ((str_eq_iff j k).0 same)
    | inr other ↦ inr (lookup-keys k v m (sym (rw other refl) ∙ e))
  ]
