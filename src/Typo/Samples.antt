-- ===== src/Typo/Samples.antt =====
-- The theorems on internal/suggestions/typo at concrete inputs, and tests of its code.
use clai.Common.{[], ◌∷◌, ◌≡◌, refl, inl, arith, codes}
use clai.Typo.Distance.{levenshtein_distance, damerau_levenshtein_distance}
use clai.Typo.Distance.Script.{plain, swapping, IsLeast}
use clai.Typo.Distance.Levenshtein.{levenshtein_distance-IsLeast, levenshtein_distance-empty}
use clai.Typo.Distance.Damerau.{damerau_levenshtein_distance-IsLeast}

kitten : levenshtein_distance (codes "kitten") (codes "sitting") ≡ 3
unfolding levenshtein_distance
kitten = refl

transposed_letters : damerau_levenshtein_distance (codes "gti") (codes "git") ≡ 1
unfolding damerau_levenshtein_distance
transposed_letters = refl

-- The optimal string alignment: the swapped pair is not edited again.
alignment : damerau_levenshtein_distance (codes "ca") (codes "abc") ≡ 3
unfolding damerau_levenshtein_distance
alignment = refl

levenshtein_distance-IsLeast_example :
    IsLeast plain (codes "gti") (codes "git") (levenshtein_distance (codes "gti") (codes "git"))
levenshtein_distance-IsLeast_example =
    levenshtein_distance-IsLeast (codes "gti") (codes "git") (λ e. cc) (λ e. cc)

damerau_levenshtein_distance-IsLeast_example :
    IsLeast swapping
      (codes "gti")
      (codes "git")
      (damerau_levenshtein_distance (codes "gti") (codes "git"))
damerau_levenshtein_distance-IsLeast_example =
    damerau_levenshtein_distance-IsLeast (codes "gti") (codes "git") (λ e. cc) (λ e. cc)

-- The rune é, U+00E9.
levenshtein_distance-empty_example :
    (¬ IsLeast plain [] (233 ∷ []) (levenshtein_distance [] (233 ∷ [])))
    × (¬ IsLeast plain (233 ∷ []) [] (levenshtein_distance (233 ∷ []) []))
levenshtein_distance-empty_example = levenshtein_distance-empty (233 ∷ []) (inl (omega arith))
