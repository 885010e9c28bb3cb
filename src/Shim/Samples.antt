-- ===== src/Shim/Samples.antt =====
-- The theorems on internal/shim at concrete inputs, and a test of its code.
use clai.Common.{ℕ, [], ◌∷◌, ◌++◌, take_last, ◌≡◌, refl, arith}
use clai.Shim.RingBuffer.{RingBuffer, push, drain_all}
use clai.Shim.RingBuffer.Refinement.{IsValid, contents, push_all, contents-push_all}

-- A ring of three with the items 7 and 8, which starts at its last slot.
abbrev ring : RingBuffer ℕ
ring = record { items = 8 ∷ 0 ∷ 7 ∷ []; head = 2; count = 2; cap = 3 }

ring-IsValid : IsValid 0 ring
ring-IsValid = omega arith

drained : (drain_all 0 (push 0 (push 0 ring 9) 10)).1 ≡ 8 ∷ 9 ∷ 10 ∷ []
unfolding drain_all push
drained = refl

contents-push_all_example :
    IsValid 0 (push_all 0 ring (9 ∷ 10 ∷ []))
    × (contents 0 (push_all 0 ring (9 ∷ 10 ∷ [])) ≡ take_last 3 (contents 0 ring ++ 9 ∷ 10 ∷ []))
contents-push_all_example = contents-push_all 0 ring (9 ∷ 10 ∷ []) ring-IsValid
