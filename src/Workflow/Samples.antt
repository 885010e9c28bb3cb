-- ===== src/Workflow/Samples.antt =====
-- The theorems on internal/workflow at concrete inputs, and tests of its code.
use clai.Common.{[], ◌∷◌, take_last, ◌≡◌, refl, pos, codes}
use clai.Workflow.LimitedBuffer.{new_limited_buffer, copy_at, write, bytes, reset}
use clai.Workflow.LimitedBuffer.Tail.{write_all, concat, write_all-tail}

shifted :
    bytes (write (write (new_limited_buffer (pos 4)) (codes "abc")).0 (codes "de")).0 ≡ codes "bcde"
unfolding bytes write new_limited_buffer copy_at
shifted = refl

write_all-tail_example :
    let b = new_limited_buffer (pos 4) in
    let ps = codes "abc" ∷ codes "de" ∷ [] in
    (bytes (write_all b ps) ≡ take_last b.capacity (concat ps))
    × (bytes (write_all (reset (write_all b ps)) (codes "x" ∷ []))
        ≡ take_last b.capacity (concat (codes "x" ∷ [])))
write_all-tail_example = write_all-tail (pos 4) (codes "abc" ∷ codes "de" ∷ []) (codes "x" ∷ [])
