-- ===== src/Workflow/LimitedBuffer/Tail.antt =====
-- The buffer holds the last `capacity` bytes of all that was written.
use clai.Common.{
  ℕ, zero, suc, ◌+◌, ◌-◌, ◌≤◌, ◌<◌, ◌==◌, leb, false, List, [], ◌∷◌, ◌++◌, length, take, drop,
  take_last, ◌≡◌, refl, sym, ap, ◌∙◌, arith, ℤ, positive_or, length-append, length-take,
  length-drop, length-replicate, take_last_short, take_last-append_take_last, drop_append_add,
  drop_append_le, append-nil, append_assoc, Bool-cases, inl, inr, leb→le, leb-false,
}
use clai.Workflow.LimitedBuffer.{
  LimitedBuffer, new_limited_buffer, copy_at, write_append, write_shift, write, bytes, reset,
}

module _ {ℓ} {A : Type ℓ} where
  length-copy_at : (dst src : List A) (at : ℕ) → length (copy_at dst at src) ≡ length dst
  unfolding copy_at
  length-copy_at [] src at = refl
  length-copy_at (d ∷ dst) [] zero = refl
  length-copy_at (d ∷ dst) (s ∷ src) zero = ap suc (length-copy_at dst src zero)
  length-copy_at (d ∷ dst) src (suc at) = ap suc (length-copy_at dst src at)

  take-copy_at :
      (k at : ℕ) (dst src : List A)
      → k ≡ at + length src
      → k ≤ length dst
      → take k (copy_at dst at src) ≡ take at dst ++ src
  unfolding copy_at
  take-copy_at zero zero dst [] e h = refl
  take-copy_at zero (suc at) dst [] e h = absurd (omega arith)
  take-copy_at zero at dst (x ∷ src) e h = absurd (omega arith)
  take-copy_at (suc k) at [] src e h = absurd (omega arith)
  take-copy_at (suc k) zero (d ∷ dst) [] e h = absurd (omega arith)
  take-copy_at (suc k) zero (d ∷ dst) (x ∷ src) e h =
      ap (λ t. x ∷ t) (take-copy_at k zero dst src (omega arith) (omega arith))
  take-copy_at (suc k) (suc at) (d ∷ dst) src e h =
      ap (λ t. d ∷ t) (take-copy_at k at dst src (omega arith) (omega arith))

pub record IsValid (b : LimitedBuffer) : Type 0 where
  pub capacity_pos : 0 < b.capacity
  pub whole : length b.buf ≡ b.capacity
  pub size_le : b.size ≤ b.capacity

pub new-IsValid : (n : ℤ) → IsValid (new_limited_buffer n)
unfolding new_limited_buffer
new-IsValid n = ground (arith, length-replicate {A = ℕ} (positive_or n 4096) 0)

pub write-IsValid : (b : LimitedBuffer) (p : List ℕ) → IsValid b → IsValid (write b p).0
unfolding write
write-IsValid b p v = ground (
  arith,
  length-copy_at b.buf p b.size,
  length-copy_at b.buf (drop (length p - b.capacity) p) 0,
  length-copy_at b.buf (drop (length p - (b.capacity - b.size)) (take b.size b.buf)) 0,
  length-copy_at (copy_at b.buf 0 (drop (length p - (b.capacity - b.size)) (take b.size b.buf))) p
      (b.size - (length p - (b.capacity - b.size))),
)

module _ (b : LimitedBuffer) (p : List ℕ) (v : IsValid b) where
  length-bytes : length (bytes b) ≡ b.size
  unfolding bytes
  length-bytes = omega (arith, length-take b.size b.buf, v.size_le, v.whole)

  -- The three ways in which `Write` fills the buffer.
  bytes-long :
      b.capacity ≤ length p
      → take b.capacity (copy_at b.buf 0 (drop (length p - b.capacity) p))
        ≡ take_last b.capacity (bytes b ++ p)
  bytes-long long =
      take-copy_at b.capacity 0 b.buf (drop (length p - b.capacity) p)
        (omega (arith, length-drop (length p - b.capacity) p)) (omega (arith, v.whole))
      ∙ sym (drop_append_add (length p - b.capacity) (bytes b) p)
      ∙ ap (λ k. drop k (bytes b ++ p)) (omega (arith, length-append (bytes b) p))

  bytes-append :
      b.size + length p ≤ b.capacity
      → bytes (write_append b p) ≡ take_last b.capacity (bytes b ++ p)
  unfolding bytes write_append
  bytes-append fits =
      take-copy_at (b.size + length p) b.size b.buf p refl (omega (arith, v.whole))
      ∙ sym (
          take_last_short b.capacity (take b.size b.buf ++ p)
            (omega (arith, length-append (take b.size b.buf) p, length-take b.size b.buf, v.whole)))

  bytes-shift :
      (discard : ℕ)
      → length p < b.capacity
      → b.size + length p ≡ b.capacity + discard
      → bytes (write_shift b p discard) ≡ take_last b.capacity (bytes b ++ p)
  unfolding bytes write_shift
  bytes-shift discard short over =
      let old : List ℕ = take b.size b.buf in
      let old_length : length old ≡ b.size =
        omega (arith, length-take b.size b.buf, v.size_le, v.whole) in
      let kept : ℕ = b.size - discard in
      let shifted : List ℕ = copy_at b.buf 0 (drop discard old) in
      let front : take kept shifted ≡ drop discard old =
        take-copy_at kept 0 b.buf (drop discard old) (omega (arith, length-drop discard old))
          (omega (arith, v.whole, v.size_le)) in
      take-copy_at (kept + length p) kept shifted p refl
        (omega (arith, length-copy_at b.buf (drop discard old) 0, v.whole))
      ∙ ap (λ t. t ++ p) front
      ∙ sym (drop_append_le discard old p (omega arith))
      ∙ ap (λ k. drop k (old ++ p)) (omega (arith, length-append old p))

not_empty : (x : ℕ) (p : List ℕ) → (length (x ∷ p) == 0) ≡ false
not_empty x p = ground arith

-- `Write` reports that it took all of `p`, and leaves in the buffer the last `capacity` bytes of
-- what was there followed by `p`.
pub bytes-write :
    (b : LimitedBuffer) (p : List ℕ)
    → IsValid b
    → ((write b p).1 ≡ length p) × (bytes (write b p).0 ≡ take_last b.capacity (bytes b ++ p))
unfolding write
bytes-write b [] v = (
  refl,
  sym (
      ap (take_last b.capacity) (append-nil (bytes b))
      ∙ take_last_short b.capacity (bytes b) (omega (arith, length-bytes b [] v, v.size_le))),
)
bytes-write b (x ∷ p) v = rw (not_empty x p) (elim (Bool-cases (leb b.capacity (length (x ∷ p)))) [
  | inl long ↦ rw long (refl, unfold bytes in bytes-long b (x ∷ p) v (leb→le _ _ long))
  | inr short ↦ elim (Bool-cases (leb (length (x ∷ p)) (b.capacity - b.size))) [
    | inl fits ↦
        let le = leb→le (length (x ∷ p)) (b.capacity - b.size) fits in
        rw (short, fits) (refl, bytes-append b (x ∷ p) v (omega (arith, le, v.size_le)))
    | inr over ↦
        let gt = leb-false (length (x ∷ p)) (b.capacity - b.size) over in
        rw (short, over)
          (
            refl,
            bytes-shift b (x ∷ p) v (length (x ∷ p) - (b.capacity - b.size)) (leb-false _ _ short)
                (omega (arith, gt, v.size_le)),
          )
  ]
])

-- A sequence of writes.
unfoldable pub write_all : LimitedBuffer → List (List ℕ) → LimitedBuffer
write_all b [] = b
write_all b (p ∷ ps) = write_all (write b p).0 ps

abbrev pub concat : List (List ℕ) → List ℕ
concat [] = []
concat (p ∷ ps) = p ++ concat ps

write-capacity : (b : LimitedBuffer) (p : List ℕ) → (write b p).0.capacity ≡ b.capacity
unfolding write
write-capacity b p = ground arith

write_all-from :
    (b : LimitedBuffer) (ps : List (List ℕ))
    → IsValid b
    → bytes (write_all b ps) ≡ take_last b.capacity (bytes b ++ concat ps)
unfolding write_all
write_all-from b [] v = sym (
    ap (take_last b.capacity) (append-nil (bytes b))
    ∙ take_last_short b.capacity (bytes b) (omega (arith, length-bytes b [] v, v.size_le)))
write_all-from b (p ∷ ps) v =
    write_all-from (write b p).0 ps (write-IsValid b p v)
    ∙ rw (write-capacity b p, (bytes-write b p v).1)
        (take_last-append_take_last b.capacity (bytes b ++ p) (concat ps) ∙ rw append_assoc refl)

write_all-IsValid :
    (b : LimitedBuffer) (ps : List (List ℕ))
    → IsValid b
    → IsValid (write_all b ps) × ((write_all b ps).capacity ≡ b.capacity)
unfolding write_all
write_all-IsValid b [] v = (v, refl)
write_all-IsValid b (p ∷ ps) v =
    let (valid, same) = write_all-IsValid (write b p).0 ps (write-IsValid b p v) in
    (valid, same ∙ write-capacity b p)

reset-IsValid : (b : LimitedBuffer) → IsValid b → IsValid (reset b)
unfolding reset
reset-IsValid b v = omega arith

-- However the output of a process is cut into writes, a new buffer ends up with the last
-- `capacity` bytes of the whole output, and after `Reset` the same holds of what follows.
pub write_all-tail :
    (n : ℤ) (ps qs : List (List ℕ))
    → let b = new_limited_buffer n in
      (bytes (write_all b ps) ≡ take_last b.capacity (concat ps))
      × (bytes (write_all (reset (write_all b ps)) qs) ≡ take_last b.capacity (concat qs))
unfolding new_limited_buffer reset bytes
write_all-tail n ps qs =
    let b = new_limited_buffer n in
    let first = write_all b ps in
    let (valid, same) = write_all-IsValid b ps (new-IsValid n) in
    let again : IsValid (reset first) = reset-IsValid first valid in
    (
      write_all-from b ps (new-IsValid n),
      write_all-from (reset first) qs again ∙ ap (λ k. take_last k (concat qs)) same,
    )
