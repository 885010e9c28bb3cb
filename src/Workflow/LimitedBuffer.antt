-- ===== src/Workflow/LimitedBuffer.antt =====
-- internal/workflow/buffer.go: the tail of a process's output. `copy(dst, src)` moves as many
-- elements as the shorter slice has and reads its source as it was, also where the two overlap.
-- The mutex makes each call one step.
use clai.Common.{
  ℕ, zero, suc, ◌+◌, ◌-◌, ◌==◌, leb, if◌then◌else◌, List, [], ◌∷◌, length, take, drop, replicate, ℤ,
  positive_or,
}
pub mod Tail

abbrev pub default_buffer_size : ℕ
default_buffer_size = 4096

pub record LimitedBuffer : Type 0 where
  pub buf : List ℕ
  pub capacity : ℕ
  pub size : ℕ

unfoldable pub new_limited_buffer : ℤ → LimitedBuffer
new_limited_buffer capacity =
    let room = positive_or capacity default_buffer_size in
    record { buf = replicate room 0; capacity = room; size = 0 }

-- `copy(dst[at:], src)`
unfoldable pub copy_at {ℓ} : {A : Type ℓ} → List A → ℕ → List A → List A
copy_at [] at src = []
copy_at (d ∷ dst) zero [] = d ∷ dst
copy_at (d ∷ dst) zero (s ∷ src) = s ∷ copy_at dst zero src
copy_at (d ∷ dst) (suc at) src = d ∷ copy_at dst at src

-- Enough room: append.
write_append : LimitedBuffer → List ℕ → LimitedBuffer
write_append b p = record b { buf = copy_at b.buf b.size p; size = b.size + length p }

-- Shift the newest bytes to the front, then append.
write_shift : LimitedBuffer → List ℕ → ℕ → LimitedBuffer
write_shift b p discard =
    let shifted = copy_at b.buf 0 (drop discard (take b.size b.buf)) in
    let kept = b.size - discard in record b { buf = copy_at shifted kept p; size = kept + length p }

-- `Write`, with the count that it returns; its error is always nil.
unfoldable pub write : LimitedBuffer → List ℕ → LimitedBuffer × ℕ
unfolding write_append write_shift
write b p =
    let n = length p in
    let avail = b.capacity - b.size in
    if n == 0
    then (b, 0)
    else if leb b.capacity n
    then (record b { buf = copy_at b.buf 0 (drop (n - b.capacity) p); size = b.capacity }, n)
    else if leb n avail
    then (write_append b p, n)
    else (write_shift b p (n - avail), n)

unfoldable pub bytes : LimitedBuffer → List ℕ
bytes b = take b.size b.buf

unfoldable pub len : LimitedBuffer → ℕ
len b = b.size

unfoldable pub reset : LimitedBuffer → LimitedBuffer
reset b = record b { size = 0 }
