-- ===== src/Shim/RingBuffer.antt =====
-- internal/shim/ringbuf.go: the ring of events that the shim keeps while the daemon is away.
-- `zero_value` is Go's zero value of the item type. The mutex makes each call one step.
use clai.Common.{
  ℕ, zero, suc, ◌+◌, ◌%◌, ◌==◌, if◌then◌else◌, List, [], ◌∷◌, length, get_or, set, replicate, ℤ,
  positive_or,
}
pub mod Refinement

abbrev pub default_ring_capacity : ℕ
default_ring_capacity = 16

pub record RingBuffer {ℓ} (A : Type ℓ) : Type ℓ where
  pub items : List A
  pub head : ℕ
  pub count : ℕ
  pub cap : ℕ

module _ {ℓ} {A : Type ℓ} (zero_value : A) where
  unfoldable pub new_ring_buffer : ℤ → RingBuffer A
  new_ring_buffer capacity =
      let size = positive_or capacity default_ring_capacity in
      record { items = replicate size zero_value; head = 0; count = 0; cap = size }

  unfoldable pub push : RingBuffer A → A → RingBuffer A
  push r item =
      let items = set r.items ((r.head + r.count) % r.cap) item in
      if r.count == r.cap
      then record r { items = items; head = (r.head + 1) % r.cap }
      else record r { items = items; count = r.count + 1 }

  -- The loop of `DrainAll`, from the index `at` for `k` rounds.
  pub collect : List A → ℕ → ℕ → ℕ → List A
  collect items cap at zero = []
  collect items cap at (suc k) = get_or items (at % cap) zero_value ∷ collect items cap (at + 1) k

  unfoldable pub drain_all : RingBuffer A → RingBuffer A × List A
  unfolding collect
  drain_all r =
      if r.count == 0
      then (r, [])
      else (record r { count = 0; head = 0 }, collect r.items r.cap r.head r.count)

  unfoldable pub len : RingBuffer A → ℕ
  len r = r.count
