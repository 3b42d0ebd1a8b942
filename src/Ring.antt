-- ===== src/Ring.antt =====
-- `SPSCRingBuffer` of engine/core/ring_buffer.py: a byte buffer of fixed slots between two counters that
-- only grow. A byte is a number; the counters are the first elements of the two padded arrays.
pub mod Slices
pub mod Refine
pub mod Capacity
pub mod Events
mod Tests
use mini_hft_system.Prelude.{
  ℕ, suc, ◌+◌, ◌-◌, ◌*◌, ◌%◌, max, List, [], ◌∷◌, ◌++◌, Option, none, some, Bool, true, false, ◌==◌,
  leb, ltb, if◌then◌else◌, take, drop, replicate,
}
use mini_hft_system.Prelude.Loops.{while}

pub record SpscRingBuffer : Type 0 where
  pub capacity : ℕ
  pub mask : ℕ
  pub item_size : ℕ
  pub head : ℕ
  pub tail : ℕ
  pub buffer : List ℕ

-- `while cap < max(capacity, 2): cap <<= 1`
unfoldable pub round_up : ℕ → ℕ
round_up capacity = while (suc (max capacity 2)) (λ c. ltb c (max capacity 2)) (λ c. c * 2) 1

unfoldable pub new_ring : ℕ → ℕ → SpscRingBuffer
new_ring capacity item_size =
    let cap = round_up capacity in
    record {
      capacity = cap;
      mask = cap - 1;
      item_size = item_size;
      head = 0;
      tail = 0;
      buffer = replicate (cap * item_size) 0;
    }

-- `counter & self._mask`, where the mask is one less than a power of two.
abbrev pub slot_of : SpscRingBuffer → ℕ → ℕ
slot_of r counter = counter % (r.mask + 1)

-- `buffer[start:start + n]`, and the assignment to it, which takes in what is handed to it whole.
abbrev pub slice : ℕ → ℕ → List ℕ → List ℕ
slice start n b = take n (drop start b)

abbrev pub overwrite : ℕ → ℕ → List ℕ → List ℕ → List ℕ
overwrite start n item b = take start b ++ (item ++ drop (start + n) b)

abbrev pub frame_at : SpscRingBuffer → ℕ → List ℕ
frame_at r counter = slice (slot_of r counter * r.item_size) r.item_size r.buffer

unfoldable pub put : SpscRingBuffer → List ℕ → Bool × SpscRingBuffer
put r item = if leb r.capacity (r.head - r.tail) then (false, r) else (
  true,
  record r {
    head = r.head + 1;
    buffer =
        overwrite (slot_of r r.head * r.item_size) r.item_size (take r.item_size item) r.buffer;
  },
)

unfoldable pub get : SpscRingBuffer → Option (List ℕ) × SpscRingBuffer
get r =
    if r.tail == r.head
    then (none, r)
    else (some (frame_at r r.tail), record r { tail = r.tail + 1 })

unfoldable pub peek_frame : SpscRingBuffer → Option (List ℕ)
peek_frame r = if r.tail == r.head then none else some (frame_at r r.tail)

abbrev pub ring_empty : SpscRingBuffer → Bool
ring_empty r = r.head == r.tail

abbrev pub ring_full : SpscRingBuffer → Bool
ring_full r = leb r.capacity (r.head - r.tail)

abbrev pub size : SpscRingBuffer → ℕ
size r = r.head - r.tail
