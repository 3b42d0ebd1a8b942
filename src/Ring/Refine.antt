-- ===== src/Ring/Refine.antt =====
-- The ring of engine/core/ring_buffer.py is a bounded queue of frames.
use mini_hft_system.Prelude.{
  ℕ, zero, suc, ◌+◌, ◌-◌, ◌*◌, ◌≤◌, ◌<◌, ◌≡◌, ◌∙◌, refl, sym, ap, ap₂, List, [], ◌∷◌, ◌++◌, Option,
  none, some, Bool, true, false, inl, inr, length, take, drop, arith, Bool-cases, ltb, leb, ◌==◌,
  if◌then◌else◌, ◌⊎◌, length-take, length-append, length-drop,
}
use native.Mathlib.Nat.{mul-le-mul_right, suc-mul, mod-lt}
use mini_hft_system.Ring.{SpscRingBuffer, put, get, peek_frame, frame_at, slot_of, overwrite}
use mini_hft_system.Ring.Slices.{slice-overwrite, slice-apart, slots_apart}

pub record IsRing (r : SpscRingBuffer) : Type 0 where
  pub masked : r.mask + 1 ≡ r.capacity
  pub ordered : r.tail ≤ r.head
  pub within : r.head - r.tail ≤ r.capacity
  pub sized : length r.buffer ≡ r.capacity * r.item_size

-- The frames at `n` counters from `i` on.
abbrev pub frames : SpscRingBuffer → ℕ → ℕ → List (List ℕ)
frames r i zero = []
frames r i (suc n) = frame_at r i ∷ frames r (i + 1) n

-- The queue that a ring stands for, oldest frame first.
abbrev pub contents : SpscRingBuffer → List (List ℕ)
contents r = frames r r.tail (r.head - r.tail)

abbrev pub oldest : List (List ℕ) → Option (List ℕ)
oldest [] = none
oldest (x ∷ xs) = some x

length-frames : (r : SpscRingBuffer) (i n : ℕ) → length (frames r i n) ≡ n
length-frames r i zero = refl
length-frames r i (suc n) = ap suc (length-frames r (i + 1) n)

frames-same :
    (r s : SpscRingBuffer) (i n : ℕ)
    → ((k : ℕ) → i ≤ k → k < i + n → frame_at s k ≡ frame_at r k)
    → frames s i n ≡ frames r i n
frames-same r s i zero f = refl
frames-same r s i (suc n) f =
    ap₂ (◌∷◌) (f i (omega arith) (omega arith))
      (frames-same r s (i + 1) n (λ k h g. f k (omega arith) (omega arith)))

frames-append :
    (r : SpscRingBuffer) (i n : ℕ) → frames r i (suc n) ≡ frames r i n ++ (frame_at r (i + n) ∷ [])
frames-append r i zero = ap (λ k. frame_at r k ∷ []) (omega arith)
frames-append r i (suc n) =
    let e : i + 1 + n ≡ i + suc n = omega arith in
    ap (◌∷◌ (frame_at r i))
      (frames-append r (i + 1) n ∙ ap (λ k. frames r (i + 1) n ++ (frame_at r k ∷ [])) e)

-- Slots of one size do not overlap.
strides : (a b n : ℕ) → a < b → a * n + n ≤ b * n
strides a b n h = let e : suc a * n ≤ b * n = mul-le-mul_right n h in omega (arith, suc-mul a n)

module _ (r : SpscRingBuffer) (item : List ℕ) (v : IsRing r) (l : r.item_size ≤ length item)
    (free : r.head - r.tail < r.capacity) where
  abbrev written : SpscRingBuffer
  written = record r {
    head = r.head + 1;
    buffer =
        overwrite (slot_of r r.head * r.item_size) r.item_size (take r.item_size item) r.buffer;
  }

  cut_length : length (take r.item_size item) ≡ r.item_size
  cut_length = omega (arith, length-take r.item_size item)

  slot_fits : slot_of r r.head * r.item_size + r.item_size ≤ length r.buffer
  slot_fits =
      let low : slot_of r r.head < r.capacity = omega (arith, mod-lt r.head, v.masked) in
      omega (arith, strides (slot_of r r.head) r.capacity r.item_size low, v.sized)

  new_frame : frame_at written r.head ≡ take r.item_size item
  new_frame =
      slice-overwrite (slot_of r r.head * r.item_size) r.item_size (take r.item_size item) r.buffer
        cut_length slot_fits

  old_frame : (k : ℕ) → r.tail ≤ k → k < r.head → frame_at written k ≡ frame_at r k
  old_frame k h g =
      slice-apart (slot_of r r.head * r.item_size) r.item_size (take r.item_size item) r.buffer
        cut_length slot_fits (slot_of r k * r.item_size) apart
    where
      apart :
          (slot_of r k * r.item_size + r.item_size ≤ slot_of r r.head * r.item_size)
          ⊎ (slot_of r r.head * r.item_size + r.item_size ≤ slot_of r k * r.item_size)
      apart = elim (Bool-cases (ltb (slot_of r k) (slot_of r r.head))) [
        | inl e ↦ inl (strides (slot_of r k) (slot_of r r.head) r.item_size (ground (arith, e)))
        | inr e ↦ inr (
            strides (slot_of r r.head) (slot_of r k) r.item_size
              (ground (arith, e, slots_apart (r.mask + 1) k r.head g (omega (arith, v.masked)))))
      ]

  contents-written : contents written ≡ contents r ++ (take r.item_size item ∷ [])
  contents-written =
      let n = r.head - r.tail in
      let more : r.head + 1 - r.tail ≡ suc n = omega (arith, v.ordered) in
      let last : r.tail + n ≡ r.head = omega (arith, v.ordered) in
      ap (frames written r.tail) more
      ∙ frames-append written r.tail n
      ∙ ap₂ (λ xs x. xs ++ (x ∷ []))
          (frames-same r written r.tail n (λ k h g. old_frame k h (omega (arith, last))))
          (ap (frame_at written) last ∙ new_frame)

  written-IsRing : IsRing written
  written-IsRing =
      let a = slot_of r r.head * r.item_size in
      record {
        masked = v.masked;
        ordered = omega (arith, v.ordered);
        within = omega (arith, v.ordered);
        sized = omega (
          arith,
          v.sized,
          slot_fits,
          cut_length,
          length-append (take a r.buffer)
              (take r.item_size item ++ drop (a + r.item_size) r.buffer),
          length-append (take r.item_size item) (drop (a + r.item_size) r.buffer),
          length-take a r.buffer,
          length-drop (a + r.item_size) r.buffer,
        );
      }

-- What `put` does to the queue.
pub record Puts (r : SpscRingBuffer) (item : List ℕ) (t : Bool × SpscRingBuffer) : Type 0 where
  pub done : t.0 ≡ ltb (length (contents r)) r.capacity
  pub queue : contents t.1 ≡ (
      if ltb (length (contents r)) r.capacity
      then contents r ++ (take r.item_size item ∷ [])
      else contents r)
  pub valid : IsRing t.1

pub record Gets (r : SpscRingBuffer) (t : Option (List ℕ) × SpscRingBuffer) : Type 0 where
  pub queue : contents t.1 ≡ drop 1 (contents r)
  pub value : t.0 ≡ oldest (contents r)
  pub valid : IsRing t.1
  pub peeked : peek_frame r ≡ oldest (contents r)

module _ (r : SpscRingBuffer) (v : IsRing r) where
  length-contents : length (contents r) ≡ r.head - r.tail
  length-contents = length-frames r r.tail (r.head - r.tail)

  -- `put` accepts an item exactly if the ring holds fewer frames than its capacity, and then its first
  -- `item_size` bytes become the newest frame; a full ring stays as it is. It holds of every valid ring
  -- and every item of `item_size` bytes at least, and keeps the ring valid.
  pub put-Puts : (item : List ℕ) → r.item_size ≤ length item → Puts r item (put r item)
  unfolding put
  put-Puts item l = elim (Bool-cases (leb r.capacity (r.head - r.tail))) [
    | inl full ↦
        let no : ltb (length (contents r)) r.capacity ≡ false =
          ground (arith, full, length-contents) in
        rw (full, put) (record { done = sym no; queue = rw no refl; valid = v })
    | inr room ↦
        let yes : ltb (length (contents r)) r.capacity ≡ true =
          ground (arith, room, length-contents) in
        rw (room, put)
          (record {
            done = sym yes;
            queue = rw yes (contents-written r item v l (ground (arith, room)));
            valid = written-IsRing r item v l (ground (arith, room));
          })
  ]

  -- `get` takes the oldest frame off a valid ring and returns it, and returns nothing from an empty one,
  -- which it leaves as it is; `peek` shows the same frame; the ring stays valid.
  pub get-Gets : Gets r (get r)
  unfolding get peek_frame
  get-Gets = elim (Bool-cases (r.tail == r.head)) [
    | inl none_left ↦
        let n : r.head - r.tail ≡ 0 = ground (arith, none_left) in
        let empty : contents r ≡ [] = ap (frames r r.tail) n in
        rw (none_left, get, peek_frame)
          (record {
            queue = empty ∙ sym (ap (drop 1) empty);
            value = sym (ap oldest empty);
            valid = v;
            peeked = nothing none_left ∙ sym (ap oldest empty);
          })
    | inr some_left ↦
        let rest = r.head - (r.tail + 1) in
        let n : r.head - r.tail ≡ suc rest = ground (arith, some_left, v.ordered) in
        let full : contents r ≡ frame_at r r.tail ∷ frames r (r.tail + 1) rest =
          ap (frames r r.tail) n in
        rw (some_left, get, peek_frame)
          (record {
            queue =
                frames-same r (record r { tail = r.tail + 1 }) (r.tail + 1) rest (λ k h g. refl)
                ∙ sym (ap (drop 1) full);
            value = sym (ap oldest full);
            valid = record {
              masked = v.masked;
              ordered = omega (arith, n);
              within = omega (arith, n, v.within);
              sized = v.sized;
            };
            peeked = something some_left ∙ sym (ap oldest full);
          })
  ]
    where
      nothing : (r.tail == r.head) ≡ true → peek_frame r ≡ none
      nothing e = rw (e, peek_frame) refl

      something : (r.tail == r.head) ≡ false → peek_frame r ≡ some (frame_at r r.tail)
      something e = rw (e, peek_frame) refl
