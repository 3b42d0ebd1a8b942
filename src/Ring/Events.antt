-- ===== src/Ring/Events.antt =====
-- `BinaryEventRing` of engine/core/ring_buffer.py: tagged frames on one ring. A tag is a byte; `bytes`
-- raises an error for a larger number.
use mini_hft_system.Prelude.{
  ℕ, zero, suc, ◌<◌, ◌≡◌, ◌∙◌, refl, ap, List, [], ◌∷◌, Option, none, some, Bool, true, ltb, length,
  lt→ltb, length-take, take, arith, if◌then◌else◌, Bool-cases, inl, inr,
}
use mini_hft_system.Prelude.Results.{Result, ok, err}
use mini_hft_system.Ring.{SpscRingBuffer, new_ring, put, get, peek_frame}
use mini_hft_system.Ring.Refine.{IsRing, contents, oldest, put-Puts, get-Gets}

-- `BinaryEventRing(capacity)`
abbrev pub new_event_ring : ℕ → SpscRingBuffer
new_event_ring capacity = new_ring capacity 65

-- The `ValueError` of `bytes([frame_type])`, which leaves the ring as it was.
pub data TagError : Type 0 where
  not_a_byte : TagError

unfoldable pub put_frame : SpscRingBuffer → ℕ → List ℕ → Result TagError Bool × SpscRingBuffer
put_frame r frame_type frame =
    let (done, r') = put r (frame_type ∷ take 64 frame) in
    if ltb 255 frame_type then (err not_a_byte, r) else (ok done, r')

-- `raw[0], raw[1:]`; an empty slot has no first byte.
abbrev pub split_tag : Option (List ℕ) → Option (ℕ × List ℕ)
split_tag none = none
split_tag (some []) = none
split_tag (some (t ∷ frame)) = some (t, frame)

unfoldable pub get_frame : SpscRingBuffer → Option (ℕ × List ℕ) × SpscRingBuffer
get_frame r = let (raw, r') = get r in (split_tag raw, r')

abbrev pub tag_of : Option (List ℕ) → Option ℕ
tag_of none = none
tag_of (some []) = none
tag_of (some (t ∷ frame)) = some t

unfoldable pub peek_type : SpscRingBuffer → Option ℕ
peek_type r = tag_of (peek_frame r)

empty_room :
    (r : SpscRingBuffer)
    → contents r ≡ []
    → 0 < r.capacity
    → ltb (length (contents r)) r.capacity ≡ true
empty_room r e c = lt→ltb (length (contents r)) r.capacity (omega (arith, ap length e))

take_twice : (n : ℕ) (xs : List ℕ) → take n (take n xs) ≡ take n xs
take_twice zero xs = refl
take_twice (suc n) [] = refl
take_twice (suc n) (x ∷ xs) = ap (◌∷◌ x) (take_twice n xs)

-- A frame of 64 bytes that is put on an empty ring with a tag of one byte is taken, and comes back with its
-- tag, which can be seen before; with a larger tag an error is raised and nothing comes back. It holds of
-- every valid ring of 65-byte slots that has room.
pub get_frame-put_frame :
    (r : SpscRingBuffer) (t : ℕ) (frame : List ℕ)
    → IsRing r
    → r.item_size ≡ 65
    → contents r ≡ []
    → 0 < r.capacity
    → length frame ≡ 64
    → let (done, r') = put_frame r t frame in
      (done ≡ (if ltb 255 t then err not_a_byte else ok true))
      × ((get_frame r').0 ≡ (if ltb 255 t then none else some (t, take 64 frame)))
      × (peek_type r' ≡ (if ltb 255 t then none else some t))
unfolding put_frame get_frame peek_type
get_frame-put_frame r t frame v s e c l =
    let item = t ∷ take 64 frame in
    let p = put-Puts r v item (omega (arith, s, l, length-take 64 frame)) in
    let g = get-Gets (put r item).1 p.valid in
    let untouched = get-Gets r v in
    let room : ltb (length (contents r)) r.capacity ≡ true = empty_room r e c in
    let now : contents (put r item).1 ≡ (t ∷ take 64 frame) ∷ [] =
      p.queue ∙ rw (room, e, s) (ap (λ x. (t ∷ x) ∷ []) (take_twice 64 frame)) in
    elim (Bool-cases (ltb 255 t)) [
      | inl large ↦ rw large (
        refl,
        ap split_tag (untouched.value ∙ ap oldest e),
        ap tag_of (untouched.peeked ∙ ap oldest e),
      )
      | inr byte ↦ rw byte (
        ap ok (p.done ∙ room),
        ap split_tag (g.value ∙ ap oldest now),
        ap tag_of (g.peeked ∙ ap oldest now),
      )
    ]
