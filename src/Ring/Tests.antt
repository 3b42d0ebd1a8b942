-- ===== src/Ring/Tests.antt =====
-- A ring for 3 items of 2 bytes, which has 4 slots, and the theorems at it.
use mini_hft_system.Prelude.{
  ℕ, ◌≤◌, ◌≡◌, ◌^◌, refl, List, [], ◌∷◌, some, arith, replicate, length-replicate, take, Bool, true,
}
use mini_hft_system.Prelude.Loops.{while}
use mini_hft_system.Prelude.Results.{Result, ok}
use mini_hft_system.Ring.{SpscRingBuffer, new_ring, put, get, round_up}
use mini_hft_system.Ring.Capacity.{round_up_lem, new_ring-IsRing}
use mini_hft_system.Ring.Events.{
  TagError, new_event_ring, put_frame, get_frame, peek_type, get_frame-put_frame,
}
use mini_hft_system.Ring.Refine.{Puts, Gets, put-Puts, get-Gets}

abbrev ring : SpscRingBuffer
ring = new_ring 3 2

abbrev item : List ℕ
item = 7 ∷ 8 ∷ []

rounded_run : round_up 3 ≡ 4
unfolding round_up while
rounded_run = refl

round_up_lem_example : ((k : ℕ) × (round_up 3 ≡ 2 ^ k)) × (3 ≤ round_up 3) × (2 ≤ round_up 3)
round_up_lem_example = round_up_lem 3

put-Puts_example : Puts ring item (put ring item)
unfolding new_ring
put-Puts_example = put-Puts ring (new_ring-IsRing 3 2).0 item (omega arith)

get-Gets_example : Gets ring (get ring)
get-Gets_example = get-Gets ring (new_ring-IsRing 3 2).0

abbrev taken : Result TagError Bool × SpscRingBuffer
taken = put_frame (new_event_ring 3) 2 (replicate 64 9)

get_frame-put_frame_example :
    (taken.0 ≡ ok true)
    × ((get_frame taken.1).0 ≡ some (2, take 64 (replicate 64 9)))
    × (peek_type taken.1 ≡ some 2)
unfolding new_ring
get_frame-put_frame_example =
    get_frame-put_frame (new_event_ring 3) 2 (replicate 64 9) (new_ring-IsRing 3 65).0 refl
      (new_ring-IsRing 3 65).1 (omega (arith, (round_up_lem 3).1)) (length-replicate {A = ℕ} 64 9)
