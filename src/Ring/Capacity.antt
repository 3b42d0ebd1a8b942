-- ===== src/Ring/Capacity.antt =====
-- `SPSCRingBuffer.__init__` (engine/core/ring_buffer.py): the capacity, and an empty ring.
use mini_hft_system.Prelude.{
  ℕ, suc, ◌-◌, ◌*◌, ◌^◌, ◌≤◌, ◌<◌, ◌≡◌, ◌∙◌, refl, ap, [], ltb, max, true, false, length-replicate,
  arith,
}
use native.Mathlib.Nat.{pow-suc}
use mini_hft_system.Prelude.Loops.{while_inv}
use mini_hft_system.Ring.{round_up, new_ring}
use mini_hft_system.Ring.Refine.{IsRing, contents}

-- What the loop keeps of the capacity: it is a power of 2.
record IsRounded (c : ℕ) : Type 0 where
  pub positive : 0 < c
  pub power : (k : ℕ) × (c ≡ 2 ^ k)

doubled : (m c : ℕ) → IsRounded c → ltb c m ≡ true → IsRounded (c * 2) × (m - c * 2 < m - c)
doubled m c v h = (
  record {
    positive = omega (arith, v.positive);
    power = (suc v.power.0, ap (λ x. x * 2) v.power.1 ∙ omega (arith, pow-suc 2 v.power.0));
  },
  ground (arith, h, v.positive),
)

module _ (capacity : ℕ) where
  rounded : IsRounded (round_up capacity) × (ltb (round_up capacity) (max capacity 2) ≡ false)
  unfolding round_up
  rounded =
      while_inv IsRounded (λ c. max capacity 2 - c) (λ c. ltb c (max capacity 2)) (λ c. c * 2)
        (doubled (max capacity 2)) (suc (max capacity 2)) 1 (omega arith)
        (record { positive = omega arith; power = (0, refl) })

  -- The capacity is rounded up to a power of 2 which is at least 2, and at least the capacity asked for.
  pub round_up_lem :
      ((k : ℕ) × (round_up capacity ≡ 2 ^ k))
      × (capacity ≤ round_up capacity)
      × (2 ≤ round_up capacity)
  round_up_lem = (rounded.0.power, ground (arith, rounded.1), ground (arith, rounded.1))

  -- A new ring is valid and empty.
  pub new_ring-IsRing :
      (item_size : ℕ)
      → IsRing (new_ring capacity item_size) × (contents (new_ring capacity item_size) ≡ [])
  unfolding new_ring
  new_ring-IsRing item_size = (
    record {
      masked = omega (arith, rounded.0.positive);
      ordered = omega arith;
      within = omega arith;
      sized = length-replicate (round_up capacity * item_size) 0;
    },
    refl,
  )
