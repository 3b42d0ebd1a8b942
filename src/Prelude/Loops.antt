-- ===== src/Prelude/Loops.antt =====
-- A loop with a test, on fuel, and what it keeps. Its state has any type.
use Prim.Native.Nat.{ℕ, zero, suc, ◌<◌}
use mathlib.Core.Path.{◌≡◌}
use mathlib.Core.Logic.{inl, inr}
use mathlib.Core.Bool.{Bool, true, false}
use native.Mathlib.Omega.{arith}
use mini_hft_system.Prelude.Tests.{Bool-cases}

module _ {ℓ} {State : Type ℓ} where
  -- The rounds that `go` allows, at most `n` of them.
  unfoldable pub while : ℕ → (State → Bool) → (State → State) → State → State
  while zero go round x = x
  while (suc n) go round x = elim (go x) [ false ↦ x | true ↦ while n go round (round x) ]

  module _ {κ} (Keeps : State → Type κ) (size : State → ℕ) (go : State → Bool)
      (round : State → State)
      (better : (x : State)
        → Keeps x
        → go x ≡ true
        → Keeps (round x) × (size (round x) < size x)) where
    -- Where each round makes the state smaller, fuel above its size lets the loop end by its test.
    pub while_inv :
        (n : ℕ) (x : State)
        → size x < n
        → Keeps x
        → Keeps (while n go round x) × (go (while n go round x) ≡ false)
    unfolding while
    while_inv zero x few k = elim few [ ]
    while_inv (suc n) x few k = elim (Bool-cases (go x)) [
      | inr stop ↦ rw (stop, while) (k, stop)
      | inl run ↦
          let (k', less) = better x k run in
          rw (run, while) (while_inv n (round x) (omega arith) k')
    ]

  -- What each round keeps, the loop keeps, whatever the fuel.
  pub while_keeps {κ} :
      (Keeps : State → Type κ) (go : State → Bool) (round : State → State)
      → ((x : State) → Keeps x → Keeps (round x))
      → (n : ℕ) (x : State) → Keeps x
      → Keeps (while n go round x)
  unfolding while
  while_keeps Keeps go round each zero x k = k
  while_keeps Keeps go round each (suc n) x k = elim (Bool-cases (go x)) [
    | inr stop ↦ rw (stop, while) k
    | inl run ↦ rw (run, while) (while_keeps Keeps go round each n (round x) (each x k))
  ]
