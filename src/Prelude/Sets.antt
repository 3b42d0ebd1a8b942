-- ===== src/Prelude/Sets.antt =====
-- A Python `set` as a list without repetitions, in the order of insertion.
use mathlib.Core.Path.{◌≡◌, refl}
use mathlib.Core.Bool.{Bool, false, not, ◌&&◌, ◌||◌}
use mathlib.Core.List.{List, [], ◌∷◌}
use native.Mathlib.Omega.{arith}
use mini_hft_system.Prelude.Tests.{Eq, if◌then◌else◌}

module _ {ℓ} {K : Type ℓ} ⦃e : Eq K⦄ where
  unfoldable pub has : K → List K → Bool
  has k [] = false
  has k (j ∷ s) = e.beq j k || has k s

  unfoldable pub insert_new : K → List K → List K
  insert_new k [] = k ∷ []
  insert_new k (j ∷ s) = let rest = insert_new k s in if e.beq j k then j ∷ s else j ∷ rest

  unfoldable pub discard : K → List K → List K
  discard k [] = []
  discard k (j ∷ s) = let rest = discard k s in if e.beq j k then rest else j ∷ rest

  -- `s | t`
  unfoldable pub union : List K → List K → List K
  union s [] = s
  union s (k ∷ t) = union (insert_new k s) t

  pub has-insert_new : (x k : K) (s : List K) → has x (insert_new k s) ≡ (e.beq k x || has x s)
  unfolding has insert_new
  has-insert_new x k [] = refl
  has-insert_new x k (j ∷ s) =
      ground (arith, e.beq_iff j k, e.beq_iff j x, e.beq_iff k x, has-insert_new x k s)

  pub has-discard : (x k : K) (s : List K) → has x (discard k s) ≡ (not (e.beq k x) && has x s)
  unfolding has discard
  has-discard x k [] = ground arith
  has-discard x k (j ∷ s) =
      ground (arith, e.beq_iff j k, e.beq_iff j x, e.beq_iff k x, has-discard x k s)

  pub has-union : (x : K) (s t : List K) → has x (union s t) ≡ (has x s || has x t)
  unfolding has union
  has-union x s [] = ground arith
  has-union x s (k ∷ t) = ground (arith, has-union x (insert_new k s) t, has-insert_new x k s)
