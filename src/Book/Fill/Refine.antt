-- ===== src/Book/Fill/Refine.antt =====
-- The inner loop of `submit` against the sweep.
use mini_hft_system.Prelude.{
  ℕ, suc, ◌+◌, ◌-◌, ◌<◌, ◌≤◌, ◌≡◌, refl, List, [], ◌∷◌, ◌++◌, min, Bool, true, false, length, arith,
  All, subst,
}
use mini_hft_system.Prelude.Loops.{while_inv}
use mini_hft_system.Types.{OrderSide, Price, Symbol}
use mini_hft_system.Order.{Order, remaining_quantity, sum_quantity, sum_quantity-snoc}
use mini_hft_system.Book.Fill.{
  Filling, Readings, fill_front, fill_one, fill_test, fill_level, new_trade, fill_orders,
}
use mini_hft_system.Book.Sides.{IsLevel, IsResting}
use mini_hft_system.Book.Sweep.{
  Execution, sweep, leftover, executions, sweep-zero, leftover-zero, executions-snoc,
}

-- The order that came in, with more of it filled.
pub record IsFilledFrom (o o' : Order) : Type 0 where
  pub same : o' ≡ record o { filled_quantity = o'.filled_quantity }
  pub more : o.filled_quantity ≤ o'.filled_quantity
  pub within : o'.filled_quantity ≤ o.quantity

-- Falls with every round: one for each order of the level, and one while some of the order is left.
abbrev pub fill_measure : Filling → ℕ
fill_measure s = length s.level.orders + min 1 (remaining_quantity s.order)

module _ (env : Readings) (sym : Symbol) (side : OrderSide) (p : Price) (ok : Price → Bool)
    (behind : List Order) (es : List Execution) (left : List Order) (o : Order) where
  -- The loop has made the sweep's first executions, and the sweep of what is left makes the others.
  pub record Fills (s : Filling) : Type 0 where
    pub crossing : ok p ≡ true
    pub made :
        executions s.trades ++ sweep ok (remaining_quantity s.order) (s.level.orders ++ behind) ≡ es
    pub leaves : leftover ok (remaining_quantity s.order) (s.level.orders ++ behind) ≡ left
    pub level : IsLevel side p s.level
    pub order : IsFilledFrom o s.order
    pub counted : s.order.filled_quantity ≡ o.filled_quantity + sum_quantity s.trades

  module _ (s : Filling) (r : Order) (rs : List Order) (e : s.level.orders ≡ r ∷ rs)
      (h : 0 < remaining_quantity s.order) (f : Fills s) where
    front : IsResting side p r
    front = (subst (All (IsResting side p)) e f.level.resting).0

    fill_front-level : IsLevel side p (fill_front env sym s r rs).level
    unfolding fill_front
    fill_front-level = ground (arith, front, subst (All (IsResting side p)) e f.level.resting)

    fill_front-order : IsFilledFrom o (fill_front env sym s r rs).order
    unfolding fill_front
    fill_front-order = ground (arith)

    fill_front-counted :
        let t = fill_front env sym s r rs in
        t.order.filled_quantity ≡ o.filled_quantity + sum_quantity t.trades
    unfolding fill_front
    fill_front-counted = ground (
      arith,
      f.counted,
      sum_quantity-snoc s.trades (
          new_trade env sym s.order r (min (remaining_quantity s.order) (remaining_quantity r))
            (length s.trades)),
    )

    fill_front-leaves :
        leftover ok
          (remaining_quantity (fill_front env sym s r rs).order)
          ((fill_front env sym s r rs).level.orders ++ behind)
        ≡ left
    unfolding fill_front leftover
    fill_front-leaves = ground (arith, front, leftover-zero ok (rs ++ behind))

    fill_front-made :
        executions (fill_front env sym s r rs).trades
          ++ sweep ok
              (remaining_quantity (fill_front env sym s r rs).order)
              ((fill_front env sym s r rs).level.orders ++ behind)
        ≡ es
    unfolding fill_front sweep
    fill_front-made = ground (
      arith,
      front,
      f.made,
      subst (λ q. executions s.trades ++ sweep ok (remaining_quantity s.order) (q ++ behind) ≡ es) e
          f.made,
      sweep-zero ok (rs ++ behind),
      executions-snoc s.trades
          (new_trade env sym s.order r (min (remaining_quantity s.order) (remaining_quantity r))
            (length s.trades))
          (sweep ok (remaining_quantity s.order - remaining_quantity r) (rs ++ behind)),
    )

    fill_front-Fills : Fills (fill_front env sym s r rs)
    fill_front-Fills = record {
      crossing = f.crossing;
      made = fill_front-made;
      leaves = fill_front-leaves;
      level = fill_front-level;
      order = fill_front-order;
      counted = fill_front-counted;
    }

  -- A round keeps the invariant, and pops an order or uses the incoming one up.
  fill_orders-Fills :
      (s : Filling) (q : List Order)
      → s.level.orders ≡ q
      → Fills s
      → fill_test s ≡ true
      → Fills (fill_orders env sym s q) × (fill_measure (fill_orders env sym s q) < fill_measure s)
  unfolding fill_front
  fill_orders-Fills s [] e f h = ground (arith)
  fill_orders-Fills s (r ∷ rs) e f h =
      (fill_front-Fills s r rs e (ground arith) f, ground (arith, front s r rs e (ground arith) f))

  fill_one-Fills :
      (s : Filling)
      → Fills s
      → fill_test s ≡ true
      → Fills (fill_one env sym s) × (fill_measure (fill_one env sym s) < fill_measure s)
  unfolding fill_one
  fill_one-Fills s f h = fill_orders-Fills s s.level.orders refl f h

  pub fill_level-Fills :
      (s : Filling)
      → Fills s
      → Fills (fill_level env sym s) × (fill_test (fill_level env sym s) ≡ false)
  unfolding fill_level
  fill_level-Fills s f =
      while_inv Fills fill_measure fill_test (fill_one env sym) fill_one-Fills
        (suc (suc (length s.level.orders))) s (omega arith) f
