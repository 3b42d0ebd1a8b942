-- ===== src/Book/Outcome.antt =====
-- What `OrderBook.submit` (engine/core/order_book.py) promises its caller.
use mini_hft_system.Prelude.{◌+◌, ◌≤◌, ◌≡◌, ◌∙◌, ap, ◌&&◌, arith, subst, subst₂, if◌then◌else◌, ltb}
use mini_hft_system.Order.{
  Order, remaining_quantity, sum_quantity, is_limit, price_of, price_or_zero,
}
use mini_hft_system.Book.{Book, Submitted, submit, finish}
use mini_hft_system.Book.Fill.{Readings}
use mini_hft_system.Book.Level.{PriceLevel}
use mini_hft_system.Book.Match.{crosses}
use mini_hft_system.Book.Prices.{SortedDict}
use mini_hft_system.Book.Rest.{enqueue}
use mini_hft_system.Book.Residual.{keeps}
use mini_hft_system.Book.Sides.{key_order, opposite, queue}
use mini_hft_system.Book.State.{IsBook, items_of, queue_of}
use mini_hft_system.Book.Submit.{
  IsSubmittable, matched-IsMatched, settled-Treats, settled_facts, after, opp_items-after,
  own_items-after,
}
use mini_hft_system.Book.Sweep.{executions, sweep, leftover}

module _ (S : SortedDict PriceLevel) (env : Readings) (b : Book S) (o : Order) (v : IsBook S b)
    (w : IsSubmittable S b o) where
  abbrev r : Submitted S
  r = submit S env b o

  -- The trades of a submission are exactly the executions of one sweep of the opposite side in
  -- price-time priority, up to the order's price and quantity, and the opposite side keeps exactly
  -- what that sweep leaves. It holds of every order of a valid book that may be submitted.
  pub submit-sweep :
      (executions (submit S env b o).result.trades
        ≡ sweep (crosses o.side o.price) (remaining_quantity o) (queue_of S (opposite o.side) b))
      × (queue_of S (opposite o.side) (submit S env b o).book
          ≡ leftover
              (crosses o.side o.price)
              (remaining_quantity o)
              (queue_of S (opposite o.side) b))
  unfolding submit finish
  submit-sweep =
      let t = matched-IsMatched S env b o v w.within in
      let g = settled-Treats S env b o v w in
      let f = settled_facts S env b o v w in
      let other =
        subst
          (λ s.
            items_of S (opposite s) (submit S env b o).book
            ≡ items_of S (opposite s) (after S env b o))
          f.0 g.other in
      (t.made, ap queue (other ∙ opp_items-after S env b o) ∙ t.leaves)

  -- Submitting an order that may be submitted keeps the invariant of a valid book: both sides sorted
  -- strictly by price with exact totals and no empty level, the sides uncrossed, each resting order in
  -- the cancel map under its side and price, and no id resting twice.
  pub submit-IsBook : IsBook S (submit S env b o).book
  unfolding submit finish
  submit-IsBook = (settled-Treats S env b o v w).book

  -- An order that may be submitted to a valid book is filled by exactly the sum of its trades, its
  -- filled quantity does not pass its quantity, and its quantity stays.
  pub submit-filled :
      let q = (submit S env b o).result in
      (q.order.filled_quantity ≡ o.filled_quantity + sum_quantity q.trades)
      × (q.order.filled_quantity ≤ o.quantity)
      × (q.order.quantity ≡ o.quantity)
  unfolding submit finish
  submit-filled =
      let t = matched-IsMatched S env b o v w.within in
      let g = settled-Treats S env b o v w in
      let f = settled_facts S env b o v w in ground (arith, t.counted, t.order.within, g.filled, f)

  -- On its own side of a valid book, an order that may be submitted changes nothing, unless it rests: then
  -- it is put behind all orders of a better or the same price and before all others. It rests exactly
  -- if something is left of it, it is a limit order, and its time in force is GTC or GTD.
  pub submit-own :
      let q = (submit S env b o).result in
      (queue_of S o.side (submit S env b o).book ≡ (
        if q.is_new_resting
        then enqueue (key_order o.side) (price_of o) q.order (queue_of S o.side b)
        else queue_of S o.side b))
      × (q.is_new_resting
          ≡ ((ltb 0 (remaining_quantity q.order) && is_limit o) && keeps o.time_in_force))
  unfolding submit finish
  submit-own =
      let g = settled-Treats S env b o v w in
      let f = settled_facts S env b o v w in
      let q = (submit S env b o).result in
      let own =
        subst₂
          (λ s p. queue_of S s (submit S env b o).book ≡ (
            if q.is_new_resting
            then enqueue (key_order s) p q.order (queue_of S s (after S env b o))
            else queue_of S s (after S env b o)))
          f.0 (ap price_or_zero f.1) g.own in
      let before = ap queue (own_items-after S env b o) in
      (
        subst
            (λ x.
              queue_of S o.side (submit S env b o).book
              ≡ (if q.is_new_resting then enqueue (key_order o.side) (price_of o) q.order x else x))
            before own,
        ground (arith, g.rests, g.filled, g.quantity, f),
      )
