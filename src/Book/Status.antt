-- ===== src/Book/Status.antt =====
-- The status that `OrderBook.submit` (engine/core/order_book.py) gives to the incoming order, on
-- every branch.
use mini_hft_system.Prelude.{
  ◌<◌, ◌≡◌, ◌⊎◌, ◌∙◌, refl, ap, some, none, Option, true, false, inl, inr, arith, Bool-cases,
  if◌then◌else◌, ltb, ◌==◌,
}
use mini_hft_system.Types.{
  OrderStatus, open_, partially_filled, filled, cancelled, TimeInForce, gtc, ioc, fok, gtd, Price,
}
use mini_hft_system.Order.{Order, remaining_quantity, sum_quantity, is_limit}
use mini_hft_system.Book.{
  Book, submit, finish, settle, apply_tif, rest_order, rest_priced, opened, withdraw, has_residual,
}
use mini_hft_system.Book.Fill.{Readings}
use mini_hft_system.Book.Level.{PriceLevel}
use mini_hft_system.Book.Match.{crosses}
use mini_hft_system.Book.Outcome.{submit-filled, submit-own}
use mini_hft_system.Book.Prices.{SortedDict}
use mini_hft_system.Book.Priority.{available, submit_takes}
use mini_hft_system.Book.Residual.{keeps}
use mini_hft_system.Book.Sides.{opposite}
use mini_hft_system.Book.State.{IsBook, queue_of}
use mini_hft_system.Book.Submit.{IsSubmittable, matched-IsMatched, settled, settled_facts, after}

-- The status by what is left and filled of the order, its type and its time in force.
abbrev pub status_of : Order → Order → OrderStatus
status_of o q =
    if remaining_quantity q == 0
    then filled
    else if is_limit o
    then (if keeps o.time_in_force
        then (if q.filled_quantity == 0 then open_ else partially_filled)
        else cancelled)
    else (if ltb 0 q.filled_quantity then partially_filled else o.status)

module _ (S : SortedDict PriceLevel) (b : Book S) (o : Order) where
  rest_order-status :
      (p : Option Price)
      → ((is_limit o ≡ false) ⊎ ((x : Price) × (p ≡ some x)))
      → is_limit o ≡ true
      → (rest_priced S b o p).1 ≡ opened o
  rest_order-status none (inl h) g = cc
  rest_order-status none (inr (x, h)) g = absurd (cc)
  rest_order-status (some p) h g = refl

  tif-status :
      (t : TimeInForce)
      → ((is_limit o ≡ false) ⊎ ((x : Price) × (o.price ≡ some x)))
      → is_limit o ≡ true
      → (apply_tif S b o t).1 ≡ (if keeps t then opened o else withdraw o)
  unfolding apply_tif rest_order
  tif-status gtc h g = rest_order-status o.price h g
  tif-status gtd h g = rest_order-status o.price h g
  tif-status ioc h g = refl
  tif-status fok h g = refl

module _ (S : SortedDict PriceLevel) (env : Readings) (b : Book S) (o : Order) (v : IsBook S b)
    (w : IsSubmittable S b o) where
  settled-priced :
      (is_limit o ≡ false) ⊎ ((x : Price) × (o.price ≡ some x))
      → (is_limit (settled S env b o) ≡ false)
        ⊎ ((x : Price) × ((settled S env b o).price ≡ some x))
  settled-priced (inl h) = inl (ground (arith, settled_facts S env b o v w))
  settled-priced (inr (x, h)) = inr (x, (settled_facts S env b o v w).1 ∙ h)

  residual_order :
      has_residual S (settled S env b o) ≡ true
      → (submit S env b o).result.order ≡ (
          if keeps o.time_in_force
          then opened (settled S env b o)
          else withdraw (settled S env b o))
  unfolding submit finish
  residual_order h =
      let t = settled S env b o in
      let f = settled_facts S env b o v w in
      rw h (
        tif-status S (after S env b o) t t.time_in_force (settled-priced w.priced) (ground arith)
        ∙ ap (λ x. if keeps x then opened t else withdraw t) f.4)

  plain_order :
      has_residual S (settled S env b o) ≡ false
      → (submit S env b o).result.order ≡ settled S env b o
  unfolding submit finish
  plain_order h = rw h

  settled-status : (settled S env b o).status ≡ (
      if remaining_quantity (settled S env b o) == 0
      then filled
      else if ltb 0 (settled S env b o).filled_quantity
      then partially_filled
      else o.status)
  unfolding settle
  settled-status =
      let same = (matched-IsMatched S env b o v w.within).order.same in
      ground (arith, ap (λ (x : Order). x.status) same)

  -- The status of an order after its submission to a valid book is FILLED where nothing is left of it; a limit order's
  -- residual that rests is OPEN or, after a fill, PARTIALLY_FILLED, and one that may not rest is
  -- CANCELLED; a market order's residual makes it PARTIALLY_FILLED, and leaves its status where it
  -- was not filled at all.
  pub submit-status :
      (submit S env b o).result.order.status ≡ status_of o (submit S env b o).result.order
  submit-status =
      let f = settled_facts S env b o v w in
      elim (Bool-cases (has_residual S (settled S env b o))) [
        | inl h ↦ rw (residual_order h) (ground (arith, settled-status, f, h))
        | inr h ↦ rw (plain_order h) (ground (arith, settled-status, f, h))
      ]

  -- A limit order submitted to a valid book that may not rest, and for which too little rests within its limit, is cancelled
  -- after it has taken all of that: a fill-or-kill order is then executed in part.
  pub immediate_cancels :
      is_limit o ≡ true
      → keeps o.time_in_force ≡ false
      → available (crosses o.side o.price) (queue_of S (opposite o.side) b) < remaining_quantity o
      → ((submit S env b o).result.order.status ≡ cancelled)
        × (sum_quantity (submit S env b o).result.trades
            ≡ available (crosses o.side o.price) (queue_of S (opposite o.side) b))
        × (queue_of S o.side (submit S env b o).book ≡ queue_of S o.side b)
  immediate_cancels l k few =
      let taken = submit_takes S env b o v w in
      let done = submit-filled S env b o v w in
      let kept = submit-own S env b o v w in
      let lies : (submit S env b o).result.is_new_resting ≡ false = ground (arith, kept.1, k) in
      (
        submit-status ∙ ground (arith, taken, done, l, k),
        omega (arith, taken),
        kept.0 ∙ rw lies refl,
      )
