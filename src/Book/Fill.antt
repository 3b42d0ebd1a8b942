-- ===== src/Book/Fill.antt =====
-- The inner loop of `OrderBook.submit` (engine/core/order_book.py): an incoming order is filled
-- against the queue of one price level.
pub mod Refine
pub mod Index
use mini_hft_system.Prelude.{
  ℕ, suc, ◌+◌, ◌-◌, ◌≤◌, min, List, [], ◌∷◌, ◌++◌, Option, none, some, Bool, true, false, ◌&&◌, not,
  ◌==◌, ltb, leb, length, if◌then◌else◌,
}
use mini_hft_system.Prelude.Loops.{while}
use mini_hft_system.Prelude.Dict
use mini_hft_system.Prelude.Tests.{nat_eq}
use mini_hft_system.Types.{
  OrderSide, OrderId, Symbol, Price, TimestampNs, OrderStatus, filled, partially_filled,
}
use mini_hft_system.Order.{Order, Trade, remaining_quantity, price_of}
use mini_hft_system.Book.Level.{PriceLevel, peek, is_empty}

-- What `submit` reads from outside: the id and time of the n-th trade that it makes, and the clock
-- after matching.
pub record Readings : Type 0 where
  pub trade_id : ℕ → ℕ
  pub trade_time : ℕ → TimestampNs
  pub processed_at : TimestampNs

-- `_cancel_map: dict[OrderId, tuple[OrderSide, Price]]`
abbrev pub CancelMap : Type 0
CancelMap = List (OrderId × (OrderSide × Price))

-- The variables of the inner loop. `makers` holds each resting order as the loop leaves it: the
-- objects that the caller's other references see changed.
pub record Filling : Type 0 where
  pub order : Order
  pub level : PriceLevel
  pub trades : List Trade
  pub cancel_map : CancelMap
  pub makers : List Order

abbrev pub fill_test : Filling → Bool
fill_test s = ltb 0 (remaining_quantity s.order) && not (is_empty s.level)

abbrev pub fill_status : Order → Order
fill_status r = record r { status = if remaining_quantity r == 0 then filled else partially_filled }

module _ (env : Readings) (sym : Symbol) where
  abbrev new_trade : Order → Order → ℕ → ℕ → Trade
  new_trade order resting fill_qty n = record {
    symbol = sym;
    price = price_of resting;
    quantity = fill_qty;
    aggressor_side = order.side;
    maker_order_id = resting.order_id;
    taker_order_id = order.order_id;
    trade_id = env.trade_id n;
    timestamp_ns = env.trade_time n;
  }

  -- One fill against the front of the queue; `rest` is the queue behind it.
  unfoldable pub fill_front : Filling → Order → List Order → Filling
  fill_front s resting rest =
      let qty = min (remaining_quantity s.order) (remaining_quantity resting) in
      let maker =
        fill_status (record resting { filled_quantity = resting.filled_quantity + qty }) in
      let gone = remaining_quantity maker == 0 in
      record {
        order = record (s.order) { filled_quantity = s.order.filled_quantity + qty };
        level = record (s.level) {
          orders = if gone then rest else maker ∷ rest;
          total_quantity = s.level.total_quantity - qty;
        };
        trades = s.trades ++ (new_trade s.order resting qty (length s.trades) ∷ []);
        cancel_map = if gone then Dict.del resting.order_id s.cancel_map else s.cancel_map;
        makers = s.makers ++ (maker ∷ []);
      }

  abbrev fill_orders : Filling → List Order → Filling
  fill_orders s [] = s
  fill_orders s (resting ∷ rest) = fill_front s resting rest

  -- The body of the inner loop, which runs at a level that is not empty.
  unfoldable pub fill_one : Filling → Filling
  fill_one s = fill_orders s s.level.orders

  -- Each round pops an order or ends the loop, so the orders of the level and one more suffice.
  unfoldable pub fill_level : Filling → Filling
  fill_level s = while (suc (suc (length s.level.orders))) fill_test fill_one s
