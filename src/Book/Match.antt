-- ===== src/Book/Match.antt =====
-- The outer loop of `OrderBook.submit` (engine/core/order_book.py): level after level of the opposite
-- side, best first, while the incoming order crosses it.
pub mod Refine
pub mod Index
use mini_hft_system.Prelude.{
  suc, ◌≡◌, List, Option, none, some, Bool, true, false, ◌&&◌, ltb, leb, length, if◌then◌else◌,
}
use mini_hft_system.Prelude.Loops.{while}
use mini_hft_system.Types.{OrderSide, buy, sell, Symbol, Price}
use mini_hft_system.Order.{Order, Trade, remaining_quantity}
use mini_hft_system.Book.Level.{PriceLevel, is_empty}
use mini_hft_system.Book.Prices.{SortedDict, KeyOrder}
use mini_hft_system.Book.Fill.{Readings, CancelMap, Filling, fill_level}

-- `_crosses`; `none` is the price of a market order.
abbrev pub crosses : OrderSide → Option Price → Price → Bool
crosses s none level_price = true
crosses buy (some p) level_price = leb level_price p
crosses sell (some p) level_price = leb p level_price

-- The variables of the outer loop.
pub record Matching (S : SortedDict PriceLevel) (o : KeyOrder) : Type 0 where
  pub order : Order
  pub opposite : S.Table o
  pub trades : List Trade
  pub cancel_map : CancelMap
  pub makers : List Order

module _ (S : SortedDict PriceLevel) (o : KeyOrder) where
  open S use {items, set, del, peekitem}

  -- The loop's condition, and the `break` at a level that the order does not cross.
  unfoldable pub match_test : Matching S o → Bool
  match_test m = ltb 0 (remaining_quantity m.order) && elim (peekitem o m.opposite) [
    | none ↦ false
    | some (best, level) ↦ crosses m.order.side m.order.price best
  ]

  module _ (env : Readings) (sym : Symbol) where
    pub enter : Matching S o → PriceLevel → Filling
    enter m level = record {
      order = m.order;
      level = level;
      trades = m.trades;
      cancel_map = m.cancel_map;
      makers = m.makers;
    }

    pub leave : Matching S o → Price → Filling → Matching S o
    leave m best s = record {
      order = s.order;
      opposite = if is_empty s.level then del o best m.opposite else set o best s.level m.opposite;
      trades = s.trades;
      cancel_map = s.cancel_map;
      makers = s.makers;
    }

    -- The level is mutated where it stands in the dictionary; an empty one is deleted.
    unfoldable pub match_one : Matching S o → Matching S o
    unfolding enter leave
    match_one m = elim (peekitem o m.opposite) [
      | none ↦ m
      | some (best, level) ↦ leave m best (fill_level env sym (enter m level))
    ]

    -- Each round empties a level or ends the loop.
    unfoldable pub match_all : Matching S o → Matching S o
    match_all m = while (suc (suc (length (items o m.opposite)))) match_test match_one m
