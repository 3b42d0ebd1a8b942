-- ===== src/Types.antt =====
-- engine/core/types.py: the enumerations and the identifiers of the engine.
-- An order id is the 128-bit value of its UUID. A text is the list of its character codes. A price
-- and every other dollar amount is a whole number of ticks of 0.0001 dollar: the code computes with
-- doubles, and the model with the exact amounts that these stand for.
use Prim.Native.Nat.{ℕ}
use mathlib.Core.List.{List}

pub data OrderSide : Type 0 where
  buy sell : OrderSide

pub data OrderType : Type 0 where
  limit market : OrderType

pub data OrderStatus : Type 0 where
  pending open_ partially_filled filled cancelled rejected : OrderStatus

pub data TimeInForce : Type 0 where
  gtc ioc fok gtd : TimeInForce

pub data EventType : Type 0 where
  order_received order_acked order_filled order_partially_filled order_cancelled order_rejected :
      EventType
  trade book_update ticker : EventType

pub data RejectReason : Type 0 where
  invalid_price invalid_quantity symbol_not_found risk_limit_exceeded : RejectReason
  duplicate_order_id order_not_found insufficient_liquidity : RejectReason

abbrev pub OrderId : Type 0
OrderId = ℕ

abbrev pub Symbol : Type 0
Symbol = List ℕ

abbrev pub Price : Type 0
Price = ℕ

abbrev pub Quantity : Type 0
Quantity = ℕ

abbrev pub TimestampNs : Type 0
TimestampNs = ℕ
