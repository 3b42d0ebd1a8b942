-- ===== src/Order.antt =====
-- engine/core/order.py: orders and trades, with the derived properties of an order.
use mini_hft_system.Prelude.{
  ℕ, ◌-◌, ◌*◌, ◌+◌, ◌≡◌, arith, List, [], ◌∷◌, ◌++◌, Option, none, some, Bool, true, false, ◌&&◌,
  ltb, if◌then◌else◌,
}
use mini_hft_system.Types.{
  OrderSide, buy, sell, OrderType, limit, market, OrderStatus, open_, partially_filled, TimeInForce,
  OrderId, Symbol, Price, Quantity, TimestampNs,
}

-- An average price, kept as the fraction that the code divides out.
pub record Ratio : Type 0 where
  pub numerator : ℕ
  pub denominator : ℕ

pub record Order : Type 0 where
  pub symbol : Symbol
  pub side : OrderSide
  pub order_type : OrderType
  pub quantity : Quantity
  pub price : Option Price
  pub time_in_force : TimeInForce
  pub strategy_id : Option (List ℕ)
  pub client_order_id : Option (List ℕ)
  pub order_id : OrderId
  pub status : OrderStatus
  pub filled_quantity : Quantity
  pub avg_fill_price : Option Ratio
  pub created_at_ns : TimestampNs
  pub received_at_ns : TimestampNs
  pub queued_at_ns : TimestampNs
  pub processed_at_ns : TimestampNs
  pub acked_at_ns : TimestampNs

-- Python's difference of integers, which does not go below 0 while the fills stay within the order.
abbrev pub remaining_quantity : Order → Quantity
remaining_quantity o = o.quantity - o.filled_quantity

abbrev pub is_buy : Order → Bool
is_buy o = elim o.side [ buy ↦ true | sell ↦ false ]

abbrev pub is_sell : Order → Bool
is_sell o = elim o.side [ buy ↦ false | sell ↦ true ]

abbrev pub is_market : Order → Bool
is_market o = elim o.order_type [ limit ↦ false | market ↦ true ]

abbrev pub is_limit : Order → Bool
is_limit o = elim o.order_type [ limit ↦ true | market ↦ false ]

abbrev pub is_active : Order → Bool
is_active o = elim o.status [ open_ ↦ true | partially_filled ↦ true | _ ↦ false ]

-- A latency in nanoseconds, where both checkpoints are set. The code divides it by 1,000.
abbrev pub latency : TimestampNs → TimestampNs → Option ℕ
latency from to = if ltb 0 from && ltb 0 to then some (to - from) else none

pub gateway_latency : Order → Option ℕ
gateway_latency o = latency o.created_at_ns o.received_at_ns

unfoldable pub processing_latency : Order → Option ℕ
processing_latency o = latency o.received_at_ns o.processed_at_ns

pub roundtrip_latency : Order → Option ℕ
roundtrip_latency o = latency o.created_at_ns o.acked_at_ns

-- The trade takes the price of the resting order, and that order has one.
abbrev pub price_or_zero : Option Price → Price
price_or_zero none = 0
price_or_zero (some p) = p

abbrev pub price_of : Order → Price
price_of o = price_or_zero o.price

pub record Trade : Type 0 where
  pub symbol : Symbol
  pub price : Price
  pub quantity : Quantity
  pub aggressor_side : OrderSide
  pub maker_order_id : OrderId
  pub taker_order_id : OrderId
  pub trade_id : ℕ
  pub timestamp_ns : TimestampNs

abbrev pub notional : Trade → ℕ
notional t = t.price * t.quantity

abbrev pub sum_quantity : List Trade → ℕ
sum_quantity [] = 0
sum_quantity (t ∷ ts) = t.quantity + sum_quantity ts

abbrev pub sum_notional : List Trade → ℕ
sum_notional [] = 0
sum_notional (t ∷ ts) = notional t + sum_notional ts

pub sum_quantity-snoc :
    (ts : List Trade) (t : Trade) → sum_quantity (ts ++ (t ∷ [])) ≡ sum_quantity ts + t.quantity
sum_quantity-snoc [] t = omega arith
sum_quantity-snoc (x ∷ ts) t = omega (arith, sum_quantity-snoc ts t)
