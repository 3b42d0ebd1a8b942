-- ===== src/Persistence/Rows.antt =====
-- `serialize_event` of infra/db/serialization.py: the rows of an event.
use mini_hft_system.Prelude.{ℕ, List, [], ◌∷◌, Option, none, some, ◌==◌, if◌then◌else◌}
use mini_hft_system.Types.{
  OrderSide, OrderType, OrderStatus, TimeInForce, OrderId, Symbol, Price, Quantity, TimestampNs,
}
use mini_hft_system.Order.{Order, Trade, Ratio}
use mini_hft_system.Events.{
  DomainEvent, EventBody, acked_event, filled_event, partially_filled_event, cancelled_event,
  rejected_event, trade_event, book_update_event, ticker_event,
}

pub record TradeRow : Type 0 where
  pub trade_id : ℕ
  pub symbol : Symbol
  pub price : Price
  pub quantity : Quantity
  pub aggressor_side : OrderSide
  pub maker_order_id : OrderId
  pub taker_order_id : OrderId
  pub timestamp_ns : TimestampNs

pub record OrderRow : Type 0 where
  pub order_id : OrderId
  pub symbol : Symbol
  pub side : OrderSide
  pub order_type : OrderType
  pub status : OrderStatus
  pub quantity : Quantity
  pub filled_quantity : Quantity
  pub price : Option Price
  pub avg_fill_price : Option Ratio
  pub time_in_force : TimeInForce
  pub strategy_id : Option (List ℕ)
  pub client_order_id : Option (List ℕ)
  pub created_at_ns : TimestampNs
  pub received_at_ns : Option TimestampNs
  pub processed_at_ns : Option TimestampNs
  pub acked_at_ns : Option TimestampNs

pub record PersistenceRecords : Type 0 where
  pub orders : List OrderRow
  pub trades : List TradeRow

-- `t or None`
abbrev pub or_none : TimestampNs → Option TimestampNs
or_none t = if t == 0 then none else some t

abbrev pub trade_row : Trade → TradeRow
trade_row t = record {
  trade_id = t.trade_id;
  symbol = t.symbol;
  price = t.price;
  quantity = t.quantity;
  aggressor_side = t.aggressor_side;
  maker_order_id = t.maker_order_id;
  taker_order_id = t.taker_order_id;
  timestamp_ns = t.timestamp_ns;
}

abbrev pub order_row : Order → OrderRow
order_row o = record {
  order_id = o.order_id;
  symbol = o.symbol;
  side = o.side;
  order_type = o.order_type;
  status = o.status;
  quantity = o.quantity;
  filled_quantity = o.filled_quantity;
  price = o.price;
  avg_fill_price = o.avg_fill_price;
  time_in_force = o.time_in_force;
  strategy_id = o.strategy_id;
  client_order_id = o.client_order_id;
  created_at_ns = o.created_at_ns;
  received_at_ns = or_none o.received_at_ns;
  processed_at_ns = or_none o.processed_at_ns;
  acked_at_ns = or_none o.acked_at_ns;
}

abbrev pub no_rows : PersistenceRecords
no_rows = record { orders = []; trades = [] }

abbrev pub order_rows : Option Order → PersistenceRecords
order_rows none = no_rows
order_rows (some o) = record { orders = order_row o ∷ []; trades = [] }

abbrev pub trade_rows : Option Trade → PersistenceRecords
trade_rows none = no_rows
trade_rows (some t) = record { orders = []; trades = trade_row t ∷ [] }

abbrev pub body_rows : EventBody → PersistenceRecords
body_rows (acked_event o s) = order_rows o
body_rows (filled_event o ts s) = order_rows o
body_rows (partially_filled_event o ts s) = order_rows o
body_rows (cancelled_event o s) = order_rows o
body_rows (rejected_event o r) = order_rows o
body_rows (trade_event t) = trade_rows t
body_rows (book_update_event s) = no_rows
body_rows (ticker_event b a l v) = no_rows

abbrev pub serialize_event : DomainEvent → PersistenceRecords
serialize_event e = body_rows e.body
