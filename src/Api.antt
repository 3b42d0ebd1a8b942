-- ===== src/Api.antt =====
-- The order endpoints of api/routers/orders.py, over the order service. An answer is the body of a response or
-- the status code of an `HTTPException`. What the schema of a request asks for (`gt=0`) is tested first.
pub mod Endpoints
mod Tests
use mini_hft_system.Prelude.{
  ℕ, List, [], ◌∷◌, map, Option, none, some, Bool, true, false, not, ◌&&◌, ltb, if◌then◌else◌,
}
use mini_hft_system.Prelude.Results.{Result, ok, err}
use mini_hft_system.Types.{
  OrderSide, OrderType, limit, market, TimeInForce, OrderStatus, pending, OrderId, Symbol, Price,
  Quantity, TimestampNs,
}
use mini_hft_system.Order.{
  Order, Trade, Ratio, remaining_quantity, notional, gateway_latency, processing_latency,
  roundtrip_latency,
}
use mini_hft_system.Book.{MatchResult}
use mini_hft_system.Book.Level.{PriceLevel}
use mini_hft_system.Book.Prices.{SortedDict}
use mini_hft_system.Engine.{EngineReadings}
use mini_hft_system.Events.Service.{Ids, OrderService, submit_through, cancel_through, find_order}

pub record OrderRequest : Type 0 where
  pub symbol : Symbol
  pub side : OrderSide
  pub order_type : OrderType
  pub quantity : Quantity
  pub price : Option Price
  pub time_in_force : TimeInForce
  pub strategy_id : Option (List ℕ)
  pub client_order_id : Option (List ℕ)

pub record TradeResponse : Type 0 where
  pub trade_id : ℕ
  pub price : Price
  pub quantity : Quantity
  pub notional : ℕ
  pub aggressor_side : OrderSide
  pub maker_order_id : OrderId
  pub taker_order_id : OrderId
  pub timestamp_ns : TimestampNs

pub record OrderResponse : Type 0 where
  pub order_id : OrderId
  pub client_order_id : Option (List ℕ)
  pub symbol : Symbol
  pub side : OrderSide
  pub order_type : OrderType
  pub quantity : Quantity
  pub price : Option Price
  pub status : OrderStatus
  pub filled_quantity : Quantity
  pub remaining_quantity : Quantity
  pub avg_fill_price : Option Ratio
  pub trades : List TradeResponse
  pub gateway_latency : Option ℕ
  pub processing_latency : Option ℕ
  pub roundtrip_latency : Option ℕ

-- The body of an answer to a query, and to a cancellation.
pub record OrderView : Type 0 where
  pub order_id : OrderId
  pub client_order_id : Option (List ℕ)
  pub symbol : Symbol
  pub side : OrderSide
  pub order_type : OrderType
  pub status : OrderStatus
  pub quantity : Quantity
  pub filled_quantity : Quantity
  pub remaining_quantity : Quantity
  pub price : Option Price
  pub avg_fill_price : Option Ratio
  pub processing_latency : Option ℕ

pub record CancelView : Type 0 where
  pub order_id : OrderId
  pub status : OrderStatus

-- 422 and 404
pub data HttpError : Type 0 where
  unprocessable_entity not_found : HttpError

abbrev pub over_zero : Option Price → Bool
over_zero none = true
over_zero (some p) = ltb 0 p

-- `Field(..., gt=0)` of the quantity and of the price.
abbrev pub fits_schema : OrderRequest → Bool
fits_schema q = ltb 0 q.quantity && over_zero q.price

abbrev pub lacks_price : OrderType → Option Price → Bool
lacks_price limit none = true
lacks_price _ _ = false

-- `Order(...)`, with the id that it makes and the time of its creation.
abbrev pub order_of : OrderId → TimestampNs → OrderRequest → Order
order_of i now q = record {
  symbol = q.symbol;
  side = q.side;
  order_type = q.order_type;
  quantity = q.quantity;
  price = q.price;
  time_in_force = q.time_in_force;
  strategy_id = q.strategy_id;
  client_order_id = q.client_order_id;
  order_id = i;
  status = pending;
  filled_quantity = 0;
  avg_fill_price = none;
  created_at_ns = now;
  received_at_ns = 0;
  queued_at_ns = 0;
  processed_at_ns = 0;
  acked_at_ns = 0;
}

abbrev pub trade_response : Trade → TradeResponse
trade_response t = record {
  trade_id = t.trade_id;
  price = t.price;
  quantity = t.quantity;
  notional = notional t;
  aggressor_side = t.aggressor_side;
  maker_order_id = t.maker_order_id;
  taker_order_id = t.taker_order_id;
  timestamp_ns = t.timestamp_ns;
}

-- The order is the object that the engine has changed.
abbrev pub order_response : MatchResult → OrderResponse
order_response r =
    let o = r.order in
    record {
      order_id = o.order_id;
      client_order_id = o.client_order_id;
      symbol = o.symbol;
      side = o.side;
      order_type = o.order_type;
      quantity = o.quantity;
      price = o.price;
      status = o.status;
      filled_quantity = o.filled_quantity;
      remaining_quantity = remaining_quantity o;
      avg_fill_price = o.avg_fill_price;
      trades = map trade_response r.trades;
      gateway_latency = gateway_latency o;
      processing_latency = processing_latency o;
      roundtrip_latency = roundtrip_latency o;
    }

abbrev pub order_view : Order → OrderView
order_view o = record {
  order_id = o.order_id;
  client_order_id = o.client_order_id;
  symbol = o.symbol;
  side = o.side;
  order_type = o.order_type;
  status = o.status;
  quantity = o.quantity;
  filled_quantity = o.filled_quantity;
  remaining_quantity = remaining_quantity o;
  price = o.price;
  avg_fill_price = o.avg_fill_price;
  processing_latency = processing_latency o;
}

module _ (S : SortedDict PriceLevel) where
  -- `POST /api/v1/orders/`
  unfoldable pub post_order :
      Ids
      → EngineReadings
      → OrderId
      → TimestampNs
      → OrderService S
      → OrderRequest
      → Result HttpError OrderResponse × OrderService S
  post_order ids env i now s q =
      let (r, s') = submit_through S ids env s (order_of i now q) in
      if not (fits_schema q)
      then (err unprocessable_entity, s)
      else if lacks_price q.order_type q.price
      then (err unprocessable_entity, s)
      else (ok (order_response r), s')

  abbrev pub cancel_answer : OrderId → Option Order → Result HttpError CancelView
  cancel_answer i none = err not_found
  cancel_answer i (some o) = ok (record { order_id = i; status = o.status })

  -- `DELETE /api/v1/orders/{order_id}`
  unfoldable pub delete_order :
      Ids → EngineReadings → OrderService S → OrderId → Result HttpError CancelView × OrderService S
  delete_order ids env s i = let (o, s') = cancel_through S ids env s i in (cancel_answer i o, s')

  abbrev pub query_answer : Option Order → Result HttpError OrderView
  query_answer none = err not_found
  query_answer (some o) = ok (order_view o)

  -- `GET /api/v1/orders/{order_id}`
  unfoldable pub query_order : OrderService S → OrderId → Result HttpError OrderView
  query_order s i = query_answer (find_order S s i)
