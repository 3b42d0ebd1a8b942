-- ===== src/Engine.antt =====
-- `MatchingEngine` of engine/core/matching_engine.py: the order books of all symbols, the orders ever
-- accepted, the counters, and the events for the callback.
pub mod Stats
pub mod State
pub mod Submit
pub mod Answers
pub mod Cancel
pub mod History
mod Tests
use mini_hft_system.Prelude.{
  ℕ, ◌+◌, ◌-◌, List, [], ◌∷◌, Option, none, some, Bool, true, false, ◌==◌, if◌then◌else◌, map,
}
use mathlib.Core.Option
use mini_hft_system.Prelude.Dict
use mini_hft_system.Prelude.Tests.{nat_eq, text_eq}
use mini_hft_system.Types.{
  OrderId, OrderStatus, rejected, cancelled, Symbol, TimestampNs, Price, RejectReason,
  symbol_not_found, duplicate_order_id, invalid_quantity, invalid_price, EventType, order_rejected,
  order_filled, order_partially_filled, order_acked, order_cancelled, OrderType, limit, market,
}
use mini_hft_system.Order.{Order, Trade, remaining_quantity, processing_latency}
use mini_hft_system.Book.{
  Book, BookSnapshot, MatchResult, Submitted, new_book, submit, cancel, snapshot,
}
use mini_hft_system.Book.Fill.{Readings}
use mini_hft_system.Book.Level.{PriceLevel}
use mini_hft_system.Book.Prices.{SortedDict}
use Stats.{EngineStats, count_received, count_rejected, count_result, count_cancelled}

-- The clock at each place where a call reads it.
pub record EngineReadings : Type 0 where
  pub received_at : TimestampNs
  pub matching : Readings
  pub acked_at : TimestampNs
  pub event_at : TimestampNs
  pub snapshot_at : TimestampNs

pub record EngineEvent : Type 0 where
  pub event_type : EventType
  pub timestamp_ns : TimestampNs
  pub symbol : Symbol
  pub result : Option MatchResult
  pub reject_reason : Option RejectReason
  pub cancelled_order : Option Order
  pub snapshot : Option BookSnapshot

-- `on_event` says whether a callback is installed.
pub record Engine (S : SortedDict PriceLevel) : Type 0 where
  pub books : List (Symbol × Book S)
  pub order_map : List (OrderId × Order)
  pub on_event : Bool
  pub stats : EngineStats

-- What a call returns, the engine that it leaves, and the events that it hands to the callback.
pub record Reply {ℓ} (S : SortedDict PriceLevel) (A : Type ℓ) : Type ℓ where
  pub value : A
  pub engine : Engine S
  pub events : List EngineEvent

-- A fill changes two fields of a resting order, which the order map holds too.
abbrev pub refill : Order → Order → Order
refill maker o = record o { status = maker.status; filled_quantity = maker.filled_quantity }

unfoldable pub write_back : List Order → List (OrderId × Order) → List (OrderId × Order)
write_back [] m = m
write_back (maker ∷ makers) m = write_back makers (elim (Dict.get maker.order_id m) [
  | none ↦ m
  | some o ↦ Dict.put maker.order_id (refill maker o) m
])

abbrev pub no_trades : List Trade → Bool
no_trades [] = true
no_trades (t ∷ ts) = false

abbrev pub outcome_type : MatchResult → EventType
outcome_type r =
    if no_trades r.trades
    then order_acked
    else if remaining_quantity r.order == 0
    then order_filled
    else order_partially_filled

module _ (S : SortedDict PriceLevel) where
  -- `MatchingEngine(on_event)`
  unfoldable pub new_engine : Bool → Engine S
  new_engine listening = record {
    books = [];
    order_map = [];
    on_event = listening;
    stats = Stats.zero_stats;
  }

  unfoldable pub register_symbol : Engine S → Symbol → Engine S
  register_symbol e sym = elim (Dict.get sym e.books) [
    | none ↦ record e { books = Dict.put sym (new_book S sym) e.books }
    | some b ↦ e
  ]

  abbrev pub set_event_callback : Engine S → Engine S
  set_event_callback e = record e { on_event = true }

  -- `_emit`. What the callback does or raises does not reach the engine.
  abbrev pub emit : Engine S → EngineEvent → List EngineEvent
  emit e event = if e.on_event then event ∷ [] else []

  abbrev pub validate_price : OrderType → Option Price → Option RejectReason
  validate_price market p = none
  validate_price limit none = some invalid_price
  validate_price limit (some p) = if p == 0 then some invalid_price else none

  abbrev pub validate_new : Order → Option RejectReason
  validate_new o =
      if o.quantity == 0 then some invalid_quantity else validate_price o.order_type o.price

  -- `_validate`
  unfoldable pub validate : Engine S → Order → Option RejectReason
  validate e o = elim (Dict.get o.symbol e.books) [
    | none ↦ some symbol_not_found
    | some b ↦ elim (Dict.get o.order_id e.order_map) [
      | some old ↦ some duplicate_order_id
      | none ↦ validate_new o
    ]
  ]

  unfoldable pub reject : EngineReadings → Engine S → Order → RejectReason → Reply S MatchResult
  reject env e o reason =
      let r : MatchResult = record {
        order = record o { status = rejected };
        trades = [];
        is_new_resting = false;
      } in
      record {
        value = r;
        engine = record e { stats = count_rejected e.stats };
        events = emit e (record {
          event_type = order_rejected;
          timestamp_ns = env.event_at;
          symbol = o.symbol;
          result = some r;
          reject_reason = some reason;
          cancelled_order = none;
          snapshot = none;
        });
      }

  -- The order as the caller and the order map see it at the end.
  abbrev pub acknowledge : EngineReadings → MatchResult → MatchResult
  acknowledge env r = record r { order = record (r.order) { acked_at_ns = env.acked_at } }

  unfoldable pub accept : EngineReadings → Engine S → Order → Book S → Reply S MatchResult
  accept env e o b =
      let s = submit S env.matching b o in
      let r = acknowledge env s.result in
      let e' : Engine S = record e {
        books = Dict.put o.symbol s.book e.books;
        order_map = Dict.put o.order_id r.order (write_back s.makers e.order_map);
        stats = count_result e.stats s.result;
      } in
      record {
        value = r;
        engine = e';
        events = emit e' (record {
          event_type = outcome_type s.result;
          timestamp_ns = env.event_at;
          symbol = o.symbol;
          result = some r;
          reject_reason = none;
          cancelled_order = none;
          snapshot = some (snapshot S s.book 10 env.snapshot_at);
        });
      }

  -- `_validate` has found the book where it gives no reason to reject.
  abbrev admit :
      EngineReadings
      → Engine S
      → Order
      → Option RejectReason
      → Option (Book S)
      → Reply S MatchResult
  admit env e o (some reason) found = reject env e o reason
  admit env e o none none = reject env e o symbol_not_found
  admit env e o none (some b) = accept env e o b

  unfoldable pub submit_order : EngineReadings → Engine S → Order → Reply S MatchResult
  submit_order env e o =
      let o' = record o { received_at_ns = env.received_at } in
      let e' : Engine S = record e { stats = count_received e.stats } in
      admit env e' o' (validate e' o') (Dict.get o'.symbol e'.books)

  -- The order map's own object is marked, and handed out.
  unfoldable pub cancel_in :
      EngineReadings → Engine S → OrderId → Order → Book S → Reply S (Option Order)
  cancel_in env e i o b =
      let (found, b') = cancel S b i in
      let e' : Engine S = record e { books = Dict.put o.symbol b' e.books } in
      elim found [
        | none ↦ record { value = none; engine = e'; events = [] }
        | some x ↦
            let o' = record o { status = cancelled } in
            let e'' : Engine S = record e' {
              order_map = Dict.put i o' e.order_map;
              stats = count_cancelled e.stats;
            } in
            record {
              value = some o';
              engine = e'';
              events = emit e'' (record {
                event_type = order_cancelled;
                timestamp_ns = env.event_at;
                symbol = o.symbol;
                result = none;
                reject_reason = none;
                cancelled_order = some o';
                snapshot = some (snapshot S b' 10 env.snapshot_at);
              });
            }
      ]

  unfoldable pub cancel_order : EngineReadings → Engine S → OrderId → Reply S (Option Order)
  cancel_order env e i = elim (Dict.get i e.order_map) [
    | none ↦ record { value = none; engine = e; events = [] }
    | some o ↦ elim (Dict.get o.symbol e.books) [
      | none ↦ record { value = none; engine = e; events = [] }
      | some b ↦ cancel_in env e i o b
    ]
  ]

  abbrev pub get_snapshot : Engine S → Symbol → ℕ → TimestampNs → Option BookSnapshot
  get_snapshot e sym depth now =
      Option.map (λ (b : Book S). snapshot S b depth now) (Dict.get sym e.books)

  abbrev pub get_order : Engine S → OrderId → Option Order
  get_order e i = Dict.get i e.order_map

  abbrev pub registered_symbols : Engine S → List Symbol
  registered_symbols e = Dict.keys e.books
