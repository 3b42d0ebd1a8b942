-- ===== src/Events/Service.antt =====
-- `OrderService` of api/services/order_service.py: the engine's events are translated into domain events,
-- which are published while the engine's call runs.
use mini_hft_system.Prelude.{ℕ, suc, ◌+◌, List, [], ◌∷◌, ◌++◌, Option, none, some, length}
use mini_hft_system.Prelude.Tests.{text_eq}
use mini_hft_system.Types.{
  EventType, order_filled, order_partially_filled, order_rejected, Symbol, OrderId,
}
use mini_hft_system.Order.{Order, Trade}
use mini_hft_system.Book.{BookSnapshot, MatchResult}
use mini_hft_system.Book.Level.{PriceLevel}
use mini_hft_system.Book.Prices.{SortedDict}
use mini_hft_system.Engine.{
  Engine, EngineEvent, EngineReadings, submit_order, cancel_order, get_order, set_event_callback,
}
use mini_hft_system.Events.{
  DomainEvent, EventBody, acked_event, filled_event, partially_filled_event, cancelled_event,
  rejected_event, trade_event, book_update_event,
}
use mini_hft_system.Events.Bus.{EventBus, publish_all}

-- `event_id` is a UUID for each event; `ids` gives the one of the n-th event of a call.
abbrev pub Ids : Type 0
Ids = ℕ → ℕ

abbrev pub trade_print : ℕ → Symbol → Trade → DomainEvent
trade_print id s t = record {
  event_id = id;
  timestamp_ns = t.timestamp_ns;
  symbol = s;
  body = trade_event (some t);
}

abbrev pub trade_prints : Ids → Symbol → List Trade → List DomainEvent
trade_prints ids s [] = []
trade_prints ids s (t ∷ ts) = trade_print (ids 0) s t ∷ trade_prints (λ n. ids (suc n)) s ts

abbrev pub event_of : ℕ → EngineEvent → EventBody → DomainEvent
event_of id e b = record {
  event_id = id;
  timestamp_ns = e.timestamp_ns;
  symbol = e.symbol;
  body = b;
}

-- The event on the order itself.
abbrev pub status_body : EventType → MatchResult → Option BookSnapshot → EventBody
status_body order_filled r s = filled_event (some r.order) r.trades s
status_body order_partially_filled r s = partially_filled_event (some r.order) r.trades s
status_body _ r s = acked_event (some r.order) s

abbrev pub result_events : Ids → EngineEvent → Option MatchResult → List DomainEvent
result_events ids e none = []
result_events ids e (some r) =
    trade_prints ids e.symbol r.trades
    ++ (event_of (ids (length r.trades)) e (status_body e.event_type r e.snapshot) ∷ [])

abbrev pub cancel_events : ℕ → EngineEvent → Option Order → List DomainEvent
cancel_events id e none = []
cancel_events id e (some o) = event_of id e (cancelled_event (some o) e.snapshot) ∷ []

abbrev pub snapshot_events : ℕ → EngineEvent → Option BookSnapshot → List DomainEvent
snapshot_events id e none = []
snapshot_events id e (some s) = event_of id e (book_update_event (some s)) ∷ []

abbrev pub other_events : Ids → EngineEvent → List DomainEvent
other_events ids e =
    let first = result_events ids e e.result in
    let second = cancel_events (ids (length first)) e e.cancelled_order in
    first ++ (second ++ snapshot_events (ids (length first + length second)) e e.snapshot)

abbrev pub rejection_or_other :
    Ids → EngineEvent → EventType → Option MatchResult → List DomainEvent
rejection_or_other ids e order_rejected (some r) =
    event_of (ids 0) e (rejected_event (some r.order) e.reject_reason) ∷ []
rejection_or_other ids e _ _ = other_events ids e

-- `_on_engine_event`: what it publishes, in order.
unfoldable pub translate : Ids → EngineEvent → List DomainEvent
translate ids e = rejection_or_other ids e e.event_type e.result

abbrev pub translate_all : Ids → List EngineEvent → List DomainEvent
translate_all ids [] = []
translate_all ids (e ∷ es) =
    let first = translate ids e in first ++ translate_all (λ n. ids (length first + n)) es

module _ (S : SortedDict PriceLevel) where
  pub record OrderService : Type 0 where
    pub engine : Engine S
    pub event_bus : EventBus

  -- `OrderService(engine, event_bus)` installs its callback.
  abbrev pub new_service : Engine S → EventBus → OrderService
  new_service e bus = record { engine = set_event_callback S e; event_bus = bus }

  unfoldable pub submit_through :
      Ids → EngineReadings → OrderService → Order → MatchResult × OrderService
  submit_through ids env s o =
      let t = submit_order S env s.engine o in
      (
        t.value,
        record {
          engine = t.engine;
          event_bus = publish_all s.event_bus (translate_all ids t.events);
        },
      )

  unfoldable pub cancel_through :
      Ids → EngineReadings → OrderService → OrderId → Option Order × OrderService
  cancel_through ids env s i =
      let t = cancel_order S env s.engine i in
      (
        t.value,
        record {
          engine = t.engine;
          event_bus = publish_all s.event_bus (translate_all ids t.events);
        },
      )

  abbrev pub find_order : OrderService → OrderId → Option Order
  find_order s i = get_order S s.engine i
