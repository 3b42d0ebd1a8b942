-- ===== src/Events/Tests.antt =====
-- A bus with one named subscriber to trades, and a first order on an engine.
use mini_hft_system.Prelude.{
  ◌+◌, ◌≡◌, refl, [], ◌∷◌, none, some, true, arith, length, if◌then◌else◌,
}
use mathlib.Core.Option
use mini_hft_system.Prelude.Dict
use mini_hft_system.Types.{sell, limit, pending, gtc, trade, order_acked}
use mini_hft_system.Order.{Order}
use mini_hft_system.Book.Level.{PriceLevel}
use mini_hft_system.Book.Prices.{SortedDict, item_list}
use mini_hft_system.Engine.{Engine, EngineReadings, new_engine, register_symbol, submit_order}
use mini_hft_system.Events.{DomainEvent, trade_event, type_eq}
use mini_hft_system.Events.Announce.{Announced, submit_order-Announced}
use mini_hft_system.Events.Bus.{EventBus, new_bus, subscribe, publish_nowait, subscriber_at}
use mini_hft_system.Events.Delivery.{member, receive, queued}
use mini_hft_system.Events.Keeps.{IsBus, ids_of, new_bus-IsBus, subscribe-IsBus, publish_nowait_lem}

abbrev bus : EventBus
bus = (subscribe (new_bus 2) (trade ∷ order_acked ∷ []) (some (109 ∷ []))).1

bus-IsBus : IsBus bus
bus-IsBus =
    subscribe-IsBus (new_bus 2) (trade ∷ order_acked ∷ []) (some (109 ∷ []))
      (new_bus-IsBus 2 (omega arith)) (((λ h. absurd (cc)), tt), (tt, tt))

abbrev print : DomainEvent
print = record { event_id = 1; timestamp_ns = 5; symbol = 65 ∷ []; body = trade_event none }

publish_nowait_lem_example :
    (subscriber_at 0 (publish_nowait bus print).subscribers ≡ (
      if member 0 (ids_of bus trade)
      then Option.map (receive 2 print) (subscriber_at 0 bus.subscribers)
      else subscriber_at 0 bus.subscribers))
    × (queued (publish_nowait bus print).subscribers + (publish_nowait bus print).dropped
        ≡ queued bus.subscribers + bus.dropped + length (ids_of bus trade))
unfolding subscribe
publish_nowait_lem_example = publish_nowait_lem bus print bus-IsBus 0

abbrev table : SortedDict PriceLevel
table = item_list PriceLevel

abbrev readings : EngineReadings
readings = record {
  received_at = 10;
  matching = record { trade_id = λ n. n; trade_time = λ n. 50; processed_at = 60 };
  acked_at = 70;
  event_at = 80;
  snapshot_at = 90;
}

abbrev ask : Order
ask = record {
  symbol = 65 ∷ 66 ∷ [];
  side = sell;
  order_type = limit;
  quantity = 10;
  price = some 101;
  time_in_force = gtc;
  strategy_id = none;
  client_order_id = none;
  order_id = 1;
  status = pending;
  filled_quantity = 0;
  avg_fill_price = none;
  created_at_ns = 1;
  received_at_ns = 0;
  queued_at_ns = 0;
  processed_at_ns = 0;
  acked_at_ns = 0;
}

abbrev engine : Engine table
engine = register_symbol table (new_engine table true) (65 ∷ 66 ∷ [])

submit_order-Announced_example :
    Announced table (λ n. n) readings engine ask (submit_order table readings engine ask)
unfolding new_engine register_symbol Dict.get
submit_order-Announced_example = submit_order-Announced table (λ n. n) readings engine ask refl
