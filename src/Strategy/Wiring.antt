-- ===== src/Strategy/Wiring.antt =====
-- The gateway of strategy/runtime.py as api/main.py sets it up: the order service of
-- api/services/order_service.py. The n-th call reads the clocks `env n` and makes the event ids `ids n`.
use mini_hft_system.Prelude.{ℕ, suc, Option, none, some}
use mini_hft_system.Types.{OrderId}
use mini_hft_system.Order.{Order}
use mini_hft_system.Book.Level.{PriceLevel}
use mini_hft_system.Book.Prices.{SortedDict}
use mini_hft_system.Engine.{EngineReadings}
use mini_hft_system.Events.Service.{Ids, OrderService, submit_through, cancel_through, find_order}
use mini_hft_system.Strategy.Runtime.{Gateway}

abbrev order_or : Order → Option Order → Order
order_or o none = o
order_or o (some o') = o'

module _ (S : SortedDict PriceLevel) (ids : ℕ → Ids) (env : ℕ → EngineReadings) where
  abbrev service_submit : Order → ℕ × OrderService S → ℕ × OrderService S
  service_submit o (n, s) = (suc n, (submit_through S (ids n) (env n) s o).1)

  abbrev service_cancel : OrderId → ℕ × OrderService S → ℕ × OrderService S
  service_cancel i (n, s) = (suc n, (cancel_through S (ids n) (env n) s i).1)

  abbrev pub service_gateway : Gateway
  service_gateway = record {
    State = ℕ × OrderService S;
    submit = service_submit;
    cancel = service_cancel;
    current = λ g o. order_or o (find_order S g.1 o.order_id);
  }
