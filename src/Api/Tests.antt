-- ===== src/Api/Tests.antt =====
-- A request to a service with one symbol.
use mini_hft_system.Prelude.{◌≡◌, refl, [], ◌∷◌, none, some, true}
use mini_hft_system.Types.{buy, limit, gtc}
use mini_hft_system.Book.Level.{PriceLevel}
use mini_hft_system.Book.Prices.{SortedDict, item_list}
use mini_hft_system.Engine.{EngineReadings, new_engine, register_symbol}
use mini_hft_system.Engine.History.{Session-IsEngine, called, begun, registers}
use mini_hft_system.Events.Bus.{new_bus}
use mini_hft_system.Events.Service.{OrderService}
use mini_hft_system.Api.{OrderRequest, unprocessable_entity, post_order}
use mini_hft_system.Api.Endpoints.{Posted, post_order_lem}
use mini_hft_system.Prelude.Results.{err}

abbrev table : SortedDict PriceLevel
table = item_list PriceLevel

abbrev readings : EngineReadings
readings = record {
  received_at = 10;
  matching = record { trade_id = λ n. n; trade_time = λ n. 50; processed_at = 60 };
  acked_at = 70;
  event_at = 80;
  snapshot_at = 90;
}

abbrev service : OrderService table
service = record {
  engine = register_symbol table (new_engine table true) (65 ∷ []);
  event_bus = new_bus 8;
}

abbrev request : OrderRequest
request = record {
  symbol = 65 ∷ [];
  side = buy;
  order_type = limit;
  quantity = 10;
  price = some 101;
  time_in_force = gtc;
  strategy_id = none;
  client_order_id = none;
}

post_order_lem_example :
    Posted table
      (λ n. n)
      readings
      7
      5
      service
      request
      (post_order table (λ n. n) readings 7 5 service request)
post_order_lem_example =
    post_order_lem table (λ n. n) readings 7 5 service request
      (Session-IsEngine table (called (begun true) (registers (65 ∷ []))))

-- A limit order without a price.
unpriced :
    (post_order table (λ n. n) readings 7 5 service (record request { price = none })).0
    ≡ err unprocessable_entity
unfolding post_order
unpriced = refl
