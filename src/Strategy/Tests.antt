-- ===== src/Strategy/Tests.antt =====
-- The theorems about strategies, for a strategy that is 3 shares short and buys 10, and for a runtime with
-- one strategy.
use mini_hft_system.Prelude.{
  ℕ, ◌+◌, ◌≤◌, ◌≡◌, ◌∙◌, refl, sym, ap, List, [], ◌∷◌, Option, none, some, true, false, arith,
  length, All, Bool-cases, inl, inr, if◌then◌else◌,
}
use mini_hft_system.Prelude.Dict
use mini_hft_system.Prelude.Results.{ok, err}
use mini_hft_system.Prelude.Tests.{text_beq, text_eq}
use mini_hft_system.Types.{buy, sell, limit, pending, gtc}
use mini_hft_system.Order.{Order, Trade}
use mini_hft_system.Book.Level.{PriceLevel}
use mini_hft_system.Book.Prices.{SortedDict, item_list}
use mini_hft_system.Engine.{EngineReadings, new_engine, register_symbol}
use mini_hft_system.Events.{DomainEvent, book_update_event}
use mini_hft_system.Events.Bus.{new_bus}
use mini_hft_system.Events.Service.{new_service}
use mini_hft_system.Strategy.{StrategyRiskLimits, evaluate, maximum, fill_each, on_fill-Allowed}
use mini_hft_system.Strategy.Ledger.{
  negsuc, magnitude, new_state, new_strategy, whole, BaseStrategy, on_fill, book_fill,
  mark_to_market, total_pnl,
}
use mini_hft_system.Strategy.Cash.{IsWorth, receipts, payments, fill_all, total_pnl_lem}
use mini_hft_system.Strategy.Runtime.{
  Text, Callbacks, Gateway, Entry, Runtime, zero_runtime_metrics, stop_strategy, engage_kill_switch,
  cancel_each,
}
use mini_hft_system.Strategy.Dispatch.{
  replay, process_event, on_book_event, turns, submit_proposals,
}
use mini_hft_system.Strategy.Control.{AllStopped, StopAnswer, stop_strategy_lem, kill_switch_lem}
use mini_hft_system.Strategy.Gate.{Terms, terms_of, Proper, Watched, replay-Watched}
use mini_hft_system.Strategy.Wiring.{service_gateway}

abbrev limits : StrategyRiskLimits
limits = record { max_order_size = 100; max_position = 500; max_notional_per_order = 10_000 }

abbrev short : BaseStrategy
short = record {
  strategy_id = 77 ∷ [];
  symbol = 65 ∷ [];
  capital = 1_000_000_000;
  max_position = 1_000;
  replace_open_orders = true;
  state = record new_state { position = negsuc 2; average_entry_price = whole 99; total_fills = 1 };
  is_running = true;
}

abbrev bid : Order
bid = record {
  symbol = 65 ∷ [];
  side = buy;
  order_type = limit;
  quantity = 10;
  price = some 101;
  time_in_force = gtc;
  strategy_id = some (77 ∷ []);
  client_order_id = none;
  order_id = 1;
  status = pending;
  filled_quantity = 0;
  avg_fill_price = none;
  created_at_ns = 1;
  received_at_ns = 0;
  queued_at_ns = 0;
  processed_at_ns = 0;
  acked_at_ns = 0;
}

abbrev fill : Trade
fill = record {
  symbol = 65 ∷ [];
  price = 100;
  quantity = 4;
  aggressor_side = buy;
  maker_order_id = 2;
  taker_order_id = 1;
  trade_id = 3;
  timestamp_ns = 50;
}

-- It is filled by 4 shares, and then by 6.
on_fill-Allowed_example :
    magnitude (fill_each bid (fill ∷ record fill { quantity = 6 } ∷ []) short).state.position
    ≤ maximum limits short
unfolding evaluate
on_fill-Allowed_example =
    on_fill-Allowed limits short bid (fill ∷ record fill { quantity = 6 } ∷ []) refl (omega arith)
      (omega arith)

abbrev offer : Order
offer = record bid { side = sell; order_id = 5 }

-- 4 shares are bought at 100, and 10 are sold at 120.
abbrev fills : List (Order × Trade)
fills = (bid, fill) ∷ (offer, record fill { price = 120; quantity = 10 }) ∷ []

total_pnl_lem_example :
    let s = (fill_all fills (new_strategy (77 ∷ []) (65 ∷ []) 1_000 500 true)).state in
    IsWorth
      (total_pnl (mark_to_market (whole 110) s))
      (whole 110)
      s.position
      (receipts fills 0)
      (payments fills 0)
total_pnl_lem_example =
    total_pnl_lem fills (whole 110) (77 ∷ []) (65 ∷ []) 1_000 500 true
      (omega arith, (omega arith, tt)) (omega arith)

-- The position after it is 6 shares short.
turned :
    (fill_all fills (new_strategy (77 ∷ []) (65 ∷ []) 1_000 500 true)).state.position ≡ negsuc 5
unfolding fill_all on_fill book_fill mark_to_market
turned = refl

-- A class of strategies that proposes the same order on each book, and raises on each trade.
abbrev quoting : Callbacks ℕ
quoting = record {
  on_book_update = λ s b m. (ok (bid ∷ []), m + 1);
  on_trade = λ s t m. (err (88 ∷ []), m);
  after_fill = λ o t m. (none, m);
  on_start = λ m. (none, m);
  on_stop = λ m. (none, 0);
}

abbrev table : SortedDict PriceLevel
table = item_list PriceLevel

abbrev readings : EngineReadings
readings = record {
  received_at = 10;
  matching = record { trade_id = λ n. n; trade_time = λ n. 50; processed_at = 60 };
  acked_at = 70;
  event_at = 80;
  snapshot_at = 90;
}

abbrev wired : Gateway
wired = service_gateway table (λ n i. n) (λ n. readings)

-- The strategy has order 1 open.
abbrev entry : Entry ℕ
entry = record { strategy = short; memory = 3; guard = limits; open_orders = 1 ∷ [] }

abbrev running : Runtime quoting wired
running = record {
  entries = (77 ∷ [], entry) ∷ [];
  owned_orders = (1, (77 ∷ [], bid)) ∷ [];
  stop_requested = false;
  metrics = zero_runtime_metrics;
  gateway =
      (0, new_service table (register_symbol table (new_engine table true) (65 ∷ [])) (new_bus 8));
}

stop_strategy_lem_example :
    StopAnswer quoting wired
      (77 ∷ [])
      none
      running
      entry
      (stop_strategy quoting wired (77 ∷ []) none running)
unfolding Dict.get
stop_strategy_lem_example = stop_strategy_lem quoting wired (77 ∷ []) none running entry refl

kill_switch_lem_example :
    (r' : Runtime quoting wired) × (engage_kill_switch quoting wired none (88 ∷ []) running
      ≡ (r', none))
    × AllStopped quoting wired r'
    × ((ds : List DomainEvent)
        → AllStopped quoting wired (replay quoting wired ds r').0
          × ((replay quoting wired ds r').0.gateway ≡ r'.gateway))
kill_switch_lem_example = kill_switch_lem quoting wired (λ m. refl) (88 ∷ []) running

-- A gateway that keeps the orders that it gets.
abbrev recording : Gateway
recording = record {
  State = List Order;
  submit = λ o g. o ∷ g;
  cancel = λ i g. g;
  current = λ g o. o;
}

abbrev recorded : Runtime quoting recording
recorded = record {
  entries = (77 ∷ [], entry) ∷ [];
  owned_orders = [];
  stop_requested = false;
  metrics = zero_runtime_metrics;
  gateway = [];
}

abbrev registered : Text → Option Terms
registered n = if text_beq (77 ∷ []) n then some (terms_of entry) else none

abbrev Small : List Order → Type 0
Small g = All (λ o. o.quantity ≤ 100) g

abbrev guard_or_limits : Option Terms → StrategyRiskLimits
guard_or_limits none = limits
guard_or_limits (some t) = t.guard

allowed-Small :
    (n : Text) (l : StrategyRiskLimits) (s : BaseStrategy) (o : Order) (g : List Order)
    → registered n
      ≡ some (record {
        name = s.strategy_id;
        symbol = s.symbol;
        max_position = s.max_position;
        guard = l;
      })
    → Proper l s o
    → Small g
    → Small (o ∷ g)
allowed-Small n l s o g t proper h = (
  elim (Bool-cases (text_beq (77 ∷ []) n)) [
    | inl same ↦
        let here : registered n ≡ some (terms_of entry) = rw same refl in
        let guard : limits ≡ l = ap guard_or_limits (sym here ∙ t) in
        omega (arith, proper.allowed.small, ap (λ x. x.max_order_size) guard)
    | inr other ↦ absurd (cc)
  ],
  h,
)

recorded-Watched : Watched quoting recording Small registered recorded
unfolding Dict.get
recorded-Watched = record {
  state = tt;
  terms = λ n e found. elim (Bool-cases (text_beq (77 ∷ []) n)) [
    | inl same ↦ rw same (ground (arith, found, same))
    | inr other ↦ absurd (cc)
  ];
}

abbrev book_print : DomainEvent
book_print = record {
  event_id = 1;
  timestamp_ns = 5;
  symbol = 65 ∷ [];
  body =
      book_update_event
        (some (record { symbol = 65 ∷ []; sequence = 1; bids = []; asks = []; timestamp_ns = 5 }));
}

-- The order goes through.
placed : length (replay quoting recording (book_print ∷ []) recorded).0.gateway ≡ 1
unfolding replay process_event on_book_event turns Dict.get submit_proposals evaluate cancel_each
placed = refl

replay-Watched_example :
    Watched quoting recording Small registered
      (replay quoting recording (book_print ∷ []) recorded).0
replay-Watched_example =
    replay-Watched quoting recording Small registered (λ i g h. h) allowed-Small (book_print ∷ [])
      recorded recorded-Watched
