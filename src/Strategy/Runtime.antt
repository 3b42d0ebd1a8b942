-- ===== src/Strategy/Runtime.antt =====
-- `StrategyRuntime` of strategy/runtime.py. What a strategy's class adds to `BaseStrategy` is a memory and the
-- callbacks; the gateway is a state with its calls. The three dicts that are keyed by the strategy's id get
-- their keys together in `add_strategy` and lose none; they are one table of entries here.
use mini_hft_system.Prelude.{
  ℕ, ◌+◌, List, [], ◌∷◌, Option, none, some, Bool, true, false, ◌||◌, ◌==◌, if◌then◌else◌,
}
use mini_hft_system.Prelude.Dict
use mini_hft_system.Prelude.Results.{Result, ok, err}
use mini_hft_system.Prelude.Sets.{discard}
use mini_hft_system.Prelude.Tests.{nat_eq, text_beq, text_eq}
use mini_hft_system.Types.{OrderId, Price, Quantity, book_update, trade}
use mini_hft_system.Order.{Order, Trade, Ratio}
use mini_hft_system.Book.{BookSnapshot}
use mini_hft_system.Events.Bus.{EventBus, subscribe}
use mini_hft_system.Strategy.{StrategyRiskLimits}
use mini_hft_system.Strategy.Ledger.{BaseStrategy, mark_to_market, start, stop}

abbrev pub Text : Type 0
Text = List ℕ

-- What a class of strategies gives. The first two return their proposals, or raise with a text; a hook gives
-- the text with which it raises, if it does. `after_fill` is what an override of `on_fill` does after the
-- base class's. A class changes its memory only, not the fields of the base class.
pub record Callbacks (M : Type 0) : Type 1 where
  pub on_book_update : BaseStrategy → BookSnapshot → M → Result Text (List Order) × M
  pub on_trade : BaseStrategy → Trade → M → Result Text (List Order) × M
  pub after_fill : Order → Trade → M → Option Text × M
  pub on_start : M → Option Text × M
  pub on_stop : M → Option Text × M

-- A call leaves a state whether it raises or not; the next one runs only if it does not.
abbrev pub chain : {A X : Type 0} → A × Option X → (A → A × Option X) → A × Option X
chain (a, none) f = f a
chain (a, some x) f = (a, some x)

pub chain-keeps :
    {A X : Type 0} (P : A → Type 0) (o : A × Option X) (f : A → A × Option X)
    → P o.0
    → ((a : A) → P a → P (f a).0)
    → P (chain o f).0
chain-keeps P (a, none) f h k = k a h
chain-keeps P (a, some x) f h k = h

-- `OrderGateway`; `current g o` is the order object `o` as the calls have left it.
pub record Gateway : Type 1 where
  pub State : Type 0
  pub submit : Order → State → State
  pub cancel : OrderId → State → State
  pub current : State → Order → Order

pub record RuntimeMetrics : Type 0 where
  pub events_processed : ℕ
  pub orders_submitted : ℕ
  pub orders_rejected_by_risk : ℕ
  pub callback_failures : ℕ
  pub kill_switch_activations : ℕ

abbrev pub zero_runtime_metrics : RuntimeMetrics
zero_runtime_metrics = record {
  events_processed = 0;
  orders_submitted = 0;
  orders_rejected_by_risk = 0;
  callback_failures = 0;
  kill_switch_activations = 0;
}

-- "strategy_runtime"
abbrev pub subscriber_name : Text
subscriber_name =
    115 ∷ 116 ∷ 114 ∷ 97 ∷ 116 ∷ 101 ∷ 103 ∷ 121 ∷ 95 ∷ 114 ∷ 117 ∷ 110 ∷ 116 ∷ 105 ∷ 109 ∷ 101 ∷ []

-- "callback failure: "
abbrev pub failure_text : Text
failure_text =
    99 ∷ 97 ∷ 108 ∷ 108 ∷ 98 ∷ 97 ∷ 99 ∷ 107 ∷ 32 ∷ 102 ∷ 97 ∷ 105 ∷ 108 ∷ 117 ∷ 114 ∷ 101 ∷ 58 ∷ 32
    ∷ []

pub data RuntimeError : Type 0 where
  already_registered unknown_strategy : RuntimeError
  hook_raised : Text → RuntimeError

abbrev pub of_hook : Option Text → Option RuntimeError
of_hook none = none
of_hook (some t) = some (hook_raised t)

-- `BookSnapshot.mid_price`
abbrev pub mid_of : List (Price × Quantity × ℕ) → List (Price × Quantity × ℕ) → Option Ratio
mid_of [] asks = none
mid_of (b ∷ bids) [] = none
mid_of (b ∷ bids) (a ∷ asks) =
    if b.0 == 0 || a.0 == 0 then none else some (record { numerator = b.0 + a.0; denominator = 2 })

abbrev pub mid_price : BookSnapshot → Option Ratio
mid_price s = mid_of s.bids s.asks

-- `order.strategy_id == strategy.strategy_id`
abbrev pub has_owner : Option Text → Text → Bool
has_owner none n = false
has_owner (some m) n = text_beq m n

abbrev pub marked : Option Ratio → BaseStrategy → BaseStrategy
marked none s = s
marked (some price) s = record s { state = mark_to_market price s.state }

pub record Entry (M : Type 0) : Type 0 where
  pub strategy : BaseStrategy
  pub memory : M
  pub guard : StrategyRiskLimits
  pub open_orders : List OrderId

module _ {M : Type 0} (C : Callbacks M) (G : Gateway) where
  pub record Runtime : Type 0 where
    pub entries : List (Text × Entry M)
    pub owned_orders : List (OrderId × (Text × Order))
    pub stop_requested : Bool
    pub metrics : RuntimeMetrics
    pub gateway : G.State

  abbrev pub runtime_on : G.State → Runtime
  runtime_on g = record {
    entries = [];
    owned_orders = [];
    stop_requested = false;
    metrics = zero_runtime_metrics;
    gateway = g;
  }

  -- `StrategyRuntime(event_bus, gateway)`: the number of its queue, the bus and the runtime.
  abbrev pub new_runtime : EventBus → G.State → ℕ × EventBus × Runtime
  new_runtime bus g =
      let (i, bus') = subscribe bus (book_update ∷ trade ∷ []) (some subscriber_name) in
      (i, bus', runtime_on g)

  abbrev pub add_entry : BaseStrategy → M → StrategyRiskLimits → Runtime → Runtime
  add_entry s m guard r = record r {
    entries =
        Dict.put s.strategy_id
          (record { strategy = s; memory = m; guard = guard; open_orders = [] }) r.entries;
  }

  -- `add_strategy`, with its guard.
  unfoldable pub add_strategy :
      BaseStrategy → M → StrategyRiskLimits → Runtime → Result RuntimeError Runtime
  add_strategy s m guard r = elim (Dict.get s.strategy_id r.entries) [
    | some e ↦ err already_registered
    | none ↦ ok (add_entry s m guard r)
  ]

  -- `request_stop`
  abbrev pub request_runtime_stop : Runtime → Runtime
  request_runtime_stop r = record r { stop_requested = true }

  abbrev pub set_entry : Text → Entry M → Runtime → Runtime
  set_entry n e r = record r { entries = Dict.put n e r.entries }

  -- `strategy.start()`, and what its hook raises.
  abbrev pub started : Entry M → Entry M × Option Text
  started e =
      let (x, m) = C.on_start e.memory in (record e { strategy = start e.strategy; memory = m }, x)

  -- `strategy.stop(reason)`
  abbrev pub stopped : Option Text → Entry M → Entry M × Option Text
  stopped reason e =
      let (x, m) = C.on_stop e.memory in
      (record e { strategy = stop reason e.strategy; memory = m }, x)

  abbrev pub start_if_there : Text → Runtime → Option (Entry M) → Runtime × Option RuntimeError
  start_if_there n r none = (r, some unknown_strategy)
  start_if_there n r (some e) = let (e', x) = started e in (set_entry n e' r, of_hook x)

  -- `start_strategy`: the runtime, and what is raised.
  unfoldable pub start_strategy : Text → Runtime → Runtime × Option RuntimeError
  start_strategy n r = start_if_there n r (Dict.get n r.entries)

  -- An entry that a call works on, with the runtime that it is put back into.
  abbrev pub Work : Type 0
  Work = Entry M × Runtime

  abbrev pub put_back : Text → Work → Runtime
  put_back n (e, r) = set_entry n e r

  -- `_cancel_open_orders`, for the orders that stood there at the call.
  unfoldable pub cancel_each : List OrderId → Work → Work
  cancel_each [] w = w
  cancel_each (i ∷ is) (e, r) = cancel_each is (
    record e { open_orders = discard i e.open_orders },
    record r { gateway = G.cancel i r.gateway },
  )

  abbrev pub cancel_open_orders : Work → Work
  cancel_open_orders (e, r) = cancel_each e.open_orders (e, r)

  -- Where `stop` raises, the orders are not cancelled.
  abbrev pub cancel_unless : Option Text → Work → Work × Option Text
  cancel_unless none w = (cancel_open_orders w, none)
  cancel_unless (some t) w = (w, some t)

  -- `stop_strategy`, of a strategy that is there.
  abbrev pub stop_entry : Option Text → Work → Work × Option Text
  stop_entry reason (e, r) = let (e', x) = stopped reason e in cancel_unless x (e', r)

  abbrev pub stop_if_there :
      Text → Option Text → Runtime → Option (Entry M) → Runtime × Option RuntimeError
  stop_if_there n reason r none = (r, some unknown_strategy)
  stop_if_there n reason r (some e) =
      let (w, x) = stop_entry reason (e, r) in (put_back n w, of_hook x)

  unfoldable pub stop_strategy : Text → Option Text → Runtime → Runtime × Option RuntimeError
  stop_strategy n reason r = stop_if_there n reason r (Dict.get n r.entries)

  unfoldable pub stop_each : List Text → Text → Runtime → Runtime × Option RuntimeError
  stop_each [] reason r = (r, none)
  stop_each (n ∷ ns) reason r = chain (stop_strategy n (some reason) r) (stop_each ns reason)

  abbrev pub targets : Option Text → Runtime → List Text
  targets none r = Dict.keys r.entries
  targets (some []) r = Dict.keys r.entries
  targets (some (c ∷ cs)) r = (c ∷ cs) ∷ []

  abbrev pub count_kill : Runtime → Runtime
  count_kill r = record r {
    metrics = record (r.metrics) {
      kill_switch_activations = r.metrics.kill_switch_activations + 1;
    };
  }

  -- `engage_kill_switch`
  unfoldable pub engage_kill_switch : Option Text → Text → Runtime → Runtime × Option RuntimeError
  engage_kill_switch n reason r =
      chain (stop_each (targets n r) reason r) (λ r'. (count_kill r', none))
