-- ===== src/Strategy/Dispatch.antt =====
-- What `StrategyRuntime` of strategy/runtime.py does with an event: the fills of owned orders, the turns of
-- the strategies, and the submission of their proposals.
use mini_hft_system.Prelude.{
  ◌+◌, List, [], ◌∷◌, ◌++◌, Option, none, some, Bool, false, not, ◌||◌, if◌then◌else◌,
}
use mini_hft_system.Prelude.Dict
use mini_hft_system.Prelude.Results.{Result, ok, err}
use mini_hft_system.Prelude.Sets.{insert_new, discard}
use mini_hft_system.Prelude.Tests.{nat_eq, text_beq, text_eq}
use mini_hft_system.Types.{OrderId, Symbol}
use mini_hft_system.Order.{Order, Trade, is_active}
use mini_hft_system.Book.{BookSnapshot}
use mini_hft_system.Events.{DomainEvent, EventBody, book_update_event, trade_event}
use mini_hft_system.Strategy.{evaluate}
use mini_hft_system.Strategy.Ledger.{on_fill}
use mini_hft_system.Strategy.Runtime.{
  Text, Callbacks, Gateway, chain, Entry, Runtime, Work, has_owner, marked, mid_price, failure_text,
  stop_entry, cancel_open_orders, set_entry, put_back,
}

module _ {M : Type 0} (C : Callbacks M) (G : Gateway) where
  abbrev pub count_rejection : Work C G → Work C G
  count_rejection (e, r) = (
    record e {
      strategy = record (e.strategy) {
        state = record (e.strategy.state) {
          risk_rejections = e.strategy.state.risk_rejections + 1;
        };
      };
    },
    record r {
      metrics = record (r.metrics) {
        orders_rejected_by_risk = r.metrics.orders_rejected_by_risk + 1;
      };
    },
  )

  abbrev pub place_order : Text → Order → Work C G → Work C G
  place_order n o (e, r) = (
    record e {
      open_orders = insert_new o.order_id e.open_orders;
      strategy = record (e.strategy) {
        state = record (e.strategy.state) {
          orders_submitted = e.strategy.state.orders_submitted + 1;
        };
      };
    },
    record r {
      owned_orders = Dict.put o.order_id (n, o) r.owned_orders;
      gateway = G.submit o r.gateway;
      metrics = record (r.metrics) { orders_submitted = r.metrics.orders_submitted + 1 };
    },
  )

  -- One proposal of `_submit_proposals`.
  abbrev pub submit_proposal : Text → Order → Work C G → Work C G
  submit_proposal n o (e, r) =
      if not (has_owner o.strategy_id e.strategy.strategy_id)
        || not (text_beq o.symbol e.strategy.symbol)
      then count_rejection (e, r)
      else if not (evaluate e.guard e.strategy o).accepted
      then count_rejection (e, r)
      else place_order n o (e, r)

  unfoldable pub submit_proposals : Text → List Order → Work C G → Work C G
  submit_proposals n [] w = w
  submit_proposals n (o ∷ os) w = submit_proposals n os (submit_proposal n o w)

  abbrev pub count_failure : Runtime C G → Runtime C G
  count_failure r = record r {
    metrics = record (r.metrics) { callback_failures = r.metrics.callback_failures + 1 };
  }

  -- `not strategy.is_running or strategy.symbol != event.symbol`
  abbrev pub skips : Symbol → Entry M → Bool
  skips s e = not e.strategy.is_running || not (text_beq e.strategy.symbol s)

  -- What becomes of the answer of a callback; `replaces` says whether the open orders are cancelled first.
  abbrev pub act : Bool → Text → Result Text (List Order) → Work C G → Work C G × Option Text
  act replaces n (err text) (e, r) =
      stop_entry C G (some (failure_text ++ text)) (e, count_failure r)
  act replaces n (ok []) w = (w, none)
  act replaces n (ok (o ∷ os)) w = (
    if replaces
        then submit_proposals n (o ∷ os) (cancel_open_orders C G w)
        else submit_proposals n (o ∷ os) w,
    none,
  )

  -- The turn of one strategy in `_on_book_update`.
  abbrev pub show_book : BookSnapshot → Text → Work C G → Work C G × Option Text
  show_book s n (e, r) =
      let b = marked (mid_price s) e.strategy in
      let (answer, m) = C.on_book_update b s e.memory in
      act b.replace_open_orders n answer (record e { strategy = b; memory = m }, r)

  -- The turn of one strategy in `_on_trade`.
  abbrev pub show_trade : Trade → Text → Work C G → Work C G × Option Text
  show_trade t n (e, r) =
      let (answer, m) = C.on_trade e.strategy t e.memory in
      act false n answer (record e { memory = m }, r)

  abbrev pub Turn : Type 0
  Turn = Text → Work C G → Work C G × Option Text

  abbrev pub turn_if_there :
      Turn → Symbol → Text → Runtime C G → Option (Entry M) → Runtime C G × Option Text
  turn_if_there turn s n r none = (r, none)
  turn_if_there turn s n r (some e) =
      let (w, x) = turn n (e, r) in if skips s e then (r, none) else (put_back C G n w, x)

  -- The loop over the strategies: those that run on the event's symbol take their turns.
  unfoldable pub turns : Turn → Symbol → List Text → Runtime C G → Runtime C G × Option Text
  turns turn s [] r = (r, none)
  turns turn s (n ∷ ns) r =
      chain (turn_if_there turn s n r (Dict.get n r.entries)) (turns turn s ns)

  abbrev pub close_unless : Option Text → OrderId → Order → Entry M → Entry M
  close_unless none i o e =
      if is_active o then e else record e { open_orders = discard i e.open_orders }
  close_unless (some t) i o e = e

  -- The fill of an owned order.
  abbrev pub filled_entry : OrderId → Order → Trade → Entry M → Entry M × Option Text
  filled_entry i o t e =
      let (x, m) = C.after_fill o t e.memory in
      (close_unless x i o (record e { strategy = on_fill o t e.strategy; memory = m }), x)

  abbrev pub fill_if_there :
      OrderId → Order → Trade → Text → Runtime C G → Option (Entry M) → Runtime C G × Option Text
  fill_if_there i o t n r none = (r, none)
  fill_if_there i o t n r (some e) = let (e', x) = filled_entry i o t e in (set_entry C G n e' r, x)

  abbrev pub fill_if_owned :
      OrderId → Trade → Runtime C G → Option (Text × Order) → Runtime C G × Option Text
  fill_if_owned i t r none = (r, none)
  fill_if_owned i t r (some (n, o)) =
      fill_if_there i (G.current r.gateway o) t n r (Dict.get n r.entries)

  unfoldable pub fill_owned : OrderId → Trade → Runtime C G → Runtime C G × Option Text
  fill_owned i t r = fill_if_owned i t r (Dict.get i r.owned_orders)

  -- `_on_book_update` and `_on_trade`: the runtime, and what is raised.
  unfoldable pub on_book_event : Symbol → BookSnapshot → Runtime C G → Runtime C G × Option Text
  on_book_event s b r = turns (show_book b) s (Dict.keys r.entries) r

  abbrev pub show_trade_all : Symbol → Trade → Runtime C G → Runtime C G × Option Text
  show_trade_all s t r = turns (show_trade t) s (Dict.keys r.entries) r

  unfoldable pub on_trade_event : Symbol → Trade → Runtime C G → Runtime C G × Option Text
  on_trade_event s t r =
      chain (chain (fill_owned t.maker_order_id t r) (fill_owned t.taker_order_id t))
        (show_trade_all s t)

  abbrev pub count_event : Runtime C G → Runtime C G
  count_event r = record r {
    metrics = record (r.metrics) { events_processed = r.metrics.events_processed + 1 };
  }

  abbrev pub dispatch : Symbol → EventBody → Runtime C G → Runtime C G × Option Text
  dispatch s (book_update_event (some b)) r = on_book_event s b r
  dispatch s (trade_event (some t)) r = on_trade_event s t r
  dispatch s _ r = (r, none)

  -- `process_event`
  unfoldable pub process_event : DomainEvent → Runtime C G → Runtime C G × Option Text
  process_event d r = dispatch d.symbol d.body (count_event r)

  -- `replay`, which ends with the first event whose processing raises.
  unfoldable pub replay : List DomainEvent → Runtime C G → Runtime C G × Option Text
  replay [] r = (r, none)
  replay (d ∷ ds) r = chain (process_event d r) (replay ds)

  -- `run`, over the events that the queue holds; then it waits.
  unfoldable run_queue : List DomainEvent → Runtime C G → Runtime C G × Option Text
  run_queue [] r = (r, none)
  run_queue (d ∷ ds) r =
      let rest = chain (process_event d r) (run_queue ds) in
      if r.stop_requested then (r, none) else rest
