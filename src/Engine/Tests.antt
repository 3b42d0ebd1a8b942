-- ===== src/Engine/Tests.antt =====
-- A session on one engine, run on the dictionary that is its list of items, and the theorems at it.
use mini_hft_system.Prelude.{
  ℕ, ◌≡◌, refl, [], ◌∷◌, none, some, true, false, arith, length, if◌then◌else◌,
}
use mini_hft_system.Prelude.Dict
use mini_hft_system.Prelude.Loops.{while}
use mini_hft_system.Prelude.Tests.{text_eq}
use mini_hft_system.Types.{OrderSide, buy, sell, limit, pending, gtc, Symbol}
use mini_hft_system.Order.{Order}
use mini_hft_system.Book.{new_book, submit, finish, matched, settle, apply_tif, rest_order}
use mini_hft_system.Book.Level.{PriceLevel}
use mini_hft_system.Book.Match.{match_all, match_test}
use mini_hft_system.Book.Prices.{SortedDict, item_list}
use mini_hft_system.Engine.{
  Engine, EngineReadings, new_engine, register_symbol, submit_order, cancel_order, validate, accept,
  write_back,
}
use mini_hft_system.Engine.Answers.{Answers, submit_order-Answers}
use mini_hft_system.Engine.Cancel.{
  Names, Withdraws, cancel_order-Withdraws, cancel_order-twice, cancel_order-IsEngine, is_some,
}
use mini_hft_system.Engine.History.{
  Session, begun, called, registers, submits, Session-IsEngine, submit_order-isolated,
}
use mini_hft_system.Engine.State.{IsEngine, register_symbol-IsEngine}
use mini_hft_system.Engine.Stats.{count_result}
use mini_hft_system.Engine.Submit.{submit_order-IsEngine}

abbrev table : SortedDict PriceLevel
table = item_list PriceLevel

abbrev readings : EngineReadings
readings = record {
  received_at = 10;
  matching = record { trade_id = λ n. n; trade_time = λ n. 50; processed_at = 60 };
  acked_at = 70;
  event_at = 80;
  snapshot_at = 90;
}

-- "AB" and "C"
abbrev name : Symbol
name = 65 ∷ 66 ∷ []

abbrev other_name : Symbol
other_name = 67 ∷ []

abbrev order : ℕ → OrderSide → ℕ → ℕ → Order
order i s q p = record {
  symbol = name;
  side = s;
  order_type = limit;
  quantity = q;
  price = some p;
  time_in_force = gtc;
  strategy_id = none;
  client_order_id = none;
  order_id = i;
  status = pending;
  filled_quantity = 0;
  avg_fill_price = none;
  created_at_ns = 1;
  received_at_ns = 0;
  queued_at_ns = 0;
  processed_at_ns = 0;
  acked_at_ns = 0;
}

abbrev ask1 : Order
ask1 = order 1 sell 10 101

abbrev bid2 : Order
bid2 = order 2 buy 4 102

abbrev engine1 : Engine table
engine1 = register_symbol table (new_engine table true) name

abbrev engine2 : Engine table
engine2 = (submit_order table readings engine1 ask1).engine

abbrev session1 : Session table engine1
session1 = called (begun true) (registers name)

abbrev session2 : Session table engine2
session2 = called session1 (submits readings ask1 (omega arith))

-- The ask rests, and can be cancelled.
ask1-Names :
    Names table engine2 1
      (submit_order table readings engine1 ask1).value.order
      (submit table readings.matching
        (new_book table name)
        (record ask1 { received_at_ns = 10 })).book
unfolding new_engine register_symbol submit_order validate accept write_back Dict.get Dict.put
    new_book submit finish matched match_all match_test while settle apply_tif rest_order
    count_result
ask1-Names = record { known = refl; listed = refl }

Session-IsEngine_example : IsEngine table engine2
Session-IsEngine_example = Session-IsEngine table session2

register_symbol-IsEngine_example : IsEngine table (register_symbol table engine1 other_name)
register_symbol-IsEngine_example =
    register_symbol-IsEngine table engine1 other_name (Session-IsEngine table session1)

submit_order-Answers_example :
    Answers table readings engine2 bid2 (submit_order table readings engine2 bid2)
submit_order-Answers_example =
    submit_order-Answers table readings engine2 bid2 (Session-IsEngine table session2) (omega arith)

submit_order-IsEngine_example : IsEngine table (submit_order table readings engine2 bid2).engine
submit_order-IsEngine_example =
    submit_order-IsEngine table readings engine2 bid2 (Session-IsEngine table session2)
      (omega arith)

submit_order-isolated_example :
    (Dict.get other_name (submit_order table readings engine2 bid2).engine.books
      ≡ Dict.get other_name engine2.books)
    × (length (submit_order table readings engine2 bid2).events
        ≡ (if engine2.on_event then 1 else 0))
submit_order-isolated_example =
    submit_order-isolated table readings engine2 bid2 other_name (λ h. absurd (cc))

cancel_order-IsEngine_example : IsEngine table (cancel_order table readings engine2 1).engine
cancel_order-IsEngine_example =
    cancel_order-IsEngine table readings engine2 1 (Session-IsEngine table session2)

cancel_order-Withdraws_example :
    Withdraws table engine2 1
      (submit_order table readings engine1 ask1).value.order
      (submit table readings.matching
        (new_book table name)
        (record ask1 { received_at_ns = 10 })).book
      (cancel_order table readings engine2 1)
cancel_order-Withdraws_example =
    cancel_order-Withdraws table readings engine2 1
      (submit_order table readings engine1 ask1).value.order
      (submit table readings.matching (new_book table name)
        (record ask1 { received_at_ns = 10 })).book
      (Session-IsEngine table session2) ask1-Names

cancel_order-twice_example :
    is_some (cancel_order table readings (cancel_order table readings engine2 1).engine 1).value
    ≡ false
cancel_order-twice_example =
    cancel_order-twice table readings readings engine2 1 (Session-IsEngine table session2)
