-- ===== src/Book/Tests.antt =====
-- A session on one book, run on the dictionary that is its list of items, and the theorems at it.
use mini_hft_system.Prelude.{
  ℕ, ◌+◌, ◌<◌, ◌≤◌, ◌≡◌, refl, List, [], ◌∷◌, none, some, true, inr, arith, map, take, length, ltb,
  ◌&&◌, if◌then◌else◌,
}
use mathlib.Core.Option
use mini_hft_system.Prelude.Dict
use mini_hft_system.Prelude.Loops.{while}
use mini_hft_system.Types.{
  Price, OrderSide, buy, sell, limit, pending, cancelled, gtc, fok, TimeInForce,
}
use mini_hft_system.Order.{Order, remaining_quantity, sum_quantity}
use mini_hft_system.Book.{
  Book, Submitted, new_book, submit, cancel, best_bid, best_ask, finish, matched, settle, apply_tif,
  rest_order,
}
use mini_hft_system.Book.Cancel.{Cancels, cancel-Cancels}
use mini_hft_system.Book.Fill.{Readings, fill_level, fill_one, fill_front}
use mini_hft_system.Book.History.{new_book-IsBook, Reach, created, next, submits, Reach-IsBook}
use mini_hft_system.Book.Level.{PriceLevel, remove, find, delete}
use mini_hft_system.Book.Outcome.{submit-sweep, submit-IsBook, submit-filled, submit-own}
use mini_hft_system.Book.Match.{crosses, match_all, match_one, match_test}
use mini_hft_system.Book.Prices.{SortedDict, item_list, ascending, upsert, lookup, erase}
use mini_hft_system.Book.Priority.{available, submit_in_turn}
use mini_hft_system.Book.Rest.{enqueue}
use mini_hft_system.Book.State.{IsBook, queue_of}
use mini_hft_system.Book.Status.{status_of, submit-status, immediate_cancels}
use mini_hft_system.Book.Submit.{IsSubmittable}
use mini_hft_system.Book.Sweep.{executions, sweep, leftover}
use mini_hft_system.Book.Views.{IsBest, quotes-IsBest}

abbrev table : SortedDict PriceLevel
table = item_list PriceLevel

abbrev readings : Readings
readings = record { trade_id = λ n. n; trade_time = λ n. 50; processed_at = 60 }

-- "AB"
abbrev name : List ℕ
name = 65 ∷ 66 ∷ []

abbrev order : ℕ → OrderSide → ℕ → ℕ → TimeInForce → Order
order i s q p t = record {
  symbol = name;
  side = s;
  order_type = limit;
  quantity = q;
  price = some p;
  time_in_force = t;
  strategy_id = none;
  client_order_id = none;
  order_id = i;
  status = pending;
  filled_quantity = 0;
  avg_fill_price = none;
  created_at_ns = 1;
  received_at_ns = 2;
  queued_at_ns = 0;
  processed_at_ns = 0;
  acked_at_ns = 0;
}

abbrev ask1 : Order
ask1 = order 1 sell 10 101 gtc

abbrev ask2 : Order
ask2 = order 2 sell 5 101 gtc

abbrev bid3 : Order
bid3 = order 3 buy 4 99 gtc

abbrev sweep4 : Order
sweep4 = order 4 buy 12 102 gtc

abbrev kill5 : Order
kill5 = order 5 buy 40 101 fok

abbrev book0 : Book table
book0 = new_book table name

abbrev book1 : Book table
book1 = (submit table readings book0 ask1).book

abbrev book2 : Book table
book2 = (submit table readings book1 ask2).book

abbrev book3 : Book table
book3 = (submit table readings book2 bid3).book

-- The session: two asks at 101, a bid at 99, a buyer of 12 up to 102, a fill-or-kill of 40.
new-IsSubmittable : IsSubmittable table book0 ask1
unfolding new_book Dict.get
new-IsSubmittable = record { within = omega arith; fresh = refl; priced = inr (101, refl) }

ask2-IsSubmittable : IsSubmittable table book1 ask2
unfolding new_book submit finish matched match_all match_test while settle apply_tif rest_order
    Dict.get Dict.put
ask2-IsSubmittable = record { within = omega arith; fresh = refl; priced = inr (101, refl) }

bid3-IsSubmittable : IsSubmittable table book2 bid3
unfolding new_book submit finish matched match_all match_test while settle apply_tif rest_order
    Dict.get Dict.put upsert lookup
bid3-IsSubmittable = record { within = omega arith; fresh = refl; priced = inr (99, refl) }

sweep4-IsSubmittable : IsSubmittable table book3 sweep4
unfolding new_book submit finish matched match_all match_test while settle apply_tif rest_order
    Dict.get Dict.put upsert lookup
sweep4-IsSubmittable = record { within = omega arith; fresh = refl; priced = inr (102, refl) }

kill5-IsSubmittable : IsSubmittable table book3 kill5
unfolding new_book submit finish matched match_all match_test while settle apply_tif rest_order
    Dict.get Dict.put upsert lookup
kill5-IsSubmittable = record { within = omega arith; fresh = refl; priced = inr (101, refl) }

abbrev reach3 : Reach table name book3
reach3 =
    next
      (next (next created (submits readings ask1 new-IsSubmittable))
        (submits readings ask2 ask2-IsSubmittable))
      (submits readings bid3 bid3-IsSubmittable)

book3-IsBook : IsBook table book3
book3-IsBook = Reach-IsBook table reach3

-- The sweep takes all of the first ask and two shares of the second.
sweep4_run : map (λ t. t.quantity) (submit table readings book3 sweep4).result.trades ≡ 10 ∷ 2 ∷ []
unfolding new_book submit finish matched match_all match_one match_test while settle apply_tif
    rest_order fill_level fill_one fill_front Dict.get Dict.put Dict.del upsert lookup erase
sweep4_run = refl

cancel2_run : Option.map (λ o. o.status) (cancel table book3 2).0 ≡ some cancelled
unfolding new_book submit finish matched match_all match_one match_test while settle apply_tif
    rest_order fill_level fill_one fill_front Dict.get Dict.put Dict.del upsert lookup erase cancel
    remove find delete
cancel2_run = refl

Reach-IsBook_example : IsBook table book3
Reach-IsBook_example = Reach-IsBook table reach3

-- The results that the witnesses speak of.
abbrev swept : Submitted table
swept = submit table readings book3 sweep4

abbrev killed : Submitted table
killed = submit table readings book3 kill5

submit-sweep_example :
    (executions swept.result.trades ≡ sweep (crosses buy (some 102)) 12 (queue_of table sell book3))
    × (queue_of table sell swept.book
        ≡ leftover (crosses buy (some 102)) 12 (queue_of table sell book3))
submit-sweep_example = submit-sweep table readings book3 sweep4 book3-IsBook sweep4-IsSubmittable

submit-IsBook_example : IsBook table swept.book
submit-IsBook_example = submit-IsBook table readings book3 sweep4 book3-IsBook sweep4-IsSubmittable

submit-filled_example :
    (swept.result.order.filled_quantity ≡ 0 + sum_quantity swept.result.trades)
    × (swept.result.order.filled_quantity ≤ 12)
    × (swept.result.order.quantity ≡ 12)
submit-filled_example = submit-filled table readings book3 sweep4 book3-IsBook sweep4-IsSubmittable

submit-own_example :
    (queue_of table sell book1 ≡ (
      if (submit table readings book0 ask1).result.is_new_resting
      then enqueue ascending 101
          (submit table readings book0 ask1).result.order
          (queue_of table sell book0)
      else queue_of table sell book0))
    × ((submit table readings book0 ask1).result.is_new_resting ≡ (
        (ltb 0 (remaining_quantity (submit table readings book0 ask1).result.order) && true)
        && true))
submit-own_example =
    submit-own table readings book0 ask1 (new_book-IsBook table name) new-IsSubmittable

submit_in_turn_example :
    map (λ t. t.maker_order_id) swept.result.trades
    ≡ take (length swept.result.trades) (map (λ r. r.order_id) (queue_of table sell book3))
submit_in_turn_example =
    submit_in_turn table readings book3 sweep4 book3-IsBook sweep4-IsSubmittable

submit-status_example : swept.result.order.status ≡ status_of sweep4 swept.result.order
submit-status_example = submit-status table readings book3 sweep4 book3-IsBook sweep4-IsSubmittable

few5 : available (crosses buy (some 101)) (queue_of table sell book3) < 40
unfolding new_book submit finish matched match_all match_one match_test while settle apply_tif
    rest_order fill_level fill_one fill_front Dict.get Dict.put Dict.del upsert lookup erase
few5 = omega arith

immediate_cancels_example :
    (killed.result.order.status ≡ cancelled)
    × (sum_quantity killed.result.trades
        ≡ available (crosses buy (some 101)) (queue_of table sell book3))
    × (queue_of table buy killed.book ≡ queue_of table buy book3)
immediate_cancels_example =
    immediate_cancels table readings book3 kill5 book3-IsBook kill5-IsSubmittable refl refl few5

cancel-Cancels_example : Cancels table book3 2 (cancel table book3 2)
cancel-Cancels_example = cancel-Cancels table book3 2 book3-IsBook

bests3 : (best_bid table book3 ≡ some 99) × (best_ask table book3 ≡ some 101)
unfolding new_book submit finish matched match_all match_one match_test while settle apply_tif
    rest_order fill_level fill_one fill_front Dict.get Dict.put Dict.del upsert lookup erase
    best_bid best_ask
bests3 = (refl, refl)

quotes-IsBest_example :
    IsBest (λ p q. q ≤ p) (queue_of table buy book3) (best_bid table book3)
    × IsBest (λ p q. p ≤ q) (queue_of table sell book3) (best_ask table book3)
    × ((p q : Price) → best_bid table book3 ≡ some p → best_ask table book3 ≡ some q → p < q)
quotes-IsBest_example = quotes-IsBest table book3 book3-IsBook
