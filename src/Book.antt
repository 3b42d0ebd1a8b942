-- ===== src/Book.antt =====
-- `OrderBook` of engine/core/order_book.py: the limit order book of one instrument.
pub mod Prices
pub mod Level
pub mod Fill
pub mod Match
pub mod Sides
pub mod Sweep
pub mod Rest
pub mod Withdraw
pub mod Index
pub mod State
pub mod Residual
pub mod Submit
pub mod Outcome
pub mod Cancel
pub mod Priority
pub mod Views
pub mod Status
pub mod History
pub mod Unknown
mod Tests
use mini_hft_system.Prelude.{
  ℕ, suc, ◌+◌, ◌*◌, List, [], ◌∷◌, map, Option, none, some, Bool, true, false, ◌&&◌, ◌==◌, ltb,
  take, if◌then◌else◌,
}
use mini_hft_system.Prelude.Dict
use mini_hft_system.Prelude.Tests.{nat_eq}
use mini_hft_system.Types.{
  OrderSide, buy, sell, OrderId, Symbol, Price, Quantity, TimestampNs, OrderStatus, open_,
  partially_filled, filled, cancelled, TimeInForce, gtc, ioc, fok, gtd,
}
use mathlib.Core.Option
use mini_hft_system.Order.{
  Order, Trade, Ratio, sum_quantity, sum_notional, remaining_quantity, is_limit,
}
use Prices.{SortedDict, KeyOrder, ascending, negated}
use Level.{PriceLevel, level_or_new, add, remove, is_empty, order_count}
use Sides.{key_order, opposite}
use Fill.{Readings, CancelMap}
use Match.{Matching, match_all}

pub record Book (S : SortedDict PriceLevel) : Type 0 where
  pub symbol : Symbol
  pub sequence : ℕ
  pub bids : S.Table negated
  pub asks : S.Table ascending
  pub cancel_map : CancelMap

pub record MatchResult : Type 0 where
  pub order : Order
  pub trades : List Trade
  pub is_new_resting : Bool

pub record BookSnapshot : Type 0 where
  pub symbol : Symbol
  pub sequence : ℕ
  pub bids : List (Price × Quantity × ℕ)
  pub asks : List (Price × Quantity × ℕ)
  pub timestamp_ns : TimestampNs

abbrev pub total_filled : List Trade → Quantity
total_filled ts = sum_quantity ts

-- The fraction `total_notional / total_filled`.
abbrev pub avg_fill_price : List Trade → Option Ratio
avg_fill_price [] = none
avg_fill_price (t ∷ ts) =
    some (record { numerator = sum_notional (t ∷ ts); denominator = total_filled (t ∷ ts) })

-- A resting order that has not been filled yet is OPEN.
abbrev pub opened : Order → Order
opened o = if o.filled_quantity == 0 then record o { status = open_ } else o

abbrev pub withdraw : Order → Order
withdraw o = record o { status = cancelled }

-- A row of `snapshot`: price, total quantity and number of orders of a level.
abbrev pub depth_row : ℕ × PriceLevel → Price × Quantity × ℕ
depth_row (p, l) = (p, l.total_quantity, order_count l)

-- The sum over `values()`.
abbrev pub sum_levels : List (ℕ × PriceLevel) → Quantity
sum_levels [] = 0
sum_levels (e ∷ m) = e.1.total_quantity + sum_levels m

module _ (S : SortedDict PriceLevel) where
  open S use {Table, empty, items, get, set, del, peekitem}

  -- `OrderBook(symbol)`
  unfoldable pub new_book : Symbol → Book S
  new_book sym = record {
    symbol = sym;
    sequence = 0;
    bids = empty negated;
    asks = empty ascending;
    cancel_map = [];
  }

  -- `_side_book`; the opposite book is `side_book (opposite side)`.
  abbrev pub side_book : (side : OrderSide) → Book S → Table (key_order side)
  side_book buy b = b.bids
  side_book sell b = b.asks

  -- The book with the dictionary of one side changed.
  abbrev pub with_side : (side : OrderSide) → Book S → Table (key_order side) → Book S
  with_side buy b d = record b { bids = d }
  with_side sell b d = record b { asks = d }

  abbrev pub level_at : (side : OrderSide) → Book S → Price → PriceLevel
  level_at side b p = level_or_new p (get (key_order side) p (side_book side b))

  abbrev pub rest_at : Book S → Order → Price → Book S
  rest_at b o p =
      let b' = record b { cancel_map = Dict.put o.order_id (o.side, p) b.cancel_map } in
      with_side o.side b'
        (set (key_order o.side) p (add (level_at o.side b p) o) (side_book o.side b))

  abbrev pub rest_priced : Book S → Order → Option Price → Book S × Order
  rest_priced b o none = (b, o)
  rest_priced b o (some p) = (rest_at b (opened o) p, opened o)

  -- `_rest_order`. It is called for limit orders, which have a price.
  unfoldable pub rest_order : Book S → Order → Book S × Order
  rest_order b o = rest_priced b o o.price

  -- The status, clock and average price after matching.
  unfoldable pub settle : Order → List Trade → TimestampNs → Order
  settle o trades now = record o {
    status =
        if remaining_quantity o == 0
        then filled
        else if ltb 0 o.filled_quantity
        then partially_filled
        else o.status;
    avg_fill_price = elim (avg_fill_price trades) [ none ↦ o.avg_fill_price | some r ↦ some r ];
    processed_at_ns = now;
  }

  -- What `submit` leaves: the book, the result, and the resting orders that it has changed.
  pub record Submitted : Type 0 where
    pub book : Book S
    pub result : MatchResult
    pub makers : List Order

  -- The policy for the residual of a limit order.
  unfoldable pub apply_tif : Book S → Order → TimeInForce → Book S × Order × Bool
  apply_tif b o gtc = let (b', o') = rest_order b o in (b', o', true)
  apply_tif b o gtd = let (b', o') = rest_order b o in (b', o', true)
  apply_tif b o ioc = (b, withdraw o, false)
  apply_tif b o fok = (b, withdraw o, false)

  abbrev pub residual : Book S → Order → Bool → Book S × Order × Bool
  residual b o false = (b, o, false)
  residual b o true = apply_tif b o o.time_in_force

  abbrev pub has_residual : Order → Bool
  has_residual o = ltb 0 (remaining_quantity o) && is_limit o

  unfoldable pub finish : Book S → Order → List Trade → List Order → Submitted
  finish b o trades makers =
      let (b', o', resting) = residual b o (has_residual o) in
      record {
        book = b';
        result = record { order = o'; trades = trades; is_new_resting = resting };
        makers = makers;
      }

  abbrev start : (b : Book S) (o : Order) → Matching S (key_order (opposite o.side))
  start b o = record {
    order = o;
    opposite = side_book (opposite o.side) b;
    trades = [];
    cancel_map = b.cancel_map;
    makers = [];
  }

  -- The matching loops of `submit`, on the opposite side.
  unfoldable pub matched :
      Readings → (b : Book S) (o : Order) → Matching S (key_order (opposite o.side))
  matched env b o = match_all S (key_order (opposite o.side)) env b.symbol (start b o)

  -- The book after matching, which is a new state of the sequence counter too.
  abbrev pub crossed : (b : Book S) (o : Order) → Matching S (key_order (opposite o.side)) → Book S
  crossed b o m =
      with_side (opposite o.side)
        (record b { sequence = b.sequence + 1; cancel_map = m.cancel_map }) m.opposite

  unfoldable pub submit : Readings → Book S → Order → Submitted
  submit env b o =
      let m = matched env b o in
      finish (crossed b o m) (settle m.order m.trades env.processed_at) m.trades m.makers

  -- `cancel`: the entry of the cancel map goes first, then the order at its level.
  cancel_at : (side : OrderSide) → Book S → OrderId → Price → PriceLevel → Option Order × Book S
  cancel_at side b i p l =
      let (found, l') = remove l i in
      let d = side_book side b in
      (
        Option.map withdraw found,
        with_side side b
            (if is_empty l' then del (key_order side) p d else set (key_order side) p l' d),
      )

  cancel_entry : Book S → OrderId → OrderSide × Price → Option Order × Book S
  unfolding cancel_at
  cancel_entry b i (side, p) = elim (get (key_order side) p (side_book side b)) [
    | none ↦ (none, b)
    | some l ↦ cancel_at side b i p l
  ]

  unfoldable pub cancel : Book S → OrderId → Option Order × Book S
  unfolding cancel_entry
  cancel b i = elim (Dict.get i b.cancel_map) [
    | none ↦ (none, b)
    | some e ↦ cancel_entry (record b { cancel_map = Dict.del i b.cancel_map }) i e
  ]

  unfoldable pub snapshot : Book S → ℕ → TimestampNs → BookSnapshot
  snapshot b depth now = record {
    symbol = b.symbol;
    sequence = b.sequence;
    bids = map depth_row (take depth (items negated b.bids));
    asks = map depth_row (take depth (items ascending b.asks));
    timestamp_ns = now;
  }

  unfoldable pub best_bid : Book S → Option Price
  best_bid b = Option.map (λ (e : ℕ × PriceLevel). e.0) (peekitem negated b.bids)

  unfoldable pub best_ask : Book S → Option Price
  best_ask b = Option.map (λ (e : ℕ × PriceLevel). e.0) (peekitem ascending b.asks)

  unfoldable pub bid_volume : Book S → Quantity
  bid_volume b = sum_levels (items negated b.bids)

  unfoldable pub ask_volume : Book S → Quantity
  ask_volume b = sum_levels (items ascending b.asks)
