-- ===== src/Hal/Tests.antt =====
-- A buy order that comes as a frame and meets a resting sell order.
use mini_hft_system.Prelude.{ℕ, ◌<◌, ◌≡◌, ◌^◌, refl, [], ◌∷◌, none, some, true, arith, length, All}
use mini_hft_system.Prelude.Dict
use mini_hft_system.Prelude.Loops.{while}
use mini_hft_system.Prelude.Results.{ok}
use mini_hft_system.Prelude.Tests.{text_eq}
use mini_hft_system.Types.{OrderSide, buy, sell, limit, pending, gtc}
use mini_hft_system.Order.{Order}
use mini_hft_system.Book.{
  new_book, submit, finish, matched, settle, apply_tif, rest_order, total_filled,
}
use mini_hft_system.Book.Fill.{fill_level, fill_one, fill_front}
use mini_hft_system.Book.Level.{PriceLevel}
use mini_hft_system.Book.Match.{match_all, match_one, match_test}
use mini_hft_system.Book.Prices.{SortedDict, item_list, upsert, lookup, erase}
use mini_hft_system.Codec.Bytes.{Bytes, big_endian, number, length-big_endian, number-big_endian}
use mini_hft_system.Codec.Orders.{Encodable, framed, encode_order}
use mini_hft_system.Codec.Trades.{TradeFits, result_fields}
use mini_hft_system.Codec.Wire.{Float64, FitsFrame, strip_zeros}
use mini_hft_system.Engine.{
  Engine, EngineReadings, new_engine, register_symbol, submit_order, validate, accept, write_back,
}
use mini_hft_system.Engine.Stats.{count_result}
use mini_hft_system.Hal.{submit_order_bytes}
use mini_hft_system.Hal.Frames.{submit_order_bytes_lem, read_result}

abbrev table : SortedDict PriceLevel
table = item_list PriceLevel

-- The double of an amount is its number of ticks in eight bytes here.
abbrev floats : Float64
floats = record {
  pack = big_endian 8;
  unpack = number;
  Exact = λ p. p < 256 ^ 8;
  length-pack = length-big_endian 8;
  unpack-pack = number-big_endian 8;
}

abbrev readings : EngineReadings
readings = record {
  received_at = 10;
  matching = record { trade_id = λ n. n; trade_time = λ n. 50; processed_at = 60 };
  acked_at = 70;
  event_at = 80;
  snapshot_at = 90;
}

abbrev order : ℕ → OrderSide → Order
order i s = record {
  symbol = 65 ∷ 66 ∷ [];
  side = s;
  order_type = limit;
  quantity = 10;
  price = some 101;
  time_in_force = gtc;
  strategy_id = none;
  client_order_id = none;
  order_id = i;
  status = pending;
  filled_quantity = 0;
  avg_fill_price = none;
  created_at_ns = 1;
  received_at_ns = 0;
  queued_at_ns = 0;
  processed_at_ns = 0;
  acked_at_ns = 0;
}

abbrev offered : Engine table
offered =
    (submit_order table readings (register_symbol table (new_engine table true) (65 ∷ 66 ∷ []))
      (order 1 sell)).engine

name-FitsFrame : FitsFrame (65 ∷ 66 ∷ [])
unfolding strip_zeros
name-FitsFrame = record { ascii = refl; short = omega arith; ends = refl }

bid-Encodable : Encodable floats (order 2 buy)
bid-Encodable = record {
  id = omega arith;
  quantity = omega arith;
  filled = omega arith;
  created = omega arith;
  processed = omega arith;
  symbol = name-FitsFrame;
  price = λ p h. ground (arith, h);
  exact = omega arith;
}

-- There is one trade, and it fits its frame.
trades-TradeFits :
    let r = (submit_order table readings offered (framed (order 2 buy))).value in
    (length r.trades ≡ 1) × (total_filled r.trades ≡ 10) × All (TradeFits floats) r.trades
unfolding new_engine register_symbol submit_order validate accept write_back Dict.get Dict.put
    Dict.del new_book submit finish matched match_all match_one match_test while settle apply_tif
    rest_order fill_level fill_one fill_front upsert lookup erase count_result
trades-TradeFits = (
  refl,
  refl,
  (
    record {
      id = omega arith;
      maker = omega arith;
      quantity = omega arith;
      stamp = omega arith;
      exact = omega arith;
    },
    tt,
  ),
)

submit_order_bytes_lem_example :
    let t = submit_order table readings offered (framed (order 2 buy)) in
    (frame : Bytes) × (encode_order floats (order 2 buy) ≡ ok frame)
    × ((submit_order_bytes table floats readings offered frame).engine ≡ t.engine)
    × ((submit_order_bytes table floats readings offered frame).events ≡ t.events)
    × (read_result table floats readings offered
          (submit_order_bytes table floats readings offered frame).value
        ≡ ok (result_fields t.value))
submit_order_bytes_lem_example =
    submit_order_bytes_lem table floats readings offered (order 2 buy) bid-Encodable
      (omega (arith, trades-TradeFits.0)) (omega (arith, trades-TradeFits.1)) trades-TradeFits.2
