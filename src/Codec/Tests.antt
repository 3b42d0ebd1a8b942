-- ===== src/Codec/Tests.antt =====
-- Frames of an order, a snapshot and a match result. The double of an amount is its number of ticks in
-- eight bytes here.
use mini_hft_system.Prelude.{
  ℕ, ◌^◌, ◌<◌, ◌≡◌, refl, [], ◌∷◌, ◌++◌, none, some, true, arith, length, take, drop, replicate,
}
use mini_hft_system.Prelude.Results.{ok, err, ◌>>=◌}
use mini_hft_system.Types.{buy, sell, limit, open_, gtc}
use mini_hft_system.Order.{Order, Trade}
use mini_hft_system.Book.{BookSnapshot, MatchResult}
use mini_hft_system.Codec.Books.{
  SnapshotFits, encode_snapshot, decode_snapshot, decode_snapshot-encode_snapshot,
  decode_snapshot_truncated, encode_level,
}
use mini_hft_system.Codec.Bytes.{
  Bytes, big_endian, number, length-big_endian, number-big_endian, short_snapshot, uint,
}
use mini_hft_system.Codec.Orders.{
  Encodable, framed, encode_order_into, decode_order, decode_order-encode_order_into,
}
use mini_hft_system.Codec.Sequences.{encode_all}
use mini_hft_system.Codec.Trades.{
  encode_result, decode_result, result_fields, decode_result-encode_result,
}
use mini_hft_system.Codec.Wire.{Float64, strip_zeros, FitsFrame, encode_symbol}

abbrev floats : Float64
floats = record {
  pack = big_endian 8;
  unpack = number;
  Exact = λ p. p < 256 ^ 8;
  length-pack = length-big_endian 8;
  unpack-pack = number-big_endian 8;
}

abbrev bid : Order
bid = record {
  symbol = 65 ∷ 66 ∷ [];
  side = buy;
  order_type = limit;
  quantity = 10;
  price = some 101;
  time_in_force = gtc;
  strategy_id = none;
  client_order_id = none;
  order_id = 258;
  status = open_;
  filled_quantity = 3;
  avg_fill_price = none;
  created_at_ns = 1_000;
  received_at_ns = 2_000;
  queued_at_ns = 0;
  processed_at_ns = 3_000;
  acked_at_ns = 4_000;
}

name-FitsFrame : FitsFrame (65 ∷ 66 ∷ [])
unfolding strip_zeros
name-FitsFrame = record { ascii = refl; short = omega arith; ends = refl }

bid-Encodable : Encodable floats bid
bid-Encodable = record {
  id = omega arith;
  quantity = omega arith;
  filled = omega arith;
  created = omega arith;
  processed = omega arith;
  symbol = name-FitsFrame;
  price = λ p h. ground (arith, h);
  exact = omega arith;
}

-- A buffer of 80 bytes, written from byte 16 on.
abbrev buffer : Bytes
buffer = replicate 80 7

decode_order-encode_order_into_example :
    (out : Bytes) × (encode_order_into floats bid buffer 16 ≡ ok out)
    × (length out ≡ length buffer)
    × (take 16 out ≡ take 16 buffer)
    × (drop 80 out ≡ drop 80 buffer)
    × (decode_order floats out 16 ≡ ok (framed bid))
decode_order-encode_order_into_example =
    decode_order-encode_order_into floats bid bid-Encodable buffer 16 (omega arith)

abbrev snapshot : BookSnapshot
snapshot = record {
  symbol = 65 ∷ 66 ∷ [];
  sequence = 9;
  bids = (99, 4, 1) ∷ [];
  asks = (101, 3, 1) ∷ (103, 4, 2) ∷ [];
  timestamp_ns = 60;
}

snapshot-SnapshotFits : SnapshotFits floats snapshot
snapshot-SnapshotFits = record {
  symbol = name-FitsFrame;
  few_bids = omega arith;
  few_asks = omega arith;
  sequence = omega arith;
  stamp = omega arith;
  bids = (record { quantity = omega arith; count = omega arith; exact = omega arith }, tt);
  asks = (
    record { quantity = omega arith; count = omega arith; exact = omega arith },
    (record { quantity = omega arith; count = omega arith; exact = omega arith }, tt),
  );
}

decode_snapshot-encode_snapshot_example :
    (encode_snapshot floats snapshot >>= decode_snapshot floats) ≡ ok snapshot
decode_snapshot-encode_snapshot_example =
    decode_snapshot-encode_snapshot floats snapshot snapshot-SnapshotFits

abbrev level_bytes : ℕ → ℕ → ℕ → Bytes
level_bytes p q c = big_endian 8 p ++ (big_endian 4 q ++ big_endian 4 c)

-- The frame of the snapshot: its header, and three levels.
abbrev frame : Bytes
frame =
    65
    ∷ 66
    ∷ 0
    ∷ 0
    ∷ 0
    ∷ 0
    ∷ 0
    ∷ 1
    ∷ 0
    ∷ 2
    ∷ 0
    ∷ 0
    ∷ 0
    ∷ 0
    ∷ 0
    ∷ 9
    ∷ (big_endian 8 60
        ++ (replicate 8 0 ++ (level_bytes 99 4 1 ++ (level_bytes 101 3 1 ++ level_bytes 103 4 2))))

frame_lem : encode_snapshot floats snapshot ≡ ok frame
unfolding encode_snapshot encode_symbol encode_all encode_level uint
frame_lem = refl

-- Cut within the first level.
decode_snapshot_truncated_example : decode_snapshot floats (take 40 frame) ≡ err short_snapshot
decode_snapshot_truncated_example =
    decode_snapshot_truncated floats snapshot snapshot-SnapshotFits frame 40 frame_lem (omega arith)

abbrev trade : Trade
trade = record {
  symbol = 65 ∷ 66 ∷ [];
  price = 101;
  quantity = 3;
  aggressor_side = sell;
  maker_order_id = 258;
  taker_order_id = 259;
  trade_id = 7;
  timestamp_ns = 50;
}

abbrev result : MatchResult
result = record { order = bid; trades = trade ∷ []; is_new_resting = true }

decode_result-encode_result_example :
    (encode_result floats result >>= decode_result floats) ≡ ok (result_fields result)
decode_result-encode_result_example =
    decode_result-encode_result floats result (omega arith) (omega arith) (
      record {
        id = omega arith;
        maker = omega arith;
        quantity = omega arith;
        stamp = omega arith;
        exact = omega arith;
      },
      tt,
    )
