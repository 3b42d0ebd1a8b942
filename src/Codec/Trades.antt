-- ===== src/Codec/Trades.antt =====
-- `TradeCodec` and `MatchResultCodec` of engine/core/binary_protocol.py.
use mini_hft_system.Prelude.{
  ℕ, ◌*◌, ◌^◌, ◌<◌, ◌≡◌, ◌∙◌, refl, ap, List, [], ◌∷◌, ◌++◌, map, Bool, true, false, ◌==◌, length,
  take, drop, replicate, All, All-imp, not, append-nil,
}
use mini_hft_system.Prelude.Results.{Result, ok, err, ◌>>=◌}
use mini_hft_system.Types.{OrderSide, OrderStatus, OrderId, Price, Quantity, TimestampNs}
use mini_hft_system.Order.{Trade}
use mini_hft_system.Book.{MatchResult, total_filled}
use mini_hft_system.Codec.Bytes.{
  Bytes, CodecError, short_buffer, big_endian, number, uint, uint_fits, join, unpack_from, total,
  unpack_from-join, number-big_endian, length-join,
}
use mini_hft_system.Codec.Orders.{number_byte}
use mini_hft_system.Codec.Sequences.{Frames, encode_all, decode_many, encode_all-Frames}
use mini_hft_system.Codec.Wire.{
  Float64, encode_uuid, side_to_wire, wire_to_side, side-wire, status_to_wire, wire_to_status,
  status-wire,
}

-- TRADE_FRAME, with its 3 reserved bytes.
abbrev pub trade_frame : List ℕ
trade_frame = 16 ∷ 8 ∷ 4 ∷ 1 ∷ 3 ∷ 8 ∷ 8 ∷ 8 ∷ 8 ∷ []

-- The dictionary that a decoded trade is.
pub record TradeFields : Type 0 where
  pub trade_id : ℕ
  pub price : Price
  pub quantity : Quantity
  pub aggressor_side : OrderSide
  pub timestamp_ns : TimestampNs
  pub sequence : ℕ
  pub maker_order_id : OrderId

abbrev pub trade_fields : Trade → TradeFields
trade_fields t = record {
  trade_id = t.trade_id;
  price = t.price;
  quantity = t.quantity;
  aggressor_side = t.aggressor_side;
  timestamp_ns = t.timestamp_ns;
  sequence = 0;
  maker_order_id = t.maker_order_id;
}

-- Header of a match result.
abbrev pub result_frame : List ℕ
result_frame = 2 ∷ 4 ∷ 1 ∷ 1 ∷ []

pub record ResultFields : Type 0 where
  pub trade_count : ℕ
  pub total_filled : Quantity
  pub status : OrderStatus
  pub is_new_resting : Bool
  pub trades : List TradeFields

abbrev pub resting_byte : Bool → ℕ
resting_byte true = 1
resting_byte false = 0

abbrev pub result_fields : MatchResult → ResultFields
result_fields r = record {
  trade_count = length r.trades;
  total_filled = total_filled r.trades;
  status = r.order.status;
  is_new_resting = r.is_new_resting;
  trades = map trade_fields r.trades;
}

module _ (F : Float64) where
  -- `TradeCodec.encode`; the sequence is always 0.
  unfoldable pub encode_trade : Trade → Result CodecError Bytes
  encode_trade t = uint 4 t.quantity >>= λ quantity. uint 8 t.timestamp_ns >>= λ stamp. ok (
      join (
        encode_uuid t.trade_id
        ∷ F.pack t.price
        ∷ quantity
        ∷ (side_to_wire t.aggressor_side ∷ [])
        ∷ replicate 3 0
        ∷ stamp
        ∷ replicate 8 0
        ∷ take 8 (encode_uuid t.maker_order_id)
        ∷ drop 8 (encode_uuid t.maker_order_id)
        ∷ []))

  unfoldable pub trade_from_fields : List Bytes → Result CodecError TradeFields
  trade_from_fields
        (id ∷ price ∷ quantity ∷ side ∷ pad ∷ stamp ∷ sequence ∷ maker_hi ∷ maker_lo ∷ []) =
      wire_to_side (number side) >>= λ s. ok (record {
        trade_id = number id;
        price = F.unpack price;
        quantity = number quantity;
        aggressor_side = s;
        timestamp_ns = number stamp;
        sequence = number sequence;
        maker_order_id = number (maker_hi ++ maker_lo);
      })
  trade_from_fields _ = err short_buffer

  -- `TradeCodec.decode`
  unfoldable pub decode_trade : Bytes → ℕ → Result CodecError TradeFields
  decode_trade bs offset = unpack_from trade_frame bs offset >>= trade_from_fields

  -- What a frame can hold.
  pub record TradeFits (t : Trade) : Type 0 where
    pub id : t.trade_id < 256 ^ 16
    pub maker : t.maker_order_id < 256 ^ 16
    pub quantity : t.quantity < 256 ^ 4
    pub stamp : t.timestamp_ns < 256 ^ 8
    pub exact : F.Exact t.price

  module _ (t : Trade) (e : TradeFits t) where
    abbrev trade_parts : List Bytes
    trade_parts =
        big_endian 16 t.trade_id
        ∷ F.pack t.price
        ∷ big_endian 4 t.quantity
        ∷ (side_to_wire t.aggressor_side ∷ [])
        ∷ replicate 3 0
        ∷ big_endian 8 t.timestamp_ns
        ∷ replicate 8 0
        ∷ take 8 (big_endian 16 t.maker_order_id)
        ∷ drop 8 (big_endian 16 t.maker_order_id)
        ∷ []

    trade_widths : map length trade_parts ≡ trade_frame
    trade_widths = rw (F.length-pack t.price) refl

    trade_parts-fields : trade_from_fields trade_parts ≡ ok (trade_fields t)
    unfolding trade_from_fields
    trade_parts-fields =
        rw
          (
            number_byte (side_to_wire t.aggressor_side),
            side-wire t.aggressor_side,
            number-big_endian 16 t.trade_id e.id,
            number-big_endian 4 t.quantity e.quantity,
            number-big_endian 8 t.timestamp_ns e.stamp,
            F.unpack-pack t.price e.exact,
            number-big_endian 16 t.maker_order_id e.maker,
          )
          refl

    pub trade-Frames : Frames encode_trade decode_trade 64 t (trade_fields t)
    unfolding encode_trade decode_trade
    trade-Frames = record {
      frame = join trade_parts;
      made = rw (uint_fits 4 t.quantity e.quantity, uint_fits 8 t.timestamp_ns e.stamp) refl;
      sized = length-join trade_parts ∙ ap total trade_widths;
      read = λ before rest.
          rw
            (
              unpack_from-join trade_frame trade_parts before rest (length before) trade_widths
                  refl,
              trade_parts-fields,
            )
            refl;
    }

  -- `MatchResultCodec.encode`
  unfoldable pub encode_result : MatchResult → Result CodecError Bytes
  encode_result r = uint 2 (length r.trades) >>= λ count.
      uint 4 (total_filled r.trades) >>= λ filled. encode_all encode_trade r.trades >>= λ frames.
      ok (
        join (
          count
          ∷ filled
          ∷ (status_to_wire r.order.status ∷ [])
          ∷ (resting_byte r.is_new_resting ∷ [])
          ∷ [])
        ++ frames)

  unfoldable pub result_from_fields : Bytes → List Bytes → Result CodecError ResultFields
  result_from_fields bs (count ∷ filled ∷ status ∷ resting ∷ []) =
      decode_many decode_trade 64 (number count) bs 8 >>= λ trades.
      wire_to_status (number status) >>= λ st. ok (record {
        trade_count = number count;
        total_filled = number filled;
        status = st;
        is_new_resting = not (number resting == 0);
        trades = trades;
      })
  result_from_fields bs _ = err short_buffer

  -- `MatchResultCodec.decode`
  unfoldable pub decode_result : Bytes → Result CodecError ResultFields
  decode_result bs = unpack_from result_frame bs 0 >>= result_from_fields bs

  trades-Frames :
      (ts : List Trade)
      → All TradeFits ts
      → Frames
          (encode_all encode_trade)
          (decode_many decode_trade 64 (length ts))
          (length ts * 64)
          ts
          (map trade_fields ts)
  trades-Frames ts a = encode_all-Frames encode_trade decode_trade 64 trade_fields ts (
      All-imp TradeFits (λ t. Frames encode_trade decode_trade 64 t (trade_fields t)) ts
        trade-Frames a)

  resting-byte : (b : Bool) → not (number (resting_byte b ∷ []) == 0) ≡ b
  resting-byte true = refl
  resting-byte false = refl

  module _ (r : MatchResult) (few : length r.trades < 256 ^ 2)
      (small : total_filled r.trades < 256 ^ 4) (fit : All TradeFits r.trades) where
    abbrev result_parts : List Bytes
    result_parts =
        big_endian 2 (length r.trades)
        ∷ big_endian 4 (total_filled r.trades)
        ∷ (status_to_wire r.order.status ∷ [])
        ∷ (resting_byte r.is_new_resting ∷ [])
        ∷ []

    abbrev trade_frames : Bytes
    trade_frames = (trades-Frames r.trades fit).frame

    encode_result-frames : encode_result r ≡ ok (join result_parts ++ trade_frames)
    unfolding encode_result
    encode_result-frames =
        rw
          (
            uint_fits 2 (length r.trades) few,
            uint_fits 4 (total_filled r.trades) small,
            (trades-Frames r.trades fit).made,
          )
          refl

    read_trades :
        decode_many decode_trade 64 (length r.trades) (join result_parts ++ (trade_frames ++ [])) 8
        ≡ ok (map trade_fields r.trades)
    read_trades = (trades-Frames r.trades fit).read (join result_parts) []

    -- A match result with at most 65,535 trades that fit their frames, and fewer than 2^32 traded shares in
    -- all, is encoded, and decodes to its scalars and its trades in order, as far as the frames hold them: a trade loses its taker's id and
    -- its symbol, and its sequence is 0.
    pub decode_result-encode_result : (encode_result r >>= decode_result) ≡ ok (result_fields r)
    unfolding decode_result result_from_fields
    decode_result-encode_result =
        rw
          (
            encode_result-frames,
            ← append-nil trade_frames,
            unpack_from-join result_frame result_parts [] (trade_frames ++ []) 0 refl refl,
            number-big_endian 2 (length r.trades) few,
            number-big_endian 4 (total_filled r.trades) small,
            read_trades,
            number_byte (status_to_wire r.order.status),
            status-wire r.order.status,
            resting-byte r.is_new_resting,
          )
          refl
