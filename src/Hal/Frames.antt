-- ===== src/Hal/Frames.antt =====
-- The calls on frames of engine/hal/abstract.py against the calls on objects.
use mini_hft_system.Prelude.{
  ◌<◌, ◌≡◌, ◌^◌, ◌∙◌, refl, sym, ap, [], ◌++◌, Option, none, some, true, false, ltb, length, take,
  length-append, append-nil, All, arith, replicate,
}
use mini_hft_system.Prelude.Results.{Result, ok, err, ◌>>=◌}
use mini_hft_system.Types.{OrderId}
use mini_hft_system.Order.{Order}
use mini_hft_system.Book.{total_filled}
use mini_hft_system.Book.Level.{PriceLevel}
use mini_hft_system.Book.Prices.{SortedDict}
use mini_hft_system.Codec.Bytes.{
  Bytes, CodecError, short_buffer, number, number-big_endian, length-big_endian, take-append_all,
  unpack_from,
}
use mini_hft_system.Codec.Orders.{Encodable, framed, encode_order, decode_order, order-Frames}
use mini_hft_system.Codec.Trades.{
  ResultFields, TradeFits, encode_result, decode_result, result_fields, decode_result-encode_result,
}
use mini_hft_system.Codec.Wire.{Float64, encode_uuid}
use mini_hft_system.Engine.{Engine, EngineReadings, submit_order, cancel_order}
use mini_hft_system.Hal.{
  HalError, codec_error, of_codec, submit_order_bytes, cancel_order_bytes, cancelled_frame,
}

module _ (S : SortedDict PriceLevel) (F : Float64) (env : EngineReadings) (h : Engine S) where
  -- What a client reads from the answer to a submission.
  abbrev pub read_result : Result HalError Bytes → Result HalError ResultFields
  read_result (err x) = err x
  read_result (ok bs) = elim (decode_result F bs) [ ok r ↦ ok r | err x ↦ err (codec_error x) ]

  read-of_codec :
      (m : Result CodecError Bytes) (r : ResultFields)
      → (m >>= decode_result F) ≡ ok r
      → read_result (of_codec m) ≡ ok r
  read-of_codec (err x) r e = absurd (cc)
  read-of_codec (ok bs) r e =
      let read : decode_result F bs ≡ ok r = e in rw (read, read_result) refl

  -- Let an order that a frame can hold have a result with at most 65,535 trades that fit their frames, and
  -- fewer than 2^32 traded shares in all. Submitted as its frame, it does what the order does that the frame
  -- tells of: the engine is the same, so are the events, and the answer decodes to that result.
  pub submit_order_bytes_lem :
      (o : Order)
      → Encodable F o
      → let t = submit_order S env h (framed o) in
        length t.value.trades < 256 ^ 2
        → total_filled t.value.trades < 256 ^ 4
        → All (TradeFits F) t.value.trades
        → (frame : Bytes) × (encode_order F o ≡ ok frame)
          × ((submit_order_bytes S F env h frame).engine ≡ t.engine)
          × ((submit_order_bytes S F env h frame).events ≡ t.events)
          × (read_result (submit_order_bytes S F env h frame).value ≡ ok (result_fields t.value))
  unfolding submit_order_bytes
  submit_order_bytes_lem o e few small fit =
      let f = order-Frames F o e in
      let t = submit_order S env h (framed o) in
      let read : decode_order F f.frame 0 ≡ ok (framed o) =
        ap (λ bs. decode_order F bs 0) (sym (append-nil f.frame)) ∙ f.read [] [] in
      (
        f.frame,
        f.made,
        rw read refl,
        rw read refl,
        rw read (
            read-of_codec (encode_result F t.value) (result_fields t.value)
              (decode_result-encode_result F t.value few small fit)),
      )

  -- A frame of fewer than 64 bytes raises the codec's error, before the engine is called.
  submit_order_bytes_short :
      (frame : Bytes)
      → length frame < 64
      → submit_order_bytes S F env h frame
        ≡ record { value = err (codec_error short_buffer); engine = h; events = [] }
  unfolding submit_order_bytes decode_order unpack_from
  submit_order_bytes_short frame few =
      let short : ltb (length frame) 64 ≡ true = ground (arith, few) in rw short refl

  -- The answer to a cancellation that finds no order, or one that a frame can hold.
  abbrev pub Answers : Option Order → Result HalError Bytes → Type 0
  Answers none m = m ≡ ok (replicate 64 0)
  Answers (some o) m =
      Encodable F o → (frame : Bytes) × (m ≡ ok frame) × (decode_order F frame 0 ≡ ok (framed o))

  -- A cancellation by the 16 bytes of an id, whatever stands behind them, does what the cancellation by the
  -- id does: the engine is the same and so are the events. The answer is 64 zero bytes where no order was
  -- found, and otherwise decodes to the cancelled order, if a frame can hold it.
  pub cancel_order_bytes_lem :
      (i : OrderId) (rest : Bytes)
      → i < 256 ^ 16
      → let t = cancel_order S env h i in
        let b = cancel_order_bytes S F env h (encode_uuid i ++ rest) in
        (b.engine ≡ t.engine) × (b.events ≡ t.events) × Answers t.value b.value
  unfolding cancel_order_bytes
  cancel_order_bytes_lem i rest small =
      let id_bytes = encode_uuid i ++ rest in
      let long_enough : ltb (length id_bytes) 16 ≡ false =
        ground (arith, length-append (encode_uuid i) rest, length-big_endian 16 i) in
      let same : number (take 16 id_bytes) ≡ i =
        ap number (take-append_all (encode_uuid i) rest 16 (length-big_endian 16 i))
        ∙ number-big_endian 16 i small in
      rw (long_enough, same) (refl, refl, answer (cancel_order S env h i).value)
    where
      answer : (found : Option Order) → Answers found (cancelled_frame S F found)
      answer none = refl
      answer (some o) = λ e.
          let f = order-Frames F o e in
          (
            f.frame,
            rw (f.made) refl,
            ap (λ bs. decode_order F bs 0) (sym (append-nil f.frame)) ∙ f.read [] [],
          )
