-- ===== src/Hal.antt =====
-- `SoftwareMatchingHAL` of engine/hal/software.py with what it inherits from `MatchingHAL` of
-- engine/hal/abstract.py: calls of the engine on objects, and the same calls on frames. The adapter's state is
-- its engine.
pub mod Frames
mod Tests
use mini_hft_system.Prelude.{
  ℕ, Bool, List, [], Option, none, some, ltb, length, take, replicate, if◌then◌else◌,
}
use mini_hft_system.Prelude.Results.{Result, ok, err}
use mini_hft_system.Types.{Symbol, OrderId, TimestampNs}
use mini_hft_system.Order.{Order}
use mini_hft_system.Book.{BookSnapshot, MatchResult}
use mini_hft_system.Book.Level.{PriceLevel}
use mini_hft_system.Book.Prices.{SortedDict}
use mini_hft_system.Codec.Bytes.{Bytes, CodecError, number}
use mini_hft_system.Codec.Orders.{encode_order, decode_order}
use mini_hft_system.Codec.Trades.{encode_result}
use mini_hft_system.Codec.Wire.{Float64}
use mini_hft_system.Engine.{
  Engine, Reply, EngineReadings, new_engine, submit_order, cancel_order, get_snapshot, get_order,
  register_symbol, set_event_callback, registered_symbols,
}

-- What a call on frames raises: an error of a codec, or the `ValueError` of `uuid.UUID(bytes=...)`.
pub data HalError : Type 0 where
  codec_error : CodecError → HalError
  bad_uuid : HalError

abbrev pub of_codec : Result CodecError Bytes → Result HalError Bytes
of_codec (ok bs) = ok bs
of_codec (err x) = err (codec_error x)

module _ (S : SortedDict PriceLevel) where
  -- `SoftwareMatchingHAL(on_event)`, and the calls that it passes on.
  abbrev pub software_hal : Bool → Engine S
  software_hal on_event = new_engine S on_event

  abbrev pub submit_object : EngineReadings → Engine S → Order → Reply S MatchResult
  submit_object env h o = submit_order S env h o

  abbrev pub cancel_object : EngineReadings → Engine S → OrderId → Reply S (Option Order)
  cancel_object env h i = cancel_order S env h i

  abbrev snapshot_object : Engine S → Symbol → ℕ → TimestampNs → Option BookSnapshot
  snapshot_object h s depth now = get_snapshot S h s depth now

  abbrev order_object : Engine S → OrderId → Option Order
  order_object h i = get_order S h i

  abbrev register_object : Engine S → Symbol → Engine S
  register_object h s = register_symbol S h s

  abbrev install_callback : Engine S → Engine S
  install_callback h = set_event_callback S h

  abbrev hal_symbols : Engine S → List Symbol
  hal_symbols h = registered_symbols S h

  -- A call that raises before it reaches the engine.
  abbrev pub raises : Engine S → HalError → Reply S (Result HalError Bytes)
  raises h x = record { value = err x; engine = h; events = [] }

  module _ (F : Float64) where
    abbrev pub submit_decoded :
        EngineReadings → Engine S → Result CodecError Order → Reply S (Result HalError Bytes)
    submit_decoded env h (err x) = raises h (codec_error x)
    submit_decoded env h (ok o) =
        let t = submit_object env h o in
        record { value = of_codec (encode_result F t.value); engine = t.engine; events = t.events }

    -- `submit_order_bytes`
    unfoldable pub submit_order_bytes :
        EngineReadings → Engine S → Bytes → Reply S (Result HalError Bytes)
    submit_order_bytes env h frame = submit_decoded env h (decode_order F frame 0)

    -- 64 zero bytes stand for no order.
    abbrev pub cancelled_frame : Option Order → Result HalError Bytes
    cancelled_frame none = ok (replicate 64 0)
    cancelled_frame (some o) = of_codec (encode_order F o)

    -- `cancel_order_bytes`
    unfoldable pub cancel_order_bytes :
        EngineReadings → Engine S → Bytes → Reply S (Result HalError Bytes)
    cancel_order_bytes env h id_bytes =
        let t = cancel_object env h (number (take 16 id_bytes)) in
        if ltb (length id_bytes) 16
        then raises h bad_uuid
        else record { value = cancelled_frame t.value; engine = t.engine; events = t.events }
