-- ===== src/Codec/Orders.antt =====
-- `OrderCodec` of engine/core/binary_protocol.py: orders as frames of 64 bytes.
use mini_hft_system.Prelude.{
  ℕ, ◌+◌, ◌^◌, ◌≤◌, ◌<◌, ◌≡◌, ◌∙◌, refl, sym, ap, List, [], ◌∷◌, ◌++◌, map, Option, none, some,
  false, ◌==◌, ltb, length, take, drop, replicate, length-take, length-drop, length-append,
  append_assoc, if◌then◌else◌, arith,
}
use mini_hft_system.Prelude.Results.{Result, ok, err, ◌>>=◌}
use mini_hft_system.Types.{Price}
use mini_hft_system.Order.{Order}
use mini_hft_system.Codec.Bytes.{
  Bytes, CodecError, short_buffer, big_endian, number, uint, uint_fits, join, unpack_from,
  unpack_from-join, number-big_endian, length-join, total, take-append_all, drop-append_all,
}
use mini_hft_system.Codec.Sequences.{Frames}
use mini_hft_system.Codec.Wire.{
  Float64, FitsFrame, encode_symbol, encode_symbol_fits, decode_symbol, decode_symbol-padded,
  padded, length-padded, encode_uuid, side_to_wire, wire_to_side, side-wire, type_to_wire,
  wire_to_type, type-wire, tif_to_wire, wire_to_tif, tif-wire, status_to_wire, wire_to_status,
  status-wire,
}

-- ORDER_FRAME, with its 6 reserved bytes.
abbrev pub order_frame : List ℕ
order_frame = 16 ∷ 8 ∷ 4 ∷ 4 ∷ 8 ∷ 8 ∷ 6 ∷ 1 ∷ 1 ∷ 1 ∷ 1 ∷ 6 ∷ []

-- A market order has the price 0.0 on the wire.
abbrev pub wire_price : Option Price → Price
wire_price none = 0
wire_price (some p) = p

abbrev pub price_of_wire : Price → Option Price
price_of_wire p = if p == 0 then none else some p

-- What a decoded order tells: the fields that the frame does not hold have their defaults.
abbrev pub framed : Order → Order
framed o = record o {
  strategy_id = none;
  client_order_id = none;
  avg_fill_price = none;
  received_at_ns = 0;
  queued_at_ns = 0;
  acked_at_ns = 0;
}

abbrev pub order_codes : Order → List Bytes
order_codes o =
    (side_to_wire o.side ∷ [])
    ∷ (type_to_wire o.order_type ∷ [])
    ∷ (tif_to_wire o.time_in_force ∷ [])
    ∷ (status_to_wire o.status ∷ [])
    ∷ replicate 6 0
    ∷ []

pub number_byte : (b : ℕ) → number (b ∷ []) ≡ b
number_byte b = omega arith

module _ (F : Float64) where
  -- The fields in the order of the frame.
  unfoldable pub order_fields : Order → Result CodecError (List Bytes)
  order_fields o = encode_symbol o.symbol >>= λ name. uint 4 o.quantity >>= λ quantity.
      uint 4 o.filled_quantity >>= λ filled. uint 8 o.created_at_ns >>= λ created.
      uint 8 o.processed_at_ns >>= λ processed. ok (
        encode_uuid o.order_id
        ∷ F.pack (wire_price o.price)
        ∷ quantity
        ∷ filled
        ∷ created
        ∷ processed
        ∷ name
        ∷ order_codes o)

  -- `OrderCodec.encode`
  unfoldable pub encode_order : Order → Result CodecError Bytes
  encode_order o = order_fields o >>= λ parts. ok (join parts)

  -- `OrderCodec.encode_into`: the bytes of the buffer from the offset on are replaced.
  unfoldable pub encode_order_into : Order → Bytes → ℕ → Result CodecError Bytes
  encode_order_into o buf offset = encode_order o >>= λ frame.
      if ltb (length buf) (offset + 64)
      then err short_buffer
      else ok (take offset buf ++ (frame ++ drop (offset + 64) buf))

  unfoldable pub order_from_fields : List Bytes → Result CodecError Order
  order_from_fields
        (id ∷ price ∷ quantity ∷ filled ∷ created ∷ processed ∷ name ∷ side ∷ kind ∷ tif ∷ status
          ∷ pad ∷ []) =
      decode_symbol name >>= λ symbol. wire_to_side (number side) >>= λ s.
      wire_to_type (number kind) >>= λ t. wire_to_tif (number tif) >>= λ f.
      wire_to_status (number status) >>= λ st. ok (record {
        symbol = symbol;
        side = s;
        order_type = t;
        quantity = number quantity;
        price = price_of_wire (F.unpack price);
        time_in_force = f;
        strategy_id = none;
        client_order_id = none;
        order_id = number id;
        status = st;
        filled_quantity = number filled;
        avg_fill_price = none;
        created_at_ns = number created;
        received_at_ns = 0;
        queued_at_ns = 0;
        processed_at_ns = number processed;
        acked_at_ns = 0;
      })
  order_from_fields _ = err short_buffer

  -- `OrderCodec.decode`
  unfoldable pub decode_order : Bytes → ℕ → Result CodecError Order
  decode_order bs offset = unpack_from order_frame bs offset >>= order_from_fields

  price-wire :
      (price : Option Price)
      → ((p : Price) → price ≡ some p → 0 < p)
      → price_of_wire (wire_price price) ≡ price
  price-wire none h = refl
  price-wire (some p) h = ground (arith, h p refl)

  -- What a frame can hold.
  pub record Encodable (o : Order) : Type 0 where
    pub id : o.order_id < 256 ^ 16
    pub quantity : o.quantity < 256 ^ 4
    pub filled : o.filled_quantity < 256 ^ 4
    pub created : o.created_at_ns < 256 ^ 8
    pub processed : o.processed_at_ns < 256 ^ 8
    pub symbol : FitsFrame o.symbol
    pub price : (p : Price) → o.price ≡ some p → 0 < p
    pub exact : F.Exact (wire_price o.price)

  abbrev order_parts : Order → List Bytes
  order_parts o =
      big_endian 16 o.order_id
      ∷ F.pack (wire_price o.price)
      ∷ big_endian 4 o.quantity
      ∷ big_endian 4 o.filled_quantity
      ∷ big_endian 8 o.created_at_ns
      ∷ big_endian 8 o.processed_at_ns
      ∷ padded o.symbol
      ∷ order_codes o

  module _ (o : Order) (e : Encodable o) where
    order_fields_fit : order_fields o ≡ ok (order_parts o)
    unfolding order_fields
    order_fields_fit =
        rw
          (
            encode_symbol_fits o.symbol e.symbol,
            uint_fits 4 o.quantity e.quantity,
            uint_fits 4 o.filled_quantity e.filled,
            uint_fits 8 o.created_at_ns e.created,
            uint_fits 8 o.processed_at_ns e.processed,
          )
          refl

    order_widths : map length (order_parts o) ≡ order_frame
    order_widths = rw (F.length-pack (wire_price o.price), length-padded o.symbol e.symbol) refl

    order_parts-framed : order_from_fields (order_parts o) ≡ ok (framed o)
    unfolding order_from_fields
    order_parts-framed =
        rw
          (
            decode_symbol-padded o.symbol e.symbol,
            number_byte (side_to_wire o.side),
            side-wire o.side,
            number_byte (type_to_wire o.order_type),
            type-wire o.order_type,
            number_byte (tif_to_wire o.time_in_force),
            tif-wire o.time_in_force,
            number_byte (status_to_wire o.status),
            status-wire o.status,
            number-big_endian 16 o.order_id e.id,
            number-big_endian 4 o.quantity e.quantity,
            number-big_endian 4 o.filled_quantity e.filled,
            number-big_endian 8 o.created_at_ns e.created,
            number-big_endian 8 o.processed_at_ns e.processed,
            F.unpack-pack (wire_price o.price) e.exact,
            price-wire o.price e.price,
          )
          refl

    pub order-Frames : Frames encode_order decode_order 64 o (framed o)
    unfolding encode_order decode_order
    order-Frames = record {
      frame = join (order_parts o);
      made = rw (order_fields_fit) refl;
      sized = length-join (order_parts o) ∙ ap total order_widths;
      read = λ before rest.
          rw
            (
              unpack_from-join order_frame (order_parts o) before rest (length before) order_widths
                  refl,
              order_parts-framed,
            )
            refl;
    }

    -- An order that a frame can hold is encoded into every buffer that has 64 bytes from the offset on; the
    -- buffer keeps its length, its bytes before the offset and its bytes after the frame, and at the offset
    -- decodes to the order, except that the fields that the frame leaves out have their defaults.
    pub decode_order-encode_order_into :
        (buf : Bytes) (offset : ℕ)
        → offset + 64 ≤ length buf
        → (out : Bytes) × (encode_order_into o buf offset ≡ ok out)
          × (length out ≡ length buf)
          × (take offset out ≡ take offset buf)
          × (drop (offset + 64) out ≡ drop (offset + 64) buf)
          × (decode_order out offset ≡ ok (framed o))
    unfolding encode_order_into
    decode_order-encode_order_into buf offset h =
        let f = order-Frames in
        let front = take offset buf in
        let back = drop (offset + 64) buf in
        let at : length front ≡ offset = omega (arith, length-take offset buf) in
        let room : ltb (length buf) (offset + 64) ≡ false = ground (arith, h) in
        let after : length (front ++ f.frame) ≡ offset + 64 =
          omega (arith, at, f.sized, length-append front f.frame) in
        (
          front ++ (f.frame ++ back),
          rw (f.made, room) refl,
          omega (
            arith,
            at,
            f.sized,
            length-append front (f.frame ++ back),
            length-append f.frame back,
            length-drop (offset + 64) buf,
          ),
          take-append_all front (f.frame ++ back) offset at,
          ap (drop (offset + 64)) (sym (append_assoc front f.frame back))
              ∙ drop-append_all (front ++ f.frame) back (offset + 64) after,
          ap (decode_order (front ++ (f.frame ++ back))) (sym at) ∙ f.read front back,
        )
