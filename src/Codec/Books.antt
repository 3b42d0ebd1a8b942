-- ===== src/Codec/Books.antt =====
-- `BookLevelCodec` and `BookSnapshotCodec` of engine/core/binary_protocol.py.
use mini_hft_system.Prelude.{
  ℕ, suc, ◌+◌, ◌*◌, ◌^◌, ◌<◌, ◌≤◌, ◌≡◌, ◌∙◌, refl, sym, ap, List, [], ◌∷◌, ◌++◌, map, true, false,
  ltb, length, replicate, if◌then◌else◌, arith, All, All-imp, append-nil, append_assoc,
  length-append, ◌-◌, take, length-take, subst, Bool-cases, inl, inr, lt→ltb,
}
use mini_hft_system.Prelude.Results.{Result, ok, err, ◌>>=◌}
use mini_hft_system.Types.{Price, Quantity}
use mini_hft_system.Book.{BookSnapshot}
use mini_hft_system.Codec.Bytes.{
  Bytes, CodecError, short_buffer, short_snapshot, big_endian, number, uint, uint_fits, join,
  unpack_from, total, unpack_from-join, number-big_endian, length-join,
}
use mini_hft_system.Codec.Sequences.{Frames, encode_all, decode_many, encode_all-Frames}
use mini_hft_system.Codec.Wire.{
  Float64, FitsFrame, encode_symbol, encode_symbol_fits, decode_symbol, decode_symbol-padded,
  padded, length-padded,
}

-- BOOK_LEVEL_FRAME and SNAPSHOT_HEADER, with its reserved bytes.
abbrev pub level_frame : List ℕ
level_frame = 8 ∷ 4 ∷ 4 ∷ []

abbrev pub snapshot_header : List ℕ
snapshot_header = 6 ∷ 2 ∷ 2 ∷ 2 ∷ 4 ∷ 8 ∷ 8 ∷ []

abbrev pub LevelRow : Type 0
LevelRow = Price × Quantity × ℕ

abbrev pub frame_size : ℕ → ℕ → ℕ
frame_size bid_count ask_count = 32 + (bid_count + ask_count) * 16

take-append : (xs ys : Bytes) (k : ℕ) → take (length xs + k) (xs ++ ys) ≡ xs ++ take k ys
take-append [] ys k = ap (λ n. take n ys) (omega arith)
take-append (x ∷ xs) ys k =
    let e : suc (length xs) + k ≡ suc (length xs + k) = omega arith in
    ap (λ n. take n (x ∷ (xs ++ ys))) e ∙ ap (◌∷◌ x) (take-append xs ys k)

module _ (F : Float64) where
  -- `BookLevelCodec.encode`
  unfoldable pub encode_level : LevelRow → Result CodecError Bytes
  encode_level (p, q, c) =
      uint 4 q >>= λ quantity. uint 4 c >>= λ count. ok (join (F.pack p ∷ quantity ∷ count ∷ []))

  unfoldable pub level_from_fields : List Bytes → Result CodecError LevelRow
  level_from_fields (price ∷ quantity ∷ count ∷ []) =
      ok (F.unpack price, number quantity, number count)
  level_from_fields _ = err short_buffer

  -- `BookLevelCodec.decode`
  unfoldable pub decode_level : Bytes → ℕ → Result CodecError LevelRow
  decode_level bs offset = unpack_from level_frame bs offset >>= level_from_fields

  -- `BookSnapshotCodec.encode`
  unfoldable pub encode_snapshot : BookSnapshot → Result CodecError Bytes
  encode_snapshot s = encode_symbol s.symbol >>= λ name. uint 2 (length s.bids) >>= λ bid_count.
      uint 2 (length s.asks) >>= λ ask_count. uint 4 s.sequence >>= λ sequence.
      uint 8 s.timestamp_ns >>= λ stamp. encode_all encode_level s.bids >>= λ bids.
      encode_all encode_level s.asks >>= λ asks. ok (
        join (name ∷ bid_count ∷ ask_count ∷ replicate 2 0 ∷ sequence ∷ stamp ∷ replicate 8 0 ∷ [])
        ++ (bids ++ asks))

  unfoldable pub snapshot_from_fields : Bytes → List Bytes → Result CodecError BookSnapshot
  snapshot_from_fields bs (name ∷ bid_count ∷ ask_count ∷ pad ∷ sequence ∷ stamp ∷ reserved ∷ []) =
      (if ltb (length bs) (frame_size (number bid_count) (number ask_count))
        then err short_snapshot
        else ok bs)
      >>= λ whole. decode_many decode_level 16 (number bid_count) whole 32 >>= λ bids.
          decode_many decode_level 16 (number ask_count) whole (32 + number bid_count * 16)
          >>= λ asks. decode_symbol name >>= λ symbol. ok (record {
            symbol = symbol;
            sequence = number sequence;
            bids = bids;
            asks = asks;
            timestamp_ns = number stamp;
          })
  snapshot_from_fields bs _ = err short_buffer

  -- `BookSnapshotCodec.decode`
  unfoldable pub decode_snapshot : Bytes → Result CodecError BookSnapshot
  decode_snapshot bs = unpack_from snapshot_header bs 0 >>= snapshot_from_fields bs

  -- What a frame can hold.
  pub record LevelFits (r : LevelRow) : Type 0 where
    pub quantity : r.1 < 256 ^ 4
    pub count : r.2 < 256 ^ 4
    pub exact : F.Exact r.0

  pub record SnapshotFits (s : BookSnapshot) : Type 0 where
    pub symbol : FitsFrame s.symbol
    pub few_bids : length s.bids < 256 ^ 2
    pub few_asks : length s.asks < 256 ^ 2
    pub sequence : s.sequence < 256 ^ 4
    pub stamp : s.timestamp_ns < 256 ^ 8
    pub bids : All LevelFits s.bids
    pub asks : All LevelFits s.asks

  level-Frames : (r : LevelRow) → LevelFits r → Frames encode_level decode_level 16 r r
  unfolding encode_level decode_level level_from_fields
  level-Frames (p, q, c) e =
      let parts = F.pack p ∷ big_endian 4 q ∷ big_endian 4 c ∷ [] in
      let widths : map length parts ≡ level_frame = rw (F.length-pack p) refl in
      record {
        frame = join parts;
        made = rw (uint_fits 4 q e.quantity, uint_fits 4 c e.count) refl;
        sized = length-join parts ∙ ap total widths;
        read = λ before rest.
            rw
              (
                unpack_from-join level_frame parts before rest (length before) widths refl,
                number-big_endian 4 q e.quantity,
                number-big_endian 4 c e.count,
                F.unpack-pack p e.exact,
              )
              refl;
      }

  abbrev same_row : LevelRow → LevelRow
  same_row r = r

  map-same : (rows : List LevelRow) → map same_row rows ≡ rows
  map-same [] = refl
  map-same (r ∷ rows) = ap (◌∷◌ r) (map-same rows)

  levels-Frames :
      (rows : List LevelRow)
      → All LevelFits rows
      → Frames
          (encode_all encode_level)
          (decode_many decode_level 16 (length rows))
          (length rows * 16)
          rows
          (map same_row rows)
  levels-Frames rows a =
      encode_all-Frames encode_level decode_level 16 same_row rows
        (All-imp LevelFits (λ r. Frames encode_level decode_level 16 r r) rows level-Frames a)

  module _ (s : BookSnapshot) (e : SnapshotFits s) where
    abbrev header_parts : List Bytes
    header_parts =
        padded s.symbol
        ∷ big_endian 2 (length s.bids)
        ∷ big_endian 2 (length s.asks)
        ∷ replicate 2 0
        ∷ big_endian 4 s.sequence
        ∷ big_endian 8 s.timestamp_ns
        ∷ replicate 8 0
        ∷ []

    header_widths : map length header_parts ≡ snapshot_header
    header_widths = rw (length-padded s.symbol e.symbol) refl

    abbrev bid_frames : Bytes
    bid_frames = (levels-Frames s.bids e.bids).frame

    abbrev ask_frames : Bytes
    ask_frames = (levels-Frames s.asks e.asks).frame

    abbrev body : Bytes
    body = join header_parts ++ (bid_frames ++ ask_frames)

    encode_snapshot-frames : encode_snapshot s ≡ ok body
    unfolding encode_snapshot
    encode_snapshot-frames =
        rw
          (
            encode_symbol_fits s.symbol e.symbol,
            uint_fits 2 (length s.bids) e.few_bids,
            uint_fits 2 (length s.asks) e.few_asks,
            uint_fits 4 s.sequence e.sequence,
            uint_fits 8 s.timestamp_ns e.stamp,
            (levels-Frames s.bids e.bids).made,
            (levels-Frames s.asks e.asks).made,
          )
          refl

    length-header : length (join header_parts) ≡ 32
    length-header = length-join header_parts ∙ ap total header_widths

    long_enough : ltb (length body) (frame_size (length s.bids) (length s.asks)) ≡ false
    long_enough = ground (
      arith,
      length-header,
      (levels-Frames s.bids e.bids).sized,
      (levels-Frames s.asks e.asks).sized,
      length-append (join header_parts) (bid_frames ++ ask_frames),
      length-append bid_frames ask_frames,
    )

    read_bids : decode_many decode_level 16 (length s.bids) body 32 ≡ ok s.bids
    read_bids =
        ap (decode_many decode_level 16 (length s.bids) body) (sym length-header)
        ∙ (levels-Frames s.bids e.bids).read (join header_parts) ask_frames
        ∙ ap ok (map-same s.bids)

    read_asks :
        decode_many decode_level 16 (length s.asks) body (32 + length s.bids * 16) ≡ ok s.asks
    read_asks =
        let front = join header_parts ++ bid_frames in
        let n : 32 + length s.bids * 16 ≡ length front = omega (
          arith,
          length-header,
          (levels-Frames s.bids e.bids).sized,
          length-append (join header_parts) bid_frames,
        ) in
        let same : body ≡ front ++ (ask_frames ++ []) =
          ap (λ x. join header_parts ++ (bid_frames ++ x)) (sym (append-nil ask_frames))
          ∙ sym (append_assoc (join header_parts) bid_frames (ask_frames ++ [])) in
        ap (decode_many decode_level 16 (length s.asks) body) n
        ∙ ap (λ x. decode_many decode_level 16 (length s.asks) x (length front)) same
        ∙ (levels-Frames s.asks e.asks).read front []
        ∙ ap ok (map-same s.asks)

    -- A snapshot whose fields fit the frame is encoded, and decodes to itself.
    pub decode_snapshot-encode_snapshot : (encode_snapshot s >>= decode_snapshot) ≡ ok s
    unfolding decode_snapshot snapshot_from_fields
    decode_snapshot-encode_snapshot =
        rw
          (
            encode_snapshot-frames,
            unpack_from-join snapshot_header header_parts [] (bid_frames ++ ask_frames) 0
                header_widths refl,
            number-big_endian 2 (length s.bids) e.few_bids,
            number-big_endian 2 (length s.asks) e.few_asks,
            number-big_endian 4 s.sequence e.sequence,
            number-big_endian 8 s.timestamp_ns e.stamp,
            long_enough,
            read_bids,
            read_asks,
            decode_symbol-padded s.symbol e.symbol,
          )
          refl

    take-header :
        (n : ℕ) (rest : Bytes)
        → 32 ≤ n
        → take n (join header_parts ++ rest) ≡ join header_parts ++ take (n - 32) rest
    take-header n rest h =
        let e : n ≡ length (join header_parts) + (n - 32) = omega (arith, length-header) in
        ap (λ k. take k (join header_parts ++ rest)) e
        ∙ take-append (join header_parts) rest (n - 32)

    short_levels :
        (rest : Bytes)
        → length rest < (length s.bids + length s.asks) * 16
        → decode_snapshot (join header_parts ++ rest) ≡ err short_snapshot
    unfolding decode_snapshot snapshot_from_fields
    short_levels rest h =
        let short : ltb (length (join header_parts ++ rest))
              (frame_size (length s.bids) (length s.asks))
            ≡ true =
          ground (arith, h, length-header, length-append (join header_parts) rest) in
        rw
          (
            unpack_from-join snapshot_header header_parts [] rest 0 header_widths refl,
            number-big_endian 2 (length s.bids) e.few_bids,
            number-big_endian 2 (length s.asks) e.few_asks,
            short,
          )
          refl

    short_header : (bs : Bytes) → length bs < 32 → decode_snapshot bs ≡ err short_buffer
    unfolding decode_snapshot unpack_from
    short_header bs h = rw (lt→ltb (length bs) 32 h) refl

    length-body : length body ≡ 32 + (length s.bids + length s.asks) * 16
    length-body = omega (
      arith,
      length-header,
      (levels-Frames s.bids e.bids).sized,
      (levels-Frames s.asks e.asks).sized,
      length-append (join header_parts) (bid_frames ++ ask_frames),
      length-append bid_frames ask_frames,
    )

    -- A frame of a snapshot that was cut anywhere is refused: with the error of `struct` within the header,
    -- and with the codec's own error within the levels. It holds of every snapshot that fits the frame.
    pub decode_snapshot_truncated :
        (frame : Bytes) (n : ℕ)
        → encode_snapshot s ≡ ok frame
        → n < length frame
        → decode_snapshot (take n frame) ≡ err (if ltb n 32 then short_buffer else short_snapshot)
    decode_snapshot_truncated frame n h g =
        let same : body ≡ frame =
          let c : ok body ≡ ok frame = sym encode_snapshot-frames ∙ h in cc in
        let total_length : n < length body = omega (arith, g, ap length same) in
        subst
          (λ f.
            decode_snapshot (take n f) ≡ err (if ltb n 32 then short_buffer else short_snapshot))
          same
          (elim (Bool-cases (ltb n 32)) [
            | inl low ↦
                rw low (short_header (take n body) (ground (arith, low, length-take n body)))
            | inr high ↦
                let far : 32 ≤ n = ground (arith, high) in
                rw (high, take-header n (bid_frames ++ ask_frames) far)
                  (short_levels (take (n - 32) (bid_frames ++ ask_frames)) (
                    omega (
                      arith,
                      total_length,
                      length-body,
                      length-take (n - 32) (bid_frames ++ ask_frames),
                      far,
                    )))
          ])
