-- ===== src/Codec/Wire.antt =====
-- engine/core/binary_protocol.py: the bytes of the enumerations, symbols, ids and prices.
use mini_hft_system.Prelude.{
  ℕ, zero, suc, ◌-◌, ◌≤◌, ◌≡◌, ◌∙◌, refl, ap, [], ◌∷◌, ◌++◌, Bool, true, false, ◌&&◌, ◌==◌, ltb,
  length, take, replicate, length-append, length-replicate, if◌then◌else◌, arith,
}
use mini_hft_system.Prelude.Results.{Result, ok, err, ok_or_raise}
use mini_hft_system.Types.{
  OrderSide, buy, sell, OrderType, limit, market, TimeInForce, gtc, ioc, fok, gtd, OrderStatus,
  pending, open_, partially_filled, filled, cancelled, rejected, Symbol, Price, OrderId,
}
use mini_hft_system.Codec.Bytes.{Bytes, CodecError, not_ascii, unknown_code, big_endian}

abbrev pub side_to_wire : OrderSide → ℕ
side_to_wire buy = 0
side_to_wire sell = 1

abbrev pub wire_to_side : ℕ → Result CodecError OrderSide
wire_to_side b = if b == 0 then ok buy else if b == 1 then ok sell else err unknown_code

abbrev pub type_to_wire : OrderType → ℕ
type_to_wire limit = 0
type_to_wire market = 1

abbrev pub wire_to_type : ℕ → Result CodecError OrderType
wire_to_type b = if b == 0 then ok limit else if b == 1 then ok market else err unknown_code

abbrev pub tif_to_wire : TimeInForce → ℕ
tif_to_wire gtc = 0
tif_to_wire ioc = 1
tif_to_wire fok = 2
tif_to_wire gtd = 3

abbrev pub wire_to_tif : ℕ → Result CodecError TimeInForce
wire_to_tif b =
    if b == 0
    then ok gtc
    else if b == 1
    then ok ioc
    else if b == 2
    then ok fok
    else if b == 3
    then ok gtd
    else err unknown_code

abbrev pub status_to_wire : OrderStatus → ℕ
status_to_wire pending = 0
status_to_wire open_ = 1
status_to_wire partially_filled = 2
status_to_wire filled = 3
status_to_wire cancelled = 4
status_to_wire rejected = 5

abbrev pub wire_to_status : ℕ → Result CodecError OrderStatus
wire_to_status b =
    if b == 0
    then ok pending
    else if b == 1
    then ok open_
    else if b == 2
    then ok partially_filled
    else if b == 3
    then ok filled
    else if b == 4
    then ok cancelled
    else if b == 5
    then ok rejected
    else err unknown_code

pub side-wire : (s : OrderSide) → wire_to_side (side_to_wire s) ≡ ok s
side-wire buy = refl
side-wire sell = refl

pub type-wire : (t : OrderType) → wire_to_type (type_to_wire t) ≡ ok t
type-wire limit = refl
type-wire market = refl

pub tif-wire : (t : TimeInForce) → wire_to_tif (tif_to_wire t) ≡ ok t
tif-wire gtc = refl
tif-wire ioc = refl
tif-wire fok = refl
tif-wire gtd = refl

pub status-wire : (s : OrderStatus) → wire_to_status (status_to_wire s) ≡ ok s
status-wire pending = refl
status-wire open_ = refl
status-wire partially_filled = refl
status-wire filled = refl
status-wire cancelled = refl
status-wire rejected = refl

-- What `struct` does with a double. `Exact` are the amounts that a double holds; the bytes of a negative
-- number or of one that is not finite are outside the model.
pub record Float64 : Type 1 where
  pub pack : Price → Bytes
  pub unpack : Bytes → Price
  pub Exact : Price → Type 0
  pub length-pack : (p : Price) → length (pack p) ≡ 8
  pub unpack-pack : (p : Price) → Exact p → unpack (pack p) ≡ p

abbrev pub is_ascii : Symbol → Bool
is_ascii [] = true
is_ascii (c ∷ cs) = ltb c 128 && is_ascii cs

-- `symbol.encode("ascii")[:6]`, `ljust(6, b"\x00")`
unfoldable pub encode_symbol : Symbol → Result CodecError Bytes
encode_symbol s =
    ok_or_raise not_ascii (is_ascii s) (take 6 s ++ replicate (6 - length (take 6 s)) 0)

abbrev pub is_null : Bytes → Bool
is_null [] = true
is_null (b ∷ bs) = false

-- `rstrip(b"\x00")`
unfoldable pub strip_zeros : Bytes → Bytes
strip_zeros [] = []
strip_zeros (b ∷ bs) = let rest = strip_zeros bs in if b == 0 && is_null rest then [] else b ∷ rest

unfoldable pub decode_symbol : Bytes → Result CodecError Symbol
decode_symbol raw = ok_or_raise not_ascii (is_ascii (strip_zeros raw)) (strip_zeros raw)

-- `uuid.UUID(uid).bytes` and `uuid.UUID(bytes=raw)`, on the value of the id.
abbrev pub encode_uuid : OrderId → Bytes
encode_uuid i = big_endian 16 i

-- A symbol that its six bytes tell: ASCII, at most six characters, no zero at the end.
pub record FitsFrame (s : Symbol) : Type 0 where
  pub ascii : is_ascii s ≡ true
  pub short : length s ≤ 6
  pub ends : strip_zeros s ≡ s

take_whole : (n : ℕ) (s : Symbol) → length s ≤ n → take n s ≡ s
take_whole zero [] h = refl
take_whole zero (c ∷ s) h = absurd (omega arith)
take_whole (suc n) [] h = refl
take_whole (suc n) (c ∷ s) h = ap (◌∷◌ c) (take_whole n s (omega arith))

strip_zeros-replicate : (n : ℕ) → strip_zeros (replicate n 0) ≡ []
unfolding strip_zeros
strip_zeros-replicate zero = refl
strip_zeros-replicate (suc n) = rw (strip_zeros-replicate n) refl

strip_zeros-append : (s : Symbol) (n : ℕ) → strip_zeros (s ++ replicate n 0) ≡ strip_zeros s
unfolding strip_zeros
strip_zeros-append [] n = strip_zeros-replicate n
strip_zeros-append (c ∷ s) n = rw (strip_zeros-append s n) refl

abbrev pub padded : Symbol → Bytes
padded s = s ++ replicate (6 - length s) 0

pub encode_symbol_fits : (s : Symbol) → FitsFrame s → encode_symbol s ≡ ok (padded s)
unfolding encode_symbol
encode_symbol_fits s f = rw (take_whole 6 s f.short, f.ascii) refl

pub length-padded : (s : Symbol) → FitsFrame s → length (padded s) ≡ 6
length-padded s f = omega (
  arith,
  f.short,
  length-append s (replicate (6 - length s) 0),
  length-replicate {A = ℕ} (6 - length s) 0,
)

pub decode_symbol-padded : (s : Symbol) → FitsFrame s → decode_symbol (padded s) ≡ ok s
unfolding decode_symbol
decode_symbol-padded s f =
    let e : strip_zeros (padded s) ≡ s = strip_zeros-append s (6 - length s) ∙ f.ends in
    rw (e, f.ascii) refl
