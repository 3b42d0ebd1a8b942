-- ===== src/Codec/Bytes.antt =====
-- What engine/core/binary_protocol.py uses of `struct`: big-endian numbers, and fields of fixed widths.
use mini_hft_system.Prelude.{
  ℕ, zero, suc, ◌+◌, ◌*◌, ◌/◌, ◌%◌, ◌^◌, ◌<◌, ◌≡◌, ◌∙◌, refl, ap, ap₂, List, [], ◌∷◌, ◌++◌, map,
  false, ltb, length, take, drop, length-append, if◌then◌else◌, arith, lt→ltb, append_assoc,
}
use native.Mathlib.Nat.{pow-suc}
use mini_hft_system.Prelude.Results.{Result, ok, err}

-- The exceptions of packing and unpacking.
pub data CodecError : Type 0 where
  -- UnicodeEncodeError, UnicodeDecodeError
  not_ascii : CodecError
  -- struct.error: a number that does not fit its field, a buffer that is too short
  out_of_range short_buffer : CodecError
  -- KeyError: a byte that is no code of the enumeration
  unknown_code : CodecError
  -- ValueError
  short_snapshot : CodecError

abbrev pub Bytes : Type 0
Bytes = List ℕ

-- `v` in `n` bytes, the highest first.
abbrev pub big_endian : ℕ → ℕ → Bytes
big_endian zero v = []
big_endian (suc n) v = big_endian n (v / 256) ++ (v % 256 ∷ [])

abbrev pub number_from : ℕ → Bytes → ℕ
number_from acc [] = acc
number_from acc (b ∷ bs) = number_from (acc * 256 + b) bs

abbrev pub number : Bytes → ℕ
number bs = number_from 0 bs

-- The formats B, H, I and Q for 1, 2, 4 and 8 bytes.
unfoldable pub uint : ℕ → ℕ → Result CodecError Bytes
uint n v = if ltb v (256 ^ n) then ok (big_endian n v) else err out_of_range

abbrev pub join : List Bytes → Bytes
join [] = []
join (p ∷ ps) = p ++ join ps

abbrev pub split_fields : List ℕ → Bytes → List Bytes
split_fields [] bs = []
split_fields (w ∷ ws) bs = take w bs ∷ split_fields ws (drop w bs)

abbrev pub total : List ℕ → ℕ
total [] = 0
total (w ∷ ws) = w + total ws

-- `unpack_from(buffer, offset)`
unfoldable pub unpack_from : List ℕ → Bytes → ℕ → Result CodecError (List Bytes)
unpack_from widths bs offset =
    if ltb (length bs) (offset + total widths)
    then err short_buffer
    else ok (split_fields widths (drop offset bs))

pub length-big_endian : (n v : ℕ) → length (big_endian n v) ≡ n
length-big_endian zero v = refl
length-big_endian (suc n) v =
    omega
      (arith, length-big_endian n (v / 256), length-append (big_endian n (v / 256)) (v % 256 ∷ []))

number_from-append :
    (acc : ℕ) (xs : Bytes) (b : ℕ) → number_from acc (xs ++ (b ∷ [])) ≡ number_from acc xs * 256 + b
number_from-append acc [] b = refl
number_from-append acc (x ∷ xs) b = number_from-append (acc * 256 + x) xs b

pub number-big_endian : (n v : ℕ) → v < 256 ^ n → number (big_endian n v) ≡ v
number-big_endian zero v h = omega arith
number-big_endian (suc n) v h =
    let few : v / 256 < 256 ^ n = omega (arith, pow-suc 256 n) in
    omega (
      arith,
      number_from-append 0 (big_endian n (v / 256)) (v % 256),
      number-big_endian n (v / 256) few,
    )

pub uint_fits : (n v : ℕ) → v < 256 ^ n → uint n v ≡ ok (big_endian n v)
unfolding uint
uint_fits n v h = rw (lt→ltb v (256 ^ n) h) refl

pub take-append_all : (xs ys : Bytes) (n : ℕ) → length xs ≡ n → take n (xs ++ ys) ≡ xs
take-append_all [] ys zero h = refl
take-append_all [] ys (suc n) h = absurd (omega arith)
take-append_all (x ∷ xs) ys zero h = absurd (omega arith)
take-append_all (x ∷ xs) ys (suc n) h = ap (◌∷◌ x) (take-append_all xs ys n (omega arith))

pub drop-append_all : (xs ys : Bytes) (n : ℕ) → length xs ≡ n → drop n (xs ++ ys) ≡ ys
drop-append_all [] ys zero h = refl
drop-append_all [] ys (suc n) h = absurd (omega arith)
drop-append_all (x ∷ xs) ys zero h = absurd (omega arith)
drop-append_all (x ∷ xs) ys (suc n) h = drop-append_all xs ys n (omega arith)

split_fields-join :
    (ps : List Bytes) (rest : Bytes) → split_fields (map length ps) (join ps ++ rest) ≡ ps
split_fields-join [] rest = refl
split_fields-join (p ∷ ps) rest =
    let e : (p ++ join ps) ++ rest ≡ p ++ (join ps ++ rest) = append_assoc p (join ps) rest in
    ap₂ (◌∷◌) (ap (take (length p)) e ∙ take-append_all p (join ps ++ rest) (length p) refl) (
      ap (λ x. split_fields (map length ps) (drop (length p) x)) e
      ∙ ap (split_fields (map length ps)) (drop-append_all p (join ps ++ rest) (length p) refl)
      ∙ split_fields-join ps rest)

pub length-join : (ps : List Bytes) → length (join ps) ≡ total (map length ps)
length-join [] = refl
length-join (p ∷ ps) = omega (arith, length-append p (join ps), length-join ps)

-- Fields that were packed are unpacked, wherever they stand in a buffer.
pub unpack_from-join :
    (ws : List ℕ) (ps : List Bytes) (before rest : Bytes) (offset : ℕ)
    → map length ps ≡ ws
    → length before ≡ offset
    → unpack_from ws (before ++ (join ps ++ rest)) offset ≡ ok ps
unfolding unpack_from
unpack_from-join ws ps before rest offset e l =
    rw (enough, drop-append_all before (join ps ++ rest) offset l, ← e, split_fields-join ps rest)
      refl
  where
    enough : ltb (length (before ++ (join ps ++ rest))) (offset + total ws) ≡ false
    enough = ground (
      arith,
      l,
      ap total e,
      length-join ps,
      length-append before (join ps ++ rest),
      length-append (join ps) rest,
    )
