-- ===== src/Codec/Sequences.antt =====
-- The loops of engine/core/binary_protocol.py over frames of one width.
use mini_hft_system.Prelude.{
  ℕ, zero, suc, ◌+◌, ◌*◌, ◌≡◌, refl, List, [], ◌∷◌, ◌++◌, map, length, length-append, append_assoc,
  All, arith, subst₂,
}
use native.Mathlib.Nat.{suc-mul}
use mini_hft_system.Prelude.Results.{Result, ok, ◌>>=◌}
use mini_hft_system.Codec.Bytes.{Bytes, CodecError}

module _ {A : Type 0} where
  -- The frames of all elements, one after another.
  unfoldable pub encode_all : (A → Result CodecError Bytes) → List A → Result CodecError Bytes
  encode_all enc [] = ok []
  encode_all enc (x ∷ xs) = enc x >>= λ frame. encode_all enc xs >>= λ frames. ok (frame ++ frames)

-- `n` frames of `w` bytes from an offset on.
module _ {B : Type 0} where
  unfoldable pub decode_many :
      (Bytes → ℕ → Result CodecError B) → ℕ → ℕ → Bytes → ℕ → Result CodecError (List B)
  decode_many dec w zero bs offset = ok []
  decode_many dec w (suc n) bs offset =
      dec bs offset >>= λ x. decode_many dec w n bs (offset + w) >>= λ xs. ok (x ∷ xs)

-- `a` is encoded in `w` bytes, which decode to `b` wherever they stand in a buffer.
pub record Frames {A B : Type 0} (enc : A → Result CodecError Bytes)
    (dec : Bytes → ℕ → Result CodecError B) (w : ℕ) (a : A) (b : B) : Type 0 where
  pub frame : Bytes
  pub made : enc a ≡ ok frame
  pub sized : length frame ≡ w
  pub read : (before rest : Bytes) → dec (before ++ (frame ++ rest)) (length before) ≡ ok b

module _ {A B : Type 0} (enc : A → Result CodecError Bytes) (dec : Bytes → ℕ → Result CodecError B)
    (w : ℕ) (view : A → B) where
  abbrev pub decode_list : ℕ → Bytes → ℕ → Result CodecError (List B)
  decode_list n = decode_many dec w n

  decode_shifted :
      (n : ℕ) (x y : Bytes) (offset k : ℕ) (r : List B)
      → x ≡ y
      → offset ≡ k
      → decode_list n x offset ≡ ok r
      → decode_list n y k ≡ ok r
  decode_shifted n x y offset k r e f h = subst₂ (λ z j. decode_list n z j ≡ ok r) e f h

  -- A list of elements that have frames is encoded in their frames, and read back in order.
  pub encode_all-Frames :
      (xs : List A)
      → All (λ x. Frames enc dec w x (view x)) xs
      → Frames (encode_all enc) (decode_list (length xs)) (length xs * w) xs (map view xs)
  unfolding encode_all decode_many
  encode_all-Frames [] a = record {
    frame = [];
    made = refl;
    sized = omega arith;
    read = λ before rest. refl;
  }
  encode_all-Frames (x ∷ xs) a =
      let h = a.0 in
      let t = encode_all-Frames xs a.1 in
      record {
        frame = h.frame ++ t.frame;
        made = rw (h.made, t.made) refl;
        sized =
            omega (arith, h.sized, t.sized, length-append h.frame t.frame, suc-mul (length xs) w);
        read = λ before rest.
            let e : (h.frame ++ t.frame) ++ rest ≡ h.frame ++ (t.frame ++ rest) =
              append_assoc h.frame t.frame rest in
            let front = h.read before (t.frame ++ rest) in
            let k : length (before ++ h.frame) ≡ length before + w =
              omega (arith, length-append before h.frame, h.sized) in
            let back =
              decode_shifted (length xs) ((before ++ h.frame) ++ (t.frame ++ rest))
                (before ++ (h.frame ++ (t.frame ++ rest))) (length (before ++ h.frame))
                (length before + w) (map view xs) (append_assoc before h.frame (t.frame ++ rest)) k
                (t.read (before ++ h.frame) rest) in
            rw (e, front, back) refl;
      }
