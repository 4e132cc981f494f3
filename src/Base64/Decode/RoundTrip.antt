-- ===== src/Base64/Decode/RoundTrip.antt =====
-- Decoding inverts the encoder, and what the encoder writes has the expected length and symbols.
use getbiblesword.Prelude.{
  ℕ, ◌+◌, ◌*◌, ◌/◌, ◌%◌, ◌^◌, ◌<◌, ◌≡◌, refl, ap, bit_or, arith, Bool, true, false, not, ◌&&◌, none,
  some, [], ◌∷◌, Bytes, IsByte, All, passes_below, passes_below-at, bit_and-eq-mod, bit_or-eq-add,
  shl, shr, ◌==◌, get_or,
}
use getbiblesword.Base64.{alphabet, symbol, triple, base64_encode}
use getbiblesword.Base64.Decode.{sextet, is_pad, decode_padded, decode_full, base64_decode}

-- What is checked of each symbol: its value, and that it is no padding.
reads_back : ℕ → Bool
unfolding sextet
reads_back k =
    not (is_pad (get_or alphabet k 0))
    && elim (sextet (get_or alphabet k 0)) [ none ↦ false | some j ↦ j == k ]

all_read_back : passes_below 64 reads_back ≡ true
unfolding passes_below reads_back
all_read_back = refl

module _ (k : ℕ) (h : k < 64) where
  sextet-alphabet : sextet (get_or alphabet k 0) ≡ some k
  unfolding reads_back
  sextet-alphabet = ground (arith, passes_below-at 64 reads_back k all_read_back h)

  alphabet-IsNotPad : is_pad (get_or alphabet k 0) ≡ false
  unfolding reads_back
  alphabet-IsNotPad = ground (arith, passes_below-at 64 reads_back k all_read_back h)

module _ (value shift : ℕ) where
  symbol-index : symbol value shift ≡ get_or alphabet (shr value shift % 64) 0
  unfolding symbol
  symbol-index = ap (λ (k : ℕ). get_or alphabet k 0) (bit_and-eq-mod 6 (shr value shift))

  sextet-symbol : sextet (symbol value shift) ≡ some (shr value shift % 64)
  sextet-symbol = rw symbol-index (sextet-alphabet (shr value shift % 64) (omega arith))

  symbol-IsNotPad : is_pad (symbol value shift) ≡ false
  symbol-IsNotPad = rw symbol-index (alphabet-IsNotPad (shr value shift % 64) (omega arith))

-- Shifted bytes do not overlap: `|` adds.
pair-eq-add :
    (x y : ℕ) → x < 256 → y < 256 → bit_or (shl 32 x 16) (shl 32 y 8) ≡ x * 65536 + y * 256
pair-eq-add x y hx hy =
    let wide : shl 32 x 16 ≡ x * 2 ^ 16 = omega arith in
    let narrow : shl 32 y 8 ≡ y * 256 = omega arith in
    rw (wide, narrow) (bit_or-eq-add 16 x (y * 256) (omega arith))

triple-eq-add : (x y z : ℕ) → x < 256 → y < 256 → z < 256 → triple x y z ≡ x * 65536 + y * 256 + z
unfolding triple
triple-eq-add x y z hx hy hz =
    let shifted : x * 65536 + y * 256 ≡ (x * 256 + y) * 2 ^ 8 = omega arith in
    rw (pair-eq-add x y hx hy) (rw shifted (bit_or-eq-add 8 (x * 256 + y) z hz))

module _ (v : ℕ) where
  decode_full-symbols :
      (rest : Bytes)
      → decode_full (symbol v 18) (symbol v 12) (symbol v 6) (symbol v 0) (some rest)
        ≡ some ((v / 65536 % 256) ∷ (v / 256 % 256) ∷ (v % 256) ∷ rest)
  unfolding decode_full
  decode_full-symbols rest =
      rw (sextet-symbol v 18, sextet-symbol v 12, sextet-symbol v 6, sextet-symbol v 0)
        (ground arith)

  decode_padded-symbols :
      v % 256 ≡ 0
      → decode_padded (symbol v 18) (symbol v 12) (symbol v 6)
        ≡ some ((v / 65536 % 256) ∷ (v / 256 % 256) ∷ [])
  unfolding decode_padded
  decode_padded-symbols h =
      rw (symbol-IsNotPad v 6, sextet-symbol v 18, sextet-symbol v 12, sextet-symbol v 6)
        (ground arith)

  decode_padded_twice :
      v % 65536 ≡ 0 → decode_padded (symbol v 18) (symbol v 12) b'=' ≡ some ((v / 65536 % 256) ∷ [])
  unfolding decode_padded
  decode_padded_twice h = rw (sextet-symbol v 18, sextet-symbol v 12) (ground arith)

-- Decoding by RFC 4648 gives back any bytes that were encoded.
pub decode-encode :
    (bytes : Bytes) → All IsByte bytes → base64_decode (base64_encode bytes) ≡ some bytes
unfolding base64_encode base64_decode
decode-encode [] h = refl
decode-encode (x ∷ []) h = rw (decode_padded_twice (shl 32 x 16) (omega arith)) (ground arith)
decode-encode (x ∷ y ∷ []) h =
    let v = bit_or (shl 32 x 16) (shl 32 y 8) in
    let sum : v ≡ x * 65536 + y * 256 = pair-eq-add x y h.0 h.1.0 in
    rw (decode_padded-symbols v (omega arith)) (ground (arith, sum))
decode-encode (x ∷ y ∷ z ∷ rest) h =
    rw
      (
        symbol-IsNotPad (triple x y z) 0,
        decode-encode rest h.1.1.1,
        decode_full-symbols (triple x y z) rest,
      )
      (ground (arith, triple-eq-add x y z h.0 h.1.0 h.1.1.0))
