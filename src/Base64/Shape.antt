-- ===== src/Base64/Shape.antt =====
-- What `base64_encode` writes: its length, and its symbols.
use getbiblesword.Prelude.{
  ℕ, ◌+◌, ◌*◌, ◌/◌, ◌%◌, ◌≡◌, refl, arith, [], ◌∷◌, Bytes, IsPlain, is_plain, is_plain-IsPlain, All,
  length, passes_below, passes_below-at, bit_and-eq-mod, shr, get_or, bit_or, shl, true,
}
use getbiblesword.Base64.{alphabet, symbol, triple, base64_encode}

all_plain : passes_below 64 (λ k. is_plain (get_or alphabet k 0)) ≡ true
unfolding passes_below is_plain
all_plain = refl

symbol-IsPlain : (value shift : ℕ) → IsPlain (symbol value shift)
unfolding symbol
symbol-IsPlain value shift = rw (bit_and-eq-mod 6 (shr value shift)) (
    is_plain-IsPlain _ (
      passes_below-at 64 (λ k. is_plain (get_or alphabet k 0)) (shr value shift % 64) all_plain
        (omega arith)))

pad-IsPlain : IsPlain b'='
pad-IsPlain = omega arith

-- Every symbol is printable ASCII, and none needs an escape in JSON.
pub base64_encode-IsPlain : (bytes : Bytes) → All IsPlain (base64_encode bytes)
unfolding base64_encode
base64_encode-IsPlain [] = tt
base64_encode-IsPlain (x ∷ []) =
    let plain = symbol-IsPlain (shl 32 x 16) in
    (plain 18, (plain 12, (pad-IsPlain, (pad-IsPlain, tt))))
base64_encode-IsPlain (x ∷ y ∷ []) =
    let plain = symbol-IsPlain (bit_or (shl 32 x 16) (shl 32 y 8)) in
    (plain 18, (plain 12, (plain 6, (pad-IsPlain, tt))))
base64_encode-IsPlain (x ∷ y ∷ z ∷ rest) =
    let v = triple x y z in
    let plain = symbol-IsPlain v in
    (plain 18, (plain 12, (plain 6, (plain 0, base64_encode-IsPlain rest))))

-- The length is what `reserve` asks for.
pub length-base64_encode :
    (bytes : Bytes) → length (base64_encode bytes) ≡ (length bytes + 2) / 3 * 4
unfolding base64_encode
length-base64_encode [] = refl
length-base64_encode (x ∷ []) = refl
length-base64_encode (x ∷ y ∷ []) = refl
length-base64_encode (x ∷ y ∷ z ∷ rest) = omega (arith, length-base64_encode rest)
