-- ===== src/Base64.antt =====
-- src/base64.cpp: `base64_encode`. The `while` loop takes three bytes of the input a round, so it is
-- a recursion on the input; what `push_back` appends stands in front of what the later rounds append.
pub mod Decode
pub mod Shape
use getbiblesword.Prelude.{ℕ, bit_and, bit_or, List, [], ◌∷◌, ◌++◌, Bytes, codes, get_or, shl, shr}

abbrev pub alphabet : Bytes
alphabet = codes "ABCDEFGHIJKLMNOPQRSTUVWXYZabcdefghijklmnopqrstuvwxyz0123456789+/"

-- `alphabet[(value >> shift) & 0x3fU]`
unfoldable pub symbol : ℕ → ℕ → ℕ
symbol value shift = get_or alphabet (bit_and (shr value shift) 0x3f) 0

-- The three bytes as one unsigned int.
unfoldable pub triple : ℕ → ℕ → ℕ → ℕ
triple x y z = bit_or (bit_or (shl 32 x 16) (shl 32 y 8)) z

unfoldable pub base64_encode : Bytes → Bytes
unfolding symbol triple
base64_encode (x ∷ y ∷ z ∷ rest) =
    let value = triple x y z in
    symbol value 18 ∷ symbol value 12 ∷ symbol value 6 ∷ symbol value 0 ∷ base64_encode rest
base64_encode (x ∷ []) = let value = shl 32 x 16 in symbol value 18 ∷ symbol value 12 ∷ codes "=="
base64_encode (x ∷ y ∷ []) =
    let value = bit_or (shl 32 x 16) (shl 32 y 8) in
    symbol value 18 ∷ symbol value 12 ∷ symbol value 6 ∷ codes "="
base64_encode [] = []
