-- ===== src/Utf8/Scalar.antt =====
-- RFC 3629: the scalar values of Unicode, and the bytes that stand for each.
use getbiblesword.Prelude.{
  ℕ, ◌+◌, ◌/◌, ◌%◌, ◌≤◌, ◌<◌, ◌≡◌, ◌⊎◌, List, [], ◌∷◌, ◌++◌, Bytes, All, ltb, if◌then◌else◌,
}

abbrev pub IsScalar : ℕ → Type 0
IsScalar c = (c < 0xd800) ⊎ ((0xe000 ≤ c) × (c ≤ 0x10ffff))

abbrev tail_byte : ℕ → ℕ
tail_byte c = 0x80 + c % 64

unfoldable pub encode : ℕ → Bytes
encode c =
    if ltb c 0x80
    then c ∷ []
    else if ltb c 0x800
    then (0xc0 + c / 64) ∷ tail_byte c ∷ []
    else if ltb c 0x10000
    then (0xe0 + c / 4096) ∷ tail_byte (c / 64) ∷ tail_byte c ∷ []
    else (0xf0 + c / 262144) ∷ tail_byte (c / 4096) ∷ tail_byte (c / 64) ∷ tail_byte c ∷ []

abbrev pub encode_all : List ℕ → Bytes
encode_all [] = []
encode_all (c ∷ cs) = encode c ++ encode_all cs

-- The bytes spell a sequence of scalar values.
pub record IsUtf8 (bytes : Bytes) : Type 0 where
  pub scalars : List ℕ
  pub are_scalars : All IsScalar scalars
  pub spelled : bytes ≡ encode_all scalars
