-- ===== src/Json/Read.antt =====
-- A reader of JSON strings and numbers after RFC 8259, as a consumer of the stream has one.
use getbiblesword.Prelude.{
  ℕ, zero, suc, ◌+◌, ◌-◌, ◌*◌, Bool, true, false, ◌&&◌, ◌||◌, Option, none, some, [], ◌∷◌, ◌++◌,
  Bytes, length, ltb, leb, ◌==◌, if◌then◌else◌,
}
use getbiblesword.Utf8.Scalar.{encode}

infixl 5 ◌>>=◌
abbrev pub ◌>>=◌ {ℓ κ} : {A : Type ℓ} {B : Type κ} → Option A → (A → Option B) → Option B
none >>= f = none
some a >>= f = f a

abbrev pub is_digit : ℕ → Bool
is_digit c = leb b'0' c && leb c b'9'

unfoldable pub hex_value : ℕ → Option ℕ
hex_value c =
    if is_digit c
    then some (c - b'0')
    else if leb b'a' c && leb c b'f'
    then some (c - b'a' + 10)
    else if leb b'A' c && leb c b'F'
    then some (c - b'A' + 10)
    else none

unfoldable pub simple_escape : ℕ → Option ℕ
simple_escape c =
    if c == b'"' || (c == b'\\' || c == b'/')
    then some c
    else if c == b'b'
    then some 8
    else if c == b'f'
    then some 12
    else if c == b'n'
    then some 10
    else if c == b'r'
    then some 13
    else if c == b't'
    then some 9
    else none

-- Four digits of a scalar value; half of a surrogate pair is not read.
unfoldable pub unicode_escape : Bytes → Option (Bytes × Bytes)
unfolding hex_value
unicode_escape (a ∷ b ∷ c ∷ d ∷ rest) = do
  i ← hex_value a
  j ← hex_value b
  k ← hex_value c
  l ← hex_value d
  let v = ((i * 16 + j) * 16 + k) * 16 + l
  if leb 0xd800 v && leb v 0xdfff then none else some (encode v, rest)
unicode_escape _ = none

-- Behind a backslash: the bytes meant, and what follows.
unfoldable pub read_escape : Bytes → Option (Bytes × Bytes)
unfolding simple_escape unicode_escape
read_escape [] = none
read_escape (c ∷ rest) =
    if c == b'u' then unicode_escape rest else do v ← simple_escape c; some (v ∷ [], rest)

abbrev pub prepend : Bytes → Option (Bytes × Bytes) → Option (Bytes × Bytes)
prepend bytes none = none
prepend bytes (some (more, rest)) = some (bytes ++ more, rest)

-- Up to the closing quote. Each round takes a byte at least.
unfoldable pub read_chars : ℕ → Bytes → Option (Bytes × Bytes)
read_chars zero bytes = none
read_chars (suc fuel) [] = none
read_chars (suc fuel) (c ∷ rest) = elim (c == b'"') [
  | true ↦ some ([], rest)
  | false ↦ elim (c == b'\\') [
    | true ↦ elim (read_escape rest) [
      | none ↦ none
      | some (bytes, behind) ↦ prepend bytes (read_chars fuel behind)
    ]
    | false ↦ elim (ltb c 0x20) [ true ↦ none | false ↦ prepend (c ∷ []) (read_chars fuel rest) ]
  ]
]

unfoldable pub read_string : Bytes → Option (Bytes × Bytes)
unfolding read_chars
read_string [] = none
read_string (c ∷ rest) = if c == b'"' then read_chars (length rest) rest else none

unfoldable pub read_digits : ℕ → Bytes → ℕ × Bytes
read_digits value [] = (value, [])
read_digits value (c ∷ rest) =
    let more = read_digits (value * 10 + (c - b'0')) rest in
    if is_digit c then more else (value, c ∷ rest)

-- The given text must stand next.
unfoldable pub expect : Bytes → Bytes → Option Bytes
expect [] bytes = some bytes
expect (x ∷ xs) [] = none
expect (x ∷ xs) (y ∷ ys) = if x == y then expect xs ys else none
