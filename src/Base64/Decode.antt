-- ===== src/Base64/Decode.antt =====
-- The decoding of RFC 4648, section 4, which a consumer of the stream applies: groups of four
-- symbols, padding in the last group only, and no bits left over.
pub mod RoundTrip
use getbiblesword.Prelude.{
  ℕ, ◌+◌, ◌-◌, ◌*◌, ◌/◌, ◌%◌, Bool, true, false, ◌&&◌, Option, none, some, List, [], ◌∷◌, Bytes,
  leb, ◌==◌, if◌then◌else◌,
}

infixl 5 ◌>>=◌
abbrev pub ◌>>=◌ {ℓ κ} : {A : Type ℓ} {B : Type κ} → Option A → (A → Option B) → Option B
none >>= f = none
some a >>= f = f a

pub sextet : ℕ → Option ℕ
sextet c =
    if leb b'A' c && leb c b'Z'
    then some (c - b'A')
    else if leb b'a' c && leb c b'z'
    then some (c - b'a' + 26)
    else if leb b'0' c && leb c b'9'
    then some (c - b'0' + 52)
    else if c == b'+'
    then some 62
    else if c == b'/'
    then some 63
    else none

abbrev pub is_pad : ℕ → Bool
is_pad c = c == b'='

-- The last group, with padding: one byte, or two.
pub decode_padded : ℕ → ℕ → ℕ → Option Bytes
decode_padded a b c =
    if is_pad c
    then (do s ← sextet a; t ← sextet b; if t % 16 == 0 then some ((s * 4 + t / 16) ∷ []) else none)
    else do
      s ← sextet a
      t ← sextet b
      u ← sextet c
      if u % 4 == 0 then some ((s * 4 + t / 16) ∷ (t % 16 * 16 + u / 4) ∷ []) else none

pub decode_full : ℕ → ℕ → ℕ → ℕ → Option Bytes → Option Bytes
decode_full a b c d later = do
  s ← sextet a
  t ← sextet b
  u ← sextet c
  v ← sextet d
  rest ← later
  some ((s * 4 + t / 16) ∷ (t % 16 * 16 + u / 4) ∷ (u % 4 * 64 + v) ∷ rest)

abbrev pub is_empty : Bytes → Bool
is_empty [] = true
is_empty (x ∷ xs) = false

pub base64_decode : Bytes → Option Bytes
base64_decode [] = some []
base64_decode (a ∷ b ∷ c ∷ d ∷ rest) =
    let later = base64_decode rest in
    if is_pad d
    then (if is_empty rest then decode_padded a b c else none)
    else decode_full a b c d later
base64_decode _ = none
