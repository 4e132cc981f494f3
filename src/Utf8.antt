-- ===== src/Utf8.antt =====
-- src/byte_value.cpp: `is_valid_utf8`. The bytes from `index` on are the list; a call that ends the
-- loop by `return false` is `none`.
pub mod Scalar
pub mod Masks
pub mod Decides
use getbiblesword.Prelude.{
  ℕ, zero, suc, bit_and, bit_or, Bool, true, false, ◌&&◌, ◌||◌, Option, none, some, List, [], ◌∷◌,
  Bytes, length, shl, ltb, leb, ◌==◌, if◌then◌else◌,
}

-- What the lead byte decides: `continuation_count`, the first bits of `code_point`, and `minimum`.
pub record Lead : Type 0 where
  pub continuation_count : ℕ
  pub code_point : ℕ
  pub minimum : ℕ

pub classify_lead : ℕ → Option Lead
classify_lead lead =
    if bit_and lead 0xe0 == 0xc0
    then some (record { continuation_count = 1; code_point = bit_and lead 0x1f; minimum = 0x80 })
    else if bit_and lead 0xf0 == 0xe0
    then some (record { continuation_count = 2; code_point = bit_and lead 0x0f; minimum = 0x800 })
    else if bit_and lead 0xf8 == 0xf0
    then some (record { continuation_count = 3; code_point = bit_and lead 0x07; minimum = 0x10000 })
    else none

-- The `for` loop: rounds left, `code_point`, and the bytes from `index + offset` on.
pub continue_sequence : ℕ → ℕ → Bytes → Option (ℕ × Bytes)
continue_sequence zero code_point bytes = some (code_point, bytes)
continue_sequence (suc left) code_point [] = none
continue_sequence (suc left) code_point (next ∷ bytes) =
    let later = continue_sequence left (bit_or (shl 32 code_point 6) (bit_and next 0x3f)) bytes in
    if bit_and next 0xc0 == 0x80 then later else none

pub is_rejected : ℕ → ℕ → Bool
is_rejected minimum code_point =
    ltb code_point minimum
    || (ltb 0x10ffff code_point || (leb 0xd800 code_point && leb code_point 0xdfff))

pub finish_sequence : ℕ → ℕ × Bytes → Option Bytes
unfolding is_rejected
finish_sequence minimum (code_point, bytes) =
    if is_rejected minimum code_point then none else some bytes

infixl 5 ◌>>=◌
abbrev pub ◌>>=◌ {ℓ κ} : {A : Type ℓ} {B : Type κ} → Option A → (A → Option B) → Option B
none >>= f = none
some a >>= f = f a

-- One round of the `while` loop: the bytes behind the sequence.
pub read_sequence : ℕ → Bytes → Option Bytes
read_sequence lead rest = if leb lead 0x7f then some rest else do
  start ← classify_lead lead
  if leb (suc (length rest)) start.continuation_count then none else do
    result ← continue_sequence start.continuation_count start.code_point rest
    finish_sequence start.minimum result

-- The `while` loop. Each round takes a byte at least.
pub sequences_valid : ℕ → Bytes → Bool
sequences_valid fuel [] = true
sequences_valid zero (lead ∷ rest) = false
sequences_valid (suc fuel) (lead ∷ rest) = elim (read_sequence lead rest) [
  | none ↦ false
  | some behind ↦ sequences_valid fuel behind
]

unfoldable pub is_valid_utf8 : Bytes → Bool
unfolding sequences_valid read_sequence classify_lead continue_sequence finish_sequence
is_valid_utf8 bytes = sequences_valid (length bytes) bytes
