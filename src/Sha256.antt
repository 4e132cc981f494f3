-- ===== src/Sha256.antt =====
-- src/sha256.cpp: the class `Sha256` and `sha256_hex`. A method returns the new object. A pointer
-- to a block of 64 bytes is the list of those bytes.
pub mod Fips
pub mod Compress
pub mod Padding
pub mod Stream
pub mod Pieces
use Compress.{initial_state, transform, word}
use getbiblesword.Prelude.{
  ℕ, zero, suc, ◌+◌, ◌-◌, ◌*◌, ◌/◌, ◌%◌, ◌^◌, min, bit_and, Bool, true, false, Option, none, some,
  List, [], ◌∷◌, ◌++◌, Bytes, codes, length, take, drop, replicate, get_or, shr, leb, ltb, ◌==◌,
  if◌then◌else◌,
}

pub record Sha256 : Type 0 where
  pub state : List ℕ
  pub buffer : Bytes
  pub total_bytes : ℕ
  pub buffer_size : ℕ

-- `Sha256::Sha256()`
abbrev pub new : Sha256
new = record { state = initial_state; buffer = replicate 64 0; total_bytes = 0; buffer_size = 0 }

-- `std::copy_n(bytes, length bytes, target + offset)`
unfoldable pub write_at : Bytes → ℕ → Bytes → Bytes
write_at target offset bytes = take offset target ++ (bytes ++ drop (offset + length bytes) target)

-- `if (buffer_size_ != 0U) { … }`: the new object and `offset`.
unfoldable pub fill_buffer : Sha256 → Bytes → Sha256 × ℕ
unfolding write_at
fill_buffer s bytes =
    if s.buffer_size == 0
    then (s, 0)
    else (let count = min (64 - s.buffer_size) (length bytes) in
        let filled = write_at s.buffer s.buffer_size (take count bytes) in
        let size = s.buffer_size + count in
        if size == 64
        then (
          record s { buffer = filled; buffer_size = 0; state = transform s.state filled },
          count,
        )
        else (record s { buffer = filled; buffer_size = size }, count))

-- `while (offset + 64U <= data.size()) { … }`, with fuel; the result is the state and `offset`.
unfoldable pub transform_blocks : ℕ → List ℕ → Bytes → ℕ → List ℕ × ℕ
transform_blocks zero state bytes offset = (state, offset)
transform_blocks (suc fuel) state bytes offset =
    let later =
      transform_blocks fuel (transform state (take 64 (drop offset bytes))) bytes (offset + 64) in
    if leb (offset + 64) (length bytes) then later else (state, offset)

-- `if (offset < data.size()) { … }`
unfoldable pub keep_rest : Sha256 → Bytes → ℕ → Sha256
unfolding write_at
keep_rest s bytes offset =
    if ltb offset (length bytes)
    then record s {
      buffer_size = length bytes - offset;
      buffer = write_at s.buffer 0 (drop offset bytes);
    }
    else s

-- The part of `update` behind the test for no bytes. Each round of the loop takes a byte at least.
unfoldable pub update_some : Sha256 → Bytes → Sha256
unfolding fill_buffer transform_blocks keep_rest
update_some s bytes =
    let counted = record s { total_bytes = (s.total_bytes + length bytes) % 2 ^ 64 } in
    let (filled, offset) = fill_buffer counted bytes in
    let (state, offset') = transform_blocks (length bytes) filled.state bytes offset in
    keep_rest (record filled { state = state }) bytes offset'

unfoldable pub update : Sha256 → Bytes → Sha256
unfolding update_some
update s [] = s
update s (x ∷ xs) = update_some s (x ∷ xs)

-- `(message_bits >> shift) & 0xffU` for the shifts 56, 48, …, 0
unfoldable pub length_bytes : ℕ → Bytes
length_bytes bits =
    bit_and (shr bits 56) 0xff
    ∷ bit_and (shr bits 48) 0xff
    ∷ bit_and (shr bits 40) 0xff
    ∷ bit_and (shr bits 32) 0xff
    ∷ bit_and (shr bits 24) 0xff
    ∷ bit_and (shr bits 16) 0xff
    ∷ bit_and (shr bits 8) 0xff
    ∷ bit_and (shr bits 0) 0xff
    ∷ []

-- The four bytes of a word, the highest first.
unfoldable pub word_bytes : ℕ → Bytes
word_bytes w =
    bit_and (shr w 24) 0xff ∷ bit_and (shr w 16) 0xff ∷ bit_and (shr w 8) 0xff ∷ bit_and w 0xff ∷ []

unfoldable pub state_bytes : List ℕ → Bytes
unfolding word_bytes
state_bytes [] = []
state_bytes (w ∷ ws) = word_bytes w ++ state_bytes ws

-- The branch `if (buffer_size_ > 56U)` of `finalize`, behind `buffer_[buffer_size_++] = 0x80U`.
unfoldable pub flush_full : Sha256 → Sha256
flush_full s =
    if ltb 56 s.buffer_size
    then (let filled = write_at s.buffer s.buffer_size (replicate (64 - s.buffer_size) 0) in
        record s { buffer = filled; buffer_size = 0; state = transform s.state filled })
    else s

unfoldable pub finalize : Sha256 → Bytes
finalize s =
    let message_bits = s.total_bytes * 8 % 2 ^ 64 in
    let marked = record s {
      buffer = write_at s.buffer s.buffer_size (0x80 ∷ []);
      buffer_size = s.buffer_size + 1;
    } in
    let flushed = flush_full marked in
    let zeroed =
      write_at flushed.buffer flushed.buffer_size (replicate (56 - flushed.buffer_size) 0) in
    let last = write_at zeroed 56 (length_bytes message_bits) in
    state_bytes (transform flushed.state last)

-- `digest` works on a copy, so the object is unchanged.
unfoldable pub digest : Sha256 → Bytes
digest s = finalize s

abbrev pub hex_digits : Bytes
hex_digits = codes "0123456789abcdef"

-- `std::hex` with `std::setw(2)` and the fill character 0, for numbers below 256
unfoldable pub hex_bytes : Bytes → Bytes
hex_bytes [] = []
hex_bytes (b ∷ bs) = get_or hex_digits (b / 16) 0 ∷ get_or hex_digits (b % 16) 0 ∷ hex_bytes bs

unfoldable pub hex_digest : Sha256 → Bytes
unfolding digest hex_bytes
hex_digest s = hex_bytes (digest s)

unfoldable pub sha256_hex : Bytes → Bytes
unfolding update hex_digest
sha256_hex bytes = hex_digest (update new bytes)
