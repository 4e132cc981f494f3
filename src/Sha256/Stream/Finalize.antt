-- ===== src/Sha256/Stream/Finalize.antt =====
-- The pieces of `finalize`: the mark, the zeros and the length, as the bytes that they leave.
pub mod Standard
use getbiblesword.Prelude.{
  ℕ, zero, suc, ◌+◌, ◌-◌, ◌*◌, ◌/◌, ◌%◌, ◌^◌, ◌≤◌, ◌<◌, ◌≡◌, refl, sym, ap, ap₂, ◌∙◌, arith, ◌⊎◌,
  inl, inr, Bool, true, false, List, [], ◌∷◌, ◌++◌, append-nil, append_assoc, Bytes, length, take,
  drop, concat, All, All-append, take-all, drop-all, bit_and, bit_and-eq-mod, shr, length-append,
  length-drop, length-replicate, Bool-cases, ltb, lt_of_ltb, le_of_not_ltb, not_ltb_of_le,
  ltb_of_lt, replicate,
}
use native.Mathlib.Nat.{zero-add}
use getbiblesword.Sha256.Compress.{initial_state, transform}
use getbiblesword.Sha256.Padding.{
  IsBlock, absorb, absorb-append, concat-append, big_endian, padding, padded, chained_digest,
  chained_digest-blocks, length-concat,
}
use getbiblesword.Sha256.Stream.{Holds, HoldsOf, length-write_at, take-write_at}
use getbiblesword.Sha256.Stream.Update.{Streams}
use getbiblesword.Sha256.{Sha256, write_at, length_bytes, flush_full, finalize, state_bytes}

-- A byte of the length, as the code cuts it out of the wrapped bit count.
byte_of_length : (n k : ℕ) → bit_and (shr n k) 0xff ≡ n / 2 ^ k % 256
byte_of_length n k = bit_and-eq-mod 8 (shr n k)

-- The wrap at 64 bits is above every byte that is written.
pub length_bytes-big_endian : (m : ℕ) → length_bytes (m % 2 ^ 64) ≡ big_endian m
unfolding length_bytes
length_bytes-big_endian m = simp byte_of_length (
    cc (
      low 56 (omega arith),
      low 48 (omega arith),
      low 40 (omega arith),
      low 32 (omega arith),
      low 24 (omega arith),
      low 16 (omega arith),
      low 8 (omega arith),
      low 0 (omega arith),
      last,
    ))
  where
    low :
        (k : ℕ)
        → m % 2 ^ 64 / 2 ^ k % 256 ≡ m / 2 ^ k % 256
        → m % 2 ^ 64 / 2 ^ k % 256 ≡ m / 2 ^ k % 256
    low k e = e

    last : m / 2 ^ 0 % 256 ≡ m % 256
    last = omega arith

-- A write that reaches the end of the target.
pub write_at_end :
    (target : Bytes) (offset : ℕ) (bytes : Bytes)
    → length target ≤ offset + length bytes
    → write_at target offset bytes ≡ take offset target ++ bytes
unfolding write_at
write_at_end target offset bytes h =
    rw (drop-all (offset + length bytes) target h)
      (ap (λ (t : Bytes). take offset target ++ t) (append-nil bytes))

abbrev pub zeros : ℕ → Bytes
zeros n = replicate n 0

pub length-zeros : (n : ℕ) → length (zeros n) ≡ n
length-zeros n = length-replicate {A = ℕ} n 0

-- The length field closes the last block: `zeros` follow what stands in the first `size` bytes.
module _ (buffer : Bytes) (size : ℕ) (fits : size ≤ 56) (full : length buffer ≡ 64) (m : ℕ) where
  abbrev pub zeroed : Bytes
  zeroed = write_at buffer size (zeros (56 - size))

  abbrev pub last_block : Bytes
  last_block = write_at zeroed 56 (length_bytes m)

  pub length-zeroed : length zeroed ≡ 64
  length-zeroed =
      length-write_at buffer size (zeros (56 - size))
        (omega (arith, length-zeros (56 - size), full))
      ∙ full

  pub take-zeroed : take 56 zeroed ≡ take size buffer ++ zeros (56 - size)
  take-zeroed =
      let end : size + length (zeros (56 - size)) ≡ 56 = omega (arith, length-zeros (56 - size)) in
      rw end at (
        take-write_at buffer size (zeros (56 - size))
          (omega (arith, length-zeros (56 - size), full)))

  length-length_bytes : length (length_bytes m) ≡ 8
  unfolding length_bytes
  length-length_bytes = refl

  pub length-last_block : length last_block ≡ 64
  length-last_block =
      length-write_at zeroed 56 (length_bytes m) (omega (arith, length-zeroed, length-length_bytes))
      ∙ length-zeroed

  pub last_block_lem : last_block ≡ (take size buffer ++ zeros (56 - size)) ++ length_bytes m
  last_block_lem =
      write_at_end zeroed 56 (length_bytes m) (omega (arith, length-zeroed, length-length_bytes))
      ∙ ap (λ (t : Bytes). t ++ length_bytes m) take-zeroed

module _ (s : Sha256) (message : Bytes) (h : HoldsOf s message) where
  abbrev pub marked : Sha256
  marked = record s {
    buffer = write_at s.buffer s.buffer_size (0x80 ∷ []);
    buffer_size = s.buffer_size + 1;
  }

  pub length-marked : length marked.buffer ≡ 64
  length-marked =
      length-write_at s.buffer s.buffer_size (0x80 ∷ [])
        (omega (arith, h.buffer_length, h.size_is, h.rest_is_short))
      ∙ h.buffer_length

  pub take-marked : take (s.buffer_size + 1) marked.buffer ≡ h.rest ++ (0x80 ∷ [])
  take-marked =
      take-write_at s.buffer s.buffer_size (0x80 ∷ [])
        (omega (arith, h.buffer_length, h.size_is, h.rest_is_short))
      ∙ ap (λ (t : Bytes). t ++ (0x80 ∷ [])) h.buffered

  abbrev pub bit_count : ℕ
  bit_count = length message * 8

  pub position : length message % 64 ≡ s.buffer_size
  position = omega (
    arith,
    ap length h.split,
    length-append (concat h.blocks) h.rest,
    length-concat h.blocks h.are_blocks,
    h.size_is,
    h.rest_is_short,
  )

  -- The message with the mark and `n` zeros, as blocks already taken in and a last piece.
  pub padded_split :
      (n : ℕ)
      → (119 - s.buffer_size) % 64 ≡ n
      → padded message
        ≡ concat h.blocks ++ (((h.rest ++ (0x80 ∷ [])) ++ zeros n) ++ big_endian bit_count)
  padded_split n e =
      rw (position, e)
        (ap (λ (t : Bytes). t ++ (0x80 ∷ (zeros n ++ big_endian bit_count))) h.split
          ∙ simp append_assoc)
