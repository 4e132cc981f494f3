-- ===== src/Utf8/Masks.antt =====
-- The masks of `is_valid_utf8` on a byte, as arithmetic.
use getbiblesword.Prelude.{
  ℕ, suc, ◌+◌, ◌*◌, ◌/◌, ◌%◌, ◌^◌, ◌<◌, ◌≡◌, refl, arith, bit_and, true, none, some, ◌∷◌, Bytes,
  shl, ◌==◌, eq_of_==, if◌then◌else◌, passes_below, passes_below-at, bit_and-eq-mod, bit_or-eq-add,
}
use getbiblesword.Utf8.{classify_lead, continue_sequence}

high_bits_table : passes_below 256 (λ b. bit_and b 0xc0 == b / 64 * 64) ≡ true
unfolding passes_below
high_bits_table = refl

three_bits_table : passes_below 256 (λ b. bit_and b 0xe0 == b / 32 * 32) ≡ true
unfolding passes_below
three_bits_table = refl

four_bits_table : passes_below 256 (λ b. bit_and b 0xf0 == b / 16 * 16) ≡ true
unfolding passes_below
four_bits_table = refl

five_bits_table : passes_below 256 (λ b. bit_and b 0xf8 == b / 8 * 8) ≡ true
unfolding passes_below
five_bits_table = refl

module _ (b : ℕ) (h : b < 256) where
  high_bits : bit_and b 0xc0 ≡ b / 64 * 64
  high_bits = eq_of_== _ _ (passes_below-at 256 _ b high_bits_table h)

  three_bits : bit_and b 0xe0 ≡ b / 32 * 32
  three_bits = eq_of_== _ _ (passes_below-at 256 _ b three_bits_table h)

  four_bits : bit_and b 0xf0 ≡ b / 16 * 16
  four_bits = eq_of_== _ _ (passes_below-at 256 _ b four_bits_table h)

  five_bits : bit_and b 0xf8 ≡ b / 8 * 8
  five_bits = eq_of_== _ _ (passes_below-at 256 _ b five_bits_table h)

  pub classify_lead-arith : classify_lead b ≡ (
      if b / 32 * 32 == 0xc0
      then some (record { continuation_count = 1; code_point = b % 32; minimum = 0x80 })
      else if b / 16 * 16 == 0xe0
      then some (record { continuation_count = 2; code_point = b % 16; minimum = 0x800 })
      else if b / 8 * 8 == 0xf0
      then some (record { continuation_count = 3; code_point = b % 8; minimum = 0x10000 })
      else none)
  unfolding classify_lead
  classify_lead-arith =
      simp (
        three_bits,
        four_bits,
        five_bits,
        bit_and-eq-mod 5 b,
        bit_and-eq-mod 4 b,
        bit_and-eq-mod 3 b,
      )

  -- The six new bits stand below the bits so far.
  pub continue_sequence-arith :
      (left code_point : ℕ) (bytes : Bytes)
      → code_point < 2 ^ 26
      → continue_sequence (suc left) code_point (b ∷ bytes) ≡ (
          if b / 64 * 64 == 0x80
          then continue_sequence left (code_point * 64 + b % 64) bytes
          else none)
  unfolding continue_sequence
  continue_sequence-arith left code_point bytes small =
      let shifted : shl 32 code_point 6 ≡ code_point * 2 ^ 6 = omega arith in
      rw (high_bits, bit_and-eq-mod 6 b, shifted, bit_or-eq-add 6 code_point (b % 64) (omega arith))
