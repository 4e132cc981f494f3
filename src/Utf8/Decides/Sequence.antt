-- ===== src/Utf8/Decides/Sequence.antt =====
-- One round of the loop of `is_valid_utf8` reads the encoding of one scalar value.
use getbiblesword.Prelude.{
  ℕ, ◌+◌, ◌*◌, ◌/◌, ◌%◌, ◌<◌, ◌≡◌, arith, inl, inr, false, ◌&&◌, Option, none, some, [], ◌∷◌, ◌++◌,
  Bytes, IsByte, All, length, ◌==◌, eq_of_==, if◌then◌else◌, leb, Bool-cases,
}
use getbiblesword.Utf8.{continue_sequence, is_rejected, finish_sequence, read_sequence}
use getbiblesword.Utf8.Masks.{classify_lead-arith, continue_sequence-arith}
use getbiblesword.Utf8.Scalar.{IsScalar, encode}

-- The sequences with one, two and three continuation bytes, as arithmetic.
module _ (lead : ℕ) (h : lead < 256) where
  pub read_two :
      (a : ℕ) (rest : Bytes)
      → a < 256
      → lead / 32 * 32 ≡ 0xc0
      → read_sequence lead (a ∷ rest) ≡ (
          if a / 64 * 64 == 0x80
          then finish_sequence 0x80 (lead % 32 * 64 + a % 64, rest)
          else none)
  unfolding read_sequence
  read_two a rest ha class =
      let more : leb lead 0x7f ≡ false = ground arith in
      rw (classify_lead-arith lead h) (
        rw (class, more)
          (rw (continue_sequence-arith a ha 0 (lead % 32) rest (omega arith))
            (unfold continue_sequence in ground arith)))

  pub read_three :
      (a b : ℕ) (rest : Bytes)
      → a < 256
      → b < 256
      → lead / 16 * 16 ≡ 0xe0
      → read_sequence lead (a ∷ b ∷ rest) ≡ (
          if a / 64 * 64 == 0x80 && b / 64 * 64 == 0x80
          then finish_sequence 0x800 ((lead % 16 * 64 + a % 64) * 64 + b % 64, rest)
          else none)
  unfolding read_sequence
  read_three a b rest ha hb class =
      let more : leb lead 0x7f ≡ false = ground arith in
      let not_two : (lead / 32 * 32 == 0xc0) ≡ false = ground arith in
      rw (classify_lead-arith lead h) (
        rw (not_two, class, more)
          (rw
            (
              continue_sequence-arith a ha 1 (lead % 16) (b ∷ rest) (omega arith),
              continue_sequence-arith b hb 0 (lead % 16 * 64 + a % 64) rest (omega arith),
            )
            (unfold continue_sequence in ground arith)))

  pub read_four :
      (a b c : ℕ) (rest : Bytes)
      → a < 256
      → b < 256
      → c < 256
      → lead / 8 * 8 ≡ 0xf0
      → read_sequence lead (a ∷ b ∷ c ∷ rest) ≡ (
          if a / 64 * 64 == 0x80 && (b / 64 * 64 == 0x80 && c / 64 * 64 == 0x80)
          then finish_sequence 0x10000
              (((lead % 8 * 64 + a % 64) * 64 + b % 64) * 64 + c % 64, rest)
          else none)
  unfolding read_sequence
  read_four a b c rest ha hb hc class =
      let more : leb lead 0x7f ≡ false = ground arith in
      let not_two : (lead / 32 * 32 == 0xc0) ≡ false = ground arith in
      let not_three : (lead / 16 * 16 == 0xe0) ≡ false = ground arith in
      rw (classify_lead-arith lead h) (
        rw (not_two, not_three, class, more)
          (rw
            (
              continue_sequence-arith a ha 2 (lead % 8) (b ∷ c ∷ rest) (omega arith),
              continue_sequence-arith b hb 1 (lead % 8 * 64 + a % 64) (c ∷ rest) (omega arith),
              continue_sequence-arith c hc 0 ((lead % 8 * 64 + a % 64) * 64 + b % 64) rest
                  (omega arith),
            )
            (unfold continue_sequence in ground arith)))

-- What a round that does not reject has read.
pub record Decoded (bytes behind : Bytes) : Type 0 where
  pub scalar : ℕ
  pub is_scalar : IsScalar scalar
  pub spelled : bytes ≡ encode scalar ++ behind

-- Too few bytes for the lead: `index + continuation_count >= bytes.size()`.
module _ (lead : ℕ) (h : lead < 256) (rest : Bytes) where
  read_short_two : lead / 32 * 32 ≡ 0xc0 → length rest < 1 → read_sequence lead rest ≡ none
  unfolding read_sequence
  read_short_two class short =
      let more : leb lead 0x7f ≡ false = ground arith in
      rw (classify_lead-arith lead h) (rw (class, more) (ground arith))

  read_short_three : lead / 16 * 16 ≡ 0xe0 → length rest < 2 → read_sequence lead rest ≡ none
  unfolding read_sequence
  read_short_three class short =
      let more : leb lead 0x7f ≡ false = ground arith in
      let not_two : (lead / 32 * 32 == 0xc0) ≡ false = ground arith in
      rw (classify_lead-arith lead h) (rw (not_two, class, more) (ground arith))

  read_short_four : lead / 8 * 8 ≡ 0xf0 → length rest < 3 → read_sequence lead rest ≡ none
  unfolding read_sequence
  read_short_four class short =
      let more : leb lead 0x7f ≡ false = ground arith in
      let not_two : (lead / 32 * 32 == 0xc0) ≡ false = ground arith in
      let not_three : (lead / 16 * 16 == 0xe0) ≡ false = ground arith in
      rw (classify_lead-arith lead h) (rw (not_two, not_three, class, more) (ground arith))

  -- Neither ASCII nor a lead byte.
  read_no_lead :
      leb lead 0x7f ≡ false
      → (lead / 32 * 32 == 0xc0) ≡ false
      → (lead / 16 * 16 == 0xe0) ≡ false
      → (lead / 8 * 8 == 0xf0) ≡ false
      → read_sequence lead rest ≡ none
  unfolding read_sequence
  read_no_lead more not_two not_three not_four =
      rw (classify_lead-arith lead h) (rw (not_two, not_three, not_four, more))

none_ne_some : {o : Option Bytes} {b : Bytes} → o ≡ none → o ≡ some b → ⊥
none_ne_some e f = cc

module _ (lead : ℕ) (h : lead < 256) {behind : Bytes} where
  Decoded-two :
      (rest : Bytes)
      → All IsByte rest
      → lead / 32 * 32 ≡ 0xc0
      → read_sequence lead rest ≡ some behind
      → Decoded (lead ∷ rest) behind
  Decoded-two [] bs class e = absurd (none_ne_some (read_short_two lead h [] class (omega arith)) e)
  Decoded-two (a ∷ rest) bs class e =
      let read = rw (read_two lead h a rest bs.0 class) at e in
      record {
        scalar = lead % 32 * 64 + a % 64;
        is_scalar = unfold finish_sequence is_rejected in ground arith;
        spelled = unfold finish_sequence is_rejected encode in ground arith;
      }

  Decoded-three :
      (rest : Bytes)
      → All IsByte rest
      → lead / 16 * 16 ≡ 0xe0
      → read_sequence lead rest ≡ some behind
      → Decoded (lead ∷ rest) behind
  Decoded-three [] bs class e =
      absurd (none_ne_some (read_short_three lead h [] class (omega arith)) e)
  Decoded-three (a ∷ []) bs class e =
      absurd (none_ne_some (read_short_three lead h (a ∷ []) class (omega arith)) e)
  Decoded-three (a ∷ b ∷ rest) bs class e =
      let read = rw (read_three lead h a b rest bs.0 bs.1.0 class) at e in
      record {
        scalar = (lead % 16 * 64 + a % 64) * 64 + b % 64;
        is_scalar = unfold finish_sequence is_rejected in ground arith;
        spelled = unfold finish_sequence is_rejected encode in ground arith;
      }

  Decoded-four :
      (rest : Bytes)
      → All IsByte rest
      → lead / 8 * 8 ≡ 0xf0
      → read_sequence lead rest ≡ some behind
      → Decoded (lead ∷ rest) behind
  Decoded-four [] bs class e =
      absurd (none_ne_some (read_short_four lead h [] class (omega arith)) e)
  Decoded-four (a ∷ []) bs class e =
      absurd (none_ne_some (read_short_four lead h (a ∷ []) class (omega arith)) e)
  Decoded-four (a ∷ b ∷ []) bs class e =
      absurd (none_ne_some (read_short_four lead h (a ∷ b ∷ []) class (omega arith)) e)
  Decoded-four (a ∷ b ∷ c ∷ rest) bs class e =
      let read = rw (read_four lead h a b c rest bs.0 bs.1.0 bs.1.1.0 class) at e in
      record {
        scalar = ((lead % 8 * 64 + a % 64) * 64 + b % 64) * 64 + c % 64;
        is_scalar = unfold finish_sequence is_rejected in ground arith;
        spelled = unfold finish_sequence is_rejected encode in ground arith;
      }

  pub read_sequence-Decoded :
      (rest : Bytes)
      → All IsByte rest
      → read_sequence lead rest ≡ some behind
      → Decoded (lead ∷ rest) behind
  read_sequence-Decoded rest bs e = elim (Bool-cases (leb lead 0x7f)) [
    | inl ascii ↦ record {
      scalar = lead;
      is_scalar = inl (ground arith);
      spelled = unfold read_sequence encode in ground arith;
    }
    | inr more ↦ elim (Bool-cases (lead / 32 * 32 == 0xc0)) [
      | inl two ↦ Decoded-two rest bs (eq_of_== _ _ two) e
      | inr not_two ↦ elim (Bool-cases (lead / 16 * 16 == 0xe0)) [
        | inl three ↦ Decoded-three rest bs (eq_of_== _ _ three) e
        | inr not_three ↦ elim (Bool-cases (lead / 8 * 8 == 0xf0)) [
          | inl four ↦ Decoded-four rest bs (eq_of_== _ _ four) e
          | inr not_four ↦
              absurd (none_ne_some (read_no_lead lead h rest more not_two not_three not_four) e)
        ]
      ]
    ]
  ]
