-- ===== src/Utf8/Decides/Complete.antt =====
-- One round of the loop reads the encoding of any scalar value, whatever stands behind it.
use getbiblesword.Prelude.{
  ℕ, ◌+◌, ◌/◌, ◌%◌, ◌<◌, ◌≡◌, arith, inl, inr, Option, none, some, [], ◌∷◌, ◌++◌, Bytes, IsByte,
  All, ltb, Bool-cases, length,
}
use getbiblesword.Utf8.{is_rejected, finish_sequence, read_sequence}
use getbiblesword.Utf8.Scalar.{IsScalar, encode}
use getbiblesword.Utf8.Decides.Sequence.{read_two, read_three, read_four}

abbrev pub read_bytes : Bytes → Option Bytes
read_bytes [] = none
read_bytes (lead ∷ rest) = read_sequence lead rest

module _ (c : ℕ) (s : IsScalar c) (behind : Bytes) where
  pub read_sequence-encode : read_bytes (encode c ++ behind) ≡ some behind
  unfolding encode
  read_sequence-encode = elim (Bool-cases (ltb c 0x80)) [
    | inl one ↦ rw one (unfold read_sequence in ground arith)
    | inr more ↦ elim (Bool-cases (ltb c 0x800)) [
      | inl two ↦
          rw (more, two)
            (rw
              (read_two (0xc0 + c / 64) (ground arith) (0x80 + c % 64) behind (omega arith)
                (ground arith))
              (unfold finish_sequence is_rejected in ground arith))
      | inr more' ↦ elim (Bool-cases (ltb c 0x10000)) [
        | inl three ↦
            rw (more, more', three)
              (rw
                (read_three (0xe0 + c / 4096) (ground arith) (0x80 + c / 64 % 64) (0x80 + c % 64)
                  behind (omega arith) (omega arith) (ground arith))
                (unfold finish_sequence is_rejected in ground arith))
        | inr four ↦
            rw (more, more', four)
              (rw
                (read_four (0xf0 + c / 262144) (ground arith) (0x80 + c / 4096 % 64)
                  (0x80 + c / 64 % 64) (0x80 + c % 64) behind (omega arith) (omega arith)
                  (omega arith) (ground arith))
                (unfold finish_sequence is_rejected in ground arith))
      ]
    ]
  ]

  -- The encoding is not empty, and its bytes are bytes.
  pub encode-IsByte : All IsByte (encode c)
  unfolding encode
  encode-IsByte = ground arith

  pub length-encode : 0 < length (encode c)
  unfolding encode
  length-encode = ground arith
