-- ===== src/Sha256/Stream/Finalize/Standard.antt =====
-- `finalize`: the padding that the object adds is that of the standard, whether the length field
-- fits behind the mark or takes one more block.
use native.Mathlib.Nat.{zero-add}
use getbiblesword.Prelude.{
  ℕ, zero, suc, ◌+◌, ◌-◌, ◌*◌, ◌%◌, ◌^◌, ◌≤◌, ◌<◌, ◌≡◌, refl, sym, ap, ap₂, ◌∙◌, arith, inl, inr,
  List, [], ◌∷◌, ◌++◌, append-nil, append_assoc, Bytes, length, concat, All-append, Bool-cases, ltb,
  lt_of_ltb, le_of_not_ltb, not_ltb_of_le, ltb_of_lt,
}
use getbiblesword.Sha256.Compress.{initial_state, transform}
use getbiblesword.Sha256.Padding.{
  IsBlock, absorb-append, concat-append, big_endian, chained_digest, chained_digest-blocks,
  standard_digest, chained_digest-standard,
}
use getbiblesword.Sha256.Stream.{HoldsOf, length-write_at}
use getbiblesword.Sha256.Stream.Update.{Streams}
use getbiblesword.Sha256.Stream.Finalize.{
  zeros, length-zeros, last_block, last_block_lem, length-last_block, marked, length-marked,
  take-marked, bit_count, padded_split, length_bytes-big_endian, write_at_end,
}
use getbiblesword.Sha256.{Sha256, write_at, length_bytes, flush_full, finalize, state_bytes}

regroup : (a b c d : Bytes) → (a ++ (b ++ c)) ++ d ≡ (a ++ b) ++ (c ++ d)
regroup a b c d = simp append_assoc

zeros-append : (m n : ℕ) → zeros m ++ zeros n ≡ zeros (m + n)
zeros-append zero n = rw zero-add refl
zeros-append (suc m) n = ap (λ (t : Bytes). 0 ∷ t) (zeros-append m n) ∙ same (omega arith)
  where
    same : suc (m + n) ≡ suc m + n → zeros (suc (m + n)) ≡ zeros (suc m + n)
    same e = ap zeros e

module _ (s : Sha256) (message : Bytes) (v : Streams s message) where
  abbrev h : HoldsOf s message
  h = v.holds

  abbrev bits : ℕ
  bits = s.total_bytes * 8 % 2 ^ 64

  length_bytes-bits : length_bytes bits ≡ big_endian (bit_count s message h)
  length_bytes-bits =
      let wrapped : bits ≡ length message * 8 % 2 ^ 64 = omega (arith, v.counted) in
      ap length_bytes wrapped ∙ length_bytes-big_endian (length message * 8)

  module _ (room : s.buffer_size + 1 ≤ 56) where
    abbrev closing : Bytes
    closing =
        last_block (marked s message h).buffer (s.buffer_size + 1) room (length-marked s message h)
          bits

    finalize_room : finalize s ≡ state_bytes (transform s.state closing)
    unfolding finalize flush_full
    finalize_room = rw (not_ltb_of_le 56 (s.buffer_size + 1) room)

    closing_lem :
        closing
        ≡ ((h.rest ++ (0x80 ∷ [])) ++ zeros (56 - (s.buffer_size + 1)))
          ++ big_endian (bit_count s message h)
    closing_lem =
        last_block_lem (marked s message h).buffer (s.buffer_size + 1) room
          (length-marked s message h) bits
        ∙ ap₂ (λ (x y : Bytes). (x ++ zeros (56 - (s.buffer_size + 1))) ++ y)
            (take-marked s message h) length_bytes-bits

    closing-IsBlock : IsBlock closing
    closing-IsBlock =
        length-last_block (marked s message h).buffer (s.buffer_size + 1) room
          (length-marked s message h) bits

    finalize-standard_room : finalize s ≡ chained_digest message
    finalize-standard_room =
        finalize_room
        ∙ ap state_bytes (
            ap (λ (t : List ℕ). transform t closing) h.state_is
            ∙ sym (absorb-append initial_state h.blocks (closing ∷ [])))
        ∙ sym (
            chained_digest-blocks message (h.blocks ++ (closing ∷ []))
              (All-append IsBlock h.blocks (closing ∷ []) h.are_blocks (closing-IsBlock, tt))
              (padded_split s message h (56 - (s.buffer_size + 1)) (omega arith)
                ∙ ap (λ (t : Bytes). concat h.blocks ++ t) (sym closing_lem)
                ∙ simp (concat-append, append-nil)))

  module _ (tight : 56 < s.buffer_size + 1) where
    abbrev filled : Bytes
    filled =
        write_at (marked s message h).buffer (s.buffer_size + 1) (zeros (64 - (s.buffer_size + 1)))

    end_of_buffer : length (zeros (64 - (s.buffer_size + 1))) ≡ 63 - s.buffer_size
    end_of_buffer = omega (arith, length-zeros (64 - (s.buffer_size + 1)))

    filled-IsBlock : IsBlock filled
    filled-IsBlock =
        length-write_at (marked s message h).buffer (s.buffer_size + 1) _
          (omega (arith, end_of_buffer, length-marked s message h, h.size_is, h.rest_is_short))
        ∙ length-marked s message h

    filled_lem : filled ≡ (h.rest ++ (0x80 ∷ [])) ++ zeros (64 - (s.buffer_size + 1))
    filled_lem =
        write_at_end (marked s message h).buffer (s.buffer_size + 1) _
          (omega (arith, end_of_buffer, length-marked s message h, h.size_is, h.rest_is_short))
        ∙ ap (λ (t : Bytes). t ++ zeros (64 - (s.buffer_size + 1))) (take-marked s message h)

    abbrev extra : Bytes
    extra = last_block filled 0 (omega arith) filled-IsBlock bits

    finalize_tight : finalize s ≡ state_bytes (transform (transform s.state filled) extra)
    unfolding finalize flush_full
    finalize_tight = rw (ltb_of_lt 56 (s.buffer_size + 1) tight)

    extra_lem : extra ≡ zeros 56 ++ big_endian (bit_count s message h)
    extra_lem =
        last_block_lem filled 0 (omega arith) filled-IsBlock bits
        ∙ ap (λ (t : Bytes). zeros 56 ++ t) length_bytes-bits

    two_blocks :
        ((h.rest ++ (0x80 ∷ [])) ++ zeros (64 - (s.buffer_size + 1) + 56))
          ++ big_endian (bit_count s message h)
        ≡ filled ++ extra
    two_blocks =
        ap (λ (t : Bytes). ((h.rest ++ (0x80 ∷ [])) ++ t) ++ big_endian (bit_count s message h))
          (sym (zeros-append (64 - (s.buffer_size + 1)) 56))
        ∙ regroup (h.rest ++ (0x80 ∷ [])) (zeros (64 - (s.buffer_size + 1))) (zeros 56)
            (big_endian (bit_count s message h))
        ∙ sym (ap₂ (λ (x y : Bytes). x ++ y) filled_lem extra_lem)

    finalize-standard_tight : finalize s ≡ chained_digest message
    finalize-standard_tight =
        finalize_tight
        ∙ ap state_bytes (
            ap (λ (t : List ℕ). transform (transform t filled) extra) h.state_is
            ∙ sym (absorb-append initial_state h.blocks (filled ∷ extra ∷ [])))
        ∙ sym (
            chained_digest-blocks message (h.blocks ++ (filled ∷ extra ∷ []))
              (All-append IsBlock h.blocks (filled ∷ extra ∷ []) h.are_blocks (
                filled-IsBlock,
                (length-last_block filled 0 (omega arith) filled-IsBlock bits, tt),
              ))
              (padded_split s message h (64 - (s.buffer_size + 1) + 56)
                  (omega (arith, h.size_is, h.rest_is_short))
                ∙ ap (λ (t : Bytes). concat h.blocks ++ t) two_blocks
                ∙ simp (concat-append, append-nil)))

finalize-chained :
    (s : Sha256) (message : Bytes) → Streams s message → finalize s ≡ chained_digest message
finalize-chained s message v = elim (Bool-cases (ltb 56 (s.buffer_size + 1))) [
  | inl tight ↦ finalize-standard_tight s message v (lt_of_ltb 56 (s.buffer_size + 1) tight)
  | inr room ↦ finalize-standard_room s message v (le_of_not_ltb 56 (s.buffer_size + 1) room)
]

-- From a message taken in pieces, `finalize` computes the digest of the standard.
pub finalize-standard :
    (s : Sha256) (message : Bytes) → Streams s message → finalize s ≡ standard_digest message
finalize-standard s message v = finalize-chained s message v ∙ chained_digest-standard message
