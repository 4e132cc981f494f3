-- ===== src/Sha256/Stream/Fill.antt =====
-- The branch of `update` that completes the buffer.
use getbiblesword.Prelude.{
  ℕ, ◌+◌, ◌-◌, ◌≤◌, ◌<◌, min, ◌≡◌, refl, sym, ap, ◌∙◌, arith, ◌⊎◌, inl, inr, false, List, [], ◌∷◌,
  ◌++◌, append-nil, append_assoc, Bytes, length, take, concat, All-append, take-all, length-append,
  length-take, Bool-cases, ◌==◌, eq_of_==,
}
use getbiblesword.Sha256.Compress.{transform}
use getbiblesword.Sha256.Padding.{IsBlock, absorb-append, concat-append}
use getbiblesword.Sha256.Stream.{Holds, HoldsOf, length-write_at, take-write_at}
use getbiblesword.Sha256.{Sha256, write_at, fill_buffer}

-- The first `count` bytes behind what the buffer holds.
module _ (state : List ℕ) (buffer : Bytes) (size : ℕ) (message bytes : Bytes) (count : ℕ)
    (held : Holds state buffer size message) (available : count ≤ length bytes)
    (fits : size + count ≤ 64) where
  abbrev piece : Bytes
  piece = take count bytes

  length-piece : length piece ≡ count
  length-piece = omega (arith, length-take count bytes)

  abbrev filled : Bytes
  filled = write_at buffer size piece

  length-filled : length filled ≡ 64
  length-filled =
      length-write_at buffer size piece (omega (arith, length-piece, held.buffer_length))
      ∙ held.buffer_length

  take-filled : take (size + count) filled ≡ held.rest ++ piece
  take-filled =
      ap (λ (n : ℕ). take (size + n) (write_at buffer size piece)) (sym length-piece)
      ∙ take-write_at buffer size piece (omega (arith, length-piece, held.buffer_length))
      ∙ ap (λ (t : Bytes). t ++ piece) held.buffered

  regroup : message ++ piece ≡ concat held.blocks ++ (held.rest ++ piece)
  regroup =
      ap (λ (t : Bytes). t ++ piece) held.split ∙ append_assoc (concat held.blocks) held.rest piece

  Holds-partial : size + count < 64 → Holds state filled (size + count) (message ++ piece)
  Holds-partial short = record {
    blocks = held.blocks;
    are_blocks = held.are_blocks;
    rest = held.rest ++ piece;
    split = regroup;
    rest_is_short = omega (arith, length-append held.rest piece, length-piece, held.size_is);
    size_is = omega (arith, length-append held.rest piece, length-piece, held.size_is);
    buffered = take-filled;
    buffer_length = length-filled;
    state_is = held.state_is;
  }

  Holds-full : size + count ≡ 64 → Holds (transform state filled) filled 0 (message ++ piece)
  Holds-full full =
      let whole : filled ≡ held.rest ++ piece =
        sym (take-all (size + count) filled (omega (arith, length-filled))) ∙ take-filled in
      record {
        blocks = held.blocks ++ (filled ∷ []);
        are_blocks =
            All-append IsBlock held.blocks (filled ∷ []) held.are_blocks (length-filled, tt);
        rest = [];
        split =
            regroup
            ∙ ap (λ (t : Bytes). concat held.blocks ++ t) (sym whole)
            ∙ simp (concat-append, append-nil);
        rest_is_short = omega arith;
        size_is = refl;
        buffered = refl;
        buffer_length = length-filled;
        state_is = rw absorb-append (ap (λ (t : List ℕ). transform t filled) held.state_is);
      }

-- What the branch leaves: an empty buffer, or no more bytes to read.
pub record Fills (s : Sha256) (message bytes : Bytes) (result : Sha256 × ℕ) : Type 0 where
  pub in_range : result.1 ≤ length bytes
  pub holds : HoldsOf result.0 (message ++ take result.1 bytes)
  pub emptied : (result.0.buffer_size ≡ 0) ⊎ (result.1 ≡ length bytes)
  pub total_kept : result.0.total_bytes ≡ s.total_bytes

module _ (s : Sha256) (message bytes : Bytes) (h : HoldsOf s message) where
  pub fill_buffer-Fills : Fills s message bytes (fill_buffer s bytes)
  unfolding fill_buffer
  fill_buffer-Fills = elim (Bool-cases (s.buffer_size == 0)) [
    | inl empty ↦ rw empty (record {
      in_range = omega arith;
      holds = rw append-nil h;
      emptied = inl (eq_of_== s.buffer_size 0 empty);
      total_kept = refl;
    })
    | inr occupied ↦
        let count = min (64 - s.buffer_size) (length bytes) in
        let short : s.buffer_size < 64 = omega (arith, h.size_is, h.rest_is_short) in
        rw occupied (elim (Bool-cases (s.buffer_size + count == 64)) [
          | inl full ↦ rw full (record {
            in_range = omega arith;
            holds =
                Holds-full s.state s.buffer s.buffer_size message bytes count h (omega arith)
                  (omega arith) (eq_of_== _ 64 full);
            emptied = inl refl;
            total_kept = refl;
          })
          | inr partial ↦
              let less : s.buffer_size + count < 64 = ne_64 partial in
              rw partial (record {
                in_range = omega arith;
                holds =
                    Holds-partial s.state s.buffer s.buffer_size message bytes count h (omega arith)
                      (omega arith) less;
                emptied = inr (omega arith);
                total_kept = refl;
              })
        ])
  ]
    where
      ne_64 :
          (s.buffer_size + min (64 - s.buffer_size) (length bytes) == 64) ≡ false
          → s.buffer_size + min (64 - s.buffer_size) (length bytes) < 64
      ne_64 e = ground (arith, h.size_is, h.rest_is_short)
