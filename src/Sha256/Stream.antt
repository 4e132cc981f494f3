-- ===== src/Sha256/Stream.antt =====
-- What an object holds of a message that it took in pieces, and what the loop of `update` consumes.
pub mod Fill
pub mod Update
pub mod Finalize
use getbiblesword.Prelude.{
  ℕ, zero, suc, ◌+◌, ◌-◌, ◌*◌, ◌%◌, ◌^◌, ◌≤◌, ◌<◌, min, ◌≡◌, refl, sym, ap, ap₂, ◌∙◌, arith, ◌⊎◌,
  inl, inr, Bool, true, false, List, [], ◌∷◌, ◌++◌, append-nil, append_assoc, Bytes, length, take,
  drop, concat, All, All-append, take-append-drop, take-append, take-all, drop-all, drop-drop,
  length-append, length-take, length-drop, Bool-cases, leb, ltb, ◌==◌, le_of_leb, lt_of_not_leb,
  lt_of_ltb, le_of_not_ltb, eq_of_==,
}
use getbiblesword.Sha256.Compress.{initial_state, transform}
use getbiblesword.Sha256.Padding.{absorb, IsBlock, absorb-append, concat-append}
use getbiblesword.Sha256.{
  Sha256, write_at, fill_buffer, transform_blocks, keep_rest, update_some, update, new,
}

module _ (target : Bytes) (offset : ℕ) (bytes : Bytes)
    (fits : offset + length bytes ≤ length target) where
  pub length-write_at : length (write_at target offset bytes) ≡ length target
  unfolding write_at
  length-write_at = omega (
    arith,
    length-append (take offset target) (bytes ++ drop (offset + length bytes) target),
    length-append bytes (drop (offset + length bytes) target),
    length-take offset target,
    length-drop (offset + length bytes) target,
  )

  -- Up to the end of what was written.
  pub take-write_at :
      take (offset + length bytes) (write_at target offset bytes) ≡ take offset target ++ bytes
  unfolding write_at
  take-write_at = rw (← append_assoc) (
      take-append (offset + length bytes) (take offset target ++ bytes) _
        (omega (arith, length-append (take offset target) bytes, length-take offset target)))

-- The state has taken in the message's full blocks, and the buffer begins with the rest.
pub record Holds (state : List ℕ) (buffer : Bytes) (size : ℕ) (message : Bytes) : Type 0 where
  pub blocks : List Bytes
  pub are_blocks : All IsBlock blocks
  pub rest : Bytes
  pub split : message ≡ concat blocks ++ rest
  pub rest_is_short : length rest < 64
  pub size_is : size ≡ length rest
  pub buffered : take size buffer ≡ rest
  pub buffer_length : length buffer ≡ 64
  pub state_is : state ≡ absorb initial_state blocks

-- What the loop over whole blocks has consumed.
pub record Consumes (state : List ℕ) (bytes : Bytes) (offset : ℕ) (result : List ℕ × ℕ)
    : Type 0 where
  pub blocks : List Bytes
  pub are_blocks : All IsBlock blocks
  pub state_is : result.0 ≡ absorb state blocks
  pub split : drop offset bytes ≡ concat blocks ++ drop result.1 bytes
  pub in_range : result.1 ≤ length bytes
  pub few_left : length bytes < result.1 + 64

module _ (state : List ℕ) (bytes : Bytes) (offset : ℕ) where
  Consumes-none :
      offset ≤ length bytes
      → length bytes < offset + 64
      → Consumes state bytes offset (state, offset)
  Consumes-none h few = record {
    blocks = [];
    are_blocks = tt;
    state_is = refl;
    split = refl;
    in_range = h;
    few_left = few;
  }

  Consumes-block :
      {result : List ℕ × ℕ}
      → offset + 64 ≤ length bytes
      → Consumes (transform state (take 64 (drop offset bytes))) bytes (offset + 64) result
      → Consumes state bytes offset result
  Consumes-block h later =
      let block = take 64 (drop offset bytes) in
      record {
        blocks = block ∷ later.blocks;
        are_blocks = (
          omega (arith, length-take 64 (drop offset bytes), length-drop offset bytes),
          later.are_blocks,
        );
        state_is = later.state_is;
        split =
            sym (take-append-drop 64 (drop offset bytes))
            ∙ ap (λ (t : Bytes). block ++ t)
                (drop-drop 64 offset (offset + 64) bytes refl ∙ later.split)
            ∙ rw append_assoc;
        in_range = later.in_range;
        few_left = later.few_left;
      }

pub transform_blocks-Consumes :
    (fuel : ℕ) (state : List ℕ) (bytes : Bytes) (offset : ℕ)
    → offset ≤ length bytes
    → length bytes ≤ fuel + offset
    → Consumes state bytes offset (transform_blocks fuel state bytes offset)
unfolding transform_blocks
transform_blocks-Consumes zero state bytes offset h f =
    Consumes-none state bytes offset h (omega arith)
transform_blocks-Consumes (suc fuel) state bytes offset h f =
    elim (Bool-cases (leb (offset + 64) (length bytes))) [
      | inr stop ↦ rw stop (Consumes-none state bytes offset h (lt_of_not_leb _ _ stop))
      | inl more ↦
          let fits : offset + 64 ≤ length bytes = le_of_leb _ _ more in
          rw more (
            Consumes-block state bytes offset fits
              (transform_blocks-Consumes fuel _ bytes (offset + 64) fits (omega arith)))
    ]

abbrev pub HoldsOf : Sha256 → Bytes → Type 0
HoldsOf s message = Holds s.state s.buffer s.buffer_size message
