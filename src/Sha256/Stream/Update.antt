-- ===== src/Sha256/Stream/Update.antt =====
-- `update`: the object holds the message that it held, with the new bytes behind it.
use getbiblesword.Prelude.{
  ℕ, ◌+◌, ◌-◌, ◌%◌, ◌^◌, ◌≤◌, ◌≡◌, refl, sym, ap, ap₂, ◌∙◌, arith, inl, inr, List, [], ◌∷◌, ◌++◌,
  append-nil, append_assoc, Bytes, length, take, drop, concat, All-append, take-append-drop,
  take-append, drop-all, length-append, length-drop, Bool-cases, ltb, le_of_not_ltb, not_ltb_of_le,
}
use getbiblesword.Sha256.Compress.{initial_state}
use getbiblesword.Sha256.Padding.{IsBlock, absorb, absorb-append, concat-append, length-concat}
use getbiblesword.Sha256.Stream.{HoldsOf, Consumes, transform_blocks-Consumes, length-write_at}
use getbiblesword.Sha256.Stream.Fill.{Fills, fill_buffer-Fills}
use getbiblesword.Sha256.{
  Sha256, new, fill_buffer, transform_blocks, keep_rest, update_some, update,
}

no_bytes : (xs : Bytes) → length xs ≡ 0 → xs ≡ []
no_bytes [] e = refl
no_bytes (x ∷ xs) e = absurd (omega arith)

module _ (s : Sha256) (message bytes : Bytes) (offset : ℕ) (result : List ℕ × ℕ)
    (h : HoldsOf s message) (c : Consumes s.state bytes offset result) where
  abbrev left : Bytes
  left = drop result.1 bytes

  length-left : length left ≡ length bytes - result.1
  length-left = length-drop result.1 bytes

  all_blocks : absorb initial_state (h.blocks ++ c.blocks) ≡ result.0
  all_blocks =
      absorb-append initial_state h.blocks c.blocks
      ∙ ap (λ (t : List ℕ). absorb t c.blocks) (sym h.state_is)
      ∙ sym c.state_is

  module _ (empty : s.buffer_size ≡ 0) where
    regroup : message ++ drop offset bytes ≡ concat (h.blocks ++ c.blocks) ++ left
    regroup =
        let no_rest : h.rest ≡ [] = no_bytes h.rest (sym h.size_is ∙ empty) in
        let whole : message ≡ concat h.blocks =
          h.split ∙ rw no_rest (append-nil (concat h.blocks)) in
        ap₂ (λ (x y : Bytes). x ++ y) whole c.split ∙ simp (concat-append, append_assoc)

    keep_rest-Holds-empty :
        HoldsOf
          (keep_rest (record s { state = result.0 }) bytes result.1)
          (message ++ drop offset bytes)
    unfolding keep_rest
    keep_rest-Holds-empty = elim (Bool-cases (ltb result.1 (length bytes))) [
      | inl some_left ↦ rw some_left (record {
        blocks = h.blocks ++ c.blocks;
        are_blocks = All-append IsBlock h.blocks c.blocks h.are_blocks c.are_blocks;
        rest = left;
        split = regroup;
        rest_is_short = omega (arith, length-left, c.few_left);
        size_is = sym length-left;
        buffered = take-append (length bytes - result.1) left _ length-left;
        buffer_length =
            length-write_at s.buffer 0 left
              (omega (arith, length-left, c.few_left, h.buffer_length))
            ∙ h.buffer_length;
        state_is = sym all_blocks;
      })
      | inr none_left ↦ rw none_left (record {
        blocks = h.blocks ++ c.blocks;
        are_blocks = All-append IsBlock h.blocks c.blocks h.are_blocks c.are_blocks;
        rest = [];
        split =
            regroup
            ∙ ap (λ (t : Bytes). concat (h.blocks ++ c.blocks) ++ t)
                (drop-all result.1 bytes (le_of_not_ltb result.1 (length bytes) none_left));
        rest_is_short = omega arith;
        size_is = empty;
        buffered = rw empty refl;
        buffer_length = h.buffer_length;
        state_is = sym all_blocks;
      })
    ]

  -- With nothing left to read, neither the loop nor the last branch does anything.
  module _ (exhausted : offset ≡ length bytes) where
    nothing_left : drop offset bytes ≡ []
    nothing_left = drop-all offset bytes (omega arith)

    no_blocks : c.blocks ≡ []
    no_blocks = none c.blocks (
        omega (
          arith,
          length-concat c.blocks c.are_blocks,
          length-append (concat c.blocks) left,
          ap length (sym c.split ∙ nothing_left),
        ))
      where
        none : (bs : List Bytes) → length bs ≡ 0 → bs ≡ []
        none [] e = refl
        none (b ∷ bs) e = absurd (omega arith)

    state_kept : result.0 ≡ s.state
    state_kept = c.state_is ∙ rw no_blocks

    keep_rest-Holds-exhausted :
        HoldsOf
          (keep_rest (record s { state = result.0 }) bytes result.1)
          (message ++ drop offset bytes)
    unfolding keep_rest
    keep_rest-Holds-exhausted =
        let all_read : length bytes ≤ result.1 = omega (
          arith,
          length-left,
          length-append (concat c.blocks) left,
          ap length (sym c.split ∙ nothing_left),
        ) in
        rw (not_ltb_of_le result.1 (length bytes) all_read, nothing_left, append-nil, state_kept) h

-- The object has taken in this message, and counted its bytes.
pub record Streams (s : Sha256) (message : Bytes) : Type 0 where
  pub holds : HoldsOf s message
  pub counted : s.total_bytes ≡ length message % 2 ^ 64

pub new-Streams : Streams new []
new-Streams = record {
  holds = record {
    blocks = [];
    are_blocks = tt;
    rest = [];
    split = refl;
    rest_is_short = omega arith;
    size_is = refl;
    buffered = refl;
    buffer_length = refl;
    state_is = refl;
  };
  counted = refl;
}

-- The branch, the loop and the last branch in turn, from what the first of them leaves.
module _ (s : Sha256) (message bytes : Bytes) (h : HoldsOf s message) where
  rejoin : (k : ℕ) → (message ++ take k bytes) ++ drop k bytes ≡ message ++ bytes
  rejoin k = append_assoc message (take k bytes) (drop k bytes) ∙ rw take-append-drop

  loop_and_rest-Holds :
      (step : Sha256 × ℕ)
      → Fills s message bytes step
      → (result : List ℕ × ℕ) → Consumes step.0.state bytes step.1 result
      → HoldsOf (keep_rest (record step.0 { state = result.0 }) bytes result.1) (message ++ bytes)
  loop_and_rest-Holds step f result c = rw (← rejoin step.1) (elim f.emptied [
    | inl empty ↦
        keep_rest-Holds-empty step.0 (message ++ take step.1 bytes) bytes step.1 result f.holds c
          empty
    | inr exhausted ↦
        keep_rest-Holds-exhausted step.0 (message ++ take step.1 bytes) bytes step.1 result f.holds
          c exhausted
  ])

module _ (s : Sha256) (message bytes : Bytes) (h : HoldsOf s message) where
  abbrev counted : Sha256
  counted = record s { total_bytes = (s.total_bytes + length bytes) % 2 ^ 64 }

  update_some-Holds : HoldsOf (update_some s bytes) (message ++ bytes)
  unfolding update_some
  update_some-Holds =
      let f = fill_buffer-Fills counted message bytes h in
      let step = fill_buffer counted bytes in
      loop_and_rest-Holds counted message bytes h step f
        (transform_blocks (length bytes) step.0.state bytes step.1)
        (transform_blocks-Consumes (length bytes) step.0.state bytes step.1 f.in_range
          (omega arith))

  total_bytes-update_some :
      (update_some s bytes).total_bytes ≡ (s.total_bytes + length bytes) % 2 ^ 64
  unfolding update_some
  total_bytes-update_some = ground arith

pub update-Streams :
    (s : Sha256) (message bytes : Bytes)
    → Streams s message
    → Streams (update s bytes) (message ++ bytes)
unfolding update
update-Streams s message [] h = rw append-nil h
update-Streams s message (x ∷ xs) h = record {
  holds = update_some-Holds s message (x ∷ xs) h.holds;
  counted =
      total_bytes-update_some s message (x ∷ xs) h.holds
      ∙ omega (arith, h.counted, length-append message (x ∷ xs));
}
