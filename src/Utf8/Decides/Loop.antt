-- ===== src/Utf8/Decides/Loop.antt =====
-- The loop of `is_valid_utf8`: it accepts the bytes that spell scalar values, and no others.
use getbiblesword.Prelude.{
  ℕ, zero, suc, ◌≤◌, ◌≡◌, ◌↔◌, refl, sym, ap, subst, ◌∙◌, arith, inl, inr, true, false, none, some,
  List, [], ◌∷◌, ◌++◌, Bytes, IsByte, All, length, length-append, Option-cases,
}
use getbiblesword.Utf8.{read_sequence, sequences_valid, is_valid_utf8}
use getbiblesword.Utf8.Scalar.{IsScalar, encode, encode_all, IsUtf8}
use getbiblesword.Utf8.Decides.Sequence.{read_sequence-Decoded}
use getbiblesword.Utf8.Decides.Complete.{read_bytes, read_sequence-encode, length-encode}

All-append_right : (xs ys : Bytes) → All IsByte (xs ++ ys) → All IsByte ys
All-append_right [] ys h = h
All-append_right (x ∷ xs) ys h = All-append_right xs ys h.1

-- One round, on any bytes.
sequences_valid-suc :
    (fuel : ℕ) (bytes behind : Bytes)
    → read_bytes bytes ≡ some behind
    → sequences_valid (suc fuel) bytes ≡ sequences_valid fuel behind
unfolding sequences_valid
sequences_valid-suc fuel [] behind e = cc
sequences_valid-suc fuel (lead ∷ rest) behind e = rw (e, sequences_valid)

sequences_valid_rejected :
    (fuel lead : ℕ) (rest : Bytes)
    → read_sequence lead rest ≡ none
    → sequences_valid (suc fuel) (lead ∷ rest) ≡ false
unfolding sequences_valid
sequences_valid_rejected fuel lead rest e = rw (e, sequences_valid)

sequences_valid-IsUtf8 :
    (fuel : ℕ) (bytes : Bytes) → All IsByte bytes → sequences_valid fuel bytes ≡ true → IsUtf8 bytes
unfolding sequences_valid
sequences_valid-IsUtf8 fuel [] h e = record { scalars = []; are_scalars = tt; spelled = refl }
sequences_valid-IsUtf8 zero (lead ∷ rest) h e = cc
sequences_valid-IsUtf8 (suc fuel) (lead ∷ rest) h e =
    elim (Option-cases (read_sequence lead rest)) [
      | inl rejected ↦
          absurd (false_ne_true (sym (sequences_valid_rejected fuel lead rest rejected) ∙ e))
      | inr (behind, read) ↦
          let d = read_sequence-Decoded lead h.0 rest h.1 read in
          let bytes_behind =
            All-append_right (encode d.scalar) behind (subst (All IsByte) d.spelled h) in
          let later =
            sequences_valid-IsUtf8 fuel behind bytes_behind
              (sym (sequences_valid-suc fuel (lead ∷ rest) behind read) ∙ e) in
          record {
            scalars = d.scalar ∷ later.scalars;
            are_scalars = (d.is_scalar, later.are_scalars);
            spelled = d.spelled ∙ ap (λ (t : Bytes). encode d.scalar ++ t) later.spelled;
          }
    ]
  where
    false_ne_true : false ≡ true → ⊥
    false_ne_true x = cc

sequences_valid-encode_all :
    (cs : List ℕ) (fuel : ℕ)
    → All IsScalar cs
    → length (encode_all cs) ≤ fuel
    → sequences_valid fuel (encode_all cs) ≡ true
sequences_valid-encode_all [] zero h f = unfold sequences_valid in refl
sequences_valid-encode_all [] (suc fuel) h f = unfold sequences_valid in refl
sequences_valid-encode_all (c ∷ cs) zero h f =
    absurd (omega (arith, length-append (encode c) (encode_all cs), length-encode c h.0 []))
sequences_valid-encode_all (c ∷ cs) (suc fuel) h f =
    sequences_valid-suc fuel (encode c ++ encode_all cs) (encode_all cs)
      (read_sequence-encode c h.0 (encode_all cs))
    ∙ sequences_valid-encode_all cs fuel h.1
        (omega (arith, length-append (encode c) (encode_all cs), length-encode c h.0 []))

-- The validator decides well-formedness: it accepts exactly the bytes that RFC 3629 gives to some
-- sequence of scalar values.
pub is_valid_utf8-IsUtf8 :
    (bytes : Bytes) → All IsByte bytes → (is_valid_utf8 bytes ≡ true) ↔ IsUtf8 bytes
unfolding is_valid_utf8
is_valid_utf8-IsUtf8 bytes h = (
  sequences_valid-IsUtf8 (length bytes) bytes h,
  λ u. rw u.spelled (sequences_valid-encode_all u.scalars _ u.are_scalars (omega arith)),
)
