-- ===== src/SourceEncoding/WellFormed.antt =====
-- What `source_utf8` gives is UTF-8.
use getbiblesword.Prelude.{
  ℕ, ◌-◌, ◌^◌, ◌≡◌, refl, subst, ◌↔◌, inl, inr, false, Option, none, some, List, [], Bytes, codes,
  IsByte, All, length, ltb, Bool-cases,
}
use getbiblesword.CallbackStream.{is_empty}
use getbiblesword.CommandLine.{same_text}
use getbiblesword.Utf8.{is_valid_utf8}
use getbiblesword.Utf8.Scalar.{IsUtf8}
use getbiblesword.Utf8.Decides.Loop.{is_valid_utf8-IsUtf8}
use getbiblesword.SourceEncoding.{
  Status, zero_error, has_failed, has_failed_otherwise, Icu, lower, converter_name, write_utf8,
  convert, convert_by, decode_named, source_utf8,
}

-- What ICU documents of `u_strToUTF8`: where it succeeds the buffer holds the text in UTF-8; an
-- unpaired surrogate is an error.
pub record WritesUtf8 (icu : Icu) : Type 0 where
  pub writes :
      (capacity : ℕ) (unicode : List ℕ)
      → has_failed (icu.u_str_to_utf8 capacity unicode zero_error).status ≡ false
      → IsUtf8 (icu.u_str_to_utf8 capacity unicode zero_error).buffer

none_ne_some : {text : Bytes} → none ≡ some text → ⊥
none_ne_some h = cc

some_eq : {a b : Bytes} → some a ≡ some b → a ≡ b
some_eq h = cc

module _ (icu : Icu) (w : WritesUtf8 icu) (text : Bytes) where
  write_utf8-IsUtf8 :
      (unicode : List ℕ) (status : Status) → write_utf8 icu unicode status ≡ some text → IsUtf8 text
  unfolding write_utf8
  write_utf8-IsUtf8 unicode status h =
      let measured = icu.u_str_to_utf8 0 unicode status in
      elim (Bool-cases (has_failed_otherwise measured.status)) [
        | inl bad ↦ absurd (none_ne_some (rw bad at h))
        | inr fine ↦
            elim (Bool-cases
              (has_failed (icu.u_str_to_utf8 measured.size unicode zero_error).status)) [
                | inl bad ↦ absurd (none_ne_some (rw (fine, bad) at h))
                | inr good ↦
                    subst IsUtf8 (some_eq (rw (fine, good) at h))
                      (w.writes measured.size unicode good)
              ]
      ]

  convert-IsUtf8 :
      (c : icu.Converter × Status) (raw : Bytes) → convert icu c raw ≡ some text → IsUtf8 text
  unfolding convert
  convert-IsUtf8 (converter, status) raw h =
      let measured = icu.ucnv_to_uchars converter 0 raw status in
      let read = icu.ucnv_to_uchars converter measured.size raw zero_error in
      elim (Bool-cases (has_failed_otherwise measured.status)) [
        | inl bad ↦ absurd (none_ne_some (rw bad at h))
        | inr fine ↦ elim (Bool-cases (has_failed read.status)) [
          | inl bad ↦ absurd (none_ne_some (rw (fine, bad) at h))
          | inr good ↦ write_utf8-IsUtf8 read.buffer read.status (rw (fine, good) at h)
        ]
      ]

  convert_by-IsUtf8 :
      (c : Option icu.Converter) (raw : Bytes) → convert_by icu c raw ≡ some text → IsUtf8 text
  unfolding convert_by
  convert_by-IsUtf8 none raw h = absurd (none_ne_some h)
  convert_by-IsUtf8 (some converter) raw h = convert-IsUtf8 (icu.stop_at_errors converter) raw h

  decode_named-IsUtf8 :
      (name : Option Bytes) (raw : Bytes) → decode_named icu name raw ≡ some text → IsUtf8 text
  unfolding decode_named
  decode_named-IsUtf8 none raw h = absurd (none_ne_some h)
  decode_named-IsUtf8 (some name) raw h = elim (Bool-cases (is_empty raw)) [
    | inl empty ↦
        subst IsUtf8 (some_eq (rw empty at h))
          (record { scalars = []; are_scalars = tt; spelled = refl })
    | inr bytes ↦ elim (Bool-cases (ltb (2 ^ 31 - 1) (length raw))) [
      | inl long ↦ absurd (none_ne_some (rw (bytes, long) at h))
      | inr fits ↦ convert_by-IsUtf8 (icu.ucnv_open name) raw (rw (bytes, fits) at h)
    ]
  ]

  -- Where ICU writes UTF-8, a projection that `source_utf8` gives of any bytes is well-formed UTF-8,
  -- whatever the declared encoding is.
  pub source_utf8-IsUtf8 :
      (raw encoding : Bytes)
      → All IsByte raw
      → source_utf8 icu raw encoding ≡ some text
      → IsUtf8 text
  unfolding source_utf8
  source_utf8-IsUtf8 raw encoding h e =
      elim (Bool-cases (same_text (lower encoding) (codes "utf-8"))) [
        | inl utf8 ↦ elim (Bool-cases (is_valid_utf8 raw)) [
          | inl valid ↦
              subst IsUtf8 (some_eq (rw (utf8, valid) at e)) ((is_valid_utf8-IsUtf8 raw h).0 valid)
          | inr invalid ↦ absurd (none_ne_some (rw (utf8, invalid) at e))
        ]
        | inr named ↦ decode_named-IsUtf8 (converter_name raw (lower encoding)) raw (rw named at e)
      ]

-- A source that is declared as UTF-8, in any case of letters, is given as it is exactly where it is
-- well-formed, and else not at all.
pub source_utf8-declared :
    (icu : Icu) (raw encoding : Bytes)
    → All IsByte raw
    → lower encoding ≡ codes "utf-8"
    → (source_utf8 icu raw encoding ≡ some raw) ↔ IsUtf8 raw
unfolding source_utf8 same_text
source_utf8-declared icu raw encoding h e = rw e (
  λ given. elim (Bool-cases (is_valid_utf8 raw)) [
    | inl valid ↦ (is_valid_utf8-IsUtf8 raw h).0 valid
    | inr invalid ↦ absurd (none_ne_some (rw invalid at given))
  ],
  λ u. rw ((is_valid_utf8-IsUtf8 raw h).1 u) refl,
)
