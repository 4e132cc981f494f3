-- ===== src/SourceEncoding.antt =====
-- src/source_encoding.cpp: `source_utf8`. ICU is a parameter.
pub mod WellFormed
use getbiblesword.Prelude.{
  ℕ, zero, suc, ◌+◌, ◌-◌, ◌^◌, Bool, true, false, not, ◌&&◌, ◌||◌, Option, none, some, List, [],
  ◌∷◌, Bytes, codes, length, ltb, leb, replicate, if◌then◌else◌,
}
use getbiblesword.CallbackStream.{is_empty}
use getbiblesword.CommandLine.{same_text}
use getbiblesword.Utf8.{is_valid_utf8}

-- `UErrorCode`, as far as the code tells it apart
pub data Status : Type 0 where
  zero_error buffer_overflow failure : Status

-- `U_FAILURE(status)`; an overflow is a failure too.
abbrev pub has_failed : Status → Bool
has_failed zero_error = false
has_failed buffer_overflow = true
has_failed failure = true

-- `status != U_BUFFER_OVERFLOW_ERROR && U_FAILURE(status)`
abbrev pub has_failed_otherwise : Status → Bool
has_failed_otherwise zero_error = false
has_failed_otherwise buffer_overflow = false
has_failed_otherwise failure = true

-- What a conversion gives: the status, the length that the whole result has, and what stands in
-- the buffer of the capacity.
pub record Converted : Type 0 where
  pub status : Status
  pub size : ℕ
  pub buffer : List ℕ

-- The calls of ICU. `open` is `ucnv_open` and gives a converter where the status is no failure;
-- `stop_at_errors` is `ucnv_setToUCallBack` with `UCNV_TO_U_CALLBACK_STOP`.
pub record Icu : Type 1 where
  pub Converter : Type 0
  pub ucnv_open : Bytes → Option Converter
  pub stop_at_errors : Converter → Converter × Status
  pub ucnv_to_uchars : Converter → ℕ → Bytes → Status → Converted
  pub u_str_to_utf8 : ℕ → List ℕ → Status → Converted

unfoldable pub lower : Bytes → Bytes
lower [] = []
lower (character ∷ characters) =
    (if leb b'A' character && leb character b'Z' then character + 32 else character)
    ∷ lower characters

-- `raw.substr(0, 2) == …` for the two byte order marks
unfoldable pub has_byte_order_mark : Bytes → Bool
has_byte_order_mark [] = false
has_byte_order_mark (x ∷ []) = false
has_byte_order_mark (x ∷ y ∷ rest) =
    same_text (x ∷ y ∷ []) (0xff ∷ 0xfe ∷ []) || same_text (x ∷ y ∷ []) (0xfe ∷ 0xff ∷ [])

-- The name for ICU; the name "utf-8" does not come here.
unfoldable pub converter_name : Bytes → Bytes → Option Bytes
converter_name raw name =
    if is_empty name || same_text name (codes "latin-1")
    then some (codes "ISO-8859-1")
    else if same_text name (codes "scsu")
    then some (codes "SCSU")
    else if same_text name (codes "utf-16")
    then some (if has_byte_order_mark raw then codes "UTF-16" else codes "UTF-16LE")
    else none

module _ (icu : Icu) where
  -- From `u_strToUTF8` on: a call for the length, and one with a buffer of that length.
  unfoldable pub write_utf8 : List ℕ → Status → Option Bytes
  write_utf8 unicode status =
      let measured = icu.u_str_to_utf8 0 unicode status in
      let written = icu.u_str_to_utf8 measured.size unicode zero_error in
      if has_failed_otherwise measured.status
      then none
      else if has_failed written.status
      then none
      else some written.buffer

  -- The same in the direction to UTF-16. A failed status of `stop_at_errors` goes into the first call.
  unfoldable pub convert : icu.Converter × Status → Bytes → Option Bytes
  unfolding write_utf8
  convert (converter, status) raw =
      let measured = icu.ucnv_to_uchars converter 0 raw status in
      let read = icu.ucnv_to_uchars converter measured.size raw zero_error in
      if has_failed_otherwise measured.status
      then none
      else if has_failed read.status
      then none
      else write_utf8 read.buffer read.status

  unfoldable pub convert_by : Option icu.Converter → Bytes → Option Bytes
  convert_by none raw = none
  convert_by (some converter) raw = convert (icu.stop_at_errors converter) raw

  -- Behind the choice of the converter.
  unfoldable pub decode_named : Option Bytes → Bytes → Option Bytes
  unfolding convert_by
  decode_named none raw = none
  decode_named (some name) raw =
      if is_empty raw
      then some []
      else if ltb (2 ^ 31 - 1) (length raw)
      then none
      else convert_by (icu.ucnv_open name) raw

  unfoldable pub source_utf8 : Bytes → Bytes → Option Bytes
  unfolding decode_named
  source_utf8 raw encoding =
      let name = lower encoding in
      if same_text name (codes "utf-8")
      then (if is_valid_utf8 raw then some raw else none)
      else decode_named (converter_name raw name) raw
