-- ===== src/Extractor/Entries.antt =====
-- src/sword_extractor.cpp: `emit_entries`, the traversal of a module's entries.
pub mod Json
pub mod Loop
use getbiblesword.Prelude.{
  ℕ, ◌+◌, ◌-◌, ◌%◌, ◌^◌, Bool, true, false, not, ◌&&◌, ◌||◌, Option, none, some, List, [], ◌∷◌,
  ◌++◌, Bytes, codes, length, ltb, leb, ◌==◌, if◌then◌else◌,
}
use getbiblesword.Prelude.Int.{ℤ, eq_int}
use getbiblesword.Exec.{Exception, Result, ok, throw, Exec, pure, bind_result, ◌>>=◌, ◌>>◌}
use getbiblesword.Json.{json_string, to_string}
use getbiblesword.ByteValue.{byte_value_json}
use getbiblesword.Annotation.{annotation_segments_json}
use getbiblesword.Utf8.{is_valid_utf8}
use getbiblesword.SourceEncoding.{Icu, source_utf8}
use getbiblesword.CommandLine.{same_text}
use getbiblesword.Ndjson.{Ostream, JsonFields, emit}
use getbiblesword.Artifact.{Diagnostic, error_diagnostic}
use getbiblesword.OrderedMap.{is_some}
use getbiblesword.Extractor.{Session, safe_c_string, increment_u64, on_writer, emit_diagnostic}
use getbiblesword.Extractor.Module.{SwordConstants}
use getbiblesword.Extractor.Entries.Json.{
  Scope, scope_json, AttributeTypeList, official_attributes_json,
}

-- What SWORD answers at one position. `strip` is `stripText` of the bytes; `read_error` is the
-- character that `popError` gives behind `getRawEntryBuf`.
pub record Entry : Type 0 where
  pub key : Option Bytes
  pub index : ℤ
  pub raw : Bytes
  pub read_error : ℕ
  pub encoding : Option Bytes
  pub rendered : Bytes
  pub attributes : AttributeTypeList
  pub strip : Bytes → Option Bytes
  pub scope : Scope

-- The positions in their order. `step` is one from which `increment` goes on with no error; `last` is
-- one where it gives the error `code + 1`; `throws` is an exception out of a call at the position. A
-- module that SWORD goes through without end is not modelled.
pub data Traversal : Type 0 where
  step : Entry → Traversal → Traversal
  last : Entry → ℕ → Traversal
  throws : Exception → Traversal

-- `SWLD::getEntryCount()`, where the module is one
pub data Dictionary : Type 0 where
  no_dictionary negative_count : Dictionary
  entry_count : ℕ → Dictionary

unfoldable pub entry_limit : Dictionary → Option ℕ
entry_limit no_dictionary = none
entry_limit negative_count = none
entry_limit (entry_count n) = some n

abbrev pub warning_diagnostic : Bytes → Bytes → JsonFields → Diagnostic
warning_diagnostic code message context = record {
  severity = codes "warning";
  code = code;
  message = message;
  context = context;
}

abbrev pub ordinal_context : ℕ → JsonFields
ordinal_context ordinal = (codes "entry_ordinal", to_string ordinal) ∷ []

-- The key and the index of the position before, where there is one.
pub record Previous : Type 0 where
  pub key : Bytes
  pub index : ℤ

abbrev pub is_same : Previous → Bytes → ℤ → Bool
is_same previous key index = same_text key previous.key && eq_int index previous.index

abbrev pub optional_json : Option Bytes → Bytes
optional_json none = codes "null"
optional_json (some bytes) = byte_value_json bytes

abbrev pub has_nul : Bytes → Bool
has_nul [] = false
has_nul (b ∷ bytes) = b == 0 || has_nul bytes

-- The projections of an entry that depend on its length
abbrev pub projected : Bool → Bytes → Bytes
projected true bytes = byte_value_json bytes
projected false bytes = codes "null"

unfoldable pub entry_fields : Entry → Option Bytes → Option Bytes → Bool → ℕ → JsonFields
entry_fields e normalized normalized_stripped available ordinal =
    (codes "annotation_segments", annotation_segments_json e.raw)
    ∷ (codes "key", byte_value_json (safe_c_string e.key))
    ∷ (codes "normalized_raw", optional_json normalized)
    ∷ (codes "normalized_stripped", optional_json normalized_stripped)
    ∷ (
      codes "official_attributes",
      if available then official_attributes_json e.attributes else codes "[]",
    )
    ∷ (codes "ordinal", to_string ordinal)
    ∷ (codes "projections_available", if available then codes "true" else codes "false")
    ∷ (codes "raw", byte_value_json e.raw)
    ∷ (codes "rendered_default", projected available e.rendered)
    ∷ (codes "scope", scope_json e.scope)
    ∷ (codes "stripped", projected available (safe_c_string (e.strip e.raw)))
    ∷ []
