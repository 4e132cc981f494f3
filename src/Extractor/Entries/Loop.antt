-- ===== src/Extractor/Entries/Loop.antt =====
-- src/sword_extractor.cpp: the loop of `emit_entries`, and what it does at one position.
use getbiblesword.Prelude.{
  ℕ, suc, ◌-◌, ◌%◌, ◌^◌, Bool, true, false, not, ◌&&◌, Option, none, some, [], ◌∷◌, Bytes, codes,
  length, ltb, leb, ◌==◌, if◌then◌else◌,
}
use getbiblesword.Prelude.Int.{ℤ}
use getbiblesword.Exec.{ok, throw, Exec, pure, ◌>>=◌, ◌>>◌}
use getbiblesword.Json.{to_string}
use getbiblesword.ByteValue.{byte_value_json}
use getbiblesword.Utf8.{is_valid_utf8}
use getbiblesword.SourceEncoding.{Icu, source_utf8}
use getbiblesword.Ndjson.{Ostream, emit}
use getbiblesword.Artifact.{Diagnostic, error_diagnostic}
use getbiblesword.OrderedMap.{is_some}
use getbiblesword.Extractor.{Session, safe_c_string, increment_u64, on_writer, emit_diagnostic}
use getbiblesword.Extractor.Module.{SwordConstants}
use getbiblesword.Extractor.Entries.{
  Entry, Traversal, step, last, throws, Dictionary, entry_limit, warning_diagnostic,
  ordinal_context, Previous, is_same, has_nul, entry_fields,
}

abbrev pub int_max : ℕ
int_max = 2 ^ 31 - 1

-- `entry_count >= *dictionary_entry_limit`, where there is a limit
abbrev pub reaches : Option ℕ → ℕ → Bool
reaches none count = false
reaches (some limit) count = leb limit count

-- The test of a traversal that does not advance
abbrev pub is_stalled : Option ℕ → ℕ → Option Previous → Bytes → ℤ → Bool
is_stalled limit count none key index = false
is_stalled limit count (some previous) key index =
    not (is_some limit) && (not (count == 0) && is_same previous key index)

module _ (o : Ostream) where
  -- `sword_length`: whether the size is one that an `int` can hold
  unfoldable pub sword_length : ℕ → ℕ → Exec (Session o.Stream) Bool
  sword_length size ordinal =
      if ltb int_max size
      then emit_diagnostic o (
          error_diagnostic (codes "entry.length.unsupported")
            (codes "The raw entry is larger than the SWORD rendering API can address.")
            ((codes "entry_ordinal", to_string ordinal) ∷ (codes "size", to_string size) ∷ []))
        >> pure false
      else pure true

  -- The strip projection of the normalized text
  unfoldable pub strip_valid : Entry → ℕ → Bytes → Exec (Session o.Stream) (Option Bytes)
  strip_valid e ordinal stripped =
      if is_valid_utf8 stripped
      then pure (some stripped)
      else emit_diagnostic o (
          warning_diagnostic (codes "entry.normalized_stripped.invalid_utf8")
            (codes
              "SWORD's strip filter produced invalid UTF-8; normalized source markup and legacy projections are retained.")
            (ordinal_context ordinal))
        >> pure none

  unfoldable pub strip_sized : Entry → ℕ → Bytes → Bool → Exec (Session o.Stream) (Option Bytes)
  unfolding strip_valid
  strip_sized e ordinal text false = pure none
  strip_sized e ordinal text true = strip_valid e ordinal (safe_c_string (e.strip text))

  unfoldable pub strip_normalized :
      Entry → ℕ → Option Bytes → Exec (Session o.Stream) (Option Bytes)
  unfolding strip_sized sword_length
  strip_normalized e ordinal none = pure none
  strip_normalized e ordinal (some text) =
      if has_nul text
      then emit_diagnostic o (
          warning_diagnostic (codes "entry.encoding.embedded_nul")
            (codes
              "UTF-8 source contains an embedded NUL; SWORD's string-based strip projection is unavailable.")
            (ordinal_context ordinal))
        >> pure none
      else sword_length (length text) ordinal >>= strip_sized e ordinal text

  unfoldable pub report_encoding : Entry → ℕ → Option Bytes → Exec (Session o.Stream) (Unit {0})
  report_encoding e ordinal (some text) = pure tt
  report_encoding e ordinal none = emit_diagnostic o (
      warning_diagnostic (codes "entry.encoding.unavailable")
        (codes
          "The declared source encoding is unsupported or its bytes are invalid; raw bytes are retained.")
        ((codes "encoding", byte_value_json (safe_c_string e.encoding)) ∷ ordinal_context ordinal))

  -- `writer.emit("entry", …); ++entry_count;`
  unfoldable pub emit_entry_record :
      Entry → Option Bytes → Option Bytes → Bool → Exec (Session o.Stream) (Unit {0})
  unfolding on_writer
  emit_entry_record e normalized stripped available s =
      (on_writer o (emit o (codes "entry") (entry_fields e normalized stripped available s.entries))
          >> λ s'. (ok tt, record s' { entries = increment_u64 s'.entries }))
        s

  -- An entry whose bytes have been read
  unfoldable pub emit_entry : Icu → Entry → ℕ → Exec (Session o.Stream) (Unit {0})
  unfolding sword_length report_encoding strip_normalized emit_entry_record
  emit_entry icu e ordinal =
      let normalized = source_utf8 icu e.raw (safe_c_string e.encoding) in
      sword_length (length e.raw) ordinal >>= λ available.
      (report_encoding e ordinal normalized
        >> (strip_normalized e ordinal normalized >>= λ stripped.
            emit_entry_record e normalized stripped available))

  -- What the loop does up to `increment`; a result is what the function returns.
  unfoldable pub visit_entry :
      Icu → Option ℕ → Option Previous → Entry → Exec (Session o.Stream) (Option Bool)
  unfolding emit_entry
  visit_entry icu limit previous e s =
      let key = safe_c_string e.key in
      if is_stalled limit s.entries previous key e.index
      then ((emit_diagnostic o (
              error_diagnostic (codes "module.navigation.stalled")
                (codes "SWORD traversal did not advance to a new key.")
                ((codes "entry_ordinal", to_string s.entries)
                  ∷ (codes "key", byte_value_json key)
                  ∷ []))
            >> pure (some false))
          s)
      else if not (e.read_error == 0)
      then ((emit_diagnostic o (
              error_diagnostic (codes "entry.read.failed")
                (codes "SWORD reported an error while reading the logical entry.")
                ((codes "entry_ordinal", to_string s.entries)
                  ∷ (codes "key", byte_value_json key)
                  ∷ (codes "sword_error", to_string (e.read_error % 2 ^ 8))
                  ∷ []))
            >> pure (some false))
          s)
      else (emit_entry icu e s.entries >> λ s'.
            (ok (if reaches limit s'.entries then some true else none), s'))
          s

  abbrev pub or_zero : Option ℕ → ℕ
  or_zero none = 0
  or_zero (some n) = n

  abbrev pub count_mismatch : Option ℕ → ℕ → Diagnostic
  count_mismatch limit entries =
      error_diagnostic (codes "module.entry_count.mismatch")
        (codes "SWORD reached the end of a dictionary before its declared entry count.")
        ((codes "declared_entries", to_string (or_zero limit))
          ∷ (codes "emitted_entries", to_string entries)
          ∷ [])

  abbrev pub navigation_failed : ℕ → ℕ → Diagnostic
  navigation_failed error entries =
      error_diagnostic (codes "module.navigation.failed")
        (codes "SWORD reported an unexpected error while advancing the module key.")
        ((codes "entry_ordinal", to_string entries)
          ∷ (codes "sword_error", to_string (error % 2 ^ 8))
          ∷ [])

  abbrev pub ends_early : SwordConstants → Option ℕ → ℕ → ℕ → Bool
  ends_early k limit error entries =
      is_some limit && (error == k.keyerr_outofbounds && not (reaches limit entries))

  -- Where `increment` gives an error
  unfoldable pub end_navigation : SwordConstants → Option ℕ → ℕ → Exec (Session o.Stream) Bool
  end_navigation k limit error s =
      if ends_early k limit error s.entries
      then (emit_diagnostic o (count_mismatch limit s.entries) >> pure false) s
      else if not (error == k.keyerr_outofbounds)
      then (emit_diagnostic o (navigation_failed error s.entries) >> pure false) s
      else (ok true, s)

  abbrev pub previous_of : Entry → Option Previous
  previous_of e = some (record { key = safe_c_string e.key; index = e.index })

  abbrev pub or_continue : Option Bool → Exec (Session o.Stream) Bool → Exec (Session o.Stream) Bool
  or_continue (some result) later = pure result
  or_continue none later = later

  unfoldable pub walk_entries :
      SwordConstants → Icu → Option ℕ → Option Previous → Traversal → Exec (Session o.Stream) Bool
  unfolding visit_entry end_navigation
  walk_entries k icu limit previous (throws x) = λ s. (throw x, s)
  walk_entries k icu limit previous (last e code) = visit_entry icu limit previous e >>= λ result.
      or_continue result (end_navigation k limit (suc code))
  walk_entries k icu limit previous (step e later) = visit_entry icu limit previous e >>= λ result.
      or_continue result (walk_entries k icu limit (previous_of e) later)

  -- `emit_entries`; `top_error` is what `popError` gives behind `setPosition(TOP)`.
  unfoldable pub emit_entries :
      SwordConstants → Icu → Dictionary → ℕ → Traversal → Exec (Session o.Stream) Bool
  unfolding walk_entries
  emit_entries k icu dictionary top_error traversal =
      if not (top_error == 0)
      then emit_diagnostic o (
          warning_diagnostic (codes "module.empty")
            (codes "SWORD could not position the module at its first entry.") [])
        >> pure true
      else walk_entries k icu (entry_limit dictionary) none traversal
