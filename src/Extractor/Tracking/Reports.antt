-- ===== src/Extractor/Tracking/Reports.antt =====
-- Diagnostics and the records of `emit_artifacts` in the counts.
use getbiblesword.Prelude.{
  ℕ, suc, ◌%◌, ◌^◌, ◌≡◌, refl, ap, subst, ◌∙◌, arith, ◌⊎◌, inl, inr, false, some, List, [], ◌∷◌,
  ◌++◌, append-nil, append_assoc, Bytes, codes, All, All-append,
}
use getbiblesword.OrderedMap.{lookup}
use getbiblesword.Json.{json_string}
use getbiblesword.CommandLine.{same_text}
use getbiblesword.Ndjson.Records.{Record}
use getbiblesword.Ndjson.Emits.{is_reserved}
use getbiblesword.Artifact.{Diagnostic, diagnostic_fields}
use getbiblesword.Artifact.Blocks.{chunk_records, Block, IsBlock, AreBlocks, records_of, IsError}
use getbiblesword.Artifact.Stream.{diagnostic_record, diagnostic_records}
use getbiblesword.Extractor.{DiagnosticCounts, tally, tally_all}
use getbiblesword.Extractor.Tallies.{
  text_is, has_severity, one_if, errors_in, IsQuiet, IsTallied, add-IsTallied,
}

-- A diagnostic that `emit` accepts, with one of the two severities that the code gives
abbrev pub IsCounted : Diagnostic → Type 0
IsCounted d =
    ((d.severity ≡ codes "error") ⊎ (d.severity ≡ codes "warning"))
    × (is_reserved (diagnostic_fields d) ≡ false)
    × (lookup (codes "severity") (diagnostic_fields d) ≡ some (json_string d.severity))

module _ (d : Diagnostic)
    (kept : lookup (codes "severity") (diagnostic_fields d) ≡ some (json_string d.severity)) where
  severity_is :
      (severity other : Bytes)
      → d.severity ≡ severity
      → has_severity other (diagnostic_record d)
        ≡ same_text (json_string other) (json_string severity)
  unfolding same_text
  severity_is severity other e =
      ap (text_is (json_string other)) (kept ∙ ap (λ (t : Bytes). some (json_string t)) e)

  pub diagnostic-IsTallied :
      (counts : DiagnosticCounts) (entries : ℕ) (rs : List Record)
      → (d.severity ≡ codes "error") ⊎ (d.severity ≡ codes "warning")
      → IsTallied counts entries rs
      → IsTallied (tally d.severity counts) entries (rs ++ (diagnostic_record d ∷ []))
  unfolding tally same_text json_string
  diagnostic-IsTallied counts entries rs (inl e) h =
      let error = ap one_if (severity_is (codes "error") (codes "error") e) in
      let warning = ap one_if (severity_is (codes "error") (codes "warning") e) in
      add-IsTallied counts (tally d.severity counts) entries rs (diagnostic_record d ∷ []) h
        (refl, tt) refl (ap (λ (t : Bytes). (tally t counts).error) e ∙ omega (arith, error))
        (ap (λ (t : Bytes). (tally t counts).warning) e ∙ omega (arith, warning, h.warnings))
  diagnostic-IsTallied counts entries rs (inr e) h =
      let error = ap one_if (severity_is (codes "warning") (codes "error") e) in
      let warning = ap one_if (severity_is (codes "warning") (codes "warning") e) in
      add-IsTallied counts (tally d.severity counts) entries rs (diagnostic_record d ∷ []) h
        (refl, tt) refl
        (ap (λ (t : Bytes). (tally t counts).error) e ∙ omega (arith, error, h.errors))
        (ap (λ (t : Bytes). (tally t counts).warning) e ∙ omega (arith, warning))

pub error-errors_in : (d : Diagnostic) → IsError d → errors_in (diagnostic_record d ∷ []) ≡ 1
unfolding same_text json_string
error-errors_in d (error, free, kept) =
    let counted = ap one_if (severity_is d kept (codes "error") (codes "error") error) in
    omega (arith, counted)

pub diagnostics-IsTallied :
    (ds : List Diagnostic) (counts : DiagnosticCounts) (entries : ℕ) (rs : List Record)
    → All IsError ds
    → IsTallied counts entries rs
    → IsTallied (tally_all ds counts) entries (rs ++ diagnostic_records ds)
diagnostics-IsTallied [] counts entries rs errors h = rw append-nil h
diagnostics-IsTallied (d ∷ ds) counts entries rs errors h =
    subst (λ (t : List Record). IsTallied (tally_all (d ∷ ds) counts) entries t)
      (append_assoc rs (diagnostic_record d ∷ []) (diagnostic_records ds))
      (diagnostics-IsTallied ds (tally d.severity counts) entries (rs ++ (diagnostic_record d ∷ []))
        errors.1 (diagnostic-IsTallied d errors.0.2 counts entries rs (inl errors.0.0) h))

-- The records of an artifact are not counted.
chunk_records-IsQuiet :
    (artifact_id index : ℕ) (pieces : List Bytes)
    → All IsQuiet (chunk_records artifact_id index pieces)
unfolding same_text
chunk_records-IsQuiet artifact_id index [] = tt
chunk_records-IsQuiet artifact_id index (piece ∷ pieces) =
    ((refl, refl), chunk_records-IsQuiet artifact_id (suc index) pieces)

block-IsQuiet :
    (limit artifact_id : ℕ) (b : Block) → IsBlock limit artifact_id b → All IsQuiet b.records
unfolding same_text
block-IsQuiet limit artifact_id b h = rw h.shape (
  (refl, refl),
  All-append IsQuiet (chunk_records artifact_id 0 h.pieces) _
      (chunk_records-IsQuiet artifact_id 0 h.pieces) ((refl, refl), tt),
)

pub blocks-IsQuiet :
    (limit k : ℕ) (blocks : List Block) → AreBlocks limit k blocks → All IsQuiet (records_of blocks)
blocks-IsQuiet limit k [] h = tt
blocks-IsQuiet limit k (b ∷ blocks) h =
    All-append IsQuiet b.records (records_of blocks) (block-IsQuiet limit (k % 2 ^ 64) b h.0)
      (blocks-IsQuiet limit (suc k) blocks h.1)
