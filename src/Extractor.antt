-- ===== src/Extractor.antt =====
-- src/sword_extractor.cpp: the extraction of a module. This file has the state of a command, its
-- diagnostics, its header and the fields of its footer.
-- SWORD and the file system are parameters: what their calls answer during the command.
pub mod Module
pub mod Configuration
pub mod Entries
pub mod Commands
pub mod Tallies
pub mod Tracking
pub mod Contract
pub mod Delivery
use getbiblesword.Prelude.{
  ℕ, ◌+◌, ◌%◌, ◌^◌, Bool, true, false, Option, none, some, List, [], ◌∷◌, ◌++◌, Bytes, codes, ◌==◌,
  if◌then◌else◌,
}
use getbiblesword.Exec.{Result, ok, throw, Exec, pure, bind_result, ◌>>=◌, ◌>>◌}
use getbiblesword.OrderedMap.{emplace}
use getbiblesword.Json.{json_string, to_string}
use getbiblesword.CommandLine.{same_text}
use getbiblesword.Ndjson.{Ostream, JsonFields, object_json, Writer, emit, finish}
use getbiblesword.Artifact.{Diagnostic, diagnostic_fields}

pub record DiagnosticCounts : Type 0 where
  pub info : ℕ
  pub warning : ℕ
  pub error : ℕ

-- The variables of a command. Those that are not set yet when an exception is caught keep their zero.
pub record Session (Stream : Type 0) : Type 0 where
  pub writer : Writer Stream
  pub diagnostics : DiagnosticCounts
  pub entries : ℕ
  pub artifacts : ℕ
  pub artifact_bytes : ℕ

abbrev pub start_session : {Stream : Type 0} → Writer Stream → Session Stream
start_session writer = record {
  writer = writer;
  diagnostics = record { info = 0; warning = 0; error = 0 };
  entries = 0;
  artifacts = 0;
  artifact_bytes = 0;
}

-- `GETBIBLESWORD_VERSION` and `SWORD_VERSION_STR`
pub record Versions : Type 0 where
  pub producer_version : Bytes
  pub sword_version : Bytes

-- `safe_c_string`; a null pointer is `none`
abbrev pub safe_c_string : Option Bytes → Bytes
safe_c_string none = []
safe_c_string (some text) = text

abbrev pub increment_u64 : ℕ → ℕ
increment_u64 n = (n + 1) % 2 ^ 64

unfoldable pub tally : Bytes → DiagnosticCounts → DiagnosticCounts
tally severity counts =
    if same_text severity (codes "error")
    then record counts { error = increment_u64 counts.error }
    else if same_text severity (codes "warning")
    then record counts { warning = increment_u64 counts.warning }
    else record counts { info = increment_u64 counts.info }

-- The loop that counts the diagnostics that `emit_artifacts` has emitted
abbrev pub tally_all : List Diagnostic → DiagnosticCounts → DiagnosticCounts
tally_all [] counts = counts
tally_all (value ∷ values) counts = tally_all values (tally value.severity counts)

unfoldable pub footer_fields : DiagnosticCounts → ℕ → ℕ → ℕ → JsonFields
footer_fields counts entries artifacts artifact_bytes =
    (codes "artifact_bytes", to_string artifact_bytes)
    ∷ (codes "artifacts", to_string artifacts)
    ∷ (
      codes "diagnostics",
      object_json (
          (codes "error", to_string counts.error)
          ∷ (codes "info", to_string counts.info)
          ∷ (codes "warning", to_string counts.warning)
          ∷ []),
    )
    ∷ (codes "entries", to_string entries)
    ∷ []

abbrev pub header_base : Versions → Bytes → JsonFields
header_base versions command =
    (codes "command", json_string command)
    ∷ (codes "contract", codes "\"getbiblesword.ndjson/v1\"")
    ∷ (codes "contract_version", codes "1")
    ∷ (codes "deterministic", codes "true")
    ∷ (codes "producer", codes "\"getBibleSword\"")
    ∷ (codes "producer_version", json_string versions.producer_version)
    ∷ (codes "sword_version", json_string versions.sword_version)
    ∷ []

unfoldable pub header_fields : Versions → Bytes → ℕ → JsonFields
header_fields versions command chunk_size =
    if chunk_size == 0
    then header_base versions command
    else emplace (codes "artifact_chunk_size") (to_string chunk_size) (header_base versions command)

module _ (o : Ostream) where
  -- A call that only the writer takes part in
  unfoldable pub on_writer : {A : Type 0} → Exec (Writer o.Stream) A → Exec (Session o.Stream) A
  on_writer m s = ((m s.writer).0, record s { writer = (m s.writer).1 })

  -- The count goes before the record.
  unfoldable pub emit_diagnostic : Diagnostic → Exec (Session o.Stream) (Unit {0})
  unfolding on_writer
  emit_diagnostic value s =
      on_writer (emit o (codes "diagnostic") (diagnostic_fields value))
        (record s { diagnostics = tally value.severity s.diagnostics })

  unfoldable pub emit_header : Versions → Bytes → ℕ → Exec (Session o.Stream) (Unit {0})
  emit_header versions command chunk_size =
      on_writer (emit o (codes "header") (header_fields versions command chunk_size))

  -- `writer.finish(success, footer_fields(…))`, and the return
  unfoldable pub finish_with : Bool → Exec (Session o.Stream) Bool
  unfolding on_writer
  finish_with success s =
      (on_writer
            (finish o success (footer_fields s.diagnostics s.entries s.artifacts s.artifact_bytes))
          >> pure success)
        s
