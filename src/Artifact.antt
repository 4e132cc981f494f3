-- ===== src/Artifact.antt =====
-- src/artifact.cpp: `emit_artifacts`, which writes the bytes of each candidate to the stream.
-- The operating system is a parameter: what its calls answer while a candidate is visited. A list of
-- answers of `::read` stands for the calls in their order; at its end the next call answers 0, so a
-- file that is read without end is not modelled. Closing a descriptor leaves nothing that is read.
pub mod Answers
pub mod Blocks
pub mod Files
pub mod Reading
pub mod Branches
pub mod Contents
pub mod Stream
pub mod Discovery
use getbiblesword.Prelude.{
  ℕ, ◌+◌, ◌%◌, ◌^◌, ◌≤◌, Bool, true, false, not, ◌&&◌, ◌||◌, Option, none, some, List, [], ◌∷◌,
  ◌++◌, Bytes, codes, length, ltb, ◌==◌, bit_and, if◌then◌else◌,
}
use getbiblesword.Exec.{Result, ok, throw, Exec, pure, bind_result, ◌>>=◌, ◌>>◌}
use getbiblesword.OrderedMap.{OrderedMap, emplace, from_list}
use getbiblesword.Sha256
use getbiblesword.Sha256.{Sha256, update, hex_digest, sha256_hex}
use getbiblesword.Json.{json_string, to_string}
use getbiblesword.ByteValue.{byte_value_json}
use getbiblesword.Ndjson.{Ostream, JsonFields, Writer, emit}

pub record Diagnostic : Type 0 where
  pub severity : Bytes
  pub code : Bytes
  pub message : Bytes
  pub context : JsonFields

-- The paths as `native()` gives them
pub record ArtifactCandidate : Type 0 where
  pub absolute_path : Bytes
  pub relative_path : Bytes
  pub role : Bytes

pub record ArtifactResult : Type 0 where
  pub artifacts : ℕ
  pub bytes : ℕ
  pub diagnostics : List Diagnostic
  pub success : Bool

-- The members of `struct stat` that the code reads
pub record Stat : Type 0 where
  pub device : ℕ
  pub inode : ℕ
  pub mode : ℕ
  pub size : ℕ
  pub modified : ℕ
  pub modified_nanoseconds : ℕ
  pub changed : ℕ
  pub changed_nanoseconds : ℕ

-- A call that may fail, with `errno`
pub data Called (A : Type 0) : Type 0 where
  answered : A → Called A
  failed : ℕ → Called A

-- One call of `::read` that does not answer 0
pub data Read : Type 0 where
  received : Bytes → Read
  interrupted : Read
  read_error : ℕ → Read

-- The calls on an open file: `::fstat` before the loop, `::read` with a capacity, `::fstat` behind it
pub record OpenFile : Type 0 where
  pub opened : Called Stat
  pub reads : ℕ → List Read
  pub after : Called Stat

pub record Visit : Type 0 where
  pub lstat : Called Stat
  pub readlink : ℕ → Called Bytes
  pub open_file : Called OpenFile

pub record System : Type 0 where
  pub visit : Bytes → Visit
  pub errno_message : ℕ → Bytes

abbrev pub permission_mask : ℕ
permission_mask = 0xfff

-- `S_ISDIR`, `S_ISLNK`, `S_ISREG`
abbrev pub is_directory : ℕ → Bool
is_directory mode = bit_and mode 0xf000 == 0x4000

abbrev pub is_symlink : ℕ → Bool
is_symlink mode = bit_and mode 0xf000 == 0xa000

abbrev pub is_regular : ℕ → Bool
is_regular mode = bit_and mode 0xf000 == 0x8000

unfoldable pub same_file_state : Stat → Stat → Bool
same_file_state before after =
    before.device == after.device
    && (before.inode == after.inode
        && (before.mode == after.mode
            && (before.size == after.size
                && (before.modified == after.modified
                    && (before.modified_nanoseconds == after.modified_nanoseconds
                        && (before.changed == after.changed
                            && before.changed_nanoseconds == after.changed_nanoseconds))))))

-- `::fstat(…) == 0 && same_file_state(…)`
abbrev pub is_unchanged : Stat → Called Stat → Bool
is_unchanged before (answered after) = same_file_state before after
is_unchanged before (failed errno) = false

abbrev pub error_diagnostic : Bytes → Bytes → JsonFields → Diagnostic
error_diagnostic code message context = record {
  severity = codes "error";
  code = code;
  message = message;
  context = context;
}

-- `result.success = false; result.diagnostics.push_back(…)`
abbrev pub report : ArtifactResult → Diagnostic → ArtifactResult
report result value = record result {
  success = false;
  diagnostics = result.diagnostics ++ (value ∷ []);
}

abbrev pub path_context : ArtifactCandidate → JsonFields
path_context candidate = (codes "path", byte_value_json candidate.relative_path) ∷ []

unfoldable pub diagnostic_fields : Diagnostic → JsonFields
diagnostic_fields value = emplace (codes "severity") (json_string value.severity) (
    emplace (codes "message") (byte_value_json value.message)
      (emplace (codes "code") (json_string value.code) value.context))

-- `common`
unfoldable pub common_fields : ℕ → Stat → ArtifactCandidate → JsonFields
common_fields artifact_id metadata candidate =
    (codes "artifact_id", to_string artifact_id)
    ∷ (codes "mode", to_string (bit_and metadata.mode permission_mask))
    ∷ (codes "path", byte_value_json candidate.relative_path)
    ∷ (codes "role", json_string candidate.role)
    ∷ []

unfoldable pub end_fields : ℕ → Bytes → ℕ → JsonFields
end_fields artifact_id digest size =
    (codes "artifact_id", to_string artifact_id)
    ∷ (codes "sha256", json_string digest)
    ∷ (codes "size", to_string size)
    ∷ []

unfoldable pub chunk_fields : ℕ → Bytes → ℕ → JsonFields
chunk_fields artifact_id chunk chunk_index =
    (codes "artifact_id", to_string artifact_id)
    ∷ (codes "data", byte_value_json chunk)
    ∷ (codes "index", to_string chunk_index)
    ∷ []

-- `artifact_id` and the result so far; a candidate that is skipped leaves the first as it is.
abbrev pub Progress : Type 0
Progress = ℕ × ArtifactResult

-- `++artifact_id; ++result.artifacts;`
abbrev pub counted : ℕ → ArtifactResult → Progress
counted artifact_id result =
    ((artifact_id + 1) % 2 ^ 64, record result { artifacts = (result.artifacts + 1) % 2 ^ 64 })

abbrev pub add_bytes : ArtifactResult → ℕ → ArtifactResult
add_bytes result size = record result { bytes = (result.bytes + size) % 2 ^ 64 }

abbrev pub no_result : ArtifactResult
no_result = record { artifacts = 0; bytes = 0; diagnostics = []; success = true }

abbrev pub invalid_chunk_size : Diagnostic
invalid_chunk_size =
    error_diagnostic (codes "artifact.chunk_size.invalid")
      (codes "Artifact chunk size is outside the supported range.") []
