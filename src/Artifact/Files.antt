-- ===== src/Artifact/Files.antt =====
-- src/artifact.cpp: the branches of `emit_artifacts` by the type of a candidate, and its loops.
use getbiblesword.Prelude.{
  ℕ, ◌+◌, ◌-◌, ◌%◌, ◌^◌, Bool, true, false, not, ◌&&◌, ◌||◌, List, [], ◌∷◌, Bytes, codes, length,
  ltb, ◌==◌, if◌then◌else◌,
}
use getbiblesword.Exec.{Exec, pure, ◌>>=◌, ◌>>◌}
use getbiblesword.OrderedMap.{emplace}
use getbiblesword.Sha256
use getbiblesword.Sha256.{Sha256, update, hex_digest, sha256_hex}
use getbiblesword.Json.{to_string}
use getbiblesword.ByteValue.{byte_value_json}
use getbiblesword.Ndjson.{Ostream, Writer, emit}
use getbiblesword.Artifact.{
  Diagnostic, ArtifactCandidate, ArtifactResult, Stat, Called, answered, failed, Read, received,
  interrupted, read_error, OpenFile, Visit, System, is_directory, is_symlink, is_regular,
  same_file_state, is_unchanged, error_diagnostic, report, path_context, diagnostic_fields,
  common_fields, end_fields, chunk_fields, Progress, counted, add_bytes, no_result,
  invalid_chunk_size,
}

-- The local variables of the loop over `::read`
pub record Reading : Type 0 where
  pub hash : Sha256
  pub total : ℕ
  pub chunk_index : ℕ
  pub read_failed : Bool
  pub result : ArtifactResult

abbrev pub start_reading : ArtifactResult → Reading
start_reading result = record {
  hash = Sha256.new;
  total = 0;
  chunk_index = 0;
  read_failed = false;
  result = result;
}

-- What a chunk does to the variables
abbrev pub take_chunk : Reading → Bytes → Reading
take_chunk r chunk = record r {
  hash = update r.hash chunk;
  total = (r.total + length chunk) % 2 ^ 64;
  chunk_index = (r.chunk_index + 1) % 2 ^ 64;
}

abbrev pub without_detail : ArtifactCandidate → Bytes → Bytes → Diagnostic
without_detail candidate code message = error_diagnostic code message (path_context candidate)

module _ (system : System) where
  abbrev pub with_detail : ArtifactCandidate → Bytes → Bytes → ℕ → Diagnostic
  with_detail candidate code message errno =
      error_diagnostic code message
        ((codes "detail", byte_value_json (system.errno_message errno)) ∷ path_context candidate)

  module _ (o : Ostream) (artifact_id : ℕ) (candidate : ArtifactCandidate) where
    unfoldable pub emit_directory : Stat → ArtifactResult → Exec (Writer o.Stream) Progress
    emit_directory metadata result =
        emit o (codes "artifact_begin") (
          emplace (codes "file_type") (codes "\"directory\"")
            (common_fields artifact_id metadata candidate))
        >> (emit o (codes "artifact_end") (end_fields artifact_id (sha256_hex []) 0)
            >> pure (counted artifact_id result))

    -- Behind the call of `::readlink`
    unfoldable pub emit_target : Stat → Bytes → ArtifactResult → Exec (Writer o.Stream) Progress
    emit_target metadata target result =
        emit o (codes "artifact_begin") (
          emplace (codes "target") (byte_value_json target) (
            emplace (codes "file_type") (codes "\"symlink\"")
              (common_fields artifact_id metadata candidate)))
        >> (emit o (codes "artifact_end")
              (end_fields artifact_id (sha256_hex target) (length target % 2 ^ 64))
            >> pure (counted artifact_id (add_bytes result (length target % 2 ^ 64))))

    unfoldable pub emit_symlink :
        Stat → Called Bytes → ArtifactResult → Exec (Writer o.Stream) Progress
    unfolding emit_target
    emit_symlink metadata (answered target) result = emit_target metadata target result
    emit_symlink metadata (failed errno) result = pure (
      artifact_id,
      report result (
          with_detail candidate (codes "artifact.symlink.read_failed")
            (codes "Unable to read a symbolic-link target.") errno),
    )

    -- The loop over `::read`; a count of 0 ends it.
    unfoldable pub read_chunks : List Read → Reading → Exec (Writer o.Stream) Reading
    read_chunks [] r = pure r
    read_chunks (received [] ∷ reads) r = pure r
    read_chunks (received (x ∷ xs) ∷ reads) r =
        emit o (codes "artifact_chunk") (chunk_fields artifact_id (x ∷ xs) r.chunk_index)
        >> read_chunks reads (take_chunk r (x ∷ xs))
    read_chunks (interrupted ∷ reads) r = read_chunks reads r
    read_chunks (read_error errno ∷ reads) r = pure (record r {
      read_failed = true;
      result = report r.result (
          with_detail candidate (codes "artifact.read.failed")
            (codes "Unable to read an artifact completely.") errno);
    })

    -- Behind the loop
    abbrev pub with_stability : Bool → ArtifactResult → ArtifactResult
    with_stability true result = result
    with_stability false result = report result (
        without_detail candidate (codes "artifact.changed_during_read")
          (codes "Artifact changed while it was being read."))

    unfoldable pub end_regular : Bool → Reading → Exec (Writer o.Stream) Progress
    end_regular stable r =
        emit o (codes "artifact_end") (
          emplace (codes "stable")
            (if stable && not r.read_failed then codes "true" else codes "false")
            (end_fields artifact_id (hex_digest r.hash) r.total))
        >> pure (counted artifact_id (add_bytes (with_stability stable r.result) r.total))

    unfoldable pub emit_content :
        ℕ → Stat → Stat → OpenFile → ArtifactResult → Exec (Writer o.Stream) Progress
    emit_content chunk_size metadata opened file result =
        emit o (codes "artifact_begin") (
          emplace (codes "size_expected") (to_string metadata.size) (
            emplace (codes "file_type") (codes "\"regular\"")
              (common_fields artifact_id metadata candidate)))
        >> (read_chunks (file.reads chunk_size) (start_reading result) >>= λ r.
            end_regular (is_unchanged opened file.after) r)

    abbrev pub changed_before_read : ArtifactResult → Progress
    changed_before_read result = (
      artifact_id,
      report result (
          without_detail candidate (codes "artifact.changed_before_read")
            (codes "Artifact identity changed before reading.")),
    )

    unfoldable pub emit_opened :
        ℕ → Stat → Called Stat → OpenFile → ArtifactResult → Exec (Writer o.Stream) Progress
    unfolding emit_content
    emit_opened chunk_size metadata (failed errno) file result = pure (changed_before_read result)
    emit_opened chunk_size metadata (answered opened) file result =
        if same_file_state metadata opened
        then emit_content chunk_size metadata opened file result
        else pure (changed_before_read result)

    unfoldable pub emit_regular :
        ℕ → Stat → Called OpenFile → ArtifactResult → Exec (Writer o.Stream) Progress
    unfolding emit_opened
    emit_regular chunk_size metadata (failed errno) result = pure (
      artifact_id,
      report result (
          with_detail candidate (codes "artifact.open.failed")
            (codes "Unable to open an artifact without following links.") errno),
    )
    emit_regular chunk_size metadata (answered file) result =
        emit_opened chunk_size metadata file.opened file result

    unfoldable pub emit_by_type :
        ℕ → Stat → Visit → ArtifactResult → Exec (Writer o.Stream) Progress
    unfolding emit_directory emit_symlink emit_regular
    emit_by_type chunk_size metadata v result =
        if is_directory metadata.mode
        then emit_directory metadata result
        else if is_symlink metadata.mode
        then emit_symlink metadata (v.readlink (metadata.size + 1)) result
        else if is_regular metadata.mode
        then emit_regular chunk_size metadata v.open_file result
        else pure (
          artifact_id,
          report result (
              error_diagnostic (codes "artifact.type.unsupported")
                (codes "The module tree contains an unsupported filesystem object.")
                ((codes "mode", to_string (metadata.mode % 2 ^ 32)) ∷ path_context candidate)),
        )

    unfoldable pub emit_visit :
        ℕ → Visit → Called Stat → ArtifactResult → Exec (Writer o.Stream) Progress
    unfolding emit_by_type
    emit_visit chunk_size v (answered metadata) result = emit_by_type chunk_size metadata v result
    emit_visit chunk_size v (failed errno) result = pure (
      artifact_id,
      report result (
          with_detail candidate (codes "artifact.stat.failed")
            (codes "Unable to inspect an artifact.") errno),
    )

  module _ (o : Ostream) where
    unfoldable pub emit_candidates :
        ℕ → List ArtifactCandidate → Progress → Exec (Writer o.Stream) ArtifactResult
    emit_candidates chunk_size [] (artifact_id, result) = pure result
    emit_candidates chunk_size (candidate ∷ candidates) (artifact_id, result) =
        let v = system.visit candidate.absolute_path in
        emit_visit o artifact_id candidate chunk_size v v.lstat result >>= λ progress.
        emit_candidates chunk_size candidates progress

    -- The loop over `result.diagnostics`
    unfoldable pub emit_diagnostics : List Diagnostic → Exec (Writer o.Stream) (Unit {0})
    emit_diagnostics [] = pure tt
    emit_diagnostics (value ∷ values) =
        emit o (codes "diagnostic") (diagnostic_fields value) >> emit_diagnostics values

    -- Nothing is written where the size of a chunk is refused.
    unfoldable pub emit_artifacts :
        List ArtifactCandidate → ℕ → Exec (Writer o.Stream) ArtifactResult
    emit_artifacts candidates chunk_size =
        if chunk_size == 0 || ltb (2 ^ 63 - 1) chunk_size
        then pure (report no_result invalid_chunk_size)
        else emit_candidates chunk_size candidates (0, no_result) >>= λ result.
            (emit_diagnostics result.diagnostics >> pure result)
