-- ===== src/Artifact/Branches.antt =====
-- The branches of `emit_artifacts` for directories and for symbolic links.
use getbiblesword.Prelude.{
  ℕ, ◌+◌, ◌%◌, ◌^◌, ◌≡◌, refl, sym, ap, subst, ◌∙◌, arith, ◌⊎◌, inl, inr, false, some, [], ◌∷◌,
  append-nil, Bytes, codes, length,
}
use getbiblesword.Exec.{pure, ◌>>◌}
use getbiblesword.OrderedMap.{lookup, upsert}
use getbiblesword.OrderedMap.Order.{order}
use getbiblesword.Sha256.{sha256_hex}
use getbiblesword.Sha256.Pieces.{sha256_hex-standard}
use getbiblesword.Json.{json_string, to_string}
use getbiblesword.ByteValue.{byte_value_json}
use getbiblesword.Ndjson.{Ostream, JsonFields, emit}
use getbiblesword.Ndjson.Records.{Collects}
use getbiblesword.Ndjson.Emits.{StaysBad, is_reserved, Emits, pure-Emits, emit_then-Emits}
use getbiblesword.Artifact.{
  Diagnostic, ArtifactCandidate, ArtifactResult, Stat, Called, answered, failed, System, report,
  common_fields, end_fields, diagnostic_fields, counted,
}
use getbiblesword.Artifact.Answers.{of_target}
use getbiblesword.Artifact.Files.{emit_directory, emit_target, emit_symlink}
use getbiblesword.Artifact.Blocks.{
  Block, IsBlock, begin_record, last_record, IsError, IsConsistent, report-IsConsistent, Adds,
}

module _ (o : Ostream) (c : Collects o) (b : StaysBad o) (start : Bytes) (limit : ℕ) where
  -- The progress so far, and one candidate more.
  module _ (k artifact_id : ℕ) (result : ArtifactResult) (number : artifact_id ≡ k % 2 ^ 64)
      (h : IsConsistent result) where
    -- A candidate that is skipped with a diagnostic
    pub skipped-Adds :
        (d : Diagnostic) → IsError d → Adds limit [] k result (artifact_id, report result d) []
    skipped-Adds d e = record {
      blocks = [];
      records = refl;
      are_blocks = tt;
      numbered = number ∙ omega arith;
      artifacts = omega (arith, h.artifacts_in_word);
      bytes = omega (arith, h.bytes_in_word);
      consistent = report-IsConsistent result d e h;
      contents = refl;
    }

    -- A candidate that is an artifact; the result may have a diagnostic more.
    pub block-Adds :
        (block : Block) (final : ArtifactResult) (bytes : ℕ)
        → IsBlock limit artifact_id block
        → IsConsistent final
        → final.artifacts ≡ result.artifacts
        → bytes ≡ (result.bytes + length block.whole) % 2 ^ 64
        → Adds limit
            ((block.path, block.whole) ∷ [])
            k
            result
            (counted artifact_id (record final { bytes = bytes }))
            block.records
    block-Adds block final bytes is g same_count sum = record {
      blocks = block ∷ [];
      records = sym (append-nil block.records);
      are_blocks = (subst (λ (n : ℕ). IsBlock limit n block) number is, tt);
      numbered = omega (arith, number);
      artifacts = omega (arith, same_count);
      bytes = omega (arith, sum);
      consistent = record {
        success_is = g.success_is;
        are_errors = g.are_errors;
        artifacts_in_word = omega arith;
        bytes_in_word = omega arith;
      };
      contents = refl;
    }

    module _ (candidate : ArtifactCandidate) (metadata : Stat) where
      -- A block with no chunk
      simple-IsBlock :
          (begin_fields : JsonFields) (whole : Bytes)
          → lookup (codes "artifact_id") begin_fields ≡ some (to_string artifact_id)
          → lookup (codes "path") begin_fields ≡ some (byte_value_json candidate.relative_path)
          → (whole ≡ []) ⊎ (lookup (codes "target") begin_fields ≡ some (byte_value_json whole))
          → IsBlock limit artifact_id (record {
            records =
                begin_record begin_fields
                ∷ last_record (end_fields artifact_id (sha256_hex whole) (length whole % 2 ^ 64))
                ∷ [];
            path = candidate.relative_path;
            whole = whole;
          })
      unfolding end_fields lookup order
      simple-IsBlock begin_fields whole id placed carried = record {
        begin_fields = begin_fields;
        pieces = [];
        last_fields = end_fields artifact_id (sha256_hex whole) (length whole % 2 ^ 64);
        shape = refl;
        begin_numbered = id;
        placed = placed;
        last_numbered = refl;
        hashed = ap (λ (t : Bytes). some (json_string t)) (sha256_hex-standard whole);
        sized = refl;
        carried = carried;
        fit = tt;
      }

      -- The two records of an artifact with no chunk
      simple-Emits :
          (begin_fields : JsonFields) (whole : Bytes) (bytes : ℕ)
          → is_reserved begin_fields ≡ false
          → lookup (codes "artifact_id") begin_fields ≡ some (to_string artifact_id)
          → lookup (codes "path") begin_fields ≡ some (byte_value_json candidate.relative_path)
          → (whole ≡ []) ⊎ (lookup (codes "target") begin_fields ≡ some (byte_value_json whole))
          → bytes ≡ (result.bytes + length whole) % 2 ^ 64
          → Emits o c b start
              (emit o (codes "artifact_begin") begin_fields
                >> (emit o
                      (codes "artifact_end")
                      (end_fields artifact_id (sha256_hex whole) (length whole % 2 ^ 64))
                    >> pure (counted artifact_id (record result { bytes = bytes }))))
              (Adds limit ((candidate.relative_path, whole) ∷ []) k result)
      unfolding end_fields lookup order
      simple-Emits begin_fields whole bytes free id placed carried sum =
          emit_then-Emits o c b start (codes "artifact_begin") begin_fields _
            (Adds limit ((candidate.relative_path, whole) ∷ []) k result) free
            (emit_then-Emits o c b start (codes "artifact_end")
              (end_fields artifact_id (sha256_hex whole) (length whole % 2 ^ 64)) _ _ refl
              (pure-Emits o c b start _ _ (
                block-Adds _ result bytes (simple-IsBlock begin_fields whole id placed carried) h
                  refl sum)))

      pub emit_directory-Emits :
          (system : System)
          → Emits o c b start
              (emit_directory system o artifact_id candidate metadata result)
              (Adds limit ((candidate.relative_path, []) ∷ []) k result)
      unfolding emit_directory common_fields lookup upsert order
      emit_directory-Emits system =
          simple-Emits _ [] result.bytes refl refl refl (inl refl) (omega (arith, h.bytes_in_word))

      pub emit_symlink-Emits :
          (system : System) (target : Called Bytes)
          → Emits o c b start
              (emit_symlink system o artifact_id candidate metadata target result)
              (Adds limit (of_target candidate.relative_path target) k result)
      unfolding emit_symlink emit_target common_fields diagnostic_fields lookup upsert order
      emit_symlink-Emits system (answered target) =
          simple-Emits _ target _ refl refl refl (inr refl) (omega arith)
      emit_symlink-Emits system (failed errno) =
          pure-Emits o c b start _ _ (skipped-Adds _ (refl, refl, refl))
