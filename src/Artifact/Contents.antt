-- ===== src/Artifact/Contents.antt =====
-- The branch of `emit_artifacts` for regular files, and the choice of the branch.
use getbiblesword.Prelude.{
  ℕ, ◌+◌, ◌%◌, ◌^◌, ◌≡◌, refl, ap, subst, ◌∙◌, arith, inl, inr, Bool, true, false, not, ◌&&◌, some,
  List, [], ◌∷◌, ◌++◌, Bytes, codes, All, concat, if◌then◌else◌, Bool-cases,
}
use getbiblesword.OrderedMap.{lookup, upsert, emplace}
use getbiblesword.OrderedMap.Order.{order}
use getbiblesword.Sha256.{hex_digest}
use getbiblesword.Sha256.Pieces.{hex_digest-Streams}
use getbiblesword.Sha256.Stream.Update.{new-Streams}
use getbiblesword.Json.{json_string, to_string}
use getbiblesword.ByteValue.{byte_value_json}
use getbiblesword.Ndjson.{Ostream, JsonFields}
use getbiblesword.Ndjson.Records.{Collects, Record}
use getbiblesword.Ndjson.Emits.{StaysBad, Emits, pure-Emits, bind-Emits, emit_then-Emits}
use getbiblesword.Artifact.{
  ArtifactCandidate, ArtifactResult, Stat, Called, answered, failed, OpenFile, Visit, System,
  is_directory, is_symlink, is_regular, is_unchanged, common_fields, end_fields, diagnostic_fields,
  Progress,
}
use getbiblesword.Artifact.Answers.{
  content, members, same_numbers, of_opened, of_file, of_visit, same_file_state-members,
}
use getbiblesword.Artifact.Files.{
  Reading, start_reading, with_stability, end_regular, emit_content, emit_opened, emit_regular,
  emit_by_type,
}
use getbiblesword.Artifact.Reading.{Fits, FileFits, IsReading, HasRead, read_chunks-Emits}
use getbiblesword.Artifact.Blocks.{
  IsBlock, begin_record, last_record, IsConsistent, report-IsConsistent, Adds,
}
use getbiblesword.Artifact.Branches.{
  skipped-Adds, block-Adds, emit_directory-Emits, emit_symlink-Emits,
}

module _ (o : Ostream) (c : Collects o) (b : StaysBad o) (start : Bytes) (limit k artifact_id : ℕ)
    (result : ArtifactResult) (number : artifact_id ≡ k % 2 ^ 64) (h : IsConsistent result)
    (candidate : ArtifactCandidate) (metadata : Stat) where
  -- The result behind the loop
  module _ (system : System) (r : Reading) (g : IsConsistent r.result) where
    with_stability-IsConsistent :
        (stable : Bool)
        → IsConsistent (with_stability system o artifact_id candidate stable r.result)
    unfolding diagnostic_fields lookup upsert order
    with_stability-IsConsistent true = g
    with_stability-IsConsistent false = report-IsConsistent r.result _ (refl, refl, refl) g

    with_stability-same :
        (stable : Bool)
        → ((with_stability system o artifact_id candidate stable r.result).artifacts
            ≡ r.result.artifacts)
          × ((with_stability system o artifact_id candidate stable r.result).bytes ≡ r.result.bytes)
    with_stability-same true = (refl, refl)
    with_stability-same false = (refl, refl)

  abbrev stable_fields : Bool → Reading → JsonFields
  stable_fields stable r =
      emplace (codes "stable") (if stable && not r.read_failed then codes "true" else codes "false")
        (end_fields artifact_id (hex_digest r.hash) r.total)

  regular-IsBlock :
      (expected : Bytes) (begin_fields : JsonFields) (stable : Bool) (r : Reading)
      (rs : List Record)
      → lookup (codes "artifact_id") begin_fields ≡ some (to_string artifact_id)
      → lookup (codes "path") begin_fields ≡ some (byte_value_json candidate.relative_path)
      → (g : HasRead limit expected artifact_id 0 [] (start_reading result) r rs)
      → IsBlock limit artifact_id (record {
        records = begin_record begin_fields ∷ (rs ++ (last_record (stable_fields stable r) ∷ []));
        path = candidate.relative_path;
        whole = concat g.pieces;
      })
  unfolding end_fields lookup upsert order
  regular-IsBlock expected begin_fields stable r rs id placed g = record {
    begin_fields = begin_fields;
    pieces = g.pieces;
    last_fields = stable_fields stable r;
    shape =
        ap
          (λ (t : List Record).
            begin_record begin_fields ∷ (t ++ (last_record (stable_fields stable r) ∷ [])))
          g.records;
    begin_numbered = id;
    placed = placed;
    last_numbered = refl;
    hashed =
        ap (λ (t : Bytes). some (json_string t))
          (hex_digest-Streams r.hash (concat g.pieces) g.hashed);
    sized = ap (λ (n : ℕ). some (to_string n)) g.summed;
    carried = inl refl;
    fit = g.fit;
  }

  renamed :
      (p : Progress) (rs : List Record) (whole : Bytes) {expected : Bytes}
      → whole ≡ expected
      → Adds limit ((candidate.relative_path, whole) ∷ []) k result p rs
      → Adds limit ((candidate.relative_path, expected) ∷ []) k result p rs
  renamed p rs whole e h =
      subst (λ (t : Bytes). Adds limit ((candidate.relative_path, t) ∷ []) k result p rs) e h

  end_regular-Emits :
      (expected : Bytes) (system : System) (begin_fields : JsonFields) (stable : Bool) (r : Reading)
      (rs : List Record)
      → lookup (codes "artifact_id") begin_fields ≡ some (to_string artifact_id)
      → lookup (codes "path") begin_fields ≡ some (byte_value_json candidate.relative_path)
      → HasRead limit expected artifact_id 0 [] (start_reading result) r rs
      → Emits o c b start (end_regular system o artifact_id candidate stable r) (λ p last.
        Adds limit
          ((candidate.relative_path, expected) ∷ [])
          k
          result
          p
          (begin_record begin_fields ∷ (rs ++ last)))
  unfolding end_regular end_fields lookup upsert order
  end_regular-Emits expected system begin_fields stable r rs id placed g =
      emit_then-Emits o c b start (codes "artifact_end") (stable_fields stable r) _ _ refl (
        pure-Emits o c b start _ _ (
          renamed _ _ _ g.contents (
            block-Adds o c b start limit k artifact_id result number h _
              (with_stability system o artifact_id candidate stable r.result) _
              (regular-IsBlock expected begin_fields stable r rs id placed g)
              (with_stability-IsConsistent system r g.consistent stable)
              ((with_stability-same system r g.consistent stable).0 ∙ g.same_artifacts)
              (omega (
                arith,
                (with_stability-same system r g.consistent stable).1,
                g.same_bytes,
                g.summed,
              )))))

  start-IsReading : IsReading 0 [] (start_reading result)
  start-IsReading = record { hashed = new-Streams; summed = refl; indexed = refl; consistent = h }

  emit_content-Emits :
      (system : System) (opened : Stat) (file : OpenFile)
      → All (Fits limit) (file.reads limit)
      → Emits o c b start
          (emit_content system o artifact_id candidate limit metadata opened file result)
          (Adds limit ((candidate.relative_path, content (file.reads limit)) ∷ []) k result)
  unfolding emit_content common_fields lookup upsert order
  emit_content-Emits system opened file fits =
      emit_then-Emits o c b start (codes "artifact_begin") _ _
        (Adds limit ((candidate.relative_path, content (file.reads limit)) ∷ []) k result) refl
        (bind-Emits o c b start
          (HasRead limit (content (file.reads limit)) artifact_id 0 [] (start_reading result)) _ _ _
          (read_chunks-Emits o c b start limit system artifact_id candidate (file.reads limit) 0 []
            _ fits start-IsReading)
          (λ r rs g.
            end_regular-Emits (content (file.reads limit)) system _ (is_unchanged opened file.after)
              r rs refl refl g))

  emit_opened-Emits :
      (system : System) (opened : Called Stat) (file : OpenFile)
      → All (Fits limit) (file.reads limit)
      → Emits o c b start
          (emit_opened system o artifact_id candidate limit metadata opened file result)
          (Adds limit (of_opened limit candidate.relative_path metadata file opened) k result)
  unfolding emit_opened diagnostic_fields lookup upsert order
  emit_opened-Emits system (failed errno) file fits =
      pure-Emits o c b start _ _
        (skipped-Adds o c b start limit k artifact_id result number h _ (refl, refl, refl))
  emit_opened-Emits system (answered opened) file fits =
      rw (same_file_state-members metadata opened)
        (elim (Bool-cases (same_numbers (members metadata) (members opened))) [
          | inl same ↦ rw same (emit_content-Emits system opened file fits)
          | inr changed ↦ rw changed (
              pure-Emits o c b start _ _
                (skipped-Adds o c b start limit k artifact_id result number h _ (refl, refl, refl)))
        ])

  emit_regular-Emits :
      (system : System) (file : Called OpenFile)
      → FileFits limit file
      → Emits o c b start
          (emit_regular system o artifact_id candidate limit metadata file result)
          (Adds limit (of_file limit candidate.relative_path metadata file) k result)
  unfolding emit_regular diagnostic_fields lookup upsert order
  emit_regular-Emits system (failed errno) fits =
      pure-Emits o c b start _ _
        (skipped-Adds o c b start limit k artifact_id result number h _ (refl, refl, refl))
  emit_regular-Emits system (answered file) fits = emit_opened-Emits system file.opened file fits

  pub emit_by_type-Emits :
      (system : System) (v : Visit)
      → FileFits limit v.open_file
      → Emits o c b start
          (emit_by_type system o artifact_id candidate limit metadata v result)
          (Adds limit (of_visit limit candidate.relative_path v (answered metadata)) k result)
  unfolding emit_by_type diagnostic_fields lookup upsert order
  emit_by_type-Emits system v fits = elim (Bool-cases (is_directory metadata.mode)) [
    | inl directory ↦ rw directory (
        emit_directory-Emits o c b start limit k artifact_id result number h candidate metadata
          system)
    | inr no_directory ↦ elim (Bool-cases (is_symlink metadata.mode)) [
      | inl symlink ↦
          rw (no_directory, symlink)
            (emit_symlink-Emits o c b start limit k artifact_id result number h candidate metadata
              system (v.readlink (metadata.size + 1)))
      | inr no_symlink ↦ elim (Bool-cases (is_regular metadata.mode)) [
        | inl regular ↦
            rw (no_directory, no_symlink, regular) (emit_regular-Emits system v.open_file fits)
        | inr other ↦
            rw (no_directory, no_symlink, other)
              (pure-Emits o c b start _ _
                (skipped-Adds o c b start limit k artifact_id result number h _ (refl, refl, refl)))
      ]
    ]
  ]
