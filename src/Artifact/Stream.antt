-- ===== src/Artifact/Stream.antt =====
-- The whole of `emit_artifacts`: the blocks of the artifacts, and the diagnostics behind them.
use getbiblesword.Prelude.{
  ℕ, ◌+◌, ◌-◌, ◌%◌, ◌^◌, ◌≤◌, ◌<◌, ◌≡◌, refl, ap, ap₂, ◌∙◌, arith, false, ◌||◌, List, [], ◌∷◌, ◌++◌,
  append-nil, Bytes, codes, All, length, ltb, ◌==◌,
}
use getbiblesword.OrderedMap.{lookup, upsert}
use getbiblesword.OrderedMap.Order.{order}
use getbiblesword.Ndjson.{Ostream}
use getbiblesword.Ndjson.Records.{Collects, Record}
use getbiblesword.Ndjson.Emits.{
  StaysBad, Emits, pure-Emits, weaken-Emits, bind-Emits, emit_then-Emits,
}
use getbiblesword.Artifact.{
  Diagnostic, ArtifactCandidate, ArtifactResult, Called, answered, failed, Visit, System,
  diagnostic_fields, no_result,
}
use getbiblesword.Artifact.Answers.{Answer, of_visit, answers}
use getbiblesword.Artifact.Files.{emit_visit, emit_candidates, emit_diagnostics, emit_artifacts}
use getbiblesword.Artifact.Reading.{FileFits}
use getbiblesword.Artifact.Branches.{skipped-Adds}
use getbiblesword.Artifact.Contents.{emit_by_type-Emits}
use getbiblesword.Artifact.Blocks.{
  Block, AreBlocks, records_of, size_of, IsError, IsConsistent, contents_of, Adds, Adds-append,
}

-- No call of `::read` answers more than its capacity.
pub record ReadsFit (system : System) : Type 0 where
  pub fits : (limit : ℕ) (path : Bytes) → FileFits limit (system.visit path).open_file

abbrev pub diagnostic_record : Diagnostic → Record
diagnostic_record d = record { type = codes "diagnostic"; fields = diagnostic_fields d }

abbrev pub diagnostic_records : List Diagnostic → List Record
diagnostic_records [] = []
diagnostic_records (d ∷ ds) = diagnostic_record d ∷ diagnostic_records ds

-- The records are the blocks of the artifacts that the result counts, numbered from 0, and the
-- result's diagnostics behind them. Their paths and their bytes are as expected.
pub record IsReport (limit : ℕ) (expected : List Answer) (result : ArtifactResult)
    (rs : List Record) : Type 0 where
  pub blocks : List Block
  pub records : rs ≡ records_of blocks ++ diagnostic_records result.diagnostics
  pub are_blocks : AreBlocks limit 0 blocks
  pub artifacts : result.artifacts ≡ length blocks % 2 ^ 64
  pub bytes : result.bytes ≡ size_of blocks % 2 ^ 64
  pub consistent : IsConsistent result
  pub contents : contents_of blocks ≡ expected

module _ (o : Ostream) (c : Collects o) (b : StaysBad o) (start : Bytes) (limit : ℕ)
    (system : System) (f : ReadsFit system) where
  emit_visit-Emits :
      (k artifact_id : ℕ) (result : ArtifactResult) (candidate : ArtifactCandidate) (v : Visit)
      (lstat : Called _)
      → artifact_id ≡ k % 2 ^ 64
      → IsConsistent result
      → FileFits limit v.open_file
      → Emits o c b start
          (emit_visit system o artifact_id candidate limit v lstat result)
          (Adds limit (of_visit limit candidate.relative_path v lstat) k result)
  unfolding emit_visit diagnostic_fields lookup upsert order
  emit_visit-Emits k artifact_id result candidate v (answered metadata) number h fits =
      emit_by_type-Emits o c b start limit k artifact_id result number h candidate metadata system v
        fits
  emit_visit-Emits k artifact_id result candidate v (failed errno) number h fits =
      pure-Emits o c b start _ _
        (skipped-Adds o c b start limit k artifact_id result number h _ (refl, refl, refl))

  -- What the loop over the candidates leaves.
  abbrev Final : List Answer → ℕ → ArtifactResult → ArtifactResult → List Record → Type 0
  Final expected k result final rs =
      (artifact_id : ℕ) × Adds limit expected k result (artifact_id, final) rs

  emit_candidates-Emits :
      (candidates : List ArtifactCandidate) (k artifact_id : ℕ) (result : ArtifactResult)
      → artifact_id ≡ k % 2 ^ 64
      → IsConsistent result
      → Emits o c b start
          (emit_candidates system o limit candidates (artifact_id, result))
          (Final (answers system limit candidates) k result)
  unfolding emit_candidates
  emit_candidates-Emits [] k artifact_id result number h = pure-Emits o c b start _ _ (
    artifact_id,
    record {
      blocks = [];
      records = refl;
      are_blocks = tt;
      numbered = number ∙ omega arith;
      artifacts = omega (arith, h.artifacts_in_word);
      bytes = omega (arith, h.bytes_in_word);
      consistent = h;
      contents = refl;
    },
  )
  emit_candidates-Emits (candidate ∷ candidates) k artifact_id result number h =
      let v = system.visit candidate.absolute_path in
      bind-Emits o c b start
        (Adds limit (of_visit limit candidate.relative_path v v.lstat) k result)
        (Final (answers system limit (candidate ∷ candidates)) k result) _ _
        (emit_visit-Emits k artifact_id result candidate v v.lstat number h
          (f.fits limit candidate.absolute_path))
        (λ p rs first.
          weaken-Emits o c b start _ _ _
            (λ final later g. (
              g.0,
              Adds-append limit _ (answers system limit candidates) k result p (g.0, final) rs later
                  first g.1,
            ))
            (emit_candidates-Emits candidates (k + length first.blocks) p.0 p.1 first.numbered
              first.consistent))

  pub emit_diagnostics-Emits :
      (ds : List Diagnostic)
      → All IsError ds
      → Emits o c b start (emit_diagnostics system o ds) (λ _ rs. rs ≡ diagnostic_records ds)
  unfolding emit_diagnostics
  emit_diagnostics-Emits [] h = pure-Emits o c b start _ _ refl
  emit_diagnostics-Emits (d ∷ ds) h =
      emit_then-Emits o c b start (codes "diagnostic") (diagnostic_fields d) _ _ h.0.1 (
        weaken-Emits o c b start _ _ _
          (λ u rs e. ap (λ (t : List Record). diagnostic_record d ∷ t) e)
          (emit_diagnostics-Emits ds h.1))

  finish-IsReport :
      (expected : List Answer) (final : ArtifactResult) (rs later : List Record)
      → Final expected 0 no_result final rs
      → later ≡ diagnostic_records final.diagnostics
      → IsReport limit expected final (rs ++ later)
  finish-IsReport expected final rs later (artifact_id, g) e = record {
    blocks = g.blocks;
    records = ap₂ (λ (s t : List Record). s ++ t) g.records e;
    are_blocks = g.are_blocks;
    artifacts = omega (arith, g.artifacts);
    bytes = omega (arith, g.bytes);
    consistent = g.consistent;
    contents = g.contents;
  }

  no_result-IsConsistent : IsConsistent no_result
  no_result-IsConsistent = record {
    success_is = refl;
    are_errors = tt;
    artifacts_in_word = omega arith;
    bytes_in_word = omega arith;
  }

  pub emit_artifacts-IsReport :
      (candidates : List ArtifactCandidate)
      → 1 ≤ limit
      → limit < 2 ^ 63
      → Emits o c b start
          (emit_artifacts system o candidates limit)
          (IsReport limit (answers system limit candidates))
  unfolding emit_artifacts
  emit_artifacts-IsReport candidates low high =
      let in_range : (limit == 0 || ltb (2 ^ 63 - 1) limit) ≡ false = ground arith in
      rw in_range (
        bind-Emits o c b start (Final (answers system limit candidates) 0 no_result)
          (IsReport limit (answers system limit candidates)) _ _
          (emit_candidates-Emits candidates 0 0 no_result refl no_result-IsConsistent)
          (λ final rs first.
            bind-Emits o c b start (λ _ later. later ≡ diagnostic_records final.diagnostics) _ _ _
              (emit_diagnostics-Emits final.diagnostics first.1.consistent.are_errors)
              (λ u later e.
                pure-Emits o c b start _ _
                  (finish-IsReport _ final rs (later ++ []) first (append-nil later ∙ e)))))
