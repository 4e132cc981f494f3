-- ===== src/Extractor/Tracking/Extraction.antt =====
-- The whole of `extract_module`.
use getbiblesword.Prelude.{
  ℕ, ◌^◌, ◌≤◌, ◌<◌, ◌≡◌, refl, inl, inr, Bool, false, Option, none, some, List, [], ◌∷◌, ◌++◌,
  Bytes, codes, All,
}
use getbiblesword.Exec.{Exception, pure}
use getbiblesword.OrderedMap.{lookup, upsert}
use getbiblesword.OrderedMap.Order.{order}
use getbiblesword.CommandLine.{same_text}
use getbiblesword.Ndjson.{Ostream}
use getbiblesword.Ndjson.Records.{Collects, Record, Holds}
use getbiblesword.Ndjson.Emits.{StaysBad}
use getbiblesword.Artifact.{Diagnostic, ArtifactCandidate, diagnostic_fields}
use getbiblesword.Artifact.Discovery.Confined.{discover_artifacts-AreErrors}
use getbiblesword.Artifact.Blocks.{IsError}
use getbiblesword.Artifact.Answers.{answers}
use getbiblesword.Artifact.Stream.{IsReport, emit_artifacts-IsReport}
use getbiblesword.Extractor.{Session}
use getbiblesword.Extractor.Module.{ModuleInfo, classify_module, module_fields}
use getbiblesword.Extractor.Configuration.{ConfigFile}
use getbiblesword.Extractor.Commands.{
  Module, World, paths_of, emit_all_diagnostics, extract_artifacts, data_path_of, report_type,
  report_sources, extract_files, extract_found, extract_or_return, or_conclude, extract_in,
  extract_session,
}
use getbiblesword.Extractor.Tracking.Stages.{
  IsDiscovered, no_artifacts, with_artifacts, no_artifacts-HasArtifacts, report-HasArtifacts,
}
use getbiblesword.Extractor.Tracking.{
  HasWritten, IsTracked, After, Keeps, Tracks, pure-Tracks, bind-After, bind-Keeps, then-Keeps,
  if-Keeps, on_writer-After, bind-Refuses, IsForeign, AnyException, try_catch-Keeps,
}
use getbiblesword.Extractor.Tracking.Steps.{
  HasError, emit_error-HasError, emit_quiet-Tracks, emit_diagnostic-Tracks, report-Keeps,
  emit_diagnostic-Refuses, report-IsTallied,
}
use getbiblesword.Extractor.Tracking.Configuration.{
  find_configuration_files-Tracks, emit_configuration_sources-Tracks,
  emit_interpreted_configuration-Tracks,
}
use getbiblesword.Extractor.Tracking.Entries.{emit_entries-Tracks}
use getbiblesword.Extractor.Tracking.Complete.{
  IsDone, finish_with-After, conclude_command-After, RootIs, root-After, emit_header-Tracks,
}
use getbiblesword.Extractor.Tracking.Commands.{
  IsSound, canonical_root-Keeps, failed-Keeps, from_result-Tracks,
}

module _ (o : Ostream) (c : Collects o) (b : StaysBad o) (start : Bytes) (world : World)
    (sound : IsSound world) where
  emit_all_diagnostics-Tracks :
      (X : Exception → Type 0) (values : List Diagnostic)
      → All IsError values
      → Tracks o c b start no_artifacts X (emit_all_diagnostics o world values)
  unfolding emit_all_diagnostics
  emit_all_diagnostics-Tracks X [] h = pure-Tracks o c b start no_artifacts X tt
  emit_all_diagnostics-Tracks X (d ∷ values) h =
      report-Keeps o c b start no_artifacts X _ d _ (inl h.0.0, h.0.1, h.0.2)
        (emit_all_diagnostics-Tracks X values h.1)

  report_type-Tracks :
      (X : Exception → Type 0) (info : ModuleInfo)
      → Tracks o c b start no_artifacts X (report_type o world info)
  unfolding report_type diagnostic_fields lookup upsert order
  report_type-Tracks X info =
      if-Keeps o c b start no_artifacts X _
        (same_text (classify_module world.constants info) (codes "unknown")) _ _
        (emit_diagnostic-Tracks o c b start no_artifacts X _ (inr refl, refl, refl))
        (pure-Tracks o c b start no_artifacts X tt)

  report_sources-Tracks :
      (X : Exception → Type 0) (files : List ConfigFile)
      → Tracks o c b start no_artifacts X (report_sources o world files)
  unfolding report_sources diagnostic_fields lookup upsert order
  report_sources-Tracks X [] =
      emit_diagnostic-Tracks o c b start no_artifacts X _ (inr refl, refl, refl)
  report_sources-Tracks X (file ∷ files) = pure-Tracks o c b start no_artifacts X tt

  module _ (chunk_size : ℕ) (low : 1 ≤ chunk_size) (high : chunk_size < 2 ^ 63) where
    extract_artifacts-Keeps :
        (X : Exception → Type 0) (candidates : List ArtifactCandidate)
        → IsDiscovered world candidates
        → Keeps o c b start no_artifacts X
            (extract_artifacts o world chunk_size candidates)
            (λ u s. IsTracked o c b start (with_artifacts world chunk_size) s)
    unfolding extract_artifacts
    extract_artifacts-Keeps X candidates discovered = record {
      run = λ s h.
          bind-After o c b start no_artifacts X
            (λ result s'.
              (added : List Record) × IsReport chunk_size
                (answers world.system chunk_size candidates) result added
              × Holds o c start s'.writer (h.0 ++ added)
              × (s'.entries ≡ s.entries)
              × (s'.diagnostics ≡ s.diagnostics))
            _ _ _ _
            (on_writer-After o c b start no_artifacts X _ _ _ s h.0
              (emit_artifacts-IsReport o c b start chunk_size world.system sound.reads_fit
                candidates low high)
              h.1.holds (λ result w added report holds. (added, report, holds, refl, refl)))
            (λ result s' q. (
              h.0 ++ q.0,
              record {
                holds = q.2;
                tallied =
                    rw (q.3, q.4)
                      (report-IsTallied o c b start no_artifacts X chunk_size world.system
                        sound.reads_fit (answers world.system chunk_size candidates) result s h.0
                        q.0 h.1.tallied q.1);
                staged =
                    report-HasArtifacts world chunk_size candidates result h.0 q.0 discovered
                      h.1.staged.0 q.1;
              },
            ));
    }

    extract_found-Keeps :
        (root module_name : Bytes) (module_calls : Module)
        → Keeps o c b start no_artifacts AnyException
            (extract_found o world root module_name chunk_size module_calls)
            (λ u s. IsTracked o c b start (with_artifacts world chunk_size) s)
    unfolding extract_found extract_files module_fields lookup order same_text
    extract_found-Keeps root module_name module_calls =
        let X = AnyException in
        let info = module_calls.info in
        then-Keeps o c b start no_artifacts X _ _ _
          (emit_quiet-Tracks o c b start no_artifacts X (codes "module") _ refl (refl, refl) refl)
          (λ u. then-Keeps o c b start no_artifacts X _ _ _ (report_type-Tracks X info) (λ u.
            then-Keeps o c b start no_artifacts X _ _ _
              (find_configuration_files-Tracks o c b start no_artifacts X (world.configuration root)
                module_name)
              (λ files.
                then-Keeps o c b start no_artifacts X _ _ _ (report_sources-Tracks X files) (λ u.
                  then-Keeps o c b start no_artifacts X _ _ _
                    (emit_configuration_sources-Tracks o c b start no_artifacts X 0 files)
                    (λ u.
                      then-Keeps o c b start no_artifacts X _ _ _
                        (emit_interpreted_configuration-Tracks o c b start no_artifacts X 0
                          info.config)
                        (λ u.
                          then-Keeps o c b start no_artifacts X _ _ _
                            (emit_entries-Tracks o c b start no_artifacts X (λ e. tt)
                              world.constants world.icu module_calls.dictionary
                              module_calls.top_error module_calls.traversal)
                            (λ success.
                              then-Keeps o c b start no_artifacts X _ _ _
                                (emit_all_diagnostics-Tracks X _ (
                                  discover_artifacts-AreErrors world.paths world.tree sound.lists
                                    root (data_path_of o world info) (paths_of files)))
                                (λ u.
                                  extract_artifacts-Keeps X _
                                    (root, data_path_of o world info, paths_of files, refl)))))))))

    grown :
        (s : Session o.Stream) (rs : List Record)
        → HasWritten o c b start no_artifacts s rs
        → HasWritten o c b start (with_artifacts world chunk_size) s rs
    grown s rs h = record {
      holds = h.holds;
      tallied = h.tallied;
      staged = no_artifacts-HasArtifacts world chunk_size rs s.artifacts s.artifact_bytes h.staged;
    }

    -- What the `try` block returns is the result of the command, or the command goes on.
    abbrev Returned : Option Bool → Session o.Stream → Type 0
    Returned none s = IsTracked o c b start (with_artifacts world chunk_size) s
    Returned (some success) s = IsDone o c b start (with_artifacts world chunk_size) success s

    extract_or_return-Keeps :
        (root module_name : Bytes) (found : Option Module)
        → Keeps o c b start no_artifacts AnyException
            (extract_or_return o world root module_name chunk_size found)
            Returned
    unfolding extract_or_return diagnostic_fields lookup upsert order
    extract_or_return-Keeps root module_name none =
        let X = AnyException in
        bind-Keeps o c b start no_artifacts X (λ u s. HasError o c b start no_artifacts X s) _ _ _
          (emit_error-HasError o c b start no_artifacts X _ (refl, refl, refl))
          (λ u s q.
            bind-After o c b start no_artifacts X
              (IsDone o c b start (with_artifacts world chunk_size)) Returned
              (λ success. pure (some success)) _ _
              (finish_with-After o c b start (with_artifacts world chunk_size) no_artifacts X false
                s q.0 (grown s q.0 q.1) (λ e. cc) (λ e. q.2))
              (λ success s' done. done))
    extract_or_return-Keeps root module_name (some module_calls) =
        bind-Keeps o c b start no_artifacts AnyException _ _ _ _
          (extract_found-Keeps root module_name module_calls) (λ u s h. h)

    pub extract_session-Keeps :
        (sword_path module_name : Bytes)
        → Keeps o c b start no_artifacts IsForeign
            (extract_session o world sword_path module_name chunk_size)
            (IsDone o c b start (with_artifacts world chunk_size))
    unfolding extract_session extract_in
    extract_session-Keeps sword_path module_name =
        then-Keeps o c b start no_artifacts IsForeign _ _ _
          (emit_header-Tracks o c b start no_artifacts IsForeign world (codes "extract") chunk_size)
          (λ u.
            bind-Keeps o c b start no_artifacts IsForeign
              (RootIs o c b start no_artifacts IsForeign) _ _ _
              (canonical_root-Keeps o c b start world sound IsForeign sword_path
                (world.root sword_path) refl)
              (λ root s q.
                root-After o c b start (with_artifacts world chunk_size) no_artifacts IsForeign root
                  _ s (no_artifacts-HasArtifacts world chunk_size) q
                  (bind-Keeps o c b start no_artifacts IsForeign Returned _ (or_conclude o world) _
                    (try_catch-Keeps o c b start no_artifacts Returned _
                      (λ text.
                        then-Keeps o c b start no_artifacts IsForeign Returned _ _
                          (failed-Keeps o c b start world sound (codes "extraction.exception") text)
                          (λ u. record { run = λ s h. (h.0, grown s h.0 h.1) }))
                      (λ text.
                        bind-Refuses o c b start no_artifacts IsForeign _ _
                          (emit_diagnostic-Refuses o c b start no_artifacts IsForeign _))
                      _
                      (then-Keeps o c b start no_artifacts AnyException _ _ _
                        (from_result-Tracks o c b start world sound
                          (world.find_module root module_name))
                        (extract_or_return-Keeps root module_name)))
                    concluded)))
      where
        concluded :
            (result : Option Bool) (s : Session o.Stream)
            → Returned result s
            → After o c b start no_artifacts IsForeign
                (IsDone o c b start (with_artifacts world chunk_size))
                (or_conclude o world result s).0
                (or_conclude o world result s).1
        concluded none s h =
            conclude_command-After o c b start (with_artifacts world chunk_size) no_artifacts
              IsForeign world s h
        concluded (some success) s h = h
