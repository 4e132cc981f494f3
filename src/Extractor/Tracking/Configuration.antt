-- ===== src/Extractor/Tracking/Configuration.antt =====
-- The search for the configuration files and their records.
use getbiblesword.Prelude.{ℕ, refl, ◌⊎◌, inl, inr, Bool, true, false, List, [], ◌∷◌, Bytes, codes}
use getbiblesword.Exec.{Exception}
use getbiblesword.OrderedMap.{lookup, upsert}
use getbiblesword.OrderedMap.Order.{order}
use getbiblesword.CommandLine.{same_text}
use getbiblesword.Ndjson.{Ostream}
use getbiblesword.Ndjson.Records.{Collects}
use getbiblesword.Ndjson.Emits.{StaysBad}
use getbiblesword.Artifact.{diagnostic_fields}
use getbiblesword.Extractor.{increment_u64}
use getbiblesword.Extractor.Configuration.{
  is_before, read_file, FileStatus, status_error, regular_file, symlink, other_file, ConfigFile,
  Listing, finished, stopped, found, ConfigTree, read_failed, take_file, take_entry, is_checked,
  walk, search_directory, find_by_master, find_configuration_files, source_fields, emit_source,
  emit_configuration_sources, emit_interpreted_configuration,
}
use getbiblesword.Extractor.Tallies.{Stage}
use getbiblesword.Extractor.Tracking.{Tracks, pure-Tracks, then-Keeps}
use getbiblesword.Extractor.Tracking.Steps.{emit_quiet-Tracks, report-Keeps}

module _ (o : Ostream) (c : Collects o) (b : StaysBad o) (start : Bytes) (G : Stage)
    (X : Exception → Type 0) where
  take_file-Tracks :
      (module_name : Bytes) (file : ConfigFile) (content : Bytes ⊎ Bytes) (files : List ConfigFile)
      → Tracks o c b start G X (take_file o module_name file content files)
  unfolding take_file diagnostic_fields lookup upsert order
  take_file-Tracks module_name file (inl message) files =
      report-Keeps o c b start G X _ (read_failed file message) _ (inl refl, refl, refl)
        (pure-Tracks o c b start G X files)
  take_file-Tracks module_name file (inr bytes) files = pure-Tracks o c b start G X _

  take_entry-Tracks :
      (module_name : Bytes) (file : ConfigFile) (status : FileStatus) (files : List ConfigFile)
      → Tracks o c b start G X (take_entry o module_name file status files)
  unfolding take_entry diagnostic_fields lookup upsert order
  take_entry-Tracks module_name file (status_error message) files =
      report-Keeps o c b start G X _ _ _ (inl refl, refl, refl) (pure-Tracks o c b start G X files)
  take_entry-Tracks module_name file regular_file files =
      take_file-Tracks module_name file (read_file file.first) files
  take_entry-Tracks module_name file symlink files =
      report-Keeps o c b start G X _ _ _ (inl refl, refl, refl) (pure-Tracks o c b start G X files)
  take_entry-Tracks module_name file other_file files = pure-Tracks o c b start G X files

  walk-Tracks :
      (module_name : Bytes) (checked : Bool) (listing : Listing) (files : List ConfigFile)
      → Tracks o c b start G X (walk o module_name checked listing files)
  unfolding walk diagnostic_fields lookup upsert order
  walk-Tracks module_name checked finished files = pure-Tracks o c b start G X files
  walk-Tracks module_name true (stopped message) files =
      report-Keeps o c b start G X _ _ _ (inl refl, refl, refl) (pure-Tracks o c b start G X files)
  walk-Tracks module_name false (stopped message) files = pure-Tracks o c b start G X files
  walk-Tracks module_name checked (found file status later) files =
      then-Keeps o c b start G X _ _ _ (take_entry-Tracks module_name file status files)
        (walk-Tracks module_name (is_checked o status) later)

  search_directory-Tracks :
      (tree : ConfigTree) (module_name : Bytes) (directory : Bytes ⊎ Listing)
      → Tracks o c b start G X (search_directory o tree module_name directory)
  unfolding search_directory diagnostic_fields lookup upsert order
  search_directory-Tracks tree module_name (inl message) =
      report-Keeps o c b start G X _ _ _ (inl refl, refl, refl) (pure-Tracks o c b start G X [])
  search_directory-Tracks tree module_name (inr listing) =
      then-Keeps o c b start G X _ _ _ (walk-Tracks module_name false listing [])
        (λ files. pure-Tracks o c b start G X (tree.sort is_before files))

  pub find_configuration_files-Tracks :
      (tree : ConfigTree) (module_name : Bytes)
      → Tracks o c b start G X (find_configuration_files o tree module_name)
  unfolding find_configuration_files find_by_master diagnostic_fields lookup upsert order
  find_configuration_files-Tracks tree module_name = by_status tree.master_status
    where
      by_status :
          (status : FileStatus) → Tracks o c b start G X (find_by_master o tree module_name status)
      by_status (status_error message) = search_directory-Tracks tree module_name tree.directory
      by_status regular_file =
          take_file-Tracks module_name tree.master (read_file tree.master.first) []
      by_status symlink =
          report-Keeps o c b start G X _ _ _ (inl refl, refl, refl) (pure-Tracks o c b start G X [])
      by_status other_file = search_directory-Tracks tree module_name tree.directory

  emit_source-Tracks :
      (ordinal : ℕ) (file : ConfigFile) (content : Bytes ⊎ Bytes)
      → Tracks o c b start G X (emit_source o ordinal file content)
  unfolding emit_source diagnostic_fields lookup upsert order same_text
  emit_source-Tracks ordinal file (inl message) =
      report-Keeps o c b start G X _ (read_failed file message) _ (inl refl, refl, refl)
        (pure-Tracks o c b start G X ordinal)
  emit_source-Tracks ordinal file (inr bytes) =
      then-Keeps o c b start G X _ _ _
        (emit_quiet-Tracks o c b start G X (codes "config_source")
          (source_fields o ordinal file bytes) refl (refl, refl) refl)
        (λ u. pure-Tracks o c b start G X (increment_u64 ordinal))

  pub emit_configuration_sources-Tracks :
      (ordinal : ℕ) (files : List ConfigFile)
      → Tracks o c b start G X (emit_configuration_sources o ordinal files)
  unfolding emit_configuration_sources
  emit_configuration_sources-Tracks ordinal [] = pure-Tracks o c b start G X tt
  emit_configuration_sources-Tracks ordinal (file ∷ files) =
      then-Keeps o c b start G X _ _ _ (emit_source-Tracks ordinal file (read_file file.second))
        (λ next. emit_configuration_sources-Tracks next files)

  pub emit_interpreted_configuration-Tracks :
      (ordinal : ℕ) (config : List (Bytes × Bytes))
      → Tracks o c b start G X (emit_interpreted_configuration o ordinal config)
  unfolding emit_interpreted_configuration lookup order same_text
  emit_interpreted_configuration-Tracks ordinal [] = pure-Tracks o c b start G X tt
  emit_interpreted_configuration-Tracks ordinal ((name, value) ∷ config) =
      then-Keeps o c b start G X _ _ _
        (emit_quiet-Tracks o c b start G X (codes "config_entry") _ refl (refl, refl) refl)
        (λ u. emit_interpreted_configuration-Tracks (increment_u64 ordinal) config)
