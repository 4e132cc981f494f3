-- ===== src/Extractor/Commands.antt =====
-- src/sword_extractor.cpp: `list_modules` and `extract_module`.
use getbiblesword.Prelude.{
  ℕ, Bool, false, Option, none, some, List, [], ◌∷◌, Bytes, codes, ◌==◌, if◌then◌else◌,
}
use getbiblesword.Exec.{Exception, Result, ok, throw, Exec, pure, ◌>>=◌, ◌>>◌, try_catch}
use getbiblesword.CallbackStream.{is_empty}
use getbiblesword.ByteValue.{byte_value_json}
use getbiblesword.CommandLine.{same_text}
use getbiblesword.SourceEncoding.{Icu}
use getbiblesword.Ndjson.{Ostream, Writer, emit}
use getbiblesword.Artifact.{Diagnostic, ArtifactCandidate, System, error_diagnostic}
use getbiblesword.Artifact.Discovery.{Paths, Tree, discover_artifacts}
use getbiblesword.Artifact.Files.{emit_artifacts}
use getbiblesword.Extractor.{
  Session, start_session, Versions, safe_c_string, on_writer, emit_diagnostic, emit_header,
  finish_with, tally_all,
}
use getbiblesword.Extractor.Module.{SwordConstants, ModuleInfo, classify_module, module_fields}
use getbiblesword.Extractor.Configuration.{
  ConfigFile, ConfigTree, find_configuration_files, emit_configuration_sources,
  emit_interpreted_configuration,
}
use getbiblesword.Extractor.Entries.{Traversal, Dictionary, warning_diagnostic}
use getbiblesword.Extractor.Entries.Loop.{emit_entries}

-- What SWORD answers about a module
pub record Module : Type 0 where
  pub info : ModuleInfo
  pub dictionary : Dictionary
  pub top_error : ℕ
  pub traversal : Traversal

-- `std::filesystem::canonical` and `is_directory`: an error's message, or the root and whether it is
-- a directory.
pub data Root : Type 0 where
  unusable : Bytes → Root
  canonical : Bytes → Root

-- A `SWMgr` and the walk over its modules, which may end in an exception: out of the construction, or behind
-- some of the modules.
pub data ModuleListing : Type 0 where
  no_more : ModuleListing
  next_module : ModuleInfo → ModuleListing → ModuleListing
  listing_throws : Exception → ModuleListing

pub record World : Type 1 where
  pub versions : Versions
  pub constants : SwordConstants
  pub icu : Icu
  pub system : System
  pub root : Bytes → Root
  pub modules : Bytes → ModuleListing
  pub find_module : Bytes → Bytes → Result (Option Module)
  pub configuration : Bytes → ConfigTree
  pub paths : Paths
  pub tree : Tree

abbrev pub paths_of : List ConfigFile → List Bytes
paths_of [] = []
paths_of (file ∷ files) = file.path ∷ paths_of files

module _ (o : Ostream) (world : World) where
  abbrev pub Action : Type 0 → Type 0
  Action A = Exec (Session o.Stream) A

  -- The empty path stands for a root that is refused.
  unfoldable pub canonical_root : Root → Action Bytes
  canonical_root (canonical root) = pure root
  canonical_root (unusable message) =
      emit_diagnostic o (
        error_diagnostic (codes "sword.root.invalid")
          (codes "The explicit SWORD path is not a readable directory.")
          ((codes "detail", byte_value_json message) ∷ []))
      >> pure []

  -- A call of SWORD that may throw
  abbrev pub from_result : {A : Type 0} → Result A → Action A
  from_result r s = (r, s)

  unfoldable pub emit_modules : ModuleListing → Action (Unit {0})
  emit_modules no_more = pure tt
  emit_modules (listing_throws e) = from_result (throw e)
  emit_modules (next_module info modules) =
      on_writer o (emit o (codes "module") (module_fields world.constants info))
      >> emit_modules modules

  -- `const bool success = diagnostics.error == 0U; writer.finish(success, …); return success;`
  unfoldable pub conclude_command : Action Bool
  unfolding finish_with
  conclude_command s = finish_with o (s.diagnostics.error == 0) s

  abbrev pub discovery_failed : Bytes → Action (Unit {0})
  discovery_failed text =
      emit_diagnostic o (error_diagnostic (codes "sword.discovery.exception") text [])

  unfoldable pub list_in : Bytes → Action Bool
  unfolding emit_modules conclude_command finish_with
  list_in root =
      if is_empty root
      then finish_with o false
      else (try_catch (emit_modules (world.modules root)) discovery_failed >> conclude_command)

  unfoldable pub list_session : Bytes → Action Bool
  unfolding list_in canonical_root
  list_session sword_path =
      emit_header o world.versions (codes "list") 0
      >> (canonical_root (world.root sword_path) >>= list_in)

  -- The loops over the diagnostics that come from elsewhere
  unfoldable pub emit_all_diagnostics : List Diagnostic → Action (Unit {0})
  emit_all_diagnostics [] = pure tt
  emit_all_diagnostics (value ∷ values) = emit_diagnostic o value >> emit_all_diagnostics values

  -- `emit_artifacts` has emitted its diagnostics; they are counted here.
  unfoldable pub extract_artifacts : ℕ → List ArtifactCandidate → Action (Unit {0})
  extract_artifacts chunk_size candidates =
      on_writer o (emit_artifacts world.system o candidates chunk_size) >>= λ result s. (
        ok tt,
        record s {
          artifacts = result.artifacts;
          artifact_bytes = result.bytes;
          diagnostics = tally_all result.diagnostics s.diagnostics;
        },
      )

  abbrev pub data_path_of : ModuleInfo → Bytes
  data_path_of info =
      let absolute = safe_c_string (info.config_entry (codes "AbsoluteDataPath")) in
      if is_empty absolute then safe_c_string (info.config_entry (codes "DataPath")) else absolute

  unfoldable pub report_type : ModuleInfo → Action (Unit {0})
  report_type info =
      if same_text (classify_module world.constants info) (codes "unknown")
      then emit_diagnostic o (
          warning_diagnostic (codes "module.type.unknown")
            (codes
              "The SWORD module type is unknown; generic traversal and full artifacts are retained.")
            ((codes "sword_type", byte_value_json (safe_c_string info.type)) ∷ []))
      else pure tt

  unfoldable pub report_sources : List ConfigFile → Action (Unit {0})
  report_sources [] = emit_diagnostic o (
      warning_diagnostic (codes "config.source.not_found")
        (codes
          "No defining raw configuration file was matched; interpreted configuration is retained.")
        [])
  report_sources (file ∷ files) = pure tt

  unfoldable pub extract_files : Bytes → ModuleInfo → ℕ → List ConfigFile → Action (Unit {0})
  unfolding emit_all_diagnostics extract_artifacts
  extract_files root info chunk_size files =
      let found =
        discover_artifacts world.paths world.tree root (data_path_of info) (paths_of files) in
      emit_all_diagnostics found.diagnostics >> extract_artifacts chunk_size found.output

  -- The `try` block behind the search for the module
  unfoldable pub extract_found : Bytes → Bytes → ℕ → Module → Action (Unit {0})
  unfolding report_type report_sources extract_files
  extract_found root module_name chunk_size module_calls =
      let info = module_calls.info in
      on_writer o (emit o (codes "module") (module_fields world.constants info))
      >> (report_type info
          >> (find_configuration_files o (world.configuration root) module_name >>= λ files.
              (report_sources files
                >> (emit_configuration_sources o 0 files
                    >> (emit_interpreted_configuration o 0 info.config
                        >> (emit_entries o world.constants world.icu module_calls.dictionary
                              module_calls.top_error module_calls.traversal
                            >>= λ entries_success. extract_files root info chunk_size files))))))

  -- A result is what the function returns out of the `try` block.
  unfoldable pub extract_or_return : Bytes → Bytes → ℕ → Option Module → Action (Option Bool)
  unfolding extract_found
  extract_or_return root module_name chunk_size none =
      emit_diagnostic o (
        error_diagnostic (codes "module.not_found")
          (codes "The requested module was not found in the explicit SWORD root.")
          ((codes "module", byte_value_json module_name) ∷ []))
      >> (finish_with o false >>= λ success. pure (some success))
  extract_or_return root module_name chunk_size (some module_calls) =
      extract_found root module_name chunk_size module_calls >> pure none

  abbrev pub extraction_failed : Bytes → Action (Option Bool)
  extraction_failed text =
      emit_diagnostic o (error_diagnostic (codes "extraction.exception") text []) >> pure none

  abbrev pub or_conclude : Option Bool → Action Bool
  or_conclude (some success) = pure success
  or_conclude none = conclude_command

  unfoldable pub extract_in : Bytes → ℕ → Bytes → Action Bool
  unfolding extract_or_return conclude_command finish_with
  extract_in module_name chunk_size root =
      if is_empty root
      then finish_with o false
      else (try_catch
            (from_result (world.find_module root module_name)
              >>= extract_or_return root module_name chunk_size)
            extraction_failed
          >>= or_conclude)

  unfoldable pub extract_session : Bytes → Bytes → ℕ → Action Bool
  unfolding extract_in canonical_root
  extract_session sword_path module_name chunk_size =
      emit_header o world.versions (codes "extract") chunk_size
      >> (canonical_root (world.root sword_path) >>= extract_in module_name chunk_size)

  -- A session on a writer
  abbrev pub on_session : Action Bool → Exec (Writer o.Stream) Bool
  on_session action writer =
      ((action (start_session writer)).0, (action (start_session writer)).1.writer)

  unfoldable pub list_modules : Bytes → Exec (Writer o.Stream) Bool
  unfolding list_session
  list_modules sword_path = on_session (list_session sword_path)

  unfoldable pub extract_module : Bytes → Bytes → ℕ → Exec (Writer o.Stream) Bool
  unfolding extract_session
  extract_module sword_path module_name chunk_size =
      on_session (extract_session sword_path module_name chunk_size)
