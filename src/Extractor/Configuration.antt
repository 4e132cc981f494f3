-- ===== src/Extractor/Configuration.antt =====
-- src/sword_extractor.cpp: the configuration files of a module, `read_file` to
-- `emit_interpreted_configuration`. The file system is a parameter: what its calls answer.
pub mod Definition
pub mod Lines
use getbiblesword.Prelude.{
  ℕ, zero, suc, ◌+◌, ◌-◌, ◌%◌, ◌^◌, Bool, true, false, not, ◌&&◌, ◌||◌, ◌⊎◌, inl, inr, Option, none,
  some, List, [], ◌∷◌, ◌++◌, Bytes, codes, length, ltb, ◌==◌, if◌then◌else◌,
}
use getbiblesword.OrderedMap.Order.{is_less, order}
use getbiblesword.Exec.{Result, ok, throw, Exec, pure, bind_result, ◌>>=◌, ◌>>◌}
use getbiblesword.Json.{to_string}
use getbiblesword.ByteValue.{byte_value_json}
use getbiblesword.CallbackStream.{is_empty}
use getbiblesword.CommandLine.{same_text}
use getbiblesword.SourceEncoding.{lower}
use getbiblesword.Ndjson.{Ostream, JsonFields, emit}
use getbiblesword.Artifact.{Diagnostic, error_diagnostic}
use getbiblesword.Extractor.{Session, increment_u64, on_writer, emit_diagnostic}
use getbiblesword.Extractor.Configuration.Definition.{defines_module}

-- `tellg()`
pub data Position : Type 0 where
  no_position : Position
  negative : Position
  at : ℕ → Position

-- What the calls on a `std::ifstream` answer: `content` is what `read` puts into the buffer.
pub record FileCalls : Type 0 where
  pub is_open : Bool
  pub end_position : Position
  pub seeks_back : Bool
  pub content : ℕ → Bytes
  pub has_extra_byte : Bool
  pub at_end : Bool

-- The two tests behind `read`
unfoldable pub check_end : FileCalls → Bytes → Bytes ⊎ Bytes
check_end f bytes =
    if f.has_extra_byte
    then inl (codes "The configuration file changed while it was being read.")
    else if not f.at_end
    then inl (codes "Unable to read the complete configuration file.")
    else inr bytes

unfoldable pub read_content : FileCalls → ℕ → Bytes ⊎ Bytes
unfolding check_end
read_content f byte_count =
    if byte_count == 0
    then check_end f []
    else if not (length (f.content byte_count) == byte_count)
    then inl (codes "Unable to read the complete configuration file.")
    else check_end f (f.content byte_count)

unfoldable pub read_sized : FileCalls → Position → Bytes ⊎ Bytes
unfolding read_content
read_sized f no_position = inl (codes "Unable to determine the configuration file size.")
read_sized f negative = inl (codes "The configuration file is too large to read safely.")
read_sized f (at size) =
    if ltb (2 ^ 64 - 1) size || ltb (2 ^ 63 - 1) size
    then inl (codes "The configuration file is too large to read safely.")
    else if not f.seeks_back
    then inl (codes "Unable to seek within the configuration file.")
    else read_content f size

-- The error's message, or the bytes
unfoldable pub read_file : FileCalls → Bytes ⊎ Bytes
unfolding read_sized
read_file f =
    if not f.is_open
    then inl (codes "Unable to open the configuration file.")
    else read_sized f f.end_position

-- `symlink_status`, as far as the code tells it apart
pub data FileStatus : Type 0 where
  status_error : Bytes → FileStatus
  regular_file symlink other_file : FileStatus

-- A configuration file, with the answers to the two times that it is read
pub record ConfigFile : Type 0 where
  pub path : Bytes
  pub relative_path : Bytes
  pub first : FileCalls
  pub second : FileCalls

-- What a `recursive_directory_iterator` gives; `stopped` is an error of `increment`, which ends it.
pub data Listing : Type 0 where
  finished : Listing
  stopped : Bytes → Listing
  found : ConfigFile → FileStatus → Listing → Listing

-- `directory` is the error of the iterator's construction, or what it gives. `sort` is `std::sort` by
-- the comparator that it is given.
pub record ConfigTree : Type 0 where
  pub master : ConfigFile
  pub master_status : FileStatus
  pub directory : Bytes ⊎ Listing
  pub sort : (ConfigFile → ConfigFile → Bool) → List ConfigFile → List ConfigFile

-- The comparator of the sort, by the bytes of the paths relative to the SWORD root
abbrev pub is_before : ConfigFile → ConfigFile → Bool
is_before left right = is_less (order left.relative_path right.relative_path)

abbrev pub path_of : ConfigFile → JsonFields
path_of file = (codes "path", byte_value_json file.relative_path) ∷ []

abbrev pub read_failed : ConfigFile → Bytes → Diagnostic
read_failed file message = error_diagnostic (codes "config.read.failed") message (path_of file)

module _ (o : Ostream) where
  abbrev pub Files : Type 0
  Files = Exec (Session o.Stream) (List ConfigFile)

  -- A regular file is read; it is taken where it defines the module.
  unfoldable pub take_file : Bytes → ConfigFile → Bytes ⊎ Bytes → List ConfigFile → Files
  take_file module_name file (inl message) files =
      emit_diagnostic o (read_failed file message) >> pure files
  take_file module_name file (inr bytes) files =
      pure (if defines_module bytes module_name then files ++ (file ∷ []) else files)

  unfoldable pub take_entry : Bytes → ConfigFile → FileStatus → List ConfigFile → Files
  unfolding take_file
  take_entry module_name file (status_error message) files =
      emit_diagnostic o (
        error_diagnostic (codes "config.stat.failed")
          (codes "Unable to inspect a configuration candidate.")
          ((codes "detail", byte_value_json message) ∷ path_of file))
      >> pure files
  take_entry module_name file regular_file files =
      take_file module_name file (read_file file.first) files
  take_entry module_name file symlink files =
      emit_diagnostic o (
        error_diagnostic (codes "config.symlink.refused")
          (codes "A configuration symlink was not followed.") (path_of file))
      >> pure files
  take_entry module_name file other_file files = pure files

  -- An error of `increment` is reported where the entry's status was read, and else it only ends the loop.
  abbrev pub is_checked : FileStatus → Bool
  is_checked (status_error message) = false
  is_checked regular_file = true
  is_checked symlink = true
  is_checked other_file = true

  unfoldable pub walk : Bytes → Bool → Listing → List ConfigFile → Files
  walk module_name checked finished files = pure files
  walk module_name true (stopped message) files =
      emit_diagnostic o (
        error_diagnostic (codes "config.enumeration.failed")
          (codes "Configuration enumeration did not complete.")
          ((codes "detail", byte_value_json message) ∷ []))
      >> pure files
  walk module_name false (stopped message) files = pure files
  walk module_name checked (found file status later) files =
      take_entry module_name file status files >>= λ files'.
      walk module_name (is_checked status) later files'

  unfoldable pub search_directory : ConfigTree → Bytes → Bytes ⊎ Listing → Files
  unfolding walk
  search_directory tree module_name (inl message) =
      emit_diagnostic o (
        error_diagnostic (codes "config.directory.unreadable")
          (codes "Unable to enumerate the SWORD mods.d directory.")
          ((codes "detail", byte_value_json message) ∷ []))
      >> pure []
  search_directory tree module_name (inr listing) =
      walk module_name false listing [] >>= λ files. pure (tree.sort is_before files)

  unfoldable pub find_by_master : ConfigTree → Bytes → FileStatus → Files
  unfolding search_directory take_file
  find_by_master tree module_name (status_error message) =
      search_directory tree module_name tree.directory
  find_by_master tree module_name regular_file =
      take_file module_name tree.master (read_file tree.master.first) []
  find_by_master tree module_name symlink =
      emit_diagnostic o (
        error_diagnostic (codes "config.symlink.refused")
          (codes "The active SWORD mods.conf symlink was not followed.") (path_of tree.master))
      >> pure []
  find_by_master tree module_name other_file = search_directory tree module_name tree.directory

  unfoldable pub find_configuration_files : ConfigTree → Bytes → Files
  unfolding find_by_master
  find_configuration_files tree module_name = find_by_master tree module_name tree.master_status

  abbrev pub source_fields : ℕ → ConfigFile → Bytes → JsonFields
  source_fields ordinal file bytes =
      (codes "ordinal", to_string ordinal)
      ∷ (codes "path", byte_value_json file.relative_path)
      ∷ (codes "raw", byte_value_json bytes)
      ∷ []

  unfoldable pub emit_source : ℕ → ConfigFile → Bytes ⊎ Bytes → Exec (Session o.Stream) ℕ
  emit_source ordinal file (inl message) =
      emit_diagnostic o (read_failed file message) >> pure ordinal
  emit_source ordinal file (inr bytes) =
      on_writer o (emit o (codes "config_source") (source_fields ordinal file bytes))
      >> pure (increment_u64 ordinal)

  unfoldable pub emit_configuration_sources :
      ℕ → List ConfigFile → Exec (Session o.Stream) (Unit {0})
  unfolding emit_source
  emit_configuration_sources ordinal [] = pure tt
  emit_configuration_sources ordinal (file ∷ files) =
      emit_source ordinal file (read_file file.second) >>= λ next.
      emit_configuration_sources next files

  unfoldable pub emit_interpreted_configuration :
      ℕ → List (Bytes × Bytes) → Exec (Session o.Stream) (Unit {0})
  emit_interpreted_configuration ordinal [] = pure tt
  emit_interpreted_configuration ordinal ((name, value) ∷ config) =
      on_writer o (
        emit o (codes "config_entry") (
          (codes "name", byte_value_json name)
          ∷ (codes "ordinal", to_string ordinal)
          ∷ (codes "value", byte_value_json value)
          ∷ []))
      >> emit_interpreted_configuration (increment_u64 ordinal) config
