-- ===== src/Artifact/Discovery.antt =====
-- src/artifact.cpp: `discover_artifacts`. `std::filesystem` is a parameter: its paths, and what its
-- calls answer during the discovery.
pub mod Unique
pub mod Confined
use getbiblesword.Prelude.{
  ℕ, Bool, true, false, not, ◌&&◌, ◌||◌, ◌⊎◌, inl, inr, Option, none, some, List, [], ◌∷◌, ◌++◌,
  Bytes, codes, if◌then◌else◌,
}
use getbiblesword.OrderedMap.Order.{is_less, order}
use getbiblesword.ByteValue.{byte_value_json}
use getbiblesword.CallbackStream.{is_empty}
use getbiblesword.CommandLine.{same_text}
use getbiblesword.Extractor.Module.{starts_with}
use getbiblesword.Artifact.{Diagnostic, ArtifactCandidate, error_diagnostic}

-- The operations of `std::filesystem::path`, which need no file. `components` is what its iterators
-- go through, and `same_path` is its `operator==`.
pub record Paths : Type 0 where
  pub lexically_relative : Bytes → Bytes → Bytes
  pub lexically_normal : Bytes → Bytes
  pub is_absolute : Bytes → Bool
  pub join : Bytes → Bytes → Bytes
  pub components : Bytes → List Bytes
  pub parent_path : Bytes → Bytes
  pub filename : Bytes → Bytes
  pub same_path : Bytes → Bytes → Bool

-- `symlink_status`. `absent` is an error too.
pub data Presence : Type 0 where
  absent directory other_object : Presence

-- What an iterator gives until its end or an error of its construction or of `increment`
pub record Enumeration : Type 0 where
  pub files : List Bytes
  pub failure : Option Bytes

-- `sort` is `std::sort` by the comparator that it is given.
pub record Tree : Type 0 where
  pub canonical : Bytes → Bytes ⊎ Bytes
  pub symlink_status : Bytes → Presence
  pub recursive_entries : Bytes → Enumeration
  pub entries : Bytes → Enumeration
  pub sort :
      (ArtifactCandidate → ArtifactCandidate → Bool)
      → List ArtifactCandidate
      → List ArtifactCandidate

-- The comparator of the sort, by the bytes of the relative paths
abbrev pub is_before : ArtifactCandidate → ArtifactCandidate → Bool
is_before left right = is_less (order left.relative_path right.relative_path)

-- The two vectors that the function fills
pub record Discovery : Type 0 where
  pub output : List ArtifactCandidate
  pub diagnostics : List Diagnostic

abbrev pub add_diagnostic : Discovery → Diagnostic → Discovery
add_diagnostic d value = record d { diagnostics = d.diagnostics ++ (value ∷ []) }

abbrev pub escapes : Bytes
escapes = codes "artifact path escapes the SWORD root"

module _ (paths : Paths) where
  abbrev pub stays_inside : List Bytes → Bool
  stays_inside [] = false
  stays_inside (first ∷ rest) = not (same_text first (codes ".."))

  unfoldable pub is_within_root : Bytes → Bytes → Bool
  is_within_root root candidate =
      let relative = paths.lexically_relative candidate root in
      if is_empty relative
      then paths.same_path candidate root
      else (stays_inside (paths.components relative) && not (paths.is_absolute relative))

  -- The text of the exception that is thrown, or the path
  unfoldable pub normalize_candidate : Bytes → Bytes → Bytes ⊎ Bytes
  normalize_candidate root candidate =
      let normalized =
        if paths.is_absolute candidate
        then paths.lexically_normal candidate
        else paths.lexically_normal (paths.join root candidate) in
      if not (is_within_root root normalized) then inl escapes else inr normalized

  unfoldable pub add_candidate : Discovery → Bytes → Bytes → Bytes → Discovery
  add_candidate d root absolute role = record d {
    output =
        d.output
        ++ (record {
          absolute_path = absolute;
          relative_path = paths.lexically_relative absolute root;
          role = role;
        }
            ∷ []);
  }

  unfoldable pub add_configuration : Bytes → Bytes → Bytes ⊎ Bytes → Discovery → Discovery
  unfolding add_candidate
  add_configuration root config (inl text) d = add_diagnostic d (
      error_diagnostic (codes "artifact.config.escape") text
        ((codes "path", byte_value_json config) ∷ []))
  add_configuration root config (inr normalized) d =
      add_candidate d root normalized (codes "configuration")

  unfoldable pub add_configurations : Bytes → List Bytes → Discovery → Discovery
  unfolding add_configuration
  add_configurations root [] d = d
  add_configurations root (config ∷ configs) d =
      add_configurations root configs
        (add_configuration root config (normalize_candidate root config) d)

  unfoldable pub add_all : Bytes → Bytes → List Bytes → Discovery → Discovery
  unfolding add_candidate
  add_all root role [] d = d
  add_all root role (file ∷ files) d = add_all root role files (add_candidate d root file role)

  -- Behind the loop over the data directory
  unfoldable pub report_enumeration : Bytes → Bytes → Option Bytes → Discovery → Discovery
  report_enumeration root data_path none d = d
  report_enumeration root data_path (some message) d = add_diagnostic d (
      error_diagnostic (codes "artifact.enumeration.failed")
        (codes "Unable to enumerate the complete module DataPath.")
        ((codes "detail", byte_value_json message)
          ∷ (codes "path", byte_value_json (paths.lexically_relative data_path root))
          ∷ []))

  -- The files whose name starts with the prefix
  abbrev pub with_prefix : Bytes → List Bytes → List Bytes
  with_prefix prefix [] = []
  with_prefix prefix (file ∷ files) =
      let later = with_prefix prefix files in
      if starts_with prefix (paths.filename file) then file ∷ later else later

  abbrev pub is_resolved : Option Bytes → List Bytes → Bool
  is_resolved none (file ∷ files) = true
  is_resolved none [] = false
  is_resolved (some message) files = false

  unfoldable pub add_prefixed : Bytes → Bytes → Option Bytes → List Bytes → Discovery → Discovery
  unfolding add_all
  add_prefixed root data_path failure matched d =
      let d' = add_all root (codes "module_data_prefix") matched d in
      if is_resolved failure matched
      then d'
      else add_diagnostic d' (
          error_diagnostic (codes "artifact.datapath.unresolved")
            (codes "DataPath does not exist and no prefix-style module files were found.")
            ((codes "path", byte_value_json data_path) ∷ []))

  -- The rest of `std::unique` by the absolute path: of equal neighbours the first stays.
  unfoldable pub drop_repeats : ArtifactCandidate → List ArtifactCandidate → List ArtifactCandidate
  drop_repeats kept [] = []
  drop_repeats kept (c ∷ cs) =
      let same = drop_repeats kept cs in
      let other = drop_repeats c cs in
      if paths.same_path kept.absolute_path c.absolute_path then same else (c ∷ other)

  unfoldable pub unique : List ArtifactCandidate → List ArtifactCandidate
  unfolding drop_repeats
  unique [] = []
  unique (c ∷ cs) = c ∷ drop_repeats c cs

  module _ (tree : Tree) where
    unfoldable pub add_present : Bytes → Bytes → Bytes → Presence → Discovery → Discovery
    unfolding add_prefixed add_all add_candidate report_enumeration
    add_present root data_path found absent d =
        let siblings = tree.entries (paths.parent_path found) in
        add_prefixed root data_path siblings.failure
          (with_prefix (paths.filename found) siblings.files) d
    add_present root data_path found other_object d =
        add_candidate d root found (codes "module_data")
    add_present root data_path found directory d =
        let below = tree.recursive_entries found in
        report_enumeration root found below.failure (
          add_all root (codes "module_data") below.files
            (add_candidate d root found (codes "module_data")))

    unfoldable pub add_normalized : Bytes → Bytes → Bytes ⊎ Bytes → Discovery → Discovery
    unfolding add_present
    add_normalized root data_path (inl text) d = add_diagnostic d (
        error_diagnostic (codes "artifact.datapath.escape") text
          ((codes "path", byte_value_json data_path) ∷ []))
    add_normalized root data_path (inr found) d =
        add_present root data_path found (tree.symlink_status found) d

    unfoldable pub add_data : Bytes → Bytes → Discovery → Discovery
    unfolding add_normalized
    add_data root data_path d =
        if is_empty data_path
        then add_diagnostic d (
            error_diagnostic (codes "artifact.datapath.missing")
              (codes "The module has no interpreted DataPath.") [])
        else add_normalized root data_path (normalize_candidate root data_path) d

    unfoldable pub discover_in : Bytes ⊎ Bytes → Bytes → List Bytes → Discovery
    unfolding unique add_data add_configurations
    discover_in (inl message) data_path configuration_files = record {
      output = [];
      diagnostics =
          error_diagnostic (codes "artifact.root.invalid")
            (codes "Unable to canonicalize the SWORD root.")
            ((codes "detail", byte_value_json message) ∷ [])
          ∷ [];
    }
    discover_in (inr root) data_path configuration_files =
        let d = add_data root data_path (
          add_configurations root configuration_files (record { output = []; diagnostics = [] })) in
        record d { output = unique (tree.sort is_before d.output) }

    unfoldable pub discover_artifacts : Bytes → Bytes → List Bytes → Discovery
    unfolding discover_in
    discover_artifacts sword_root data_path configuration_files =
        discover_in (tree.canonical sword_root) data_path configuration_files
