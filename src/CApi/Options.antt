-- ===== src/CApi/Options.antt =====
-- src/c_api.cpp: `gbs_extract_module_v1`, its options and the order of its checks.
pub mod Checks
use getbiblesword.Prelude.{
  ℕ, ◌*◌, ◌^◌, Bool, true, false, not, ◌&&◌, ◌||◌, Option, none, some, List, [], ◌∷◌, Bytes, codes,
  ltb, ◌==◌, if◌then◌else◌,
}
use getbiblesword.OrderedMap.{or_else}
use getbiblesword.CApi.{
  status_invalid_argument, error_storage_is_valid, Operation, Call, CallerCallback, reject,
  is_missing, run_streaming_operation,
}

abbrev pub abi_version : ℕ
abi_version = 1

abbrev pub default_artifact_chunk_size : ℕ
default_artifact_chunk_size = 1024 * 1024

abbrev pub minimum_artifact_chunk_size : ℕ
minimum_artifact_chunk_size = 4096

abbrev pub maximum_artifact_chunk_size : ℕ
maximum_artifact_chunk_size = 16 * 1024 * 1024

-- `sizeof(gbs_extract_options_v1)`
abbrev pub options_size : ℕ
options_size = 64

-- `gbs_extract_options_v1`
pub record ExtractOptions : Type 0 where
  pub struct_size : ℕ
  pub abi_version : ℕ
  pub sword_path : Option Bytes
  pub module_name : Option Bytes
  pub artifact_chunk_size : ℕ
  pub reserved : List ℕ

unfoldable pub reserved_fields_are_zero : List ℕ → Bool
reserved_fields_are_zero [] = true
reserved_fields_are_zero (value ∷ values) = value == 0 && reserved_fields_are_zero values

abbrev pub chunk_size_of : ExtractOptions → ℕ
chunk_size_of options =
    if options.artifact_chunk_size == 0
    then default_artifact_chunk_size
    else options.artifact_chunk_size

-- The checks in their order; `none` where all pass.
unfoldable pub refusal : ExtractOptions → Option Bytes
refusal options =
    if ltb options.struct_size options_size
    then some (codes "The extraction options are too small.")
    else if not (options.abi_version == abi_version)
    then some (codes "Unsupported C ABI version.")
    else if not (reserved_fields_are_zero options.reserved)
    then some (codes "Reserved extraction options must be zero.")
    else if is_missing options.sword_path
    then some (codes "The SWORD module path is required.")
    else if is_missing options.module_name
    then some (codes "The module name is required.")
    else if ltb (chunk_size_of options) minimum_artifact_chunk_size
        || ltb maximum_artifact_chunk_size (chunk_size_of options)
    then some (codes "The artifact chunk size must be from 4096 through 16777216 bytes.")
    else none

-- `ExtractionOptions` of include/getbiblesword/sword_extractor.hpp, as it is handed to `extract_module`.
pub record ExtractionOptions : Type 0 where
  pub sword_path : Bytes
  pub module_name : Bytes
  pub artifact_chunk_size : ℕ

abbrev pub request_of : ExtractOptions → ExtractionOptions
request_of options = record {
  sword_path = or_else [] options.sword_path;
  module_name = or_else [] options.module_name;
  artifact_chunk_size = chunk_size_of options;
}

module _ {Context : Type 0} (ios_failure : Bytes)
    (extract_module : ExtractionOptions → Operation Context) where
  unfoldable pub gbs_extract_module_v1 :
      Option ExtractOptions → Option (CallerCallback Context) → Call Context → ℕ × Call Context
  unfolding refusal
  gbs_extract_module_v1 options callback s =
      if not (error_storage_is_valid s.error) then (status_invalid_argument, s) else checked options
    where
      decided : ExtractOptions → Option Bytes → ℕ × Call Context
      decided options (some text) = reject s text
      decided options none =
          run_streaming_operation ios_failure callback (extract_module (request_of options)) s

      checked : Option ExtractOptions → ℕ × Call Context
      checked none = reject s (codes "The extraction options are required.")
      checked (some options) = decided options (refusal options)
