-- ===== src/CApi/Options/Checks.antt =====
-- What `gbs_extract_module_v1` lets through.
use getbiblesword.Prelude.{
  ℕ, ◌≤◌, ◌≡◌, refl, arith, inl, inr, true, false, Option, none, some, List, [], ◌∷◌, Bytes, All,
  Bool-cases, Option-cases, eq_of_==, ◌==◌, if◌then◌else◌,
}
use getbiblesword.OrderedMap.{or_else}
use getbiblesword.CApi.{
  status_invalid_argument, error_storage_is_valid, Operation, Call, CallerCallback, is_missing,
  run_streaming_operation,
}
use getbiblesword.CApi.Options.{
  options_size, default_artifact_chunk_size, ExtractOptions, reserved_fields_are_zero,
  chunk_size_of, refusal, ExtractionOptions, request_of, gbs_extract_module_v1,
}

reserved_fields_are_zero-All :
    (values : List ℕ) → reserved_fields_are_zero values ≡ true → All (λ value. value ≡ 0) values
unfolding reserved_fields_are_zero
reserved_fields_are_zero-All [] h = tt
reserved_fields_are_zero-All (value ∷ values) h =
    ground (arith, reserved_fields_are_zero-All values, eq_of_== value 0)

-- What the contract asks of the options; the size of a chunk is the one that is used.
pub record IsRequest (options : ExtractOptions) : Type 0 where
  pub is_large_enough : options_size ≤ options.struct_size
  pub is_abi : options.abi_version ≡ 1
  pub reserved_is_zero : All (λ value. value ≡ 0) options.reserved
  pub has_path : is_missing options.sword_path ≡ false
  pub has_module : is_missing options.module_name ≡ false
  pub chunk_is_large_enough : 4096 ≤ chunk_size_of options
  pub chunk_is_small_enough : chunk_size_of options ≤ 16777216

pub refusal-IsRequest : (options : ExtractOptions) → refusal options ≡ none → IsRequest options
unfolding refusal
refusal-IsRequest options h = record {
  is_large_enough = ground arith;
  is_abi = ground (arith, eq_of_== options.abi_version 1);
  reserved_is_zero = ground (arith, reserved_fields_are_zero-All options.reserved);
  has_path = ground arith;
  has_module = ground arith;
  chunk_is_large_enough = ground arith;
  chunk_is_small_enough = ground arith;
}

All-reserved_fields_are_zero :
    (values : List ℕ) → All (λ value. value ≡ 0) values → reserved_fields_are_zero values ≡ true
unfolding reserved_fields_are_zero
All-reserved_fields_are_zero [] h = refl
All-reserved_fields_are_zero (value ∷ values) h =
    ground (arith, All-reserved_fields_are_zero values)

IsRequest-refusal : (options : ExtractOptions) → IsRequest options → refusal options ≡ none
unfolding refusal
IsRequest-refusal options h =
    let zero = All-reserved_fields_are_zero options.reserved h.reserved_is_zero in ground arith

-- What is run for the options: an empty text is never asked for.
pub record IsAsked (options : ExtractOptions) (request : ExtractionOptions) : Type 0 where
  pub path_is : some request.sword_path ≡ options.sword_path
  pub module_is : some request.module_name ≡ options.module_name
  pub default_size : options.artifact_chunk_size ≡ 0 → request.artifact_chunk_size ≡ 1048576
  pub given_size :
      (options.artifact_chunk_size ≡ 0 → ⊥)
      → request.artifact_chunk_size ≡ options.artifact_chunk_size
  pub size_is_large_enough : 4096 ≤ request.artifact_chunk_size
  pub size_is_small_enough : request.artifact_chunk_size ≤ 16777216

given_text : (text : Option Bytes) → is_missing text ≡ false → some (or_else [] text) ≡ text
given_text none h = absurd (ground arith)
given_text (some text) h = refl

request_of-IsAsked :
    (options : ExtractOptions) → IsRequest options → IsAsked options (request_of options)
request_of-IsAsked options h = record {
  path_is = given_text options.sword_path h.has_path;
  module_is = given_text options.module_name h.has_module;
  default_size = λ zero_size. rw zero_size refl;
  given_size = λ some_size. given options.artifact_chunk_size some_size;
  size_is_large_enough = h.chunk_is_large_enough;
  size_is_small_enough = h.chunk_is_small_enough;
}
  where
    given : (n : ℕ) → (n ≡ 0 → ⊥) → (if n == 0 then default_artifact_chunk_size else n) ≡ n
    given n h = ground (arith, eq_of_== n 0)

none_ne_some : {text : Bytes} → some text ≡ none → ⊥
none_ne_some h = cc

module _ {Context : Type 0} (ios_failure : Bytes)
    (extract_module : ExtractionOptions → Operation Context) where
  -- Options that do not meet the contract are refused, and the callback is not called.
  pub invalid_options_are_refused :
      (options : ExtractOptions) (callback : Option (CallerCallback Context)) (s : Call Context)
      → (IsRequest options → ⊥)
      → let result = gbs_extract_module_v1 ios_failure extract_module (some options) callback s in
        (result.0 ≡ status_invalid_argument) × (result.1.context ≡ s.context)
  unfolding gbs_extract_module_v1
  invalid_options_are_refused options callback s h = elim (Option-cases (refusal options)) [
    | inl passed ↦ absurd (h (refusal-IsRequest options passed))
    | inr (text, refused) ↦ elim (Bool-cases (error_storage_is_valid s.error)) [
      | inl valid ↦ rw (valid, refused) (refl, refl)
      | inr small ↦ rw small (refl, refl)
    ]
  ]

  -- With error storage that is large enough, or none, options that meet it are run: the operation is the extraction of the module and the
  -- path that the options give, with their chunk size, or 1048576 where they give 0.
  pub valid_options_are_run :
      (options : ExtractOptions) (callback : Option (CallerCallback Context)) (s : Call Context)
      → IsRequest options
      → error_storage_is_valid s.error ≡ true
      → (request : ExtractionOptions) × IsAsked options request
        × (gbs_extract_module_v1 ios_failure extract_module (some options) callback s
            ≡ run_streaming_operation ios_failure callback (extract_module request) s)
  unfolding gbs_extract_module_v1
  valid_options_are_run options callback s h valid = (
    request_of options,
    request_of-IsAsked options h,
    rw (valid, IsRequest-refusal options h) refl,
  )
