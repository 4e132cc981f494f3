-- ===== src/Extractor/Delivery.antt =====
-- src/c_api.cpp on top of src/sword_extractor.cpp: what the caller of the C interface has when a call
-- succeeds.
use getbiblesword.Prelude.{
  ◌≡◌, refl, sym, subst, ◌∙◌, arith, inl, inr, Bool, true, Option, some, [], append-nil, Bytes,
  Bool-cases,
}
use getbiblesword.OrderedMap.{or_else}
use getbiblesword.Exec.{Result, ok}
use getbiblesword.Ndjson
use getbiblesword.Ndjson.{Writer}
use getbiblesword.Ndjson.Records.{new-Holds}
use getbiblesword.Ndjson.Emits.{StaysBad}
use getbiblesword.CallbackStream.{
  Callback, CallbackOutput, open_output, write_output, callback_ostream,
}
use getbiblesword.CallbackStream.Delivery.{Consumes}
use getbiblesword.CallbackStream.Output.{callback_Collects}
use getbiblesword.CApi.{
  status_ok, status_invalid_argument, error_storage_is_valid, Call, CallerCallback, Operation,
  run_streaming_operation, is_missing, gbs_list_modules_v1,
}
use getbiblesword.CApi.Streaming.{run_streaming_operation-delivers}
use getbiblesword.CApi.Options.{ExtractionOptions}
use getbiblesword.Extractor.Commands.{World, list_modules, extract_module}
use getbiblesword.Extractor.Tallies.{Stage}
use getbiblesword.Extractor.Tracking.Stages.{no_artifacts}
use getbiblesword.Extractor.Tracking.Complete.{IsStream, IsComplete}
use getbiblesword.Extractor.Tracking.Commands.{IsSound}
use getbiblesword.Extractor.Contract.{Concludes, list_modules-Concludes}

-- The operations that the C interface runs
abbrev pub extract_operation : {Context : Type 0} → World → ExtractionOptions → Operation Context
extract_operation world options callback =
    extract_module (callback_ostream callback) world options.sword_path options.module_name
      options.artifact_chunk_size

abbrev pub list_operation : {Context : Type 0} → World → Bytes → Operation Context
list_operation world sword_path callback = list_modules (callback_ostream callback) world sword_path

refused_is_not_ok : status_invalid_argument ≡ status_ok → ⊥
refused_is_not_ok h = omega (arith, h)

module _ {Context : Type 0} (callback : Callback Context) (c : Consumes callback) where
  -- A stream on a callback that has failed stays so.
  pub callback_StaysBad : StaysBad (callback_ostream callback)
  unfolding write_output
  callback_StaysBad = record { write-bad = λ s bytes h. rw h refl }

  -- Success of the command is the success of the call.
  completed :
      (G : Stage) (r : Result Bool) (w : Writer (CallbackOutput Context))
      → Concludes
          (callback_ostream callback)
          (callback_Collects callback c)
          callback_StaysBad
          []
          G
          r
          w
      → r ≡ ok true
      → IsComplete
          (callback_ostream callback)
          (callback_Collects callback c)
          callback_StaysBad
          []
          G
          true
          w
  completed G r w h e =
      subst
        (λ (t : Result Bool).
          Concludes (callback_ostream callback) (callback_Collects callback c) callback_StaysBad []
            G t w)
        e h

module _ {Context : Type 0} (callback : CallerCallback Context) (c : Consumes (callback true)) where
  module _ (ios_failure : Bytes) (world : World) (sound : IsSound world) (s : Call Context)
      (fresh : c.accepted s.context ≡ []) where
    list-IsStream :
        (sword_path : Bytes)
        → let result =
            run_streaming_operation ios_failure
              (some callback)
              (list_operation world sword_path)
              s in
          result.0 ≡ status_ok → IsStream no_artifacts true (c.accepted result.1.context)
    list-IsStream sword_path e =
        let o = callback_ostream (callback true) in
        let w = Ndjson.new (open_output s.context) in
        let (outcome, delivered) =
          run_streaming_operation-delivers ios_failure (list_operation world sword_path) callback c
            s e in
        let complete =
          completed (callback true) c no_artifacts _ _
            (list_modules-Concludes o (callback_Collects (callback true) c)
              (callback_StaysBad (callback true) c) [] world sound w
              (new-Holds o (callback_Collects (callback true) c) [] (open_output s.context)
                (append-nil _ ∙ fresh))
              sword_path)
            outcome in
        subst (λ (t : Bytes). IsStream no_artifacts true t) (sym (delivered ∙ complete.output_is))
          complete.stream

    -- The same of `gbs_list_modules_v1`, where no record is of an artifact.
    pub gbs_list_modules_v1-IsStream :
        (sword_path : Option Bytes)
        → let result =
            gbs_list_modules_v1 ios_failure (list_operation world) sword_path (some callback) s in
          result.0 ≡ status_ok → IsStream no_artifacts true (c.accepted result.1.context)
    unfolding gbs_list_modules_v1
    gbs_list_modules_v1-IsStream sword_path e = elim (Bool-cases (error_storage_is_valid s.error)) [
      | inr small ↦ absurd (refused_is_not_ok (rw small at e))
      | inl valid ↦ elim (Bool-cases (is_missing sword_path)) [
        | inl missing ↦ absurd (refused_is_not_ok (rw (valid, missing) at e))
        | inr given ↦
            rw (valid, given) (list-IsStream (or_else [] sword_path) (rw (valid, given) at e))
      ]
    ]
