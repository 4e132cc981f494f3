-- ===== src/CApi/Streaming.antt =====
-- `run_streaming_operation` on every branch: what it returns, reports, and leaves.
use getbiblesword.Prelude.{
  ℕ, ◌≡◌, refl, sym, ap, ap₂, ◌∙◌, arith, inl, inr, Bool, true, false, Option, none, some, [], ◌++◌,
  append-nil, Bytes, Bool-cases,
}
use getbiblesword.Exec.{Result, ok, throw}
use getbiblesword.Ndjson
use getbiblesword.Ndjson.{Writer}
use getbiblesword.CallbackStream.{
  CallbackFailure, no_failure, cancelled, write_failed, Callback, CallbackOutput, open_output,
  flush_output,
}
use getbiblesword.CallbackStream.Delivery.{Consumes, taken}
use getbiblesword.CallbackStream.Output.{flush-taken, flush-pending}
use getbiblesword.CApi.{
  status_ok, status_invalid_argument, Error, error_storage_is_valid, set_error,
  callback_failure_status, Call, CallerCallback, Operation, conclude, or_conclude, streaming_status,
  flush_result, flushed_output, run_operation, run_streaming_operation,
}
use getbiblesword.CApi.Errors.{Reports, set_error-Reports, set_error-is_valid}

conclude-Reports :
    (outcome : Result Bool) (is_good : Bool) (error : Option Error)
    → error_storage_is_valid error ≡ true
    → Reports status_ok error
    → Reports (conclude outcome is_good error).0 (conclude outcome is_good error).1
unfolding conclude
conclude-Reports (throw e) is_good error h r = set_error-Reports error _ _ h
conclude-Reports (ok success) false error h r = set_error-Reports error _ _ h
conclude-Reports (ok false) true error h r = set_error-Reports error _ _ h
conclude-Reports (ok true) true error h r = r

or_conclude-Reports :
    (failure : CallbackFailure) (outcome : Result Bool) (is_good : Bool) (error : Option Error)
    → error_storage_is_valid error ≡ true
    → Reports status_ok error
    → let (status, reported) =
        or_conclude (callback_failure_status failure error) outcome is_good error in
      Reports status reported
unfolding callback_failure_status
or_conclude-Reports no_failure outcome is_good error h r =
    conclude-Reports outcome is_good error h r
or_conclude-Reports cancelled outcome is_good error h r = set_error-Reports error _ _ h
or_conclude-Reports write_failed outcome is_good error h r = set_error-Reports error _ _ h

conclude-ok :
    (outcome : Result Bool) (is_good : Bool) (error : Option Error)
    → (conclude outcome is_good error).0 ≡ status_ok
    → (outcome ≡ ok true) × (is_good ≡ true)
unfolding conclude
conclude-ok (throw e) is_good error h = absurd (ground arith)
conclude-ok (ok success) false error h = absurd (ground arith)
conclude-ok (ok false) true error h = absurd (ground arith)
conclude-ok (ok true) true error h = (refl, refl)

or_conclude-ok :
    (failure : CallbackFailure) (outcome : Result Bool) (is_good : Bool) (error : Option Error)
    → (or_conclude (callback_failure_status failure error) outcome is_good error).0 ≡ status_ok
    → (outcome ≡ ok true) × (is_good ≡ true)
unfolding callback_failure_status
or_conclude-ok no_failure outcome is_good error h = conclude-ok outcome is_good error h
or_conclude-ok cancelled outcome is_good error h = absurd (ground arith)
or_conclude-ok write_failed outcome is_good error h = absurd (ground arith)

flush_result-ok :
    {Context : Type 0} (ios_failure : Bytes) (outcome : Result Bool)
    (before after : CallbackOutput Context)
    → flush_result ios_failure outcome before after ≡ ok true
    → outcome ≡ ok true
unfolding flush_result
flush_result-ok ios_failure (throw e) before after h = h
flush_result-ok ios_failure (ok success) before after h = ground arith

module _ {Context : Type 0} (ios_failure : Bytes) (operation : Operation Context) where
  run_operation-Reports :
      (callback : CallerCallback Context) (s : Call Context)
      → error_storage_is_valid s.error ≡ true
      → Reports status_ok s.error
      → let result = run_operation ios_failure callback operation s in
        Reports result.0 result.1.error
  unfolding run_operation streaming_status
  run_operation-Reports callback s h r = or_conclude-Reports _ _ _ s.error h r

  -- Where the caller's error is large enough, or none, the status in it is the status that is returned.
  pub run_streaming_operation-Reports :
      (callback : Option (CallerCallback Context)) (s : Call Context)
      → error_storage_is_valid s.error ≡ true
      → let result = run_streaming_operation ios_failure callback operation s in
        Reports result.0 result.1.error
  unfolding run_streaming_operation
  run_streaming_operation-Reports none s h = rw h (
      set_error-Reports (set_error s.error status_ok []) _ _
        (set_error-is_valid s.error status_ok [] ∙ h))
  run_streaming_operation-Reports (some callback) s h = elim (Bool-cases s.active) [
    | inl active ↦
        rw (h, active)
          (set_error-Reports (set_error s.error status_ok []) _ _
            (set_error-is_valid s.error status_ok [] ∙ h))
    | inr idle ↦
        rw (h, idle)
          (run_operation-Reports callback (record s { error = set_error s.error status_ok [] })
            (set_error-is_valid s.error status_ok [] ∙ h)
            (set_error-Reports s.error status_ok [] h))
  ]

  -- A call leaves the flag of its thread as it was: a later call is not taken for a re-entry.
  pub run_streaming_operation-active :
      (callback : Option (CallerCallback Context)) (s : Call Context)
      → (run_streaming_operation ios_failure callback operation s).1.active ≡ s.active
  unfolding run_streaming_operation run_operation
  run_streaming_operation-active none s = ground arith
  run_streaming_operation-active (some callback) s = ground arith

  -- Only what the callback does at a raised flag counts.
  run_operation-raised :
      (first second : CallerCallback Context) (s : Call Context)
      → first true ≡ second true
      → run_operation ios_failure first operation s ≡ run_operation ios_failure second operation s
  unfolding run_operation
  run_operation-raised first second s e =
      ap (λ (called : Callback Context). run_operation ios_failure (λ _. called) operation s) e

  run_streaming_operation-raised :
      (first second : CallerCallback Context) (s : Call Context)
      → first true ≡ second true
      → run_streaming_operation ios_failure (some first) operation s
        ≡ run_streaming_operation ios_failure (some second) operation s
  unfolding run_streaming_operation
  run_streaming_operation-raised first second s e =
      elim (Bool-cases (error_storage_is_valid s.error)) [
        | inr small ↦ rw small refl
        | inl valid ↦ elim (Bool-cases s.active) [
          | inl active ↦ rw (valid, active) refl
          | inr idle ↦
              rw (valid, idle)
                (run_operation-raised first second
                  (record s { error = set_error s.error status_ok [] }) e)
        ]
      ]

  -- The callback of the outer call makes a call of its own, on the flag that it sees, and goes on with the status and the context that this leaves.
  module _ {Inner : Type 0} (inner_callback : CallerCallback Inner) (inner : Operation Inner)
      (inner_error : Option Error) (inner_context : Inner)
      (body : ℕ → Inner → Callback Context) where
    abbrev pub inner_call : Bool → ℕ × Call Inner
    inner_call flag =
        run_streaming_operation ios_failure (some inner_callback) inner
          (record { active = flag; error = inner_error; context = inner_context })

    abbrev pub reentrant : CallerCallback Context
    reentrant flag = body (inner_call flag).0 (inner_call flag).1.context

    inner_call-refused :
        ((inner_call true).0 ≡ status_invalid_argument)
        × ((inner_call true).1.context ≡ inner_context)
    unfolding run_streaming_operation
    inner_call-refused = elim (Bool-cases (error_storage_is_valid inner_error)) [
      | inl valid ↦ rw valid (refl, refl)
      | inr small ↦ rw small (refl, refl)
    ]

    -- A call that the callback makes during an operation is refused and leaves its own context as it
    -- is: the outer call runs as if the callback had `GBS_STATUS_INVALID_ARGUMENT` in its place.
    pub reentry_from_callback_is_refused :
        (s : Call Context)
        → run_streaming_operation ios_failure (some reentrant) operation s
          ≡ run_streaming_operation ios_failure
              (some (λ _. body status_invalid_argument inner_context))
              operation
              s
    reentry_from_callback_is_refused s =
        run_streaming_operation-raised reentrant (λ _. body status_invalid_argument inner_context) s
          (ap₂ body inner_call-refused.0 inner_call-refused.1)

  module _ (callback : CallerCallback Context) (c : Consumes (callback true)) where
    abbrev pub outcome_of : Context → Result Bool × Writer (CallbackOutput Context)
    outcome_of context = operation (callback true) (Ndjson.new (open_output context))

    flushed-delivers :
        (outcome : Result Bool) (output : CallbackOutput Context)
        → outcome ≡ ok true
        → (flushed_output ios_failure (callback true) outcome output).is_good ≡ true
        → c.accepted (flushed_output ios_failure (callback true) outcome output).buffer.context
          ≡ taken (callback true) c output.buffer
    flushed-delivers (throw x) output e good = absurd (ground arith)
    flushed-delivers (ok success) output e good =
        let after = flush_output (callback true) output in
        sym (
          ap (λ (t : Bytes). c.accepted after.buffer.context ++ t)
            (flush-pending (callback true) c output good)
          ∙ append-nil _)
        ∙ flush-taken (callback true) c output good

    run_operation-delivers :
        (s : Call Context)
        → (run_operation ios_failure callback operation s).0 ≡ status_ok
        → ((outcome_of s.context).0 ≡ ok true)
          × (c.accepted (run_operation ios_failure callback operation s).1.context
              ≡ taken (callback true) c (outcome_of s.context).1.output.buffer)
    unfolding run_operation streaming_status
    run_operation-delivers s e =
        let outcome = (outcome_of s.context).0 in
        let output = (outcome_of s.context).1.output in
        let after = flushed_output ios_failure (callback true) outcome output in
        let (succeeded, good) =
          or_conclude-ok after.buffer.failure (flush_result ios_failure outcome output after)
            after.is_good s.error e in
        let done = flush_result-ok ios_failure outcome output after succeeded in
        (done, flushed-delivers outcome output done good)

    -- For a callback that takes in a whole span or nothing, `GBS_STATUS_OK` means that the operation has succeeded, and that the callback has taken in all
    -- that was written to the stream.
    pub run_streaming_operation-delivers :
        (s : Call Context)
        → (run_streaming_operation ios_failure (some callback) operation s).0 ≡ status_ok
        → ((outcome_of s.context).0 ≡ ok true)
          × (c.accepted (run_streaming_operation ios_failure (some callback) operation s).1.context
              ≡ taken (callback true) c (outcome_of s.context).1.output.buffer)
    unfolding run_streaming_operation
    run_streaming_operation-delivers s e = elim (Bool-cases (error_storage_is_valid s.error)) [
      | inr small ↦ absurd (refused (rw small at e))
      | inl valid ↦ elim (Bool-cases s.active) [
        | inl active ↦ absurd (refused (rw (valid, active) at e))
        | inr idle ↦
            rw (valid, idle)
              (run_operation-delivers (record s { error = set_error s.error status_ok [] })
                (rw (valid, idle) at e))
      ]
    ]
      where
        refused : status_invalid_argument ≡ status_ok → ⊥
        refused h = omega (arith, h)
