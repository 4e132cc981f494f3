-- ===== src/CApi.antt =====
-- src/c_api.cpp and include/getbiblesword/c_api.h: the streaming C interface.
-- A pointer is an `Option`. `sizeof` is that of the LP64 platforms the product is built for.
-- `sword_operation_active` is thread-local; the mutex around the operation, which one thread at a
-- time holds, changes nothing that one call sees. The operation is a parameter: a call on the writer.
pub mod Errors
pub mod Options
pub mod Streaming
use getbiblesword.Prelude.{
  ℕ, ◌+◌, ◌*◌, ◌-◌, Bool, true, false, not, ◌&&◌, ◌||◌, Option, none, some, List, [], ◌∷◌, ◌++◌,
  Bytes, codes, length, take, drop, ltb, min, ◌==◌, if◌then◌else◌,
}
use getbiblesword.Exec.{
  Exception, logic_error, invalid_argument, runtime_error, other, Result, ok, throw, Exec,
}
use getbiblesword.Ndjson
use getbiblesword.Ndjson.{Writer}
use getbiblesword.OrderedMap.{or_else}
use getbiblesword.CallbackStream.{
  CallbackFailure, no_failure, cancelled, write_failed, Callback, CallbackStreambuf, is_empty,
  CallbackOutput, open_output, flush_output,
}

abbrev pub status_ok : ℕ
status_ok = 0

abbrev pub status_invalid_argument : ℕ
status_invalid_argument = 1

abbrev pub status_extraction_failed : ℕ
status_extraction_failed = 2

abbrev pub status_write_failed : ℕ
status_write_failed = 3

abbrev pub status_cancelled : ℕ
status_cancelled = 4

abbrev pub status_internal_error : ℕ
status_internal_error = 255

abbrev pub error_message_capacity : ℕ
error_message_capacity = 512

-- `sizeof(gbs_error)`
abbrev pub error_size : ℕ
error_size = 8 + error_message_capacity

-- `gbs_error`; `message` is the array.
pub record Error : Type 0 where
  pub struct_size : ℕ
  pub status : ℕ
  pub message : Bytes

unfoldable pub error_storage_is_valid : Option Error → Bool
error_storage_is_valid none = true
error_storage_is_valid (some e) = not (ltb e.struct_size error_size)

-- The bytes behind the terminator stay as they are.
unfoldable pub set_message : Bytes → Bytes → Bytes
set_message text message =
    let size = min (length text) (error_message_capacity - 1) in
    take size text ++ (0 ∷ drop (size + 1) message)

unfoldable pub set_error : Option Error → ℕ → Bytes → Option Error
set_error none status text = none
set_error (some e) status text =
    if ltb e.struct_size error_size
    then some e
    else some (record e { status = status; message = set_message text e.message })

-- A status and what the call leaves of its `error` argument.
abbrev pub fail : Option Error → ℕ → Bytes → ℕ × Option Error
fail error status text = (status, set_error error status text)

unfoldable pub callback_failure_status : CallbackFailure → Option Error → ℕ × Option Error
callback_failure_status cancelled error =
    fail error status_cancelled (codes "The output callback cancelled the operation.")
callback_failure_status write_failed error =
    fail error status_write_failed (codes "The output callback failed.")
callback_failure_status no_failure error = (status_ok, error)

-- The two handlers: `what()` of a `std::exception`, and a fixed text for anything else.
unfoldable pub exception_text : Exception → Bytes
exception_text (logic_error text) = text
exception_text (invalid_argument text) = text
exception_text (runtime_error text) = text
exception_text other = codes "Unknown C++ exception."

-- What a call leaves: the flag of the thread, the caller's error, and the stream.
pub record Call (Context : Type 0) : Type 0 where
  pub active : Bool
  pub error : Option Error
  pub context : Context

-- What the caller's callback does, by the flag that it sees, since it runs on the thread of the call.
abbrev pub CallerCallback : Type 0 → Type 0
CallerCallback Context = Bool → Callback Context

-- `ActiveOperation()` and `~ActiveOperation()`
abbrev pub activate : {Context : Type 0} → Call Context → Call Context
activate s = record s { active = true }

abbrev pub deactivate : {Context : Type 0} → Call Context → Call Context
deactivate s = record s { active = false }

abbrev pub Operation : Type 0 → Type 0
Operation Context = Callback Context → Exec (Writer (CallbackOutput Context)) Bool

unfoldable pub conclude : Result Bool → Bool → Option Error → ℕ × Option Error
unfolding exception_text
conclude (throw e) is_good error = fail error status_internal_error (exception_text e)
conclude (ok success) is_good error =
    if not is_good
    then fail error status_write_failed (codes "The NDJSON output stream failed.")
    else if not success
    then fail error status_extraction_failed
        (codes "The operation completed with a failed NDJSON footer.")
    else (status_ok, error)

-- What follows a call of `callback_failure_status`: where the callback has failed, that is the answer.
abbrev pub or_conclude : ℕ × Option Error → Result Bool → Bool → Option Error → ℕ × Option Error
or_conclude (status, reported) outcome is_good error =
    if not (status == status_ok) then (status, reported) else conclude outcome is_good error

-- Behind `output.flush()`, and in the handlers.
unfoldable pub streaming_status :
    {Context : Type 0} → Result Bool → CallbackOutput Context → Option Error → ℕ × Option Error
unfolding conclude callback_failure_status
streaming_status outcome output error =
    or_conclude (callback_failure_status output.buffer.failure error) outcome output.is_good error

-- A return of `GBS_STATUS_INVALID_ARGUMENT` with its text, before anything is written.
abbrev pub reject : {Context : Type 0} → Call Context → Bytes → ℕ × Call Context
reject s text =
    (status_invalid_argument, record s { error = set_error s.error status_invalid_argument text })

-- `sword_path == nullptr || sword_path[0] == '\0'` and its like
abbrev pub is_missing : Option Bytes → Bool
is_missing none = true
is_missing (some text) = is_empty text

-- `ios_failure` is `what()` of the `std::ios_base::failure` that `output.flush()` throws when it sets the state bit;
-- the text is the standard library's.
module _ {Context : Type 0} (ios_failure : Bytes) where
  -- `output.flush()`, where the operation has returned.
  unfoldable pub flush_result :
      Result Bool → CallbackOutput Context → CallbackOutput Context → Result Bool
  flush_result (throw e) before after = throw e
  flush_result (ok success) before after =
      if before.is_good && not after.is_good then throw (runtime_error ios_failure) else ok success

  abbrev pub flushed_output :
      Callback Context → Result Bool → CallbackOutput Context → CallbackOutput Context
  flushed_output callback (throw e) output = output
  flushed_output callback (ok success) output = flush_output callback output

  -- From the construction of the buffer on; `ActiveOperation` is alive while the operation runs and
  -- while the output is flushed.
  unfoldable pub run_operation :
      CallerCallback Context → Operation Context → Call Context → ℕ × Call Context
  unfolding flush_result streaming_status
  run_operation callback operation s =
      let raised = activate s in
      let called = callback raised.active in
      let (outcome, writer) = operation called (Ndjson.new (open_output raised.context)) in
      let output = flushed_output called outcome writer.output in
      let (status, error) =
        streaming_status (flush_result outcome writer.output output) output raised.error in
      (status, deactivate (record raised { error = error; context = output.buffer.context }))

  unfoldable pub run_streaming_operation :
      Option (CallerCallback Context) → Operation Context → Call Context → ℕ × Call Context
  unfolding run_operation error_storage_is_valid set_error
  run_streaming_operation callback operation s =
      if not (error_storage_is_valid s.error) then (status_invalid_argument, s) else start callback
    where
      cleared : Option Error
      cleared = set_error s.error status_ok []

      start : Option (CallerCallback Context) → ℕ × Call Context
      start none = (
        status_invalid_argument,
        record s {
          error =
              set_error cleared status_invalid_argument (codes "The output callback is required.");
        },
      )
      start (some callback) =
          if s.active
          then (
            status_invalid_argument,
            record s {
              error =
                  set_error cleared status_invalid_argument
                    (codes "A streaming C ABI call cannot be re-entered from its callback.");
            },
          )
          else run_operation callback operation (record s { error = cleared })

  unfoldable pub gbs_list_modules_v1 :
      (Bytes → Operation Context)
      → Option Bytes
      → Option (CallerCallback Context)
      → Call Context
      → ℕ × Call Context
  gbs_list_modules_v1 list_modules sword_path callback s =
      if not (error_storage_is_valid s.error)
      then (status_invalid_argument, s)
      else if is_missing sword_path
      then reject s (codes "The SWORD module path is required.")
      else run_streaming_operation callback (list_modules (or_else [] sword_path)) s

unfoldable pub gbs_status_message : ℕ → Bytes
gbs_status_message status =
    if status == status_ok
    then codes "success"
    else if status == status_invalid_argument
    then codes "invalid argument"
    else if status == status_extraction_failed
    then codes "extraction failed"
    else if status == status_write_failed
    then codes "write failed"
    else if status == status_cancelled
    then codes "cancelled"
    else if status == status_internal_error
    then codes "internal error"
    else codes "unknown status"
