-- ===== src/CallbackStream.antt =====
-- src/callback_streambuf.cpp and .hpp: the class `CallbackStreambuf`. The bytes from `pbase()` to
-- `pptr()` are `pending`. The caller's callback is a parameter: it takes its context and a span,
-- and gives a result, or `none` where it throws, with the context that it leaves.
-- `put_char`, `put_all` and the stream below are what `std::streambuf::sputc`, `sputn` and
-- `std::ostream::write` and `flush` do with the virtual functions of the class.
pub mod Delivery
pub mod Output
pub mod Delivered
use getbiblesword.Prelude.{
  ℕ, ◌*◌, Bool, true, false, not, Option, none, some, List, [], ◌∷◌, ◌++◌, Bytes, length, ltb, ◌==◌,
  if◌then◌else◌,
}
use getbiblesword.Ndjson.{Ostream}

pub data CallbackFailure : Type 0 where
  no_failure cancelled write_failed : CallbackFailure

-- `GBS_WRITE_CONTINUE`, `GBS_WRITE_CANCEL`, `GBS_WRITE_ERROR` of `gbs_write_result`, an `int32_t`
abbrev pub write_continue : ℕ
write_continue = 0

abbrev pub write_cancel : ℕ
write_cancel = 1

abbrev pub write_error : ℕ
write_error = 2

abbrev pub buffer_size : ℕ
buffer_size = 64 * 1024

abbrev pub Callback : Type 0 → Type 0
Callback Context = Context → Bytes → Option ℕ × Context

pub record CallbackStreambuf (Context : Type 0) : Type 0 where
  pub pending : Bytes
  pub failure : CallbackFailure
  pub context : Context

abbrev pub new : {Context : Type 0} → Context → CallbackStreambuf Context
new context = record { pending = []; failure = no_failure; context = context }

abbrev pub has_failed : CallbackFailure → Bool
has_failed no_failure = false
has_failed cancelled = true
has_failed write_failed = true

-- A callback that throws has failed.
abbrev pub result_of : Option ℕ → ℕ
result_of none = write_error
result_of (some result) = result

abbrev pub is_empty : Bytes → Bool
is_empty [] = true
is_empty (x ∷ xs) = false

module _ {Context : Type 0} (callback : Callback Context) where
  unfoldable pub flush_pending : CallbackStreambuf Context → Bool × CallbackStreambuf Context
  flush_pending s =
      if has_failed s.failure
      then (false, s)
      else if is_empty s.pending
      then (true, s)
      else (let (outcome, context) = callback s.context s.pending in
          let result = result_of outcome in
          if result == write_continue
          then (true, record s { pending = []; context = context })
          else (
            false,
            record s {
              context = context;
              failure = if result == write_cancel then cancelled else write_failed;
            },
          ))

  -- `overflow(character)`; `none` stands for `eof()`, and the result tells whether it is not that.
  unfoldable pub overflow : Option ℕ → CallbackStreambuf Context → Bool × CallbackStreambuf Context
  overflow character s =
      let (flushed, s') = flush_pending s in
      if not flushed then (false, s') else (
        true,
        record s' { pending = s'.pending ++ elim character [ none ↦ [] | some c ↦ c ∷ [] ] },
      )

  unfoldable pub sync : CallbackStreambuf Context → Bool × CallbackStreambuf Context
  sync s = flush_pending s

  -- A character goes into the buffer if there is room, and else to `overflow`.
  unfoldable pub put_char : ℕ → CallbackStreambuf Context → Bool × CallbackStreambuf Context
  put_char c s =
      if ltb (length s.pending) buffer_size
      then (true, record s { pending = s.pending ++ (c ∷ []) })
      else overflow (some c) s

  -- Up to the first character that is refused.
  unfoldable pub put_all : Bytes → CallbackStreambuf Context → Bool × CallbackStreambuf Context
  put_all [] s = (true, s)
  put_all (c ∷ cs) s = elim (put_char c s).0 [
    | true ↦ put_all cs (put_char c s).1
    | false ↦ (false, (put_char c s).1)
  ]

-- A stream on the buffer, with its state bit.
pub record CallbackOutput (Context : Type 0) : Type 0 where
  pub buffer : CallbackStreambuf Context
  pub is_good : Bool

-- `std::ostream output(&buffer)`, before anything is written.
abbrev pub open_output : {Context : Type 0} → Context → CallbackOutput Context
open_output context = record { buffer = new context; is_good = true }

module _ {Context : Type 0} (callback : Callback Context) where
  -- What `std::ostream` does: nothing on a stream that is not good; a refusal of the buffer sets the bit.
  unfoldable pub write_output : CallbackOutput Context → Bytes → CallbackOutput Context
  write_output s bytes =
      if s.is_good
      then (let (accepted, buffer) = put_all callback bytes s.buffer in
          record { buffer = buffer; is_good = accepted })
      else s

  unfoldable pub flush_output : CallbackOutput Context → CallbackOutput Context
  flush_output s =
      if s.is_good
      then (let (accepted, buffer) = sync callback s.buffer in
          record { buffer = buffer; is_good = accepted })
      else s

  abbrev pub callback_ostream : Ostream
  callback_ostream = record {
    Stream = CallbackOutput Context;
    write = write_output;
    flush = flush_output;
    good = λ s. s.is_good;
  }
