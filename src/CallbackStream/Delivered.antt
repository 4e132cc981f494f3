-- ===== src/CallbackStream/Delivered.antt =====
-- `NdjsonWriter` on a callback: what the caller of the C interface is given.
use getbiblesword.Prelude.{
  ◌%◌, ◌^◌, ◌≡◌, sym, ap, ◌∙◌, Bool, List, [], ◌++◌, append-nil, Bytes, length,
}
use getbiblesword.Exec.{ok}
use getbiblesword.Sha256.{hex_bytes}
use getbiblesword.Sha256.Padding.{standard_digest}
use getbiblesword.Ndjson
use getbiblesword.Ndjson.{Ostream, JsonFields, footer_line, Writer, finish}
use getbiblesword.Ndjson.Records.{Record, text_of, counts_from}
use getbiblesword.Ndjson.Session.{write_stream, write_stream-verifies, write_stream-Flushed}
use getbiblesword.CallbackStream.{Callback, CallbackOutput, open_output, callback_ostream}
use getbiblesword.CallbackStream.Delivery.{Consumes}
use getbiblesword.Ndjson.Footer.{Flushed}
use getbiblesword.CallbackStream.Output.{callback_Collects, flush-pending}

module _ {Context : Type 0} (callback : Callback Context) (c : Consumes callback) where
  Flushed-pending :
      (s : CallbackOutput Context) → Flushed (callback_ostream callback) s → s.buffer.pending ≡ []
  Flushed-pending s f = rw f.is_flush (flush-pending callback c f.before f.stays_good)

  -- Where a stream is written with no exception to a callback that takes in a whole span or nothing,
  -- and had nothing before, the callback has taken in the whole stream, records and footer, in order.
  pub write_stream-delivered :
      (context : Context) (rs : List Record) (success : Bool) (fields : JsonFields)
      → c.accepted context ≡ []
      → (write_stream
          (callback_ostream callback)
          rs
          success
          fields
          (Ndjson.new (open_output context))).0
        ≡ ok tt
      → c.accepted
          (write_stream
            (callback_ostream callback)
            rs
            success
            fields
            (Ndjson.new (open_output context))).1.output.buffer.context
        ≡ text_of rs
          ++ footer_line
              (length rs % 2 ^ 64)
              (counts_from [] rs)
              (hex_bytes (standard_digest (text_of rs)))
              success
              fields
  write_stream-delivered context rs success fields empty e =
      let o = callback_ostream callback in
      let w = Ndjson.new (open_output context) in
      let end = (write_stream o rs success fields w).1.output in
      sym (
        ap (λ (t : Bytes). c.accepted end.buffer.context ++ t)
          (Flushed-pending end (write_stream-Flushed o w rs success fields e))
        ∙ append-nil _)
      ∙ write_stream-verifies o (callback_Collects callback c) (open_output context) rs success
          fields (append-nil _ ∙ empty) e
