-- ===== src/Ndjson/Session.antt =====
-- A whole stream: records one after another, and the footer.
use getbiblesword.Prelude.{
  ◌%◌, ◌^◌, ◌≡◌, refl, subst, Bool, List, [], ◌∷◌, ◌++◌, append-nil, append_assoc, Bytes, length,
}
use getbiblesword.Exec.{Result, ok, throw, Exec, pure, bind_result, ◌>>◌}
use getbiblesword.Sha256.{hex_bytes}
use getbiblesword.Sha256.Padding.{standard_digest}
use getbiblesword.Ndjson.{Ostream, JsonFields, footer_line, Writer, new, emit, finish}
use getbiblesword.Ndjson.Records.{Collects, Record, Holds, new-Holds, text_of, counts_from}
use getbiblesword.Ndjson.FooterLine.{IsFree, IsFooter, footer_line-IsFooter}
use getbiblesword.Ndjson.Footer.{emit-Holds, finish-footer, Flushed, finish-Flushed}

module _ (o : Ostream) where
  unfoldable pub emit_all : List Record → Exec (Writer o.Stream) (Unit {0})
  emit_all [] = pure tt
  emit_all (r ∷ rs) = emit o r.type r.fields >> emit_all rs

  -- The calls that make one stream.
  unfoldable pub write_stream : List Record → Bool → JsonFields → Exec (Writer o.Stream) (Unit {0})
  write_stream rs success fields = emit_all rs >> finish o success fields

-- A sequence that succeeds succeeds in both parts.
>>-ok :
    {S : Type 0} (r : Result (Unit {0})) (s : S) (k : Exec S (Unit {0}))
    → (bind_result r s (λ _. k)).0 ≡ ok tt
    → (r ≡ ok tt) × ((k s).0 ≡ ok tt) × (bind_result r s (λ _. k) ≡ k s)
>>-ok (ok tt) s k e = (refl, e, refl)
>>-ok (throw x) s k e = cc

module _ (o : Ostream) (c : Collects o) (start : Bytes) where
  pub emit_all-Holds :
      (w : Writer o.Stream) (before rs : List Record)
      → Holds o c start w before
      → (emit_all o rs w).0 ≡ ok tt
      → Holds o c start (emit_all o rs w).1 (before ++ rs)
  unfolding emit_all
  emit_all-Holds w before [] h e = rw append-nil h
  emit_all-Holds w before (r ∷ rs) h e =
      let first = emit o r.type r.fields w in
      let (done, later, step) = >>-ok first.0 first.1 (emit_all o rs) e in
      let next = emit-Holds o c start r.type r.fields w before h done in
      rw step (
        subst (λ (t : List Record). Holds o c start (emit_all o rs first.1).1 t)
          (append_assoc before (r ∷ []) rs)
          (emit_all-Holds first.1 (before ++ (r ∷ [])) rs next later))

-- The output behind `write_stream`
pub write_stream-verifies :
    (o : Ostream) (c : Collects o) (s : o.Stream) (rs : List Record) (success : Bool)
    (fields : JsonFields)
    → c.written s ≡ []
    → (write_stream o rs success fields (new s)).0 ≡ ok tt
    → c.written (write_stream o rs success fields (new s)).1.output
      ≡ text_of rs
        ++ footer_line
            (length rs % 2 ^ 64)
            (counts_from [] rs)
            (hex_bytes (standard_digest (text_of rs)))
            success
            fields
unfolding write_stream
write_stream-verifies o c s rs success fields empty e =
    let all = emit_all o rs (new s) in
    let (done, later, step) = >>-ok all.0 all.1 (finish o success fields) e in
    let holds = emit_all-Holds o c [] (new s) [] rs (new-Holds o c [] s empty) done in
    rw step (finish-footer o c [] success fields all.1 rs holds later).0

-- A stream that is written with no exception, from the start of an output that collects, is the records' lines,
-- numbered from 0, and one line more, where the caller's fields have none of the names that `finish` gives: a footer with the number of the records, their counts by type, the digest by
-- FIPS 180-4 of all that stands before it, the success, and the caller's fields.
pub write_stream-IsFooter :
    (o : Ostream) (c : Collects o) (s : o.Stream) (rs : List Record) (success : Bool)
    (fields : JsonFields)
    → IsFree fields
    → c.written s ≡ []
    → (write_stream o rs success fields (new s)).0 ≡ ok tt
    → (footer : Bytes) × IsFooter rs success fields footer
      × (c.written (write_stream o rs success fields (new s)).1.output ≡ text_of rs ++ footer)
write_stream-IsFooter o c s rs success fields free empty e = (
  _,
  footer_line-IsFooter rs success fields free,
  write_stream-verifies o c s rs success fields empty e,
)

pub write_stream-Flushed :
    (o : Ostream) (w : Writer o.Stream) (rs : List Record) (success : Bool) (fields : JsonFields)
    → (write_stream o rs success fields w).0 ≡ ok tt
    → Flushed o (write_stream o rs success fields w).1.output
unfolding write_stream
write_stream-Flushed o w rs success fields e =
    let all = emit_all o rs w in
    let (done, later, step) = >>-ok all.0 all.1 (finish o success fields) e in
    rw step (finish-Flushed o success fields all.1 later)
