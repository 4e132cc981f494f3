-- ===== src/Ndjson/Footer.antt =====
-- `emit` and `finish` over the records so far, on every branch.
use getbiblesword.Prelude.{
  ◌+◌, ◌%◌, ◌^◌, ◌≡◌, refl, ap, ◌∙◌, arith, inl, inr, Bool, true, false, ◌||◌, List, [], ◌∷◌, ◌++◌,
  append_assoc, Bytes, codes, length, Bool-cases,
}
use getbiblesword.Exec.{Exception, ok, throw}
use getbiblesword.OrderedMap.{contains}
use getbiblesword.Sha256.{hex_digest, hex_bytes}
use getbiblesword.Sha256.Padding.{standard_digest}
use getbiblesword.Sha256.Pieces.{hex_digest-Streams}
use getbiblesword.Ndjson.{
  Ostream, JsonFields, record_line, footer_line, Writer, emit_record, emit, finish,
}
use getbiblesword.Ndjson.Records.{Collects, Record, Holds, text_of, counts_from, emit_record-Holds}

ok_ne_throw : {A : Type 0} {a : A} {e : Exception} → throw e ≡ ok a → ⊥
ok_ne_throw h = cc

module _ (o : Ostream) (c : Collects o) (start : Bytes) where
  module _ (type : Bytes) (fields : JsonFields) (w : Writer o.Stream) where
    abbrev reserved : Bool
    reserved = contains (codes "sequence") fields || contains (codes "type") fields

    emit_record-ok :
        (emit_record o type fields w).0 ≡ ok tt
        → o.good (o.write w.output (record_line w.sequence type fields)) ≡ true
    unfolding emit_record
    emit_record-ok e = ground arith

    -- Behind the tests.
    emit_open :
        w.finished ≡ false → reserved ≡ false → emit o type fields w ≡ emit_record o type fields w
    unfolding emit
    emit_open e f = rw (e, f)

    emit_reserved : w.finished ≡ false → reserved ≡ true → (emit o type fields w).0 ≡ ok tt → ⊥
    unfolding emit
    emit_reserved e f g = ok_ne_throw (rw (e, f) at g)

    -- A record that `emit` accepts is the next record of the stream.
    pub emit-Holds :
        (rs : List Record)
        → Holds o c start w rs
        → (emit o type fields w).0 ≡ ok tt
        → Holds o c start
            (emit o type fields w).1
            (rs ++ (record { type = type; fields = fields } ∷ []))
    emit-Holds rs h e = elim (Bool-cases reserved) [
      | inl taken ↦ absurd (emit_reserved h.unfinished taken e)
      | inr free ↦
          let step = emit_open h.unfinished free in
          rw step (emit_record-Holds o c start type fields w rs h (emit_record-ok (rw step at e)))
    ]

    -- An `emit` that throws has counted and hashed nothing.
    pub emit-throw :
        {x : Exception}
        → (emit o type fields w).0 ≡ throw x
        → ((emit o type fields w).1.sequence ≡ w.sequence)
          × ((emit o type fields w).1.counts ≡ w.counts)
          × ((emit o type fields w).1.stream_hash ≡ w.stream_hash)
          × ((emit o type fields w).1.finished ≡ w.finished)
    unfolding emit emit_record
    emit-throw e = ground arith

  module _ (success : Bool) (fields : JsonFields) (w : Writer o.Stream) where
    finish-good :
        (finish o success fields w).0 ≡ ok tt
        → let line = footer_line w.sequence w.counts (hex_digest w.stream_hash) success fields in
          o.good (o.flush (o.write w.output line)) ≡ true
    unfolding finish
    finish-good e = ground arith

    finish-state :
        w.finished ≡ false
        → let line = footer_line w.sequence w.counts (hex_digest w.stream_hash) success fields in
          let output = o.flush (o.write w.output line) in
          o.good output ≡ true
          → finish o success fields w ≡ (
            ok tt,
            record w { output = output; sequence = (w.sequence + 1) % 2 ^ 64; finished = true },
          )
    unfolding finish
    finish-state e g = rw (e, g)

    -- A footer that `finish` accepts closes the stream with the number of records, their counts by
    -- type, and the digest by FIPS 180-4 of all the bytes of the records.
    pub finish-footer :
        (rs : List Record)
        → Holds o c start w rs
        → (finish o success fields w).0 ≡ ok tt
        → (c.written (finish o success fields w).1.output
            ≡ start
              ++ (text_of rs
                  ++ footer_line
                      (length rs % 2 ^ 64)
                      (counts_from [] rs)
                      (hex_bytes (standard_digest (text_of rs)))
                      success
                      fields))
          × ((finish o success fields w).1.finished ≡ true)
    finish-footer rs h e =
        let line = footer_line w.sequence w.counts (hex_digest w.stream_hash) success fields in
        let good = finish-good e in
        let before = c.good_before_flush (o.write w.output line) good in
        let same_line = footer_args rs h in
        rw (finish-state h.unfinished good) (
          c.written-flush (o.write w.output line) good
              ∙ c.written-write w.output line before
              ∙ ap (λ (t : Bytes). t ++ line) h.output_is
              ∙ append_assoc start (text_of rs) line
              ∙ ap (λ (t : Bytes). start ++ (text_of rs ++ t)) same_line,
          refl,
        )
      where
        footer_args :
            (rs : List Record)
            → Holds o c start w rs
            → footer_line w.sequence w.counts (hex_digest w.stream_hash) success fields
              ≡ footer_line
                  (length rs % 2 ^ 64)
                  (counts_from [] rs)
                  (hex_bytes (standard_digest (text_of rs)))
                  success
                  fields
        footer_args rs h =
            rw (h.numbered, h.counted, hex_digest-Streams w.stream_hash (text_of rs) h.hashed)

-- The last thing that was done to the stream is a flush, which left it good.
pub record Flushed (o : Ostream) (s : o.Stream) : Type 0 where
  pub before : o.Stream
  pub is_flush : s ≡ o.flush before
  pub stays_good : o.good (o.flush before) ≡ true

pub finish-Flushed :
    (o : Ostream) (success : Bool) (fields : JsonFields) (w : Writer o.Stream)
    → (finish o success fields w).0 ≡ ok tt
    → Flushed o (finish o success fields w).1.output
unfolding finish
finish-Flushed o success fields w e = elim (Bool-cases w.finished) [
  | inl finished ↦ absurd (ok_ne_throw (rw finished at e))
  | inr unfinished ↦
      let line = footer_line w.sequence w.counts (hex_digest w.stream_hash) success fields in
      elim (Bool-cases (o.good (o.flush (o.write w.output line)))) [
        | inl good ↦
            rw (unfinished, good)
              (record { before = o.write w.output line; is_flush = refl; stays_good = good })
        | inr bad ↦ absurd (ok_ne_throw (rw (unfinished, bad) at e))
      ]
]
