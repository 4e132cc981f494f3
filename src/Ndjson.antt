-- ===== src/Ndjson.antt =====
-- src/ndjson_writer.cpp: the class `NdjsonWriter`. The stream that it writes to belongs to the
-- caller and is a parameter.
pub mod Records
pub mod Footer
pub mod Framing
pub mod Session
pub mod Counts
pub mod Emits
pub mod FooterLine
use getbiblesword.Prelude.{
  ℕ, ◌+◌, ◌%◌, ◌^◌, Bool, true, false, ◌||◌, Option, none, some, List, [], ◌∷◌, ◌++◌, Bytes, codes,
  if◌then◌else◌,
}
use getbiblesword.Exec.{Exception, logic_error, invalid_argument, runtime_error, ok, throw, Exec}
use getbiblesword.Json.{json_string, to_string}
use getbiblesword.OrderedMap.{OrderedMap, upsert, emplace, contains}
use getbiblesword.Sha256
use getbiblesword.Sha256.{Sha256, hex_digest}

-- `std::ostream` as the writer uses it; `good` is the test `!!output_`. With exceptions enabled on
-- the stream `write` itself throws where the writer would, with another text.
pub record Ostream : Type 1 where
  pub Stream : Type 0
  pub write : Stream → Bytes → Stream
  pub flush : Stream → Stream
  pub good : Stream → Bool

abbrev pub JsonFields : Type 0
JsonFields = OrderedMap Bytes

-- The loop of `object_json`; `first` tells whether a comma is due.
unfoldable pub object_members : Bool → JsonFields → Bytes
object_members first [] = []
object_members first ((name, value) ∷ fields) =
    (if first then [] else codes ",")
    ++ (json_string name ++ (b':' ∷ (value ++ object_members false fields)))

-- `NdjsonWriter::object_json`; `json_object` of src/sword_extractor.cpp has the same body.
unfoldable pub object_json : JsonFields → Bytes
unfolding object_members
object_json fields = b'{' ∷ (object_members true fields ++ (b'}' ∷ []))

-- `++counts_[type]` on a `std::uint64_t`
abbrev pub increment : Option ℕ → ℕ
increment none = 1
increment (some n) = (n + 1) % 2 ^ 64

-- The loop of `finish` over the counts.
unfoldable pub count_members : Bool → OrderedMap ℕ → Bytes
count_members first [] = []
count_members first ((name, count) ∷ counts) =
    (if first then [] else codes ",")
    ++ (json_string name ++ (b':' ∷ (to_string count ++ count_members false counts)))

unfoldable pub counts_json : OrderedMap ℕ → Bytes
unfolding count_members
counts_json counts = b'{' ∷ (count_members true counts ++ (b'}' ∷ []))

-- The line of a record, with its line feed.
unfoldable pub record_line : ℕ → Bytes → JsonFields → Bytes
record_line sequence type fields =
    object_json (
      emplace (codes "type") (json_string type)
        (emplace (codes "sequence") (to_string sequence) fields))
    ++ (10 ∷ [])

unfoldable pub footer_line : ℕ → OrderedMap ℕ → Bytes → Bool → JsonFields → Bytes
footer_line sequence counts digest success fields =
    object_json (
      emplace (codes "type") (codes "\"footer\"") (
        emplace (codes "success") (if success then codes "true" else codes "false") (
          emplace (codes "stream_sha256") (json_string digest) (
            emplace (codes "sequence") (to_string sequence)
              (emplace (codes "counts") (counts_json counts) fields)))))
    ++ (10 ∷ [])

pub record Writer (Stream : Type 0) : Type 0 where
  pub output : Stream
  pub stream_hash : Sha256
  pub sequence : ℕ
  pub counts : OrderedMap ℕ
  pub finished : Bool

abbrev pub new : {Stream : Type 0} → Stream → Writer Stream
new output = record {
  output = output;
  stream_hash = Sha256.new;
  sequence = 0;
  counts = [];
  finished = false;
}

module _ (o : Ostream) where
  open o use {Stream, write, flush, good}

  -- The part of `emit` behind its two tests.
  unfoldable pub emit_record : Bytes → JsonFields → Exec (Writer Stream) (Unit {0})
  emit_record type fields w =
      let line = record_line w.sequence type fields in
      let output = write w.output line in
      if good output
      then (
        ok tt,
        record w {
          output = output;
          stream_hash = Sha256.update w.stream_hash line;
          counts = upsert type increment w.counts;
          sequence = (w.sequence + 1) % 2 ^ 64;
        },
      )
      else (
        throw (runtime_error (codes "failed to write NDJSON output")),
        record w { output = output },
      )

  -- `NdjsonWriter::emit`
  unfoldable pub emit : Bytes → JsonFields → Exec (Writer Stream) (Unit {0})
  emit type fields w =
      if w.finished
      then (throw (logic_error (codes "cannot emit a record after the footer")), w)
      else if contains (codes "sequence") fields || contains (codes "type") fields
      then (throw (invalid_argument (codes "record fields may not replace sequence or type")), w)
      else emit_record type fields w

  -- `NdjsonWriter::finish`
  unfoldable pub finish : Bool → JsonFields → Exec (Writer Stream) (Unit {0})
  finish success fields w =
      let line = footer_line w.sequence w.counts (hex_digest w.stream_hash) success fields in
      let output = flush (write w.output line) in
      if w.finished
      then (throw (logic_error (codes "NDJSON footer already emitted")), w)
      else if good output
      then (
        ok tt,
        record w { output = output; sequence = (w.sequence + 1) % 2 ^ 64; finished = true },
      )
      else (
        throw (runtime_error (codes "failed to write NDJSON footer")),
        record w { output = output },
      )
