-- ===== src/Tests/Streams.antt =====
-- The theorems on streams at concrete records, streams and callbacks.
use getbiblesword.Prelude.{◌%◌, ◌^◌, ◌≡◌, refl, arith, true, List, [], ◌∷◌, ◌++◌, Bytes, codes, All}
use getbiblesword.Exec.{logic_error, ok, throw}
use getbiblesword.OrderedMap.{lookup, or_else}
use getbiblesword.OrderedMap.Order.{order}
use getbiblesword.Sha256
use getbiblesword.Sha256.{hex_bytes}
use getbiblesword.Ndjson
use getbiblesword.Ndjson.{
  Ostream, JsonFields, increment, footer_line, Writer, emit, emit_record, finish,
}
use getbiblesword.Ndjson.Records.{Collects, Record, text_of, counts_from}
use getbiblesword.Ndjson.Footer.{emit-throw}
use getbiblesword.Ndjson.Framing.{ArePrinted, frames, objects_from, frames-text_of}
use getbiblesword.Ndjson.Counts.{occurrences, lookup-counts}
use getbiblesword.Ndjson.Session.{emit_all, write_stream, write_stream-IsFooter}
use getbiblesword.Ndjson.FooterLine.{IsFree, IsFooter}

-- A stream in memory.
abbrev pub memory : Ostream
memory = record { Stream = Bytes; write = λ s bytes. s ++ bytes; flush = λ s. s; good = λ s. true }

abbrev pub memory-Collects : Collects memory
memory-Collects = record {
  written = λ s. s;
  written-write = λ s bytes good. refl;
  good_before_flush = λ s good. refl;
  written-flush = λ s good. refl;
}

abbrev two_records : List Record
two_records =
    record { type = codes "book"; fields = (codes "ordinal", codes "1") ∷ [] }
    ∷ record { type = codes "chapter"; fields = [] }
    ∷ []

two_records-ArePrinted : All (λ r. ArePrinted r.fields) two_records
two_records-ArePrinted = omega arith

abbrev finished_writer : Writer Bytes
finished_writer = record {
  output = [];
  stream_hash = Sha256.new;
  sequence = 2;
  counts = [];
  finished = true;
}

write_stream-succeeds :
    (write_stream memory two_records true ((codes "note", codes "7") ∷ []) (Ndjson.new [])).0
    ≡ ok tt
unfolding write_stream emit_all emit emit_record finish lookup order
write_stream-succeeds = refl

abbrev small_fields : JsonFields
small_fields = (codes "note", codes "7") ∷ []

small_fields-IsFree : IsFree small_fields
unfolding lookup order
small_fields-IsFree = (refl, (refl, (refl, (refl, (refl, tt)))))

write_stream-IsFooter_example :
    (footer : Bytes) × IsFooter two_records true small_fields footer
    × ((write_stream memory two_records true small_fields (Ndjson.new [])).1.output
        ≡ text_of two_records ++ footer)
write_stream-IsFooter_example =
    write_stream-IsFooter memory memory-Collects [] two_records true small_fields
      small_fields-IsFree refl write_stream-succeeds

frames-text_of_example : frames [] (text_of two_records) ≡ objects_from 0 two_records
frames-text_of_example = frames-text_of two_records two_records-ArePrinted

lookup-counts_example :
    or_else 0 (lookup (codes "book") (counts_from [] two_records))
    ≡ occurrences (codes "book") two_records % 2 ^ 64
lookup-counts_example = lookup-counts two_records (codes "book")

emit-refuses :
    (emit memory (codes "book") [] finished_writer).0
    ≡ throw (logic_error (codes "cannot emit a record after the footer"))
unfolding emit
emit-refuses = refl

emit-throw_example :
    ((emit memory (codes "book") [] finished_writer).1.sequence ≡ 2)
    × ((emit memory (codes "book") [] finished_writer).1.counts ≡ [])
    × ((emit memory (codes "book") [] finished_writer).1.stream_hash ≡ Sha256.new)
    × ((emit memory (codes "book") [] finished_writer).1.finished ≡ true)
emit-throw_example =
    emit-throw memory memory-Collects [] (codes "book") [] finished_writer emit-refuses
