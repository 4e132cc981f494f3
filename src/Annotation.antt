-- ===== src/Annotation.antt =====
-- src/annotation.cpp: the lexical segmentation of raw markup and its JSON. The scanners take the
-- bytes from `index` on, beside `index` itself.
pub mod Scan
pub mod Lossless
use getbiblesword.Prelude.{
  ℕ, zero, suc, ◌+◌, ◌-◌, Bool, true, false, not, ◌&&◌, ◌||◌, List, [], ◌∷◌, ◌++◌, Bytes, codes,
  length, take, drop, ltb, ◌==◌, if◌then◌else◌,
}
use getbiblesword.ByteValue.{byte_value_json}
use getbiblesword.Json.{json_string}

pub data AnnotationSegmentKind : Type 0 where
  text markup entity : AnnotationSegmentKind

pub record AnnotationSegment : Type 0 where
  pub kind : AnnotationSegmentKind
  pub raw : Bytes

-- The loop of `markup_end`; `quote` is 0 outside of quotes.
unfoldable pub markup_scan : ℕ → ℕ → ℕ → Bytes → ℕ
markup_scan quote begin index [] = begin + 1
markup_scan quote begin index (value ∷ rest) =
    let closed = markup_scan 0 begin (index + 1) rest in
    let opened = markup_scan value begin (index + 1) rest in
    let onward = markup_scan quote begin (index + 1) rest in
    if not (quote == 0)
    then (if value == quote then closed else onward)
    else if value == b'\'' || value == b'"'
    then opened
    else if value == b'>'
    then index + 1
    else onward

unfoldable pub markup_end : Bytes → ℕ → ℕ
unfolding markup_scan
markup_end raw begin = markup_scan 0 begin (begin + 1) (drop (begin + 1) raw)

ends_entity : ℕ → Bool
ends_entity value =
    value == b'<'
    || (value == b'&' || (value == b' ' || (value == b'\t' || (value == b'\r' || value == b'\n'))))

-- The loop of `entity_end`.
unfoldable pub entity_scan : ℕ → ℕ → Bytes → ℕ
unfolding ends_entity
entity_scan begin index [] = begin + 1
entity_scan begin index (value ∷ rest) =
    let onward = entity_scan begin (index + 1) rest in
    if value == b';' then index + 1 else if ends_entity value then begin + 1 else onward

unfoldable pub entity_end : Bytes → ℕ → ℕ
unfolding entity_scan
entity_end raw begin = entity_scan begin (begin + 1) (drop (begin + 1) raw)

-- The inner loop over text: where it stops.
unfoldable pub text_scan : ℕ → Bytes → ℕ
text_scan index [] = index
text_scan index (value ∷ rest) =
    let onward = text_scan (index + 1) rest in
    if value == b'<' || value == b'&' then index else onward

abbrev pub substr : Bytes → ℕ → ℕ → Bytes
substr raw begin count = take count (drop begin raw)

-- The kind of the segment that begins with `first` at `index`, and where it ends.
unfoldable pub segment_at : Bytes → ℕ → ℕ → AnnotationSegmentKind × ℕ
unfolding markup_end entity_end text_scan
segment_at raw index first =
    if first == b'<'
    then (markup, markup_end raw index)
    else if first == b'&' && ltb (index + 1) (entity_end raw index)
    then (entity, entity_end raw index)
    else (text, text_scan (index + 1) (drop (index + 1) raw))

unfoldable pub cut : Bytes → ℕ → AnnotationSegmentKind × ℕ → AnnotationSegment
cut raw index (kind, end) = record { kind = kind; raw = substr raw index (end - index) }

-- The `while` loop, with fuel. Each round takes a byte at least.
unfoldable pub segments_from : ℕ → Bytes → ℕ → List AnnotationSegment
segments_from zero raw index = []
segments_from (suc fuel) raw index = elim (drop index raw) [
  | [] ↦ []
  | first ∷ rest ↦
      cut raw index (segment_at raw index first)
      ∷ segments_from fuel raw (segment_at raw index first).1
]

unfoldable pub segment_annotations : Bytes → List AnnotationSegment
segment_annotations raw = segments_from (length raw) raw 0

unfoldable pub kind_name : AnnotationSegmentKind → Bytes
kind_name text = codes "text"
kind_name markup = codes "markup"
kind_name entity = codes "entity"

unfoldable pub interpretation : AnnotationSegmentKind → Bytes
interpretation text = codes "not_applicable"
interpretation markup = codes "uninterpreted"
interpretation entity = codes "uninterpreted"

unfoldable pub segment_json : AnnotationSegment → Bytes
unfolding kind_name interpretation
segment_json segment =
    codes "{\"interpretation\":"
    ++ (json_string (interpretation segment.kind)
        ++ (codes ",\"kind\":"
            ++ (json_string (kind_name segment.kind)
                ++ (codes ",\"raw\":" ++ (byte_value_json segment.raw ++ (b'}' ∷ []))))))

unfoldable pub segments_json : Bool → List AnnotationSegment → Bytes
unfolding segment_json
segments_json first [] = []
segments_json first (segment ∷ segments) =
    (if first then [] else codes ",") ++ (segment_json segment ++ segments_json false segments)

unfoldable pub annotation_segments_json : Bytes → Bytes
unfolding segments_json segment_annotations
annotation_segments_json raw = b'[' ∷ (segments_json true (segment_annotations raw) ++ (b']' ∷ []))
