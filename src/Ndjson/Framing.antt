-- ===== src/Ndjson/Framing.antt =====
-- Line framing: a consumer that cuts the stream at line feeds gets back the records' texts.
use getbiblesword.Prelude.{
  ℕ, suc, ◌%◌, ◌^◌, ◌≡◌, refl, sym, ap, ◌∙◌, arith, Bool, true, false, List, [], ◌∷◌, ◌++◌,
  append-nil, append_assoc, Bytes, codes, All, All-append, concat, if◌then◌else◌, ◌==◌,
}
use getbiblesword.Json.{json_string, to_string}
use getbiblesword.Json.Text.{IsPrinted, json_string-IsPrinted, to_string-IsPrinted}
use getbiblesword.OrderedMap.{upsert, emplace}
use getbiblesword.Ndjson.{JsonFields, object_members, object_json, record_line}
use getbiblesword.Ndjson.Records.{Record, lines_from, text_of}

-- The frames that a line feed closes; `partial` is what has been read of the next one.
abbrev pub frames : Bytes → Bytes → List Bytes
frames partial [] = []
frames partial (c ∷ rest) =
    let ended = frames [] rest in
    let more = frames (partial ++ (c ∷ [])) rest in if c == 10 then partial ∷ ended else more

frames-line :
    (partial body rest : Bytes)
    → All IsPrinted body
    → frames partial (body ++ (10 ∷ rest)) ≡ (partial ++ body) ∷ frames [] rest
frames-line partial [] rest h = ap (λ (t : Bytes). t ∷ frames [] rest) (sym (append-nil partial))
frames-line partial (c ∷ body) rest h =
    let no_feed : (c == 10) ≡ false = ground arith in
    rw no_feed (
      frames-line (partial ++ (c ∷ [])) body rest h.1
      ∙ ap (λ (t : Bytes). t ∷ frames [] rest) (append_assoc partial (c ∷ []) body))

-- The values of the fields are JSON texts on one line.
abbrev pub ArePrinted : JsonFields → Type 0
ArePrinted [] = Unit
ArePrinted ((name, value) ∷ fields) = All IsPrinted value × ArePrinted fields

emplace-ArePrinted :
    (name value : Bytes) (fields : JsonFields)
    → All IsPrinted value
    → ArePrinted fields
    → ArePrinted (emplace name value fields)
unfolding upsert
emplace-ArePrinted name value [] h k = (h, tt)
emplace-ArePrinted name value ((n, v) ∷ fields) h k =
    ground (arith, emplace-ArePrinted name value fields h k.1)

comma-IsPrinted : (first : Bool) → All IsPrinted (if first then [] else codes ",")
comma-IsPrinted true = tt
comma-IsPrinted false = omega arith

object_members-IsPrinted :
    (first : Bool) (fields : JsonFields)
    → ArePrinted fields
    → All IsPrinted (object_members first fields)
unfolding object_members
object_members-IsPrinted first [] h = tt
object_members-IsPrinted first ((name, value) ∷ fields) h =
    All-append IsPrinted (if first then [] else codes ",") _ (comma-IsPrinted first) (
      All-append IsPrinted (json_string name) (b':' ∷ (value ++ object_members false fields))
        (json_string-IsPrinted name)
        (
          omega arith,
          All-append IsPrinted value (object_members false fields) h.0
              (object_members-IsPrinted false fields h.1),
        ))

pub object_json-IsPrinted :
    (fields : JsonFields) → ArePrinted fields → All IsPrinted (object_json fields)
unfolding object_json
object_json-IsPrinted fields h = (
  omega arith,
  All-append IsPrinted (object_members true fields) (b'}' ∷ [])
      (object_members-IsPrinted true fields h) (omega arith),
)

-- The object of a record.
abbrev pub record_object : ℕ → Record → Bytes
record_object n r = object_json (
    emplace (codes "type") (json_string r.type)
      (emplace (codes "sequence") (to_string (n % 2 ^ 64)) r.fields))

abbrev pub objects_from : ℕ → List Record → List Bytes
objects_from n [] = []
objects_from n (r ∷ rs) = record_object n r ∷ objects_from (suc n) rs

record_object-IsPrinted :
    (n : ℕ) (r : Record) → ArePrinted r.fields → All IsPrinted (record_object n r)
record_object-IsPrinted n r h = object_json-IsPrinted _ (
    emplace-ArePrinted (codes "type") (json_string r.type) _ (json_string-IsPrinted r.type) (
      emplace-ArePrinted (codes "sequence") (to_string (n % 2 ^ 64)) r.fields
        (to_string-IsPrinted (n % 2 ^ 64)) h))

frames-lines_from :
    (n : ℕ) (rs : List Record)
    → All (λ r. ArePrinted r.fields) rs
    → frames [] (concat (lines_from n rs)) ≡ objects_from n rs
unfolding record_line
frames-lines_from n [] h = refl
frames-lines_from n (r ∷ rs) h =
    ap (frames []) (append_assoc (record_object n r) (10 ∷ []) (concat (lines_from (suc n) rs)))
    ∙ frames-line [] (record_object n r) (concat (lines_from (suc n) rs))
        (record_object-IsPrinted n r h.0)
    ∙ ap (λ (t : List Bytes). record_object n r ∷ t) (frames-lines_from (suc n) rs h.1)

-- The stream of any records whose values hold no control character splits at its line feeds into exactly one
-- object for each record, numbered from 0.
pub frames-text_of :
    (rs : List Record)
    → All (λ r. ArePrinted r.fields) rs
    → frames [] (text_of rs) ≡ objects_from 0 rs
frames-text_of rs h = frames-lines_from 0 rs h
