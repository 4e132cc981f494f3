-- ===== src/Extractor/Entries/Json.antt =====
-- src/sword_extractor.cpp: `official_attributes_json` and `scope_json`.
use getbiblesword.Prelude.{
  Bool, true, false, Option, List, [], ◌∷◌, ◌++◌, Bytes, codes, if◌then◌else◌,
}
use getbiblesword.Prelude.Int.{ℤ, is_zero}
use getbiblesword.Json.{json_string, signed_to_string}
use getbiblesword.ByteValue.{byte_value_json}
use getbiblesword.Ndjson.{object_json}
use getbiblesword.Extractor.{safe_c_string}

-- `sword::AttributeTypeList`, a map of maps of maps, in its order
abbrev pub AttributeValues : Type 0
AttributeValues = List (Bytes × Bytes)

abbrev pub AttributeLists : Type 0
AttributeLists = List (Bytes × AttributeValues)

abbrev pub AttributeTypeList : Type 0
AttributeTypeList = List (Bytes × AttributeLists)

abbrev comma : Bool → Bytes
comma first = if first then [] else codes ","

unfoldable pub values_json : Bool → AttributeValues → Bytes
values_json first [] = []
values_json first ((name, value) ∷ values) =
    comma first
    ++ (codes "{\"name\":"
        ++ (byte_value_json name
            ++ (codes ",\"value\":"
                ++ (byte_value_json value ++ (codes "}" ++ values_json false values)))))

unfoldable pub lists_json : Bool → AttributeLists → Bytes
unfolding values_json
lists_json first [] = []
lists_json first ((name, values) ∷ lists) =
    comma first
    ++ (codes "{\"name\":"
        ++ (byte_value_json name
            ++ (codes ",\"values\":["
                ++ (values_json true values ++ (codes "]}" ++ lists_json false lists)))))

unfoldable pub types_json : Bool → AttributeTypeList → Bytes
unfolding lists_json
types_json first [] = []
types_json first ((name, lists) ∷ types) =
    comma first
    ++ (codes "{\"lists\":["
        ++ (lists_json true lists
            ++ (codes "],\"name\":"
                ++ (byte_value_json name ++ (codes "}" ++ types_json false types)))))

unfoldable pub official_attributes_json : AttributeTypeList → Bytes
unfolding types_json
official_attributes_json attributes = codes "[" ++ (types_json true attributes ++ codes "]")

-- What the calls on a `VerseKey` answer; `suffix` is the `char` as an `int`.
pub record VerseScope : Type 0 where
  pub testament : ℤ
  pub book : ℤ
  pub chapter : ℤ
  pub verse : ℤ
  pub suffix : ℤ
  pub index : ℤ
  pub book_abbreviation : Option Bytes
  pub book_name : Option Bytes
  pub osis_reference : Option Bytes
  pub versification : Option Bytes

-- The module's key: of any class, or a `VerseKey`
pub data Scope : Type 0 where
  sword_key : ℤ → Scope
  verse_key : VerseScope → Scope

unfoldable pub intro_scope : VerseScope → Bytes
intro_scope v =
    if is_zero v.book
    then (if is_zero v.testament then codes "module" else codes "testament")
    else if is_zero v.chapter
    then codes "book"
    else if is_zero v.verse
    then codes "chapter"
    else codes "verse"

abbrev pub book_text : VerseScope → Option Bytes → Bytes
book_text v text = if is_zero v.book then codes "null" else byte_value_json (safe_c_string text)

unfoldable pub scope_json : Scope → Bytes
unfolding intro_scope
scope_json (sword_key index) =
    object_json
      ((codes "index", signed_to_string index) ∷ (codes "type", codes "\"sword_key\"") ∷ [])
scope_json (verse_key v) = object_json (
    (codes "book", signed_to_string v.book)
    ∷ (codes "book_abbreviation", book_text v v.book_abbreviation)
    ∷ (codes "book_name", book_text v v.book_name)
    ∷ (codes "chapter", signed_to_string v.chapter)
    ∷ (codes "index", signed_to_string v.index)
    ∷ (codes "intro_scope", json_string (intro_scope v))
    ∷ (codes "osis_reference", byte_value_json (safe_c_string v.osis_reference))
    ∷ (codes "suffix", signed_to_string v.suffix)
    ∷ (codes "testament", signed_to_string v.testament)
    ∷ (codes "type", codes "\"verse_key\"")
    ∷ (codes "verse", signed_to_string v.verse)
    ∷ (codes "versification", byte_value_json (safe_c_string v.versification))
    ∷ [])
