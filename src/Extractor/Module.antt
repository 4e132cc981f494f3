-- ===== src/Extractor/Module.antt =====
-- src/sword_extractor.cpp: `classify_module`, `module_fields` and the names of SWORD's enumerations.
use getbiblesword.Prelude.{
  ℕ, ◌%◌, ◌^◌, Bool, true, false, ◌&&◌, ◌||◌, Option, List, [], ◌∷◌, Bytes, codes, ◌==◌,
  if◌then◌else◌,
}
use getbiblesword.Json.{json_string, to_string}
use getbiblesword.CommandLine.{same_text}
use getbiblesword.SourceEncoding.{lower}
use getbiblesword.ByteValue.{byte_value_json}
use getbiblesword.Ndjson.{JsonFields, object_json}
use getbiblesword.Extractor.{safe_c_string}

-- The constants of SWORD's headers that the code names
pub record SwordConstants : Type 0 where
  pub direction_ltr : ℕ
  pub direction_rtl : ℕ
  pub direction_bidi : ℕ
  pub enc_latin1 : ℕ
  pub enc_utf8 : ℕ
  pub enc_scsu : ℕ
  pub enc_utf16 : ℕ
  pub enc_rtf : ℕ
  pub enc_html : ℕ
  pub fmt_plain : ℕ
  pub fmt_thml : ℕ
  pub fmt_gbf : ℕ
  pub fmt_html : ℕ
  pub fmt_htmlhref : ℕ
  pub fmt_rtf : ℕ
  pub fmt_osis : ℕ
  pub fmt_webif : ℕ
  pub fmt_tei : ℕ
  pub fmt_xhtml : ℕ
  pub fmt_latex : ℕ
  pub modtype_bibles : Bytes
  pub modtype_commentaries : Bytes
  pub modtype_lexdicts : Bytes
  pub modtype_dailydevos : Bytes
  pub modtype_genbooks : Bytes
  pub keyerr_outofbounds : ℕ

-- What the calls on a `sword::SWModule` answer apart from its entries. A text that may be null is an
-- `Option`; `config` is `getConfig()` in its order.
pub record ModuleInfo : Type 0 where
  pub type : Option Bytes
  pub name : Option Bytes
  pub description : Option Bytes
  pub language : Option Bytes
  pub direction : ℕ
  pub encoding : ℕ
  pub markup : ℕ
  pub config : List (Bytes × Bytes)
  pub config_entry : Bytes → Option Bytes

-- `switch` over constants that differ
unfoldable pub name_of : ℕ → List (ℕ × Bytes) → Bytes
name_of value [] = codes "unknown"
name_of value ((code, name) ∷ names) =
    let later = name_of value names in if value == code then name else later

-- `enum_json`; the code is an `unsigned char`.
unfoldable pub enum_json : ℕ → Bytes → Bytes
enum_json code name =
    object_json ((codes "code", to_string (code % 2 ^ 8)) ∷ (codes "name", json_string name) ∷ [])

unfoldable pub starts_with : Bytes → Bytes → Bool
starts_with [] text = true
starts_with (x ∷ xs) [] = false
starts_with (x ∷ xs) (y ∷ ys) = x == y && starts_with xs ys

-- `text.find(needle) != npos`
unfoldable pub has_text : Bytes → Bytes → Bool
unfolding starts_with
has_text needle [] = starts_with needle []
has_text needle (c ∷ text) = starts_with needle (c ∷ text) || has_text needle text

module _ (k : SwordConstants) where
  unfoldable pub direction_name : ℕ → Bytes
  unfolding name_of
  direction_name value = name_of value (
      (k.direction_ltr, codes "ltr")
      ∷ (k.direction_rtl, codes "rtl")
      ∷ (k.direction_bidi, codes "bidi")
      ∷ [])

  unfoldable pub encoding_name : ℕ → Bytes
  unfolding name_of
  encoding_name value = name_of value (
      (k.enc_latin1, codes "latin1")
      ∷ (k.enc_utf8, codes "utf8")
      ∷ (k.enc_scsu, codes "scsu")
      ∷ (k.enc_utf16, codes "utf16")
      ∷ (k.enc_rtf, codes "rtf")
      ∷ (k.enc_html, codes "html")
      ∷ [])

  unfoldable pub markup_name : ℕ → Bytes
  unfolding name_of
  markup_name value = name_of value (
      (k.fmt_plain, codes "plain")
      ∷ (k.fmt_thml, codes "thml")
      ∷ (k.fmt_gbf, codes "gbf")
      ∷ (k.fmt_html, codes "html")
      ∷ (k.fmt_htmlhref, codes "htmlhref")
      ∷ (k.fmt_rtf, codes "rtf")
      ∷ (k.fmt_osis, codes "osis")
      ∷ (k.fmt_webif, codes "webif")
      ∷ (k.fmt_tei, codes "tei")
      ∷ (k.fmt_xhtml, codes "xhtml")
      ∷ (k.fmt_latex, codes "latex")
      ∷ [])

-- The names of configuration entries that `config_contains` looks at
abbrev pub is_descriptive : Bytes → Bool
is_descriptive name =
    same_text name (codes "category")
    || (same_text name (codes "feature") || same_text name (codes "type"))

unfoldable pub config_contains : List (Bytes × Bytes) → Bytes → Bool
config_contains [] needle = false
config_contains ((name, value) ∷ config) needle =
    (is_descriptive (lower name) && has_text (lower needle) (lower value))
    || config_contains config needle

unfoldable pub classify_module : SwordConstants → ModuleInfo → Bytes
unfolding config_contains
classify_module k info =
    let type = safe_c_string info.type in
    if same_text type k.modtype_bibles
    then codes "bible"
    else if same_text type k.modtype_commentaries
    then codes "commentary"
    else if same_text type k.modtype_lexdicts
    then codes "dictionary_or_lexicon"
    else if same_text type k.modtype_dailydevos
    then codes "devotional"
    else if same_text type k.modtype_genbooks
    then (if config_contains info.config (codes "map")
          || (config_contains info.config (codes "image")
              || config_contains info.config (codes "resource"))
        then codes "resource"
        else codes "general_book")
    else codes "unknown"

unfoldable pub module_fields : SwordConstants → ModuleInfo → JsonFields
module_fields k info =
    (codes "classification", json_string (classify_module k info))
    ∷ (codes "description", byte_value_json (safe_c_string info.description))
    ∷ (codes "direction", enum_json info.direction (direction_name k info.direction))
    ∷ (codes "driver", byte_value_json (safe_c_string (info.config_entry (codes "ModDrv"))))
    ∷ (codes "encoding", enum_json info.encoding (encoding_name k info.encoding))
    ∷ (codes "language", byte_value_json (safe_c_string info.language))
    ∷ (codes "markup", enum_json info.markup (markup_name k info.markup))
    ∷ (codes "name", byte_value_json (safe_c_string info.name))
    ∷ (codes "sword_type", byte_value_json (safe_c_string info.type))
    ∷ []
