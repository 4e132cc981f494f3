-- ===== src/ByteValue/Text.antt =====
-- A byte value is on one line.
use getbiblesword.Prelude.{
  arith, inl, inr, [], ◌∷◌, Bytes, codes, All, All-append, length, Bool-cases,
}
use getbiblesword.Base64.{base64_encode}
use getbiblesword.Json.{json_string, to_string}
use getbiblesword.Json.Text.{IsPrinted, json_string-IsPrinted, to_string-IsPrinted}
use getbiblesword.Sha256.{sha256_hex}
use getbiblesword.Utf8.{is_valid_utf8}
use getbiblesword.ByteValue.{utf8_member, byte_value_json}

utf8_member-IsPrinted : (bytes : Bytes) → All IsPrinted (utf8_member bytes)
unfolding utf8_member
utf8_member-IsPrinted bytes = elim (Bool-cases (is_valid_utf8 bytes)) [
  | inl valid ↦ rw valid (
      All-append IsPrinted (codes ",\"utf8\":") (json_string bytes) (omega arith)
        (json_string-IsPrinted bytes))
  | inr invalid ↦ rw invalid tt
]

-- A byte value holds no control character, whatever the bytes are.
pub byte_value_json-IsPrinted : (bytes : Bytes) → All IsPrinted (byte_value_json bytes)
unfolding byte_value_json
byte_value_json-IsPrinted bytes = All-append IsPrinted (codes "{\"base64\":") _ (omega arith) (
    All-append IsPrinted (json_string (base64_encode bytes)) _ (json_string-IsPrinted _) (
      All-append IsPrinted (codes ",\"encoding\":\"base64\",\"sha256\":") _ (omega arith) (
        All-append IsPrinted (json_string (sha256_hex bytes)) _ (json_string-IsPrinted _) (
          All-append IsPrinted (codes ",\"size\":") _ (omega arith) (
            All-append IsPrinted (to_string (length bytes)) _ (to_string-IsPrinted _) (
              All-append IsPrinted (utf8_member bytes) (b'}' ∷ []) (utf8_member-IsPrinted bytes)
                (omega arith)))))))
