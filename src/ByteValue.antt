-- ===== src/ByteValue.antt =====
-- src/byte_value.cpp: `byte_value_json`, the object that carries every source-derived string.
pub mod Consumer
pub mod Text
use getbiblesword.Prelude.{[], ◌∷◌, ◌++◌, Bytes, codes, length, if◌then◌else◌}
use getbiblesword.Base64.{base64_encode}
use getbiblesword.Sha256.{sha256_hex}
use getbiblesword.Utf8.{is_valid_utf8}
use getbiblesword.Json.{json_string, to_string}

-- `if (is_valid_utf8(bytes)) { … }`
unfoldable pub utf8_member : Bytes → Bytes
utf8_member bytes = if is_valid_utf8 bytes then codes ",\"utf8\":" ++ json_string bytes else []

unfoldable pub byte_value_json : Bytes → Bytes
unfolding utf8_member
byte_value_json bytes =
    codes "{\"base64\":"
    ++ (json_string (base64_encode bytes)
        ++ (codes ",\"encoding\":\"base64\",\"sha256\":"
            ++ (json_string (sha256_hex bytes)
                ++ (codes ",\"size\":"
                    ++ (to_string (length bytes) ++ (utf8_member bytes ++ (b'}' ∷ [])))))))
