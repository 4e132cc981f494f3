-- ===== src/Tests/Encoding.antt =====
-- The theorems on digests, texts and values at concrete bytes.
use getbiblesword.Prelude.{
  ◌≡◌, ◌↔◌, arith, true, some, [], ◌∷◌, ◌++◌, Bytes, codes, concat, IsByte, All, length, ◌+◌, ◌/◌,
  ◌*◌,
}
use getbiblesword.Base64.{base64_encode}
use getbiblesword.Base64.Decode.{base64_decode}
use getbiblesword.Base64.Decode.RoundTrip.{decode-encode}
use getbiblesword.Base64.Shape.{length-base64_encode}
use getbiblesword.Sha256.{new, hex_bytes, hex_digest}
use getbiblesword.Sha256.Padding.{standard_digest}
use getbiblesword.Sha256.Pieces.{update_all, hex_digest-update_all}
use getbiblesword.Utf8.{is_valid_utf8}
use getbiblesword.Utf8.Scalar.{IsUtf8}
use getbiblesword.Utf8.Decides.Loop.{is_valid_utf8-IsUtf8}
use getbiblesword.Json.{json_string}
use getbiblesword.Json.Read.{read_string}
use getbiblesword.Json.RoundTrip.{read_string-json_string}
use getbiblesword.Json.Text.{IsPrinted}
use getbiblesword.ByteValue.{byte_value_json}
use getbiblesword.ByteValue.Text.{byte_value_json-IsPrinted}
use getbiblesword.ByteValue.Consumer.{read_byte_value}
use getbiblesword.ByteValue.Consumer.RoundTrip.{utf8_of, read-byte_value_json}
use getbiblesword.Annotation.{segment_annotations}
use getbiblesword.Annotation.Lossless.{
  raws, segment_annotations-lossless, IsSegment, segment_annotations-IsSegment,
}

-- Not UTF-8: a surrogate's bytes.
abbrev surrogate : Bytes
surrogate = 0xed ∷ 0xa0 ∷ 0x80 ∷ []

surrogate-IsByte : All IsByte surrogate
surrogate-IsByte = omega arith

abbrev verse : Bytes
verse = codes "In <w>the</w> &amp; <i"

hex_digest-update_all_example :
    hex_digest (update_all new (surrogate ∷ [] ∷ verse ∷ []))
    ≡ hex_bytes (standard_digest (concat (surrogate ∷ [] ∷ verse ∷ [])))
hex_digest-update_all_example = hex_digest-update_all (surrogate ∷ [] ∷ verse ∷ [])

decode-encode_example : base64_decode (base64_encode surrogate) ≡ some surrogate
decode-encode_example = decode-encode surrogate surrogate-IsByte

length-base64_encode_example : length (base64_encode verse) ≡ (length verse + 2) / 3 * 4
length-base64_encode_example = length-base64_encode verse

is_valid_utf8-IsUtf8_example : (is_valid_utf8 surrogate ≡ true) ↔ IsUtf8 surrogate
is_valid_utf8-IsUtf8_example = is_valid_utf8-IsUtf8 surrogate surrogate-IsByte

read_string-json_string_example :
    read_string (json_string (34 ∷ 10 ∷ surrogate) ++ codes ",")
    ≡ some (34 ∷ 10 ∷ surrogate, codes ",")
read_string-json_string_example = read_string-json_string (34 ∷ 10 ∷ surrogate) (codes ",")

read-byte_value_json_example :
    read_byte_value (byte_value_json surrogate ++ codes "}")
    ≡ some (record { bytes = surrogate; utf8 = utf8_of surrogate }, codes "}")
read-byte_value_json_example = read-byte_value_json surrogate (codes "}") surrogate-IsByte

byte_value_json-IsPrinted_example : All IsPrinted (byte_value_json surrogate)
byte_value_json-IsPrinted_example = byte_value_json-IsPrinted surrogate

segment_annotations-lossless_example : concat (raws (segment_annotations verse)) ≡ verse
segment_annotations-lossless_example = segment_annotations-lossless verse

segment_annotations-IsSegment_example : All IsSegment (segment_annotations verse)
segment_annotations-IsSegment_example = segment_annotations-IsSegment verse
