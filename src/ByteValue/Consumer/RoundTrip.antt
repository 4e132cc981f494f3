-- ===== src/ByteValue/Consumer/RoundTrip.antt =====
-- The consumer accepts what `byte_value_json` writes, and gets the bytes back.
use getbiblesword.Prelude.{
  ◌≡◌, refl, arith, inl, inr, true, Option, none, some, [], ◌∷◌, ◌++◌, append_assoc, Bytes, IsByte,
  All, codes, length, list_eq, if◌then◌else◌, Bool-cases,
}
use getbiblesword.Base64.{base64_encode}
use getbiblesword.Base64.Decode.RoundTrip.{decode-encode}
use getbiblesword.Json.Read.{expect}
use getbiblesword.Json.RoundTrip.{read_string-json_string}
use getbiblesword.Json.Numbers.{NoDigit, read_digits-to_string, expect-append}
use getbiblesword.Json.{json_string, to_string}
use getbiblesword.Sha256.{sha256_hex, hex_bytes}
use getbiblesword.Sha256.Padding.{standard_digest}
use getbiblesword.Sha256.Pieces.{sha256_hex-standard}
use getbiblesword.Utf8.{is_valid_utf8}
use getbiblesword.ByteValue.{utf8_member, byte_value_json}
use getbiblesword.ByteValue.Consumer.{read_utf8, is_consistent, read_byte_value}

list_eq_self : (xs : Bytes) → list_eq xs xs ≡ true
list_eq_self [] = refl
list_eq_self (x ∷ xs) = ground (arith, list_eq_self xs)

abbrev pub utf8_of : Bytes → Option Bytes
utf8_of bytes = if is_valid_utf8 bytes then some bytes else none

module _ (bytes rest : Bytes) where
  abbrev from_utf8 : Bytes
  from_utf8 = utf8_member bytes ++ (b'}' ∷ rest)

  utf8_member-NoDigit : NoDigit from_utf8
  unfolding utf8_member
  utf8_member-NoDigit = elim (Bool-cases (is_valid_utf8 bytes)) [
    | inl valid ↦ rw valid refl
    | inr invalid ↦ rw invalid refl
  ]

  read_utf8-utf8_member :
      read_utf8 (expect (codes ",\"utf8\":") from_utf8) from_utf8
      ≡ some (utf8_of bytes, b'}' ∷ rest)
  unfolding utf8_member read_utf8
  read_utf8-utf8_member = elim (Bool-cases (is_valid_utf8 bytes)) [
    | inl valid ↦ rw valid (
        rw (append_assoc (codes ",\"utf8\":") (json_string bytes) (b'}' ∷ rest)) (
          rw (
            expect-append (codes ",\"utf8\":") (json_string bytes ++ (b'}' ∷ rest)),
            read_string-json_string bytes (b'}' ∷ rest),
          )))
    | inr invalid ↦ rw invalid (unfold expect in refl)
  ]

  is_consistent-sha256_hex :
      is_consistent bytes (sha256_hex bytes) (length bytes) (utf8_of bytes) ≡ true
  unfolding is_consistent
  is_consistent-sha256_hex = ground (
    arith,
    sha256_hex-standard bytes,
    list_eq_self (hex_bytes (standard_digest bytes)),
    list_eq_self bytes,
  )

-- The object piece by piece, with the text behind it.
byte_value_json-pieces :
    (bytes rest : Bytes)
    → byte_value_json bytes ++ rest
      ≡ codes "{\"base64\":"
        ++ (json_string (base64_encode bytes)
            ++ (codes ",\"encoding\":\"base64\",\"sha256\":"
                ++ (json_string (sha256_hex bytes)
                    ++ (codes ",\"size\":" ++ (to_string (length bytes) ++ from_utf8 bytes rest)))))
unfolding byte_value_json
byte_value_json-pieces bytes rest = simp append_assoc

-- Every byte string comes back from its object, whatever follows the object, and the consumer's
-- checks of the digest, the size and `utf8` pass; `utf8` is there exactly if the bytes are UTF-8.
pub read-byte_value_json :
    (bytes rest : Bytes)
    → All IsByte bytes
    → read_byte_value (byte_value_json bytes ++ rest)
      ≡ some (record { bytes = bytes; utf8 = utf8_of bytes }, rest)
unfolding read_byte_value
read-byte_value_json bytes rest h = rw (byte_value_json-pieces bytes rest) (
    rw
      (
        expect-append (codes "{\"base64\":"),
        read_string-json_string (base64_encode bytes),
        expect-append (codes ",\"encoding\":\"base64\",\"sha256\":"),
        read_string-json_string (sha256_hex bytes),
        expect-append (codes ",\"size\":"),
        read_digits-to_string (length bytes) (from_utf8 bytes rest)
            (utf8_member-NoDigit bytes rest),
        read_utf8-utf8_member bytes rest,
        decode-encode bytes h,
        is_consistent-sha256_hex bytes rest,
      )
      (unfold expect in refl))
