-- ===== src/Json.antt =====
-- The JSON text of the program: src/byte_value.cpp (`json_escape`, `json_string`) and the members of
-- an object as `NdjsonWriter::object_json` and `json_object` write them. A `std::string` is a list
-- of bytes, and `std::to_string` of a number its decimal digits.
pub mod Read
pub mod RoundTrip
pub mod Numbers
pub mod Text
use getbiblesword.Prelude.{
  ℕ, zero, suc, ◌+◌, ◌/◌, ◌%◌, Bool, true, false, List, [], ◌∷◌, ◌++◌, Bytes, codes, get_or, ltb,
  ◌==◌, if◌then◌else◌,
}
use getbiblesword.Prelude.Int.{ℤ, pos, negsuc}
use getbiblesword.Sha256.{hex_digits}

-- The `switch` of `json_escape`. `std::setw(4)` with the fill character 0 gives a control character
-- four hexadecimal digits, of which the first two are 0.
unfoldable pub escape_byte : ℕ → Bytes
escape_byte byte =
    if byte == b'"'
    then codes "\\\""
    else if byte == b'\\'
    then codes "\\\\"
    else if byte == 8
    then codes "\\b"
    else if byte == 12
    then codes "\\f"
    else if byte == 10
    then codes "\\n"
    else if byte == 13
    then codes "\\r"
    else if byte == 9
    then codes "\\t"
    else if ltb byte 0x20
    then codes "\\u00" ++ (get_or hex_digits (byte / 16) 0 ∷ get_or hex_digits (byte % 16) 0 ∷ [])
    else byte ∷ []

unfoldable pub json_escape : Bytes → Bytes
unfolding escape_byte
json_escape [] = []
json_escape (byte ∷ bytes) = escape_byte byte ++ json_escape bytes

unfoldable pub json_string : Bytes → Bytes
unfolding json_escape
json_string bytes = b'"' ∷ (json_escape bytes ++ (b'"' ∷ []))

-- `std::to_string`; the fuel is the number itself, which has no more digits than that.
unfoldable pub decimal : ℕ → ℕ → Bytes
decimal zero n = (b'0' + n % 10) ∷ []
decimal (suc fuel) n =
    let front = decimal fuel (n / 10) in
    if ltb n 10 then (b'0' + n) ∷ [] else front ++ ((b'0' + n % 10) ∷ [])

unfoldable pub to_string : ℕ → Bytes
unfolding decimal
to_string n = decimal n n

-- `std::to_string` of a signed number
unfoldable pub signed_to_string : ℤ → Bytes
signed_to_string (pos n) = to_string n
signed_to_string (negsuc n) = b'-' ∷ to_string (n + 1)
