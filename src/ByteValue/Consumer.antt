-- ===== src/ByteValue/Consumer.antt =====
-- A consumer of byte values: it reads the object and checks the members against one another, as
-- docs/contract-v1.md asks of a validator.
pub mod RoundTrip
use getbiblesword.Prelude.{
  ℕ, Bool, true, false, ◌&&◌, Option, none, some, List, [], ◌∷◌, ◌++◌, Bytes, codes, length,
  list_eq, ◌==◌, if◌then◌else◌,
}
use getbiblesword.Base64.Decode.{base64_decode}
use getbiblesword.Json.Read.{read_string, read_digits, expect, ◌>>=◌}
use getbiblesword.Sha256.{hex_bytes}
use getbiblesword.Sha256.Padding.{standard_digest}

pub record ByteValue : Type 0 where
  pub bytes : Bytes
  pub utf8 : Option Bytes

-- The member `utf8`, if the text goes on with it.
unfoldable pub read_utf8 : Option Bytes → Bytes → Option (Option Bytes × Bytes)
read_utf8 none text = some (none, text)
read_utf8 (some text) _ = do (utf8, behind) ← read_string text; some (some utf8, behind)

-- The digest and the size have to be those of the decoded bytes, and `utf8` the bytes themselves.
unfoldable pub is_consistent : Bytes → Bytes → ℕ → Option Bytes → Bool
is_consistent bytes sha256 size utf8 =
    list_eq sha256 (hex_bytes (standard_digest bytes))
    && (size == length bytes && elim utf8 [ none ↦ true | some text ↦ list_eq text bytes ])

unfoldable pub read_byte_value : Bytes → Option (ByteValue × Bytes)
unfolding read_utf8 is_consistent
read_byte_value text = do
  base64_text ← expect (codes "{\"base64\":") text
  (base64, behind_base64) ← read_string base64_text
  sha256_text ← expect (codes ",\"encoding\":\"base64\",\"sha256\":") behind_base64
  (sha256, behind_sha256) ← read_string sha256_text
  size_text ← expect (codes ",\"size\":") behind_sha256
  let measured = read_digits 0 size_text
  (utf8, behind_utf8) ← read_utf8 (expect (codes ",\"utf8\":") measured.1) measured.1
  rest ← expect (b'}' ∷ []) behind_utf8
  bytes ← base64_decode base64
  if is_consistent bytes sha256 measured.0 utf8
      then some (record { bytes = bytes; utf8 = utf8 }, rest)
      else none
