-- ===== src/Tests/Sources.antt =====
-- The theorems on source encodings at a converter for ASCII.
use getbiblesword.Prelude.{
  ℕ, ◌%◌, ◌≡◌, refl, arith, inl, ◌↔◌, some, List, [], ◌∷◌, Bytes, codes, All, length, ltb,
  if◌then◌else◌,
}
use getbiblesword.Utf8.Scalar.{IsScalar, IsUtf8, encode, encode_all}
use getbiblesword.CommandLine.{same_text}
use getbiblesword.SourceEncoding.{
  zero_error, buffer_overflow, Icu, lower, converter_name, write_utf8, convert, convert_by,
  decode_named, source_utf8,
}
use getbiblesword.SourceEncoding.WellFormed.{WritesUtf8, source_utf8-IsUtf8, source_utf8-declared}

abbrev low_bits : Bytes → List ℕ
low_bits [] = []
low_bits (b ∷ bytes) = b % 128 ∷ low_bits bytes

low_bits-IsScalar : (bytes : Bytes) → All IsScalar (low_bits bytes)
low_bits-IsScalar [] = tt
low_bits-IsScalar (b ∷ bytes) = (inl (omega arith), low_bits-IsScalar bytes)

abbrev pub ascii : Icu
ascii = record {
  Converter = Unit {0};
  ucnv_open = λ name. some tt;
  stop_at_errors = λ converter. (converter, zero_error);
  ucnv_to_uchars = λ converter capacity raw status. record {
    status = if ltb capacity (length raw) then buffer_overflow else zero_error;
    size = length raw;
    buffer = low_bits raw;
  };
  u_str_to_utf8 = λ capacity unicode status. record {
    status =
        if ltb capacity (length (encode_all (low_bits unicode)))
        then buffer_overflow
        else zero_error;
    size = length (encode_all (low_bits unicode));
    buffer = encode_all (low_bits unicode);
  };
}

ascii-WritesUtf8 : WritesUtf8 ascii
ascii-WritesUtf8 = record {
  writes = λ capacity unicode good. record {
    scalars = low_bits unicode;
    are_scalars = low_bits-IsScalar unicode;
    spelled = refl;
  };
}

abbrev amen : Bytes
amen = codes "Amen"

amen_is_projected : source_utf8 ascii amen [] ≡ some amen
unfolding source_utf8 decode_named converter_name convert_by convert write_utf8 encode same_text
    lower
amen_is_projected = refl

source_utf8-IsUtf8_example : IsUtf8 amen
source_utf8-IsUtf8_example =
    source_utf8-IsUtf8 ascii ascii-WritesUtf8 amen amen [] (omega arith) amen_is_projected

upper_is_utf8 : lower (codes "UTF-8") ≡ codes "utf-8"
unfolding lower
upper_is_utf8 = refl

source_utf8-declared_example : (source_utf8 ascii amen (codes "UTF-8") ≡ some amen) ↔ IsUtf8 amen
source_utf8-declared_example =
    source_utf8-declared ascii amen (codes "UTF-8") (omega arith) upper_is_utf8
