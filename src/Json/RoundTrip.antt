-- ===== src/Json/RoundTrip.antt =====
-- What the writers of strings and numbers write is read back, with any text behind it.
use getbiblesword.Prelude.{
  ℕ, zero, suc, ◌+◌, ◌*◌, ◌/◌, ◌%◌, ◌≤◌, ◌<◌, ◌≡◌, refl, ap, ◌∙◌, arith, inl, inr, Bool, true,
  false, none, some, [], ◌∷◌, ◌++◌, append_assoc, Bytes, codes, length, length-append, ltb, ◌==◌,
  Bool-cases, get_or, passes_below, passes_below-at, eq_of_==, lt_of_ltb,
}
use getbiblesword.Sha256.{hex_digits}
use getbiblesword.Utf8.Scalar.{encode}
use getbiblesword.Json.Read.{
  hex_value, simple_escape, read_escape, prepend, read_chars, read_string,
}
use getbiblesword.Json.{escape_byte, json_escape, json_string}

-- A table of the sixteen digits.
reads_back : ℕ → Bool
unfolding hex_value
reads_back k = elim (hex_value (get_or hex_digits k 0)) [ none ↦ false | some j ↦ j == k ]

all_read_back : passes_below 16 reads_back ≡ true
unfolding passes_below reads_back
all_read_back = refl

hex_value-digit : (k : ℕ) → k < 16 → hex_value (get_or hex_digits k 0) ≡ some k
unfolding reads_back
hex_value-digit k h = ground (arith, passes_below-at 16 reads_back k all_read_back h)

read_control :
    (b : ℕ) (rest : Bytes)
    → b < 0x20
    → read_escape
        (codes "u00" ++ (get_or hex_digits (b / 16) 0 ∷ get_or hex_digits (b % 16) 0 ∷ []) ++ rest)
      ≡ some (b ∷ [], rest)
unfolding read_escape encode
read_control b rest h =
    rw (hex_value-digit (b / 16) (omega arith), hex_value-digit (b % 16) (omega arith))
      (let joined : (0 + b / 16) * 16 + b % 16 ≡ b = omega arith in rw joined (ground arith))

-- A round of the reader, at a backslash and elsewhere.
read_chars-escape :
    (fuel : ℕ) (text bytes behind : Bytes)
    → read_escape text ≡ some (bytes, behind)
    → read_chars (suc fuel) (b'\\' ∷ text) ≡ prepend bytes (read_chars fuel behind)
unfolding read_chars
read_chars-escape fuel text bytes behind e = rw (e, read_chars)

read_chars-simple :
    (fuel c v : ℕ) (rest : Bytes)
    → (c == b'u') ≡ false
    → simple_escape c ≡ some v
    → read_chars (suc fuel) (b'\\' ∷ c ∷ rest) ≡ prepend (v ∷ []) (read_chars fuel rest)
read_chars-simple fuel c v rest no_u e =
    read_chars-escape fuel (c ∷ rest) (v ∷ []) rest (unfold read_escape in rw (no_u, e))

read_chars-plain :
    (fuel c : ℕ) (rest : Bytes)
    → (c == b'"') ≡ false
    → (c == b'\\') ≡ false
    → ltb c 0x20 ≡ false
    → read_chars (suc fuel) (c ∷ rest) ≡ prepend (c ∷ []) (read_chars fuel rest)
unfolding read_chars
read_chars-plain fuel c rest e f g = rw (e, f, g, read_chars)

module _ (fuel b : ℕ) (rest : Bytes) where
  -- What stands for one byte takes one round of the reader.
  read_chars-escape_byte :
      read_chars (suc fuel) (escape_byte b ++ rest) ≡ prepend (b ∷ []) (read_chars fuel rest)
  unfolding escape_byte simple_escape
  read_chars-escape_byte = elim (Bool-cases (b == b'"')) [
    | inl quote ↦
        rw (quote) (rw (eq_of_== b b'"' quote) (read_chars-simple fuel b'"' b'"' rest refl refl))
    | inr no_quote ↦ elim (Bool-cases (b == b'\\')) [
      | inl backslash ↦
          rw (no_quote, backslash)
            (rw (eq_of_== b b'\\' backslash) (read_chars-simple fuel b'\\' b'\\' rest refl refl))
      | inr no_backslash ↦ elim (Bool-cases (b == 8)) [
        | inl backspace ↦
            rw (no_quote, no_backslash, backspace)
              (rw (eq_of_== b 8 backspace) (read_chars-simple fuel b'b' 8 rest refl refl))
        | inr no_backspace ↦ elim (Bool-cases (b == 12)) [
          | inl form_feed ↦
              rw (no_quote, no_backslash, no_backspace, form_feed)
                (rw (eq_of_== b 12 form_feed) (read_chars-simple fuel b'f' 12 rest refl refl))
          | inr no_form_feed ↦ elim (Bool-cases (b == 10)) [
            | inl newline ↦
                rw (no_quote, no_backslash, no_backspace, no_form_feed, newline)
                  (rw (eq_of_== b 10 newline) (read_chars-simple fuel b'n' 10 rest refl refl))
            | inr no_newline ↦ elim (Bool-cases (b == 13)) [
              | inl carriage ↦
                  rw (no_quote, no_backslash, no_backspace, no_form_feed, no_newline, carriage)
                    (rw (eq_of_== b 13 carriage) (read_chars-simple fuel b'r' 13 rest refl refl))
              | inr no_carriage ↦ elim (Bool-cases (b == 9)) [
                | inl tab ↦
                    rw
                      (
                        no_quote, no_backslash, no_backspace, no_form_feed, no_newline, no_carriage,
                        tab,
                      )
                      (rw (eq_of_== b 9 tab) (read_chars-simple fuel b't' 9 rest refl refl))
                | inr no_tab ↦ elim (Bool-cases (ltb b 0x20)) [
                  | inl control ↦
                      rw
                        (
                          no_quote, no_backslash, no_backspace, no_form_feed, no_newline,
                          no_carriage, no_tab, control,
                        )
                        (read_chars-escape fuel _ (b ∷ []) rest
                          (read_control b rest (lt_of_ltb b 0x20 control)))
                  | inr plain ↦
                      rw
                        (
                          no_quote, no_backslash, no_backspace, no_form_feed, no_newline,
                          no_carriage, no_tab, plain,
                        )
                        (read_chars-plain fuel b rest no_quote no_backslash plain)
                ]
              ]
            ]
          ]
        ]
      ]
    ]
  ]

  length-escape_byte : 0 < length (escape_byte b)
  unfolding escape_byte
  length-escape_byte = ground arith

length-json_escape : (bytes : Bytes) → length bytes ≤ length (json_escape bytes)
unfolding json_escape
length-json_escape [] = omega arith
length-json_escape (b ∷ bytes) = omega (
  arith,
  length-append (escape_byte b) (json_escape bytes),
  length-escape_byte 0 b [],
  length-json_escape bytes,
)

json_escape-cons :
    (b : ℕ) (bytes rest : Bytes)
    → json_escape (b ∷ bytes) ++ rest ≡ escape_byte b ++ (json_escape bytes ++ rest)
unfolding json_escape
json_escape-cons b bytes rest = append_assoc (escape_byte b) (json_escape bytes) rest

read_chars-json_escape :
    (fuel : ℕ) (bytes rest : Bytes)
    → length bytes < fuel
    → read_chars fuel (json_escape bytes ++ (b'"' ∷ rest)) ≡ some (bytes, rest)
read_chars-json_escape zero bytes rest h = absurd (omega arith)
read_chars-json_escape (suc fuel) [] rest h = unfold json_escape read_chars in refl
read_chars-json_escape (suc fuel) (b ∷ bytes) rest h =
    ap (read_chars (suc fuel)) (json_escape-cons b bytes (b'"' ∷ rest))
    ∙ read_chars-escape_byte fuel b (json_escape bytes ++ (b'"' ∷ rest))
    ∙ ap (prepend (b ∷ [])) (read_chars-json_escape fuel bytes rest (omega arith))

-- A string is read back whatever its bytes are.
pub read_string-json_string :
    (bytes rest : Bytes) → read_string (json_string bytes ++ rest) ≡ some (bytes, rest)
unfolding json_string read_string
read_string-json_string bytes rest =
    let text : Bytes = json_escape bytes ++ (b'"' ∷ rest) in
    ap (λ (t : Bytes). read_chars (length t) t) (append_assoc (json_escape bytes) (b'"' ∷ []) rest)
    ∙ read_chars-json_escape (length text) bytes rest
        (omega (arith, length-append (json_escape bytes) (b'"' ∷ rest), length-json_escape bytes))
