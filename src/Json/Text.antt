-- ===== src/Json/Text.antt =====
-- What is written holds no control character, and so no line feed.
use getbiblesword.Prelude.{
  ℕ, zero, suc, ◌/◌, ◌%◌, ◌≤◌, ◌<◌, ◌≡◌, refl, arith, inl, inr, true, [], ◌∷◌, ◌++◌, Bytes, codes,
  All, All-append, leb, ltb, get_or, passes_below, passes_below-at, le_of_leb, Bool-cases,
}
use getbiblesword.Sha256.{hex_digits}
use getbiblesword.Json.{escape_byte, json_escape, json_string, decimal, to_string}

abbrev pub IsPrinted : ℕ → Type 0
IsPrinted c = 0x20 ≤ c

all_printed : passes_below 16 (λ k. leb 0x20 (get_or hex_digits k 0)) ≡ true
unfolding passes_below
all_printed = refl

digit-IsPrinted : (k : ℕ) → k < 16 → IsPrinted (get_or hex_digits k 0)
digit-IsPrinted k h =
    le_of_leb 0x20 _ (passes_below-at 16 (λ k. leb 0x20 (get_or hex_digits k 0)) k all_printed h)

control-IsPrinted :
    (b : ℕ)
    → b < 0x20
    → All IsPrinted
        (codes "\\u00" ++ (get_or hex_digits (b / 16) 0 ∷ get_or hex_digits (b % 16) 0 ∷ []))
control-IsPrinted b h =
    All-append IsPrinted (codes "\\u00")
      (get_or hex_digits (b / 16) 0 ∷ get_or hex_digits (b % 16) 0 ∷ []) (omega arith)
      (digit-IsPrinted (b / 16) (omega arith), (digit-IsPrinted (b % 16) (omega arith), tt))

escape_byte-IsPrinted : (b : ℕ) → All IsPrinted (escape_byte b)
unfolding escape_byte
escape_byte-IsPrinted b = ground (arith, control-IsPrinted b)

pub json_escape-IsPrinted : (bytes : Bytes) → All IsPrinted (json_escape bytes)
unfolding json_escape
json_escape-IsPrinted [] = tt
json_escape-IsPrinted (b ∷ bytes) =
    All-append IsPrinted (escape_byte b) (json_escape bytes) (escape_byte-IsPrinted b)
      (json_escape-IsPrinted bytes)

pub json_string-IsPrinted : (bytes : Bytes) → All IsPrinted (json_string bytes)
unfolding json_string
json_string-IsPrinted bytes = (
  omega arith,
  All-append IsPrinted (json_escape bytes) (b'"' ∷ []) (json_escape-IsPrinted bytes) (omega arith),
)

decimal-IsPrinted : (fuel n : ℕ) → All IsPrinted (decimal fuel n)
unfolding decimal
decimal-IsPrinted zero n = omega arith
decimal-IsPrinted (suc fuel) n = elim (Bool-cases (ltb n 10)) [
  | inl one ↦ rw one (omega arith)
  | inr more ↦ rw more (
      All-append IsPrinted (decimal fuel (n / 10)) _ (decimal-IsPrinted fuel (n / 10))
        (omega arith))
]

pub to_string-IsPrinted : (n : ℕ) → All IsPrinted (to_string n)
unfolding to_string
to_string-IsPrinted n = decimal-IsPrinted n n
