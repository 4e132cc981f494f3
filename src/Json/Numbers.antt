-- ===== src/Json/Numbers.antt =====
-- Decimal numbers and fixed texts are read back.
use getbiblesword.Prelude.{
  ℕ, zero, suc, ◌+◌, ◌-◌, ◌*◌, ◌/◌, ◌%◌, ◌≤◌, ◌<◌, ◌≡◌, refl, ◌∙◌, arith, inl, inr, true, false,
  some, [], ◌∷◌, ◌++◌, append_assoc, Bytes, ltb, Bool-cases, lt_of_ltb, le_of_not_ltb,
}
use getbiblesword.Json.Read.{is_digit, read_digits, expect}
use getbiblesword.Json.{decimal, to_string}

-- The text does not go on with a digit.
abbrev pub NoDigit : Bytes → Type 0
NoDigit [] = Unit
NoDigit (c ∷ rest) = is_digit c ≡ false

read_digits-stop : (v : ℕ) (rest : Bytes) → NoDigit rest → read_digits v rest ≡ (v, rest)
unfolding read_digits
read_digits-stop v [] h = refl
read_digits-stop v (c ∷ rest) h = rw h

-- One more digit.
digit :
    (n d v : ℕ) (rest : Bytes)
    → d < 10
    → v * 10 + d ≡ n
    → read_digits v ((b'0' + d) ∷ rest) ≡ read_digits n rest
unfolding read_digits
digit n d v rest h e =
    let is : is_digit (b'0' + d) ≡ true = ground arith in
    let value : v * 10 + (b'0' + d - b'0') ≡ n = omega arith in rw (is, value)

-- A decimal number goes into the value read so far at its end.
read_digits-decimal :
    (fuel n : ℕ) (rest : Bytes)
    → n ≤ fuel
    → read_digits 0 (decimal fuel n ++ rest) ≡ read_digits n rest
unfolding decimal
read_digits-decimal zero n rest h = let e : n ≡ 0 = omega arith in rw e (unfold read_digits in refl)
read_digits-decimal (suc fuel) n rest h = elim (Bool-cases (ltb n 10)) [
  | inl one ↦ rw one (digit n n 0 rest (lt_of_ltb n 10 one) (omega arith))
  | inr more ↦ rw more (
      rw append_assoc (
        read_digits-decimal fuel (n / 10) _ (omega (arith, le_of_not_ltb n 10 more))
        ∙ digit n (n % 10) (n / 10) rest (omega arith) (omega arith)))
]

-- A number is read back where no digit follows.
pub read_digits-to_string :
    (n : ℕ) (rest : Bytes) → NoDigit rest → read_digits 0 (to_string n ++ rest) ≡ (n, rest)
unfolding to_string
read_digits-to_string n rest h =
    read_digits-decimal n n rest (omega arith) ∙ read_digits-stop n rest h

pub expect-append : (text rest : Bytes) → expect text (text ++ rest) ≡ some rest
unfolding expect
expect-append [] rest = refl
expect-append (x ∷ xs) rest = ground (arith, expect-append xs rest)
