-- ===== src/Sha256/Compress.antt =====
-- src/sha256.cpp: the round constants, `rotate_right` and `Sha256::transform`. The model's words
-- are numbers below 2 ^ 32, and each sum wraps there.
pub mod Standard
use getbiblesword.Prelude.{
  ℕ, zero, suc, ◌+◌, ◌-◌, ◌*◌, ◌%◌, ◌^◌, bit_and, bit_or, bit_xor, List, [], ◌∷◌, ◌++◌, Bytes,
  get_or, shl, shr,
}

abbrev pub initial_state : List ℕ
initial_state =
    0x6a09e667 ∷ 0xbb67ae85 ∷ 0x3c6ef372 ∷ 0xa54ff53a ∷ 0x510e527f ∷ 0x9b05688c ∷ 0x1f83d9ab
    ∷ 0x5be0cd19 ∷ []

round_constants : List ℕ
round_constants =
    0x428a2f98 ∷ 0x71374491 ∷ 0xb5c0fbcf ∷ 0xe9b5dba5 ∷ 0x3956c25b ∷ 0x59f111f1 ∷ 0x923f82a4
    ∷ 0xab1c5ed5 ∷ 0xd807aa98 ∷ 0x12835b01 ∷ 0x243185be ∷ 0x550c7dc3 ∷ 0x72be5d74 ∷ 0x80deb1fe
    ∷ 0x9bdc06a7 ∷ 0xc19bf174 ∷ 0xe49b69c1 ∷ 0xefbe4786 ∷ 0x0fc19dc6 ∷ 0x240ca1cc ∷ 0x2de92c6f
    ∷ 0x4a7484aa ∷ 0x5cb0a9dc ∷ 0x76f988da ∷ 0x983e5152 ∷ 0xa831c66d ∷ 0xb00327c8 ∷ 0xbf597fc7
    ∷ 0xc6e00bf3 ∷ 0xd5a79147 ∷ 0x06ca6351 ∷ 0x14292967 ∷ 0x27b70a85 ∷ 0x2e1b2138 ∷ 0x4d2c6dfc
    ∷ 0x53380d13 ∷ 0x650a7354 ∷ 0x766a0abb ∷ 0x81c2c92e ∷ 0x92722c85 ∷ 0xa2bfe8a1 ∷ 0xa81a664b
    ∷ 0xc24b8b70 ∷ 0xc76c51a3 ∷ 0xd192e819 ∷ 0xd6990624 ∷ 0xf40e3585 ∷ 0x106aa070 ∷ 0x19a4c116
    ∷ 0x1e376c08 ∷ 0x2748774c ∷ 0x34b0bcb5 ∷ 0x391c0cb3 ∷ 0x4ed8aa4a ∷ 0x5b9cca4f ∷ 0x682e6ff3
    ∷ 0x748f82ee ∷ 0x78a5636f ∷ 0x84c87814 ∷ 0x8cc70208 ∷ 0x90befffa ∷ 0xa4506ceb ∷ 0xbef9a3f7
    ∷ 0xc67178f2 ∷ []

unfoldable pub add32 : ℕ → ℕ → ℕ
add32 a b = (a + b) % 2 ^ 32

rotate_right : ℕ → ℕ → ℕ
rotate_right value count = bit_or (shr value count) (shl 32 value (32 - count))

-- `words[i]` for i below 16: four bytes of the block, the highest first.
unfoldable pub word : Bytes → ℕ → ℕ
word block offset =
    bit_or
      (bit_or (bit_or (shl 32 (get_or block offset 0) 24) (shl 32 (get_or block (offset + 1) 0) 16))
        (shl 32 (get_or block (offset + 2) 0) 8))
      (get_or block (offset + 3) 0)

-- The first loop: `count` words from the i-th on.
block_words : ℕ → Bytes → ℕ → List ℕ
unfolding word
block_words zero block i = []
block_words (suc count) block i = word block (i * 4) ∷ block_words count block (i + 1)

-- `words[i]` from those before it.
next_word : List ℕ → ℕ → ℕ
unfolding rotate_right add32
next_word words i =
    let w = λ (back : ℕ). get_or words (i - back) 0 in
    let s0 = bit_xor (bit_xor (rotate_right (w 15) 7) (rotate_right (w 15) 18)) (shr (w 15) 3) in
    let s1 = bit_xor (bit_xor (rotate_right (w 2) 17) (rotate_right (w 2) 19)) (shr (w 2) 10) in
    add32 (add32 (add32 (w 16) s0) (w 7)) s1

-- The second loop: `count` more words, the first of them the i-th.
extend_words : ℕ → List ℕ → ℕ → List ℕ
unfolding next_word
extend_words zero words i = words
extend_words (suc count) words i = extend_words count (words ++ (next_word words i ∷ [])) (i + 1)

-- The working variables of the third loop.
record Working : Type 0 where
  a : ℕ
  b : ℕ
  c : ℕ
  d : ℕ
  e : ℕ
  f : ℕ
  g : ℕ
  h : ℕ

compress_round : Working → ℕ → ℕ → Working
unfolding rotate_right add32
compress_round v constant w =
    let sum1 = bit_xor (bit_xor (rotate_right v.e 6) (rotate_right v.e 11)) (rotate_right v.e 25) in
    let choice = bit_xor (bit_and v.e v.f) (bit_and (2 ^ 32 - 1 - v.e) v.g) in
    let temporary1 = add32 (add32 (add32 (add32 v.h sum1) choice) constant) w in
    let sum0 = bit_xor (bit_xor (rotate_right v.a 2) (rotate_right v.a 13)) (rotate_right v.a 22) in
    let majority = bit_xor (bit_xor (bit_and v.a v.b) (bit_and v.a v.c)) (bit_and v.b v.c) in
    let temporary2 = add32 sum0 majority in
    record {
      h = v.g;
      g = v.f;
      f = v.e;
      e = add32 v.d temporary1;
      d = v.c;
      c = v.b;
      b = v.a;
      a = add32 temporary1 temporary2;
    }

-- The third loop, over the constants and the words side by side.
compress_rounds : Working → List ℕ → List ℕ → Working
unfolding compress_round
compress_rounds v (constant ∷ constants) (w ∷ words) =
    compress_rounds (compress_round v constant w) constants words
compress_rounds v _ _ = v

working : List ℕ → Working
working state = record {
  a = get_or state 0 0;
  b = get_or state 1 0;
  c = get_or state 2 0;
  d = get_or state 3 0;
  e = get_or state 4 0;
  f = get_or state 5 0;
  g = get_or state 6 0;
  h = get_or state 7 0;
}

unfoldable pub transform : List ℕ → Bytes → List ℕ
unfolding add32 block_words extend_words compress_rounds working round_constants
transform state block =
    let words = extend_words 48 (block_words 16 block 0) 16 in
    let v = compress_rounds (working state) round_constants words in
    add32 (get_or state 0 0) v.a
    ∷ add32 (get_or state 1 0) v.b
    ∷ add32 (get_or state 2 0) v.c
    ∷ add32 (get_or state 3 0) v.d
    ∷ add32 (get_or state 4 0) v.e
    ∷ add32 (get_or state 5 0) v.f
    ∷ add32 (get_or state 6 0) v.g
    ∷ add32 (get_or state 7 0) v.h
    ∷ []
