-- ===== src/Sha256/Fips.antt =====
-- FIPS 180-4, sections 2.2.2, 4.1.2, 4.2.2, 5.3.3 and 6.2.2: the functions, the constants, the initial hash value
-- and the compression of one block, as the standard defines them and apart from the code. The
-- constants are computed as the standard says what they are, from the roots of the first primes.
use getbiblesword.Prelude.{
  ℕ, zero, suc, ◌+◌, ◌-◌, ◌*◌, ◌/◌, ◌%◌, ◌^◌, bit_and, bit_or, bit_xor, List, [], ◌∷◌, ◌++◌, Bytes,
  get_or, leb, if◌then◌else◌,
}

-- The largest number of so many bits more than `root` whose power is at most the target.
abbrev pub root_below : (ℕ → ℕ) → ℕ → ℕ → ℕ → ℕ
root_below power zero target root = root
root_below power (suc k) target root =
    root_below power k target (if leb (power (root + 2 ^ k)) target then root + 2 ^ k else root)

abbrev pub square : ℕ → ℕ
square n = n * n

abbrev pub cube : ℕ → ℕ
cube n = n * (n * n)

-- The first 32 bits of the fractional parts of the square roots
abbrev pub square_roots : List ℕ → List ℕ
square_roots [] = []
square_roots (p ∷ primes) = root_below square 36 (p * 2 ^ 64) 0 % 2 ^ 32 ∷ square_roots primes

-- The first 32 bits of the fractional parts of the cube roots
abbrev pub cube_roots : List ℕ → List ℕ
cube_roots [] = []
cube_roots (p ∷ primes) = root_below cube 36 (p * 2 ^ 96) 0 % 2 ^ 32 ∷ cube_roots primes

abbrev pub eight_primes : List ℕ
eight_primes = 2 ∷ 3 ∷ 5 ∷ 7 ∷ 11 ∷ 13 ∷ 17 ∷ 19 ∷ []

abbrev pub primes : List ℕ
primes =
    2 ∷ 3 ∷ 5 ∷ 7 ∷ 11 ∷ 13 ∷ 17 ∷ 19 ∷ 23 ∷ 29 ∷ 31 ∷ 37 ∷ 41 ∷ 43 ∷ 47 ∷ 53 ∷ 59 ∷ 61 ∷ 67 ∷ 71
    ∷ 73 ∷ 79 ∷ 83 ∷ 89 ∷ 97 ∷ 101 ∷ 103 ∷ 107 ∷ 109 ∷ 113 ∷ 127 ∷ 131 ∷ 137 ∷ 139 ∷ 149 ∷ 151 ∷ 157
    ∷ 163 ∷ 167 ∷ 173 ∷ 179 ∷ 181 ∷ 191 ∷ 193 ∷ 197 ∷ 199 ∷ 211 ∷ 223 ∷ 227 ∷ 229 ∷ 233 ∷ 239 ∷ 241
    ∷ 251 ∷ 257 ∷ 263 ∷ 269 ∷ 271 ∷ 277 ∷ 281 ∷ 283 ∷ 293 ∷ 307 ∷ 311 ∷ []

unfoldable pub initial_hash : List ℕ
initial_hash = square_roots eight_primes

unfoldable pub constants : List ℕ
constants = cube_roots primes

abbrev pub right : ℕ → ℕ → ℕ
right x n = x / 2 ^ n

-- Rotation to the right: the low `n` bits go to the top.
abbrev pub rotated : ℕ → ℕ → ℕ
rotated x n = bit_or (right x n) (x * 2 ^ (32 - n) % 2 ^ 32)

abbrev pub not : ℕ → ℕ
not x = 2 ^ 32 - 1 - x

abbrev pub ch : ℕ → ℕ → ℕ → ℕ
ch x y z = bit_xor (bit_and x y) (bit_and (not x) z)

abbrev pub maj : ℕ → ℕ → ℕ → ℕ
maj x y z = bit_xor (bit_xor (bit_and x y) (bit_and x z)) (bit_and y z)

abbrev pub big_sigma0 : ℕ → ℕ
big_sigma0 x = bit_xor (bit_xor (rotated x 2) (rotated x 13)) (rotated x 22)

abbrev pub big_sigma1 : ℕ → ℕ
big_sigma1 x = bit_xor (bit_xor (rotated x 6) (rotated x 11)) (rotated x 25)

abbrev pub small_sigma0 : ℕ → ℕ
small_sigma0 x = bit_xor (bit_xor (rotated x 7) (rotated x 18)) (right x 3)

abbrev pub small_sigma1 : ℕ → ℕ
small_sigma1 x = bit_xor (bit_xor (rotated x 17) (rotated x 19)) (right x 10)

-- The four bytes of a word of the block side by side, the first the highest
abbrev pub message_word : Bytes → ℕ → ℕ
message_word block t =
    let byte = λ (i : ℕ). get_or block (t * 4 + i) 0 in
    bit_or
      (bit_or (bit_or (get_or block (t * 4) 0 * 2 ^ 24 % 2 ^ 32) (byte 1 * 2 ^ 16 % 2 ^ 32))
        (byte 2 * 2 ^ 8 % 2 ^ 32))
      (byte 3)

abbrev pub message_words : ℕ → Bytes → ℕ → List ℕ
message_words zero block t = []
message_words (suc count) block t = message_word block t ∷ message_words count block (t + 1)

-- The word `t` of the schedule, where 16 ≤ t
abbrev pub schedule_word : List ℕ → ℕ → ℕ
schedule_word words t =
    let w = λ (back : ℕ). get_or words (t - back) 0 in
    (small_sigma1 (w 2) + w 7 + small_sigma0 (w 15) + w 16) % 2 ^ 32

abbrev pub schedule : ℕ → List ℕ → ℕ → List ℕ
schedule zero words t = words
schedule (suc count) words t = schedule count (words ++ (schedule_word words t ∷ [])) (t + 1)

pub record Variables : Type 0 where
  pub a : ℕ
  pub b : ℕ
  pub c : ℕ
  pub d : ℕ
  pub e : ℕ
  pub f : ℕ
  pub g : ℕ
  pub h : ℕ

abbrev pub round : Variables → ℕ → ℕ → Variables
round v k w =
    let t1 = (v.h + big_sigma1 v.e + ch v.e v.f v.g + k + w) % 2 ^ 32 in
    let t2 = (big_sigma0 v.a + maj v.a v.b v.c) % 2 ^ 32 in
    record {
      a = (t1 + t2) % 2 ^ 32;
      b = v.a;
      c = v.b;
      d = v.c;
      e = (v.d + t1) % 2 ^ 32;
      f = v.e;
      g = v.f;
      h = v.g;
    }

abbrev pub rounds : Variables → List ℕ → List ℕ → Variables
rounds v [] words = v
rounds v (k ∷ ks) [] = v
rounds v (k ∷ ks) (w ∷ words) = rounds (round v k w) ks words

abbrev pub variables : List ℕ → Variables
variables hash = record {
  a = get_or hash 0 0;
  b = get_or hash 1 0;
  c = get_or hash 2 0;
  d = get_or hash 3 0;
  e = get_or hash 4 0;
  f = get_or hash 5 0;
  g = get_or hash 6 0;
  h = get_or hash 7 0;
}

-- The intermediate hash value behind a block
unfoldable pub compress : List ℕ → Bytes → List ℕ
compress hash block =
    let v = rounds (variables hash) constants (schedule 48 (message_words 16 block 0) 16) in
    ((get_or hash 0 0 + v.a) % 2 ^ 32)
    ∷ ((get_or hash 1 0 + v.b) % 2 ^ 32)
    ∷ ((get_or hash 2 0 + v.c) % 2 ^ 32)
    ∷ ((get_or hash 3 0 + v.d) % 2 ^ 32)
    ∷ ((get_or hash 4 0 + v.e) % 2 ^ 32)
    ∷ ((get_or hash 5 0 + v.f) % 2 ^ 32)
    ∷ ((get_or hash 6 0 + v.g) % 2 ^ 32)
    ∷ ((get_or hash 7 0 + v.h) % 2 ^ 32)
    ∷ []

-- The bytes of the hash value, of each word the highest first
abbrev pub hash_bytes : List ℕ → Bytes
hash_bytes [] = []
hash_bytes (w ∷ words) =
    (w / 2 ^ 24 % 256) ∷ (w / 2 ^ 16 % 256) ∷ (w / 2 ^ 8 % 256) ∷ (w % 256) ∷ hash_bytes words
