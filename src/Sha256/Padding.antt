-- ===== src/Sha256/Padding.antt =====
-- FIPS 180-4, sections 5 and 6.2, on a whole message: the message with its padding, cut into
-- blocks of 64 bytes, each of which is compressed into the hash value; and the same with the code's
-- `transform`.
use getbiblesword.Prelude.{
  ℕ, zero, suc, ◌-◌, ◌*◌, ◌/◌, ◌%◌, ◌^◌, ◌≡◌, refl, ap, ap₂, ◌∙◌, arith, List, [], ◌∷◌, ◌++◌,
  append_assoc, Bytes, length, take, drop, replicate, concat, All, take-append, drop-append,
  length-append, bit_and-eq-mod,
}
use getbiblesword.Sha256.Compress.{initial_state, transform}
use getbiblesword.Sha256.Fips.{initial_hash, compress, hash_bytes}
use getbiblesword.Sha256.Compress.Standard.{initial_state-standard, transform-standard}
use getbiblesword.Sha256.{word_bytes, state_bytes}

-- The number `n` as eight bytes, the highest first.
abbrev pub big_endian : ℕ → Bytes
big_endian n =
    (n / 2 ^ 56 % 256)
    ∷ (n / 2 ^ 48 % 256)
    ∷ (n / 2 ^ 40 % 256)
    ∷ (n / 2 ^ 32 % 256)
    ∷ (n / 2 ^ 24 % 256)
    ∷ (n / 2 ^ 16 % 256)
    ∷ (n / 2 ^ 8 % 256)
    ∷ (n % 256)
    ∷ []

-- The bit 1, the fewest zeros that leave eight bytes of the last block, and the length in bits.
abbrev pub padding : ℕ → Bytes
padding n = 0x80 ∷ (replicate ((119 - n % 64) % 64) 0 ++ big_endian (n * 8))

abbrev pub padded : Bytes → Bytes
padded message = message ++ padding (length message)

abbrev pub blocks_of : ℕ → Bytes → List Bytes
blocks_of zero bytes = []
blocks_of (suc count) bytes = take 64 bytes ∷ blocks_of count (drop 64 bytes)

abbrev pub absorb : List ℕ → List Bytes → List ℕ
absorb state [] = state
absorb state (block ∷ blocks) = absorb (transform state block) blocks

abbrev pub hashed : List ℕ → List Bytes → List ℕ
hashed hash [] = hash
hashed hash (block ∷ blocks) = hashed (compress hash block) blocks

-- The digest as the standard defines it
pub standard_digest : Bytes → Bytes
standard_digest message =
    hash_bytes (hashed initial_hash (blocks_of (length (padded message) / 64) (padded message)))

-- The digest with the code's functions
pub chained_digest : Bytes → Bytes
unfolding state_bytes
chained_digest message =
    state_bytes (absorb initial_state (blocks_of (length (padded message) / 64) (padded message)))

abbrev pub IsBlock : Bytes → Type 0
IsBlock block = length block ≡ 64

pub absorb-append :
    (state : List ℕ) (xs ys : List Bytes) → absorb state (xs ++ ys) ≡ absorb (absorb state xs) ys
absorb-append state [] ys = refl
absorb-append state (x ∷ xs) ys = absorb-append (transform state x) xs ys

pub concat-append : (xs ys : List Bytes) → concat (xs ++ ys) ≡ concat xs ++ concat ys
concat-append [] ys = refl
concat-append (x ∷ xs) ys = ap (◌++◌ x) (concat-append xs ys) ∙ rw append_assoc

-- Cutting what was put together from blocks gives the blocks.
pub blocks_of-concat :
    (blocks : List Bytes) → All IsBlock blocks → blocks_of (length blocks) (concat blocks) ≡ blocks
blocks_of-concat [] h = refl
blocks_of-concat (b ∷ bs) h =
    ap₂ ◌∷◌ (take-append 64 b (concat bs) h.0)
      (ap (blocks_of (length bs)) (drop-append 64 b (concat bs) h.0) ∙ blocks_of-concat bs h.1)

pub length-concat :
    (blocks : List Bytes) → All IsBlock blocks → length (concat blocks) ≡ length blocks * 64
length-concat [] h = refl
length-concat (b ∷ bs) h = omega (arith, length-append b (concat bs), length-concat bs h.1)

absorb-hashed : (state : List ℕ) (blocks : List Bytes) → absorb state blocks ≡ hashed state blocks
absorb-hashed state [] = refl
absorb-hashed state (block ∷ blocks) =
    absorb-hashed (transform state block) blocks
    ∙ ap (λ (t : List ℕ). hashed t blocks) (transform-standard state block)

state_bytes-hash_bytes : (words : List ℕ) → state_bytes words ≡ hash_bytes words
unfolding state_bytes word_bytes
state_bytes-hash_bytes [] = refl
state_bytes-hash_bytes (w ∷ words) = simp (bit_and-eq-mod 8) (
    ap (λ (t : Bytes). (w / 2 ^ 24 % 256) ∷ (w / 2 ^ 16 % 256) ∷ (w / 2 ^ 8 % 256) ∷ (w % 256) ∷ t)
      (state_bytes-hash_bytes words))

-- The two digests are the same.
pub chained_digest-standard : (message : Bytes) → chained_digest message ≡ standard_digest message
unfolding chained_digest standard_digest
chained_digest-standard message =
    let blocks = blocks_of (length (padded message) / 64) (padded message) in
    state_bytes-hash_bytes (absorb initial_state blocks)
    ∙ ap hash_bytes (
        absorb-hashed initial_state blocks
        ∙ ap (λ (t : List ℕ). hashed t blocks) initial_state-standard)

-- A padded message that is known as its blocks.
pub chained_digest-blocks :
    (message : Bytes) (blocks : List Bytes)
    → All IsBlock blocks
    → padded message ≡ concat blocks
    → chained_digest message ≡ state_bytes (absorb initial_state blocks)
unfolding chained_digest
chained_digest-blocks message blocks h e =
    let count : length (concat blocks) / 64 ≡ length blocks =
      omega (arith, length-concat blocks h) in
    rw (e, count, blocks_of-concat blocks h)
