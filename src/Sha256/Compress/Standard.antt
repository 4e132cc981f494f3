-- ===== src/Sha256/Compress/Standard.antt =====
-- `transform` is the compression of FIPS 180-4, and the words of the initial state are its initial hash value.
use getbiblesword.Prelude.{
  ℕ, zero, suc, ◌+◌, ◌%◌, ◌^◌, ◌≡◌, refl, ap, ap₂, ◌∙◌, arith, List, [], ◌∷◌, ◌++◌, Bytes, get_or,
}
use getbiblesword.Sha256.Fips
use getbiblesword.Sha256.Fips.{
  Variables, initial_hash, constants, message_words, schedule_word, schedule, round, rounds,
  variables, compress,
}
use getbiblesword.Sha256.Compress.{
  initial_state, round_constants, add32, rotate_right, word, block_words, next_word, extend_words,
  Working, compress_round, compress_rounds, working, transform,
}

pub initial_state-standard : initial_state ≡ initial_hash
unfolding initial_hash
initial_state-standard = refl

round_constants-standard : round_constants ≡ constants
unfolding round_constants constants
round_constants-standard = refl

block_words-standard :
    (count : ℕ) (block : Bytes) (i : ℕ) → block_words count block i ≡ message_words count block i
unfolding block_words word
block_words-standard zero block i = refl
block_words-standard (suc count) block i = ap₂ ◌∷◌ refl (block_words-standard count block (i + 1))

add32-four : (a b c d : ℕ) → add32 (add32 (add32 a b) c) d ≡ (d + c + b + a) % 2 ^ 32
unfolding add32
add32-four a b c d = omega arith

add32-five :
    (a b c d e : ℕ) → add32 (add32 (add32 (add32 a b) c) d) e ≡ (a + b + c + d + e) % 2 ^ 32
unfolding add32
add32-five a b c d e = omega arith

next_word-standard : (words : List ℕ) (i : ℕ) → next_word words i ≡ schedule_word words i
unfolding next_word rotate_right
next_word-standard words i = add32-four _ _ _ _

extend_words-standard :
    (count : ℕ) (words : List ℕ) (i : ℕ) → extend_words count words i ≡ schedule count words i
unfolding extend_words
extend_words-standard zero words i = refl
extend_words-standard (suc count) words i =
    ap (λ (w : ℕ). extend_words count (words ++ (w ∷ [])) (i + 1)) (next_word-standard words i)
    ∙ extend_words-standard count (words ++ (schedule_word words i ∷ [])) (i + 1)

abbrev of_working : Working → Variables
of_working v = record { a = v.a; b = v.b; c = v.c; d = v.d; e = v.e; f = v.f; g = v.g; h = v.h }

compress_round-standard :
    (v : Working) (k w : ℕ) → of_working (compress_round v k w) ≡ round (of_working v) k w
unfolding compress_round rotate_right add32
compress_round-standard v k w =
    ap
      (λ (t1 : ℕ). record {
        a = add32 t1 (add32 (Fips.big_sigma0 v.a) (Fips.maj v.a v.b v.c));
        b = v.a;
        c = v.b;
        d = v.c;
        e = add32 v.d t1;
        f = v.e;
        g = v.f;
        h = v.g;
      })
      (add32-five v.h (Fips.big_sigma1 v.e) (Fips.ch v.e v.f v.g) k w)

compress_rounds-standard :
    (v : Working) (ks words : List ℕ)
    → of_working (compress_rounds v ks words) ≡ rounds (of_working v) ks words
unfolding compress_rounds
compress_rounds-standard v [] words = refl
compress_rounds-standard v (k ∷ ks) [] = refl
compress_rounds-standard v (k ∷ ks) (w ∷ words) =
    compress_rounds-standard (compress_round v k w) ks words
    ∙ ap (λ (u : Variables). rounds u ks words) (compress_round-standard v k w)

-- The sums behind the rounds
abbrev summed : List ℕ → Variables → List ℕ
summed hash v =
    ((get_or hash 0 0 + v.a) % 2 ^ 32)
    ∷ ((get_or hash 1 0 + v.b) % 2 ^ 32)
    ∷ ((get_or hash 2 0 + v.c) % 2 ^ 32)
    ∷ ((get_or hash 3 0 + v.d) % 2 ^ 32)
    ∷ ((get_or hash 4 0 + v.e) % 2 ^ 32)
    ∷ ((get_or hash 5 0 + v.f) % 2 ^ 32)
    ∷ ((get_or hash 6 0 + v.g) % 2 ^ 32)
    ∷ ((get_or hash 7 0 + v.h) % 2 ^ 32)
    ∷ []

words_of-standard :
    (block : Bytes)
    → extend_words 48 (block_words 16 block 0) 16 ≡ schedule 48 (message_words 16 block 0) 16
words_of-standard block =
    ap (λ (t : List ℕ). extend_words 48 t 16) (block_words-standard 16 block 0)
    ∙ extend_words-standard 48 (message_words 16 block 0) 16

pub transform-standard :
    (hash : List ℕ) (block : Bytes) → transform hash block ≡ compress hash block
unfolding transform compress working add32
transform-standard hash block = ap (summed hash) (
    compress_rounds-standard (working hash) round_constants
      (extend_words 48 (block_words 16 block 0) 16)
    ∙ ap₂ (rounds (variables hash)) round_constants-standard (words_of-standard block))
