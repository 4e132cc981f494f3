-- ===== src/Sha256/Pieces.antt =====
-- The object over any sequence of calls of `update`, and the text that it gives.
use getbiblesword.Prelude.{
  ℕ, ◌*◌, ◌/◌, ◌%◌, ◌<◌, ◌≡◌, refl, ap, arith, true, List, [], ◌∷◌, ◌++◌, append-nil, append_assoc,
  Bytes, IsByte, IsPlain, is_plain, is_plain-IsPlain, length, concat, All, All-append,
  bit_and-eq-mod, passes_below, passes_below-at, get_or,
}
use getbiblesword.Sha256.Compress.{transform}
use getbiblesword.Sha256.Padding.{standard_digest}
use getbiblesword.Sha256.Stream.Update.{Streams, new-Streams, update-Streams}
use getbiblesword.Sha256.Stream.Finalize.Standard.{finalize-standard}
use getbiblesword.Sha256.{
  Sha256, new, update, word_bytes, state_bytes, finalize, digest, hex_digits, hex_bytes, hex_digest,
  sha256_hex,
}

abbrev pub update_all : Sha256 → List Bytes → Sha256
update_all s [] = s
update_all s (piece ∷ pieces) = update_all (update s piece) pieces

pub update_all-Streams :
    (s : Sha256) (message : Bytes) (pieces : List Bytes)
    → Streams s message
    → Streams (update_all s pieces) (message ++ concat pieces)
update_all-Streams s message [] h = rw append-nil h
update_all-Streams s message (piece ∷ pieces) h = rw (← append_assoc) (
    update_all-Streams (update s piece) (message ++ piece) pieces
      (update-Streams s message piece h))

-- The digest of what an object has taken in is that of the standard.
pub hex_digest-Streams :
    (s : Sha256) (message : Bytes)
    → Streams s message
    → hex_digest s ≡ hex_bytes (standard_digest message)
unfolding hex_digest digest
hex_digest-Streams s message h = ap hex_bytes (finalize-standard s message h)

-- However a message is cut into calls of `update`, the text is the digest of the whole by FIPS 180-4.
pub hex_digest-update_all :
    (pieces : List Bytes)
    → hex_digest (update_all new pieces) ≡ hex_bytes (standard_digest (concat pieces))
hex_digest-update_all pieces =
    hex_digest-Streams (update_all new pieces) (concat pieces)
      (update_all-Streams new [] pieces new-Streams)

pub sha256_hex-standard : (bytes : Bytes) → sha256_hex bytes ≡ hex_bytes (standard_digest bytes)
unfolding sha256_hex
sha256_hex-standard bytes =
    hex_digest-Streams (update new bytes) bytes (update-Streams new [] bytes new-Streams)

all_plain : passes_below 16 (λ k. is_plain (get_or hex_digits k 0)) ≡ true
unfolding passes_below is_plain
all_plain = refl

digit-IsPlain : (k : ℕ) → k < 16 → IsPlain (get_or hex_digits k 0)
digit-IsPlain k h =
    is_plain-IsPlain _ (passes_below-at 16 (λ k. is_plain (get_or hex_digits k 0)) k all_plain h)

hex_bytes-IsPlain : (bytes : Bytes) → All IsByte bytes → All IsPlain (hex_bytes bytes)
unfolding hex_bytes
hex_bytes-IsPlain [] h = tt
hex_bytes-IsPlain (b ∷ bs) h = (
  digit-IsPlain (b / 16) (omega arith),
  (digit-IsPlain (b % 16) (omega arith), hex_bytes-IsPlain bs h.1),
)

length-hex_bytes : (bytes : Bytes) → length (hex_bytes bytes) ≡ length bytes * 2
unfolding hex_bytes
length-hex_bytes [] = refl
length-hex_bytes (b ∷ bs) = omega (arith, length-hex_bytes bs)

word_bytes-IsByte : (w : ℕ) → All IsByte (word_bytes w)
unfolding word_bytes
word_bytes-IsByte w = simp (bit_and-eq-mod 8) (omega arith)

state_bytes-IsByte : (ws : List ℕ) → All IsByte (state_bytes ws)
unfolding state_bytes
state_bytes-IsByte [] = tt
state_bytes-IsByte (w ∷ ws) =
    All-append IsByte (word_bytes w) (state_bytes ws) (word_bytes-IsByte w) (state_bytes-IsByte ws)

finalize-IsByte : (s : Sha256) → All IsByte (finalize s)
unfolding finalize
finalize-IsByte s = state_bytes-IsByte (transform _ _)

-- The text is 64 digits, which need no escape in JSON.
pub hex_digest-IsPlain : (s : Sha256) → All IsPlain (hex_digest s)
unfolding hex_digest digest
hex_digest-IsPlain s = hex_bytes-IsPlain (finalize s) (finalize-IsByte s)

pub length-hex_digest : (s : Sha256) → length (hex_digest s) ≡ 64
unfolding hex_digest digest finalize transform state_bytes word_bytes
length-hex_digest s = length-hex_bytes (finalize s)
