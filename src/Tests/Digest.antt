-- ===== src/Tests/Digest.antt =====
-- Test vectors of src/sha256.cpp and src/base64.cpp.
use getbiblesword.Prelude.{◌≡◌, refl, codes}
use getbiblesword.Base64.{base64_encode}
use getbiblesword.Sha256.{sha256_hex, finalize, flush_full, write_at, length_bytes, state_bytes}
use getbiblesword.Sha256.Compress.{transform}

encodes : base64_encode (codes "KJV!") ≡ codes "S0pWIQ=="
unfolding base64_encode
encodes = refl

hashes :
    sha256_hex (codes "KJV")
    ≡ codes "f98326ec7971053443d80268b911680a0eec8d4ead3b1d67445b7d534f1b5b2f"
unfolding sha256_hex finalize flush_full write_at length_bytes state_bytes transform
hashes = refl

hashes_two_blocks :
    sha256_hex (codes "abcdbcdecdefdefgefghfghighijhijkijkljklmklmnlmnomnopnopq")
    ≡ codes "248d6a61d20638b8e5c026930c3e6039a33ce45964ff2167f6ecedd419db06c1"
unfolding sha256_hex finalize flush_full write_at length_bytes state_bytes transform
hashes_two_blocks = refl
