-- ===== src/Prelude/Text.antt =====
-- Texts as byte strings: a `std::string` is a list of numbers below 256.
use Prim.Native.Nat.{ℕ, ◌≤◌, ◌<◌}
use Prim.Native.Char.{code}
use Prim.Native.String.{String}
use mathlib.Core.List.{List, [], ◌∷◌}
use mathlib.Core.Logic.{◌≢◌}
use mathlib.Core.Path.{◌≡◌}
use mathlib.Core.Bool.{Bool, true, not, ◌&&◌}
use native.Mathlib.Omega.{arith}
use getbiblesword.Prelude.Tests.{ltb, leb, ◌==◌}

abbrev pub Bytes : Type 0
Bytes = List ℕ

-- The code points of a text, which are its bytes where it is ASCII.
abbrev pub codes : String → Bytes
codes String.[] = []
codes (String.◌∷◌ c s) = code c ∷ codes s

abbrev pub IsByte : ℕ → Type 0
IsByte b = b < 256

-- A printable ASCII byte that JSON and NDJSON carry as it is: no quote and no backslash.
pub record IsPlain (c : ℕ) : Type 0 where
  pub printable : 0x20 ≤ c
  pub ascii : c < 0x80
  pub no_quote : c ≢ b'"'
  pub no_backslash : c ≢ b'\\'

unfoldable pub is_plain : ℕ → Bool
is_plain c = leb 0x20 c && ltb c 0x80 && not (c == b'"') && not (c == b'\\')

pub is_plain-IsPlain : (c : ℕ) → is_plain c ≡ true → IsPlain c
unfolding is_plain
is_plain-IsPlain c h = ground arith
