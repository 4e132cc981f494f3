-- ===== src/Prelude/Bits.antt =====
-- Shifts and masks of unsigned words as arithmetic.
use Prim.Native.Nat.{
  ℕ, zero, suc, ◌+◌, ◌-◌, ◌*◌, ◌/◌, ◌%◌, ◌^◌, ◌≤◌, ◌<◌, min, max, digits, bit_and, bit_or,
  bit_and-bitwise, bit_or-bitwise,
}
use mathlib.Core.Path.{◌≡◌, refl, ap}
use mathlib.Core.Bool.{Bool, true, ◌&&◌}
use native.Mathlib.Nat.{pow-suc, one-le-pow}
use native.Mathlib.Omega.{arith}

-- `x >> k`
abbrev pub shr : ℕ → ℕ → ℕ
shr x k = x / 2 ^ k

-- `x << k` on an unsigned word of `w` bits
abbrev pub shl : ℕ → ℕ → ℕ → ℕ
shl w x k = x * 2 ^ k % 2 ^ w

-- A test that is run at 0, 1, and so on, up to a bound.
unfoldable pub passes_below : ℕ → (ℕ → Bool) → Bool
passes_below zero test = true
passes_below (suc bound) test = passes_below bound test && test bound

pub passes_below-at :
    (bound : ℕ) (test : ℕ → Bool) (k : ℕ)
    → passes_below bound test ≡ true
    → k < bound
    → test k ≡ true
unfolding passes_below
passes_below-at (suc bound) test k e h = ground (arith, passes_below-at bound test k)
passes_below-at zero test k e h = absurd (omega arith)

-- The native operations are defined by a recursion on binary digits whose fuel is the first
-- number; any two fuels that are large enough agree.
module _ (rest : ℕ → ℕ) (digit : ℕ → ℕ → ℕ) where
  fuels_agree : (m n a b : ℕ) → a ≤ m → a ≤ n → digits rest digit m a b ≡ digits rest digit n a b
  fuels_agree m n zero b p q = simp (nothing_left m b, nothing_left n b)
    where
      nothing_left : (k b : ℕ) → digits rest digit k 0 b ≡ rest b
      nothing_left zero b = refl
      nothing_left (suc k) b = refl
  fuels_agree zero n (suc a) b p q = absurd (omega arith)
  fuels_agree (suc m) zero (suc a) b p q = absurd (omega arith)
  fuels_agree (suc m) (suc n) (suc a) b p q =
      ap (λ (t : ℕ). t * 2 + digit (suc a % 2) (b % 2))
        (fuels_agree m n (suc a / 2) (b / 2) (omega arith) (omega arith))

-- One digit at a time.
bit_and-halves : (a b : ℕ) → bit_and a b ≡ bit_and (a / 2) (b / 2) * 2 + min (a % 2) (b % 2)
bit_and-halves zero b = simp bit_and-bitwise (omega arith)
bit_and-halves (suc a) b = omega (
  arith,
  bit_and-bitwise (suc a) b,
  bit_and-bitwise (suc a / 2) (b / 2),
  fuels_agree (λ _. 0) min a (suc a / 2) (suc a / 2) (b / 2) (omega arith) (omega arith),
)

bit_or-halves : (a b : ℕ) → bit_or a b ≡ bit_or (a / 2) (b / 2) * 2 + max (a % 2) (b % 2)
bit_or-halves zero b = simp bit_or-bitwise (omega arith)
bit_or-halves (suc a) b = omega (
  arith,
  bit_or-bitwise (suc a) b,
  bit_or-bitwise (suc a / 2) (b / 2),
  fuels_agree (λ y. y) max a (suc a / 2) (suc a / 2) (b / 2) (omega arith) (omega arith),
)

zero-bit_or : (b : ℕ) → bit_or 0 b ≡ b
zero-bit_or b = bit_or-bitwise 0 b

zero-bit_and : (b : ℕ) → bit_and 0 b ≡ 0
zero-bit_and b = bit_and-bitwise 0 b

-- By the number of digits, a bound for the first operand.
bit_or-zero_below : (k a : ℕ) → a < 2 ^ k → bit_or a 0 ≡ a
bit_or-zero_below zero a h = let e : a ≡ 0 = omega arith in rw e (zero-bit_or 0)
bit_or-zero_below (suc k) a h = omega (
  arith,
  bit_or-halves a 0,
  pow-suc 2 k,
  bit_or-zero_below k (a / 2) (omega (arith, pow-suc 2 k)),
)

bit_and-zero_below : (k a : ℕ) → a < 2 ^ k → bit_and a 0 ≡ 0
bit_and-zero_below zero a h = let e : a ≡ 0 = omega arith in rw e (zero-bit_and 0)
bit_and-zero_below (suc k) a h =
    omega (arith, bit_and-halves a 0, bit_and-zero_below k (a / 2) (omega (arith, pow-suc 2 k)))

lt-two_pow : (n : ℕ) → n < 2 ^ n
lt-two_pow zero = omega arith
lt-two_pow (suc n) = omega (arith, lt-two_pow n, pow-suc 2 n)

bit_or-zero : (a : ℕ) → bit_or a 0 ≡ a
bit_or-zero a = bit_or-zero_below a a (lt-two_pow a)

bit_and-zero : (a : ℕ) → bit_and a 0 ≡ 0
bit_and-zero a = bit_and-zero_below a a (lt-two_pow a)

double_pow : (q k : ℕ) → q * 2 ^ suc k ≡ 2 * (q * 2 ^ k)
double_pow q k = omega (arith, ap (λ (t : ℕ). q * t) (pow-suc 2 k))

-- `(q << k) | r` is a sum where `r` fits in `k` bits.
pub bit_or-eq-add : (k q r : ℕ) → r < 2 ^ k → bit_or (q * 2 ^ k) r ≡ q * 2 ^ k + r
bit_or-eq-add zero q r h = ground (arith, bit_or-zero q)
bit_or-eq-add (suc k) q r h = ground (
  arith,
  bit_or-halves (q * 2 ^ suc k) r,
  double_pow q k,
  bit_or-eq-add k q (r / 2) (omega (arith, pow-suc 2 k)),
)

bit_and-mask_add : (k q r : ℕ) → r < 2 ^ k → bit_and (q * 2 ^ k + r) (2 ^ k - 1) ≡ r
bit_and-mask_add zero q r h = rw bit_and-zero (omega arith)
bit_and-mask_add (suc k) q r h = ground (
  arith,
  bit_and-halves (q * 2 ^ suc k + r) (2 ^ suc k - 1),
  double_pow q k,
  pow-suc 2 k,
  one-le-pow k 2,
  bit_and-mask_add k q (r / 2) (omega (arith, pow-suc 2 k)),
)

-- A mask of the `k` low bits is the remainder by `2 ^ k`.
pub bit_and-eq-mod : (k a : ℕ) → bit_and a (2 ^ k - 1) ≡ a % 2 ^ k
bit_and-eq-mod k a = ground (arith, one-le-pow k 2, bit_and-mask_add k (a / 2 ^ k) (a % 2 ^ k))
