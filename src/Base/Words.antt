-- ===== src/Base/Words.antt =====
-- `|` of fields that share no bit is a sum.
use Prim.Native.Nat.{
  ℕ, zero, suc, ◌+◌, ◌*◌, ◌/◌, ◌%◌, ◌^◌, ◌<◌, ◌≤◌, max, bit_or, digits, bit_or-bitwise,
}
use mathlib.Core.Path.{◌≡◌, refl, ap, ◌∙◌}
use native.Mathlib.Omega.{arith}
use native.Mathlib.Nat.{pow-suc}

-- The count of digits does not matter once it covers the first number.
or_digits_count :
    (n m a b : ℕ) → a ≤ n → a ≤ m → digits (λ c. c) max n a b ≡ digits (λ c. c) max m a b
or_digits_count zero zero a b p q = refl
or_digits_count zero (suc m) zero b p q = refl
or_digits_count (suc n) zero zero b p q = refl
or_digits_count (suc n) (suc m) zero b p q = refl
or_digits_count zero m (suc a) b p q = absurd (omega arith)
or_digits_count (suc n) zero (suc a) b p q = absurd (omega arith)
or_digits_count (suc n) (suc m) (suc a) b p q =
    omega (arith, or_digits_count n m (suc a / 2) (b / 2) (omega arith) (omega arith))

zero-bit_or : (b : ℕ) → bit_or 0 b ≡ b
zero-bit_or b = bit_or-bitwise 0 b

-- The lowest digit apart.
bit_or_halves : (a b : ℕ) → bit_or a b ≡ bit_or (a / 2) (b / 2) * 2 + max (a % 2) (b % 2)
bit_or_halves zero b = omega (arith, zero-bit_or b, zero-bit_or (b / 2))
bit_or_halves (suc a) b = omega (
  arith,
  bit_or-bitwise (suc a) b,
  bit_or-bitwise (suc a / 2) (b / 2),
  or_digits_count a (suc a / 2) (suc a / 2) (b / 2) (omega arith) (omega arith),
)

bit_or_zero_upto : (n a : ℕ) → a ≤ n → bit_or a 0 ≡ a
bit_or_zero_upto n zero h = refl
bit_or_zero_upto zero (suc a) h = absurd (omega arith)
bit_or_zero_upto (suc n) (suc a) h =
    omega (arith, bit_or_halves (suc a) 0, bit_or_zero_upto n (suc a / 2) (omega arith))

shift_suc : (q k : ℕ) → q * 2 ^ suc k ≡ 2 * (q * 2 ^ k)
shift_suc q k = omega (arith, ap (λ (t : ℕ). q * t) (pow-suc 2 k))

or_shifted : (k q f : ℕ) → f < 2 ^ k → bit_or (q * 2 ^ k) f ≡ q * 2 ^ k + f
or_shifted zero q f h = ground (arith, bit_or_zero_upto q q)
or_shifted (suc k) q f h = ground (
  arith,
  bit_or_halves (q * 2 ^ suc k) f,
  shift_suc q k,
  pow-suc 2 k,
  or_shifted k q (f / 2) (omega (arith, pow-suc 2 k)),
)

or_low : (k q f : ℕ) → f < 2 ^ k → bit_or f (q * 2 ^ k) ≡ q * 2 ^ k + f
or_low zero q f h = ground (arith, zero-bit_or q)
or_low (suc k) q f h = ground (
  arith,
  bit_or_halves f (q * 2 ^ suc k),
  shift_suc q k,
  pow-suc 2 k,
  or_low k q (f / 2) (omega (arith, pow-suc 2 k)),
)

-- The second number fits below the lowest bit of the first, or the first below that of the second.
pub bit_or_above : (k a f : ℕ) → a ≡ a / 2 ^ k * 2 ^ k → f < 2 ^ k → bit_or a f ≡ a + f
bit_or_above k a f e h = ap (λ (t : ℕ). bit_or t f) e ∙ or_shifted k (a / 2 ^ k) f h ∙ omega arith

pub bit_or_below : (k f a : ℕ) → a ≡ a / 2 ^ k * 2 ^ k → f < 2 ^ k → bit_or f a ≡ f + a
bit_or_below k f a e h = ap (λ (t : ℕ). bit_or f t) e ∙ or_low k (a / 2 ^ k) f h ∙ omega arith
