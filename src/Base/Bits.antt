-- ===== src/Base/Bits.antt =====
-- The bits of a number, read and set by halving: `n & (1u << p)` and `n | (1u << p)`.
use Prim.Native.Nat.{ℕ, zero, suc, ◌+◌, ◌*◌, ◌/◌, ◌%◌, ◌^◌, ◌<◌}
use mathlib.Core.Path.{◌≡◌, refl}
use mathlib.Core.Logic.{◌≢◌}
use mathlib.Core.Bool.{Bool, true, false}
use native.Mathlib.Omega.{arith}
use native.Mathlib.Numerals.{unary_clauses}
use neka_kernel.Base.Tests.{◌==◌}

abbrev pub bit : ℕ → ℕ → Bool
bit n zero = n % 2 == 1
bit n (suc p) = bit (n / 2) p

abbrev pub set_bit : ℕ → ℕ → ℕ
set_bit n zero = n / 2 * 2 + 1
set_bit n (suc p) = set_bit (n / 2) p * 2 + n % 2

pub bit-set_bit : (n p : ℕ) → bit (set_bit n p) p ≡ true
bit-set_bit n zero = ground arith
bit-set_bit n (suc p) =
    let e : (set_bit (n / 2) p * 2 + n % 2) / 2 ≡ set_bit (n / 2) p = omega arith in
    rw e (bit-set_bit (n / 2) p)

pub bit-set_bit-other : (n p q : ℕ) → p ≢ q → bit (set_bit n p) q ≡ bit n q
bit-set_bit-other n zero zero h = absurd (h refl)
bit-set_bit-other n zero (suc q) h = let e : (n / 2 * 2 + 1) / 2 ≡ n / 2 = omega arith in rw e
bit-set_bit-other n (suc p) zero h =
    let e : (set_bit (n / 2) p * 2 + n % 2) % 2 ≡ n % 2 = omega arith in rw e
bit-set_bit-other n (suc p) (suc q) h =
    let e : (set_bit (n / 2) p * 2 + n % 2) / 2 ≡ set_bit (n / 2) p = omega arith in
    rw e (bit-set_bit-other (n / 2) p q (λ s. absurd (omega arith)))

-- A number below 2^n none of whose first n bits is set is 0.
pub zero_of_bits : (n b : ℕ) → b < 2 ^ n → ((p : ℕ) → p < n → bit b p ≡ false) → b ≡ 0
zero_of_bits zero b small none_set = omega arith
zero_of_bits (suc n) b small none_set =
    let double : 2 ^ suc n ≡ 2 ^ n * 2 = simp unary_clauses (omega arith) in
    let half : b / 2 ≡ 0 =
      zero_of_bits n (b / 2) (omega arith) (λ p l. none_set (suc p) (omega arith)) in
    ground (arith, none_set 0 (omega arith))

pub set_bit_small : (w n p : ℕ) → n < 2 ^ w → p < w → set_bit n p < 2 ^ w
set_bit_small zero n p small l = absurd (omega arith)
set_bit_small (suc w) n zero small l =
    let double : 2 ^ suc w ≡ 2 ^ w * 2 = simp unary_clauses (omega arith) in omega arith
set_bit_small (suc w) n (suc p) small l =
    let double : 2 ^ suc w ≡ 2 ^ w * 2 = simp unary_clauses (omega arith) in
    omega (arith, set_bit_small w (n / 2) p (omega arith) (omega arith))

pub bit_zero : (p : ℕ) → bit 0 p ≡ false
bit_zero zero = refl
bit_zero (suc p) = bit_zero p
