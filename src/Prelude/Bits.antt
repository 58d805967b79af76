-- ===== src/Prelude/Bits.antt =====
-- `&` with a low mask and `|` of disjoint fields, as arithmetic.
use Prim.Native.Nat.{
  ℕ, zero, suc, ◌+◌, ◌*◌, ◌/◌, ◌%◌, ◌^◌, ◌≤◌, ◌<◌, min, max, bit_and, bit_or, digits,
  bit_and-bitwise, bit_or-bitwise,
}
use mathlib.Core.Path.{◌≡◌, refl, ap}
use native.Mathlib.Nat.{pow-suc}
use native.Mathlib.Omega.{arith}

-- The native operations are digit recursions on fuel; any fuel that reaches the first number will do.
enough_digits :
    (z : ℕ → ℕ) (f : ℕ → ℕ → ℕ) (n m a b : ℕ) → a ≤ n → a ≤ m → digits z f n a b ≡ digits z f m a b
enough_digits z f zero zero a b hn hm = refl
enough_digits z f zero (suc m) zero b hn hm = refl
enough_digits z f zero (suc m) (suc a) b hn hm = absurd (omega arith)
enough_digits z f (suc n) zero zero b hn hm = refl
enough_digits z f (suc n) zero (suc a) b hn hm = absurd (omega arith)
enough_digits z f (suc n) (suc m) zero b hn hm = refl
enough_digits z f (suc n) (suc m) (suc a) b hn hm =
    omega (arith, enough_digits z f n m (suc a / 2) (b / 2) (omega arith) (omega arith))

pub zero-bit_or : (b : ℕ) → bit_or 0 b ≡ b
zero-bit_or b = bit_or-bitwise 0 b

zero-bit_and : (b : ℕ) → bit_and 0 b ≡ 0
zero-bit_and b = bit_and-bitwise 0 b

lowest_or : (a b : ℕ) → bit_or a b ≡ 2 * bit_or (a / 2) (b / 2) + max (a % 2) (b % 2)
lowest_or zero b = omega (arith, zero-bit_or b, zero-bit_or (b / 2))
lowest_or (suc a) b = omega (
  arith,
  bit_or-bitwise (suc a) b,
  bit_or-bitwise (suc a / 2) (b / 2),
  enough_digits (λ y. y) max a (suc a / 2) (suc a / 2) (b / 2) (omega arith) (omega arith),
)

lowest_and : (a b : ℕ) → bit_and a b ≡ 2 * bit_and (a / 2) (b / 2) + min (a % 2) (b % 2)
lowest_and zero b = omega (arith, zero-bit_and b, zero-bit_and (b / 2))
lowest_and (suc a) b = omega (
  arith,
  bit_and-bitwise (suc a) b,
  bit_and-bitwise (suc a / 2) (b / 2),
  enough_digits (λ y. 0) min a (suc a / 2) (suc a / 2) (b / 2) (omega arith) (omega arith),
)

or_zero_upto : (n a : ℕ) → a ≤ n → bit_or a 0 ≡ a
or_zero_upto n zero h = refl
or_zero_upto zero (suc a) h = absurd (omega arith)
or_zero_upto (suc n) (suc a) h =
    omega (arith, lowest_or (suc a) 0, or_zero_upto n (suc a / 2) (omega arith))

pub bit_or-zero : (a : ℕ) → bit_or a 0 ≡ a
bit_or-zero a = or_zero_upto a a (omega arith)

and_zero_upto : (n a : ℕ) → a ≤ n → bit_and a 0 ≡ 0
and_zero_upto n zero h = refl
and_zero_upto zero (suc a) h = absurd (omega arith)
and_zero_upto (suc n) (suc a) h =
    omega (arith, lowest_and (suc a) 0, and_zero_upto n (suc a / 2) (omega arith))

-- A field shifted over a narrower one: `(q << k) | r` is a sum.
pub bit_or_shifted : (k q r : ℕ) → r < 2 ^ k → bit_or (q * 2 ^ k) r ≡ q * 2 ^ k + r
bit_or_shifted zero q r h = ground (arith, bit_or-zero q)
bit_or_shifted (suc k) q r h = ground (
  arith,
  lowest_or (q * 2 ^ suc k) r,
  pow-suc 2 k,
  double,
  bit_or_shifted k q (r / 2) (omega (arith, pow-suc 2 k)),
)
  where
    double : q * 2 ^ suc k ≡ 2 * (q * 2 ^ k)
    double = omega (arith, ap (λ (t : ℕ). q * t) (pow-suc 2 k))

-- One more bit of a mask of ones.
mask_step : (a m : ℕ) → bit_and a (2 * m + 1) ≡ 2 * bit_and (a / 2) m + a % 2
mask_step a m = ground (arith, lowest_and a (2 * m + 1))

mask1 : (a : ℕ) → bit_and a 1 ≡ a % 2
mask1 a = omega (arith, mask_step a 0, and_zero_upto (a / 2) (a / 2) (omega arith))

pub bit_and_7 : (a : ℕ) → bit_and a 0x7 ≡ a % 8
bit_and_7 a = omega (arith, mask_step a 3, mask_step (a / 2) 1, mask1 (a / 2 / 2))

pub bit_and_15 : (a : ℕ) → bit_and a 0xF ≡ a % 16
bit_and_15 a = omega (arith, mask_step a 7, bit_and_7 (a / 2))

pub bit_and_31 : (a : ℕ) → bit_and a 0x1F ≡ a % 32
bit_and_31 a = omega (arith, mask_step a 15, bit_and_15 (a / 2))

pub bit_and_63 : (a : ℕ) → bit_and a 0x3F ≡ a % 64
bit_and_63 a = omega (arith, mask_step a 31, bit_and_31 (a / 2))

bit_and_255 : (a : ℕ) → bit_and a 0xFF ≡ a % 256
bit_and_255 a = omega (arith, mask_step a 127, mask_step (a / 2) 63, bit_and_63 (a / 2 / 2))

pub bit_and_1023 : (a : ℕ) → bit_and a 0x3FF ≡ a % 1024
bit_and_1023 a = omega (arith, mask_step a 511, mask_step (a / 2) 255, bit_and_255 (a / 2 / 2))
