-- ===== src/Common/Bits.antt =====
-- The bit operations that the source uses, as arithmetic: masks, disjoint fields, a shifted byte.
use Prim.Native.Nat.{
  ℕ, zero, suc, ◌+◌, ◌*◌, ◌/◌, ◌%◌, ◌^◌, ◌≤◌, ◌<◌, min, max, digits, bit_and, bit_or, bit_xor,
  bit_and-bitwise, bit_or-bitwise, bit_xor-bitwise, differ,
}
use mathlib.Core.Path.{◌≡◌, refl, ap}
use native.Mathlib.Omega.{arith}
use native.Mathlib.Nat.{pow-suc}

-- The digit recursion does not depend on its fuel, once that covers the first number.
module _ (rest : ℕ → ℕ) (op : ℕ → ℕ → ℕ) where
  digits_any : (n m a b : ℕ) → a ≤ n → a ≤ m → digits rest op n a b ≡ digits rest op m a b
  digits_any zero zero zero b h k = refl
  digits_any zero (suc m) zero b h k = refl
  digits_any (suc n) zero zero b h k = refl
  digits_any (suc n) (suc m) zero b h k = refl
  digits_any zero m (suc a) b h k = absurd (omega arith)
  digits_any (suc n) zero (suc a) b h k = absurd (omega arith)
  digits_any (suc n) (suc m) (suc a) b h k =
      ap (λ (t : ℕ). t * 2 + op (suc a % 2) (b % 2))
        (digits_any n m (suc a / 2) (b / 2) (omega arith) (omega arith))

pub bit_or_digit : (a b : ℕ) → bit_or a b ≡ bit_or (a / 2) (b / 2) * 2 + max (a % 2) (b % 2)
bit_or_digit zero b = omega (arith, bit_or-bitwise 0 b, bit_or-bitwise 0 (b / 2))
bit_or_digit (suc a) b = omega (
  arith,
  bit_or-bitwise (suc a) b,
  bit_or-bitwise (suc a / 2) (b / 2),
  digits_any (λ y. y) max a (suc a / 2) (suc a / 2) (b / 2) (omega arith) (omega arith),
)

pub bit_and_digit : (a b : ℕ) → bit_and a b ≡ bit_and (a / 2) (b / 2) * 2 + min (a % 2) (b % 2)
bit_and_digit zero b = omega (arith, bit_and-bitwise 0 b, bit_and-bitwise 0 (b / 2))
bit_and_digit (suc a) b = omega (
  arith,
  bit_and-bitwise (suc a) b,
  bit_and-bitwise (suc a / 2) (b / 2),
  digits_any (λ y. 0) min a (suc a / 2) (suc a / 2) (b / 2) (omega arith) (omega arith),
)

zero_or : (b : ℕ) → bit_or 0 b ≡ b
zero_or b = omega (arith, bit_or-bitwise 0 b)

pub or_zero_upto : (n a : ℕ) → a ≤ n → bit_or a 0 ≡ a
or_zero_upto n zero h = refl
or_zero_upto zero (suc a) h = absurd (omega arith)
or_zero_upto (suc n) (suc a) h =
    omega (arith, bit_or_digit (suc a) 0, or_zero_upto n (suc a / 2) (omega arith))

pub and_zero_upto : (n a : ℕ) → a ≤ n → bit_and a 0 ≡ 0
and_zero_upto n zero h = refl
and_zero_upto zero (suc a) h = absurd (omega arith)
and_zero_upto (suc n) (suc a) h =
    omega (arith, bit_and_digit (suc a) 0, and_zero_upto n (suc a / 2) (omega arith))

-- `x | (y << k)` is a sum where `x` has `k` bits.
pub or_shifted : (k x y : ℕ) → x < 2 ^ k → bit_or x (y * 2 ^ k) ≡ x + y * 2 ^ k
or_shifted zero x y h = ground (arith, zero_or (y * 2 ^ 0))
or_shifted (suc k) x y h = omega (
  arith,
  bit_or_digit x (y * 2 ^ suc k),
  ap (λ (t : ℕ). y * t) (pow-suc 2 k),
  pow-suc 2 k,
  half_shift,
  or_shifted k (x / 2) y (omega (arith, pow-suc 2 k)),
)
  where
    double : y * 2 ^ suc k ≡ 2 * (y * 2 ^ k)
    double = omega (arith, ap (λ (t : ℕ). y * t) (pow-suc 2 k))

    half : y * 2 ^ suc k / 2 ≡ y * 2 ^ k
    half = omega (arith, double)

    half_shift : bit_or (x / 2) (y * 2 ^ suc k / 2) ≡ bit_or (x / 2) (y * 2 ^ k)
    half_shift = ap (λ (t : ℕ). bit_or (x / 2) t) half

and_one : (a : ℕ) → bit_and a 1 ≡ a % 2
and_one a = omega (arith, bit_and_digit a 1, and_zero_upto (a / 2) (a / 2) (omega arith))

and_7 : (a : ℕ) → bit_and a 7 ≡ a % 8
and_7 a = omega (arith, bit_and_digit a 7, bit_and_digit (a / 2) 3, and_one (a / 2 / 2))

-- `v & 1` and `v & 0x7f`, at every width.
pub and_bit : (a : ℕ) → bit_and a 1 ≡ a % 2
and_bit a = and_one a

pub and_0x7f : (a : ℕ) → bit_and a 0x7f ≡ a % 128
and_0x7f a = omega (
  arith,
  bit_and_digit a 0x7f,
  bit_and_digit (a / 2) 0x3f,
  bit_and_digit (a / 2 / 2) 0x1f,
  bit_and_digit (a / 2 / 2 / 2) 0xf,
  and_7 (a / 2 / 2 / 2 / 2),
)

-- `g | 0x80` on a group of seven bits.
pub or_0x80 : (g : ℕ) → g < 128 → bit_or g 0x80 ≡ g + 128
or_0x80 g h = or_shifted 7 g 1 h

differ-zero : (a : ℕ) → differ a 0 ≡ a
differ-zero zero = refl
differ-zero (suc a) = refl

bit_xor_digit :
    (a b : ℕ) → bit_xor (suc a) b ≡ bit_xor (suc a / 2) (b / 2) * 2 + differ (suc a % 2) (b % 2)
bit_xor_digit a b = omega (
  arith,
  bit_xor-bitwise (suc a) b,
  bit_xor-bitwise (suc a / 2) (b / 2),
  digits_any (λ y. y) differ a (suc a / 2) (suc a / 2) (b / 2) (omega arith) (omega arith),
)

xor_zero_upto : (n a : ℕ) → a ≤ n → bit_xor a 0 ≡ a
xor_zero_upto n zero h = refl
xor_zero_upto zero (suc a) h = absurd (omega arith)
xor_zero_upto (suc n) (suc a) h =
    omega
      (arith, bit_xor_digit a 0, differ-zero (suc a % 2), xor_zero_upto n (suc a / 2) (omega arith))

pub xor_zero : (a : ℕ) → bit_xor a 0 ≡ a
xor_zero a = xor_zero_upto a a (omega arith)
