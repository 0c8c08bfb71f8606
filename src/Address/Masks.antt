-- ===== src/Address/Masks.antt =====
-- skt/address/address.cpp: `|` and `&` of a word and a mask of its low bits, in either byte order.
use native.Mathlib.Nat.{pow-suc}
use learn_web.Common.{
  ℕ, zero, suc, ◌+◌, ◌-◌, ◌*◌, ◌/◌, ◌%◌, ◌^◌, ◌<◌, ◌≡◌, refl, ap, arith, bit_and, bit_or,
}
use learn_web.Common.Bits.{bit_and_digit, bit_or_digit, or_zero_upto, and_zero_upto}
use learn_web.Endian.{byteswap}
use learn_web.Address.Bits.{Splits, Splits-byte, byteswap-op}

or_two : Splits bit_or 2
or_two = record {
  apart = λ a b.
      let e : a % 2 / 2 ≡ 0 = omega arith in
      let f : b % 2 / 2 ≡ 0 = omega arith in
      let g : bit_or (a % 2 / 2) (b % 2 / 2) ≡ 0 = rw (e, f) refl in
      omega (arith, bit_or_digit a b, bit_or_digit (a % 2) (b % 2), g);
  below = λ a b h k.
      let e : a / 2 ≡ 0 = omega (arith, h) in
      let f : b / 2 ≡ 0 = omega (arith, k) in
      let g : bit_or (a / 2) (b / 2) ≡ 0 = rw (e, f) refl in omega (arith, bit_or_digit a b, g);
}

and_two : Splits bit_and 2
and_two = record {
  apart = λ a b.
      let e : a % 2 / 2 ≡ 0 = omega arith in
      let f : b % 2 / 2 ≡ 0 = omega arith in
      let g : bit_and (a % 2 / 2) (b % 2 / 2) ≡ 0 = rw (e, f) refl in
      omega (arith, bit_and_digit a b, bit_and_digit (a % 2) (b % 2), g);
  below = λ a b h k.
      let e : a / 2 ≡ 0 = omega (arith, h) in
      let f : b / 2 ≡ 0 = omega (arith, k) in
      let g : bit_and (a / 2) (b / 2) ≡ 0 = rw (e, f) refl in omega (arith, bit_and_digit a b, g);
}

pub byteswap-bit_or : (n a b : ℕ) → byteswap n (bit_or a b) ≡ bit_or (byteswap n a) (byteswap n b)
byteswap-bit_or n a b = byteswap-op bit_or (Splits-byte bit_or or_two) n a b refl

pub byteswap-bit_and :
    (n a b : ℕ) → byteswap n (bit_and a b) ≡ bit_and (byteswap n a) (byteswap n b)
byteswap-bit_and n a b = byteswap-op bit_and (Splits-byte bit_and and_two) n a b refl

module _ (k x y : ℕ) (h : x < 2 ^ suc k) where
  -- The halves of `x + y * 2 ^ (k + 1)` and of its mask.
  half_word : (x + y * 2 ^ suc k) / 2 ≡ x / 2 + y * 2 ^ k
  half_word = omega (arith, ap (λ (t : ℕ). y * t) (pow-suc 2 k))

  low_word : (x + y * 2 ^ suc k) % 2 ≡ x % 2
  low_word = omega (arith, ap (λ (t : ℕ). y * t) (pow-suc 2 k))

  half_mask : (2 ^ suc k - 1) / 2 ≡ 2 ^ k - 1
  half_mask = omega (arith, pow-suc 2 k)

  low_mask : (2 ^ suc k - 1) % 2 ≡ 1
  low_mask = omega (arith, pow-suc 2 k, h)

  half_fits : x / 2 < 2 ^ k
  half_fits = omega (arith, pow-suc 2 k, h)

-- The mask keeps the low bits.
pub and_mask : (k x y : ℕ) → x < 2 ^ k → bit_and (x + y * 2 ^ k) (2 ^ k - 1) ≡ x
and_mask zero x y h = omega (arith, and_zero_upto (x + y * 2 ^ 0) (x + y * 2 ^ 0) (omega arith), h)
and_mask (suc k) x y h =
    let halves : bit_and ((x + y * 2 ^ suc k) / 2) ((2 ^ suc k - 1) / 2) ≡ x / 2 =
      rw (half_word k x y h, half_mask k x y h) (and_mask k (x / 2) y (half_fits k x y h)) in
    omega (
      arith,
      bit_and_digit (x + y * 2 ^ suc k) (2 ^ suc k - 1),
      halves,
      low_word k x y h,
      low_mask k x y h,
    )

-- The mask sets them.
pub or_mask : (k x y : ℕ) → x < 2 ^ k → bit_or (x + y * 2 ^ k) (2 ^ k - 1) ≡ 2 ^ k - 1 + y * 2 ^ k
or_mask zero x y h = omega (arith, or_zero_upto (x + y * 2 ^ 0) (x + y * 2 ^ 0) (omega arith), h)
or_mask (suc k) x y h =
    let halves : bit_or ((x + y * 2 ^ suc k) / 2) ((2 ^ suc k - 1) / 2) ≡ 2 ^ k - 1 + y * 2 ^ k =
      rw (half_word k x y h, half_mask k x y h) (or_mask k (x / 2) y (half_fits k x y h)) in
    omega (
      arith,
      bit_or_digit (x + y * 2 ^ suc k) (2 ^ suc k - 1),
      halves,
      low_word k x y h,
      low_mask k x y h,
      ap (λ (t : ℕ). y * t) (pow-suc 2 k),
      pow-suc 2 k,
      h,
    )
