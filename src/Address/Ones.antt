-- ===== src/Address/Ones.antt =====
-- skt/address/address.cpp: CountBytes, which counts the one bits of a word.
use native.Mathlib.Nat.{pow-suc}
use learn_web.Common.{
  ℕ, zero, suc, ◌+◌, ◌-◌, ◌*◌, ◌/◌, ◌%◌, ◌^◌, ◌≤◌, ◌<◌, ◌≡◌, refl, ap, ◌∙◌, arith, bit_and, ◌==◌,
  Bool-cases, inl, inr,
}
use learn_web.Common.Bits.{bit_and_digit}
use learn_web.Common.Outcome.{ok}
use learn_web.Address.Defs.{count_bytes}

-- The sum of the low `n` bits.
abbrev pub ones : ℕ → ℕ → ℕ
ones zero v = 0
ones (suc n) v = v % 2 + ones n (v / 2)

and_self_upto : (n a : ℕ) → a ≤ n → bit_and a a ≡ a
and_self_upto n zero h = refl
and_self_upto zero (suc a) h = absurd (omega arith)
and_self_upto (suc n) (suc a) h =
    omega (arith, bit_and_digit (suc a) (suc a), and_self_upto n (suc a / 2) (omega (arith, h)))

-- `v & (v - 1)` is `v` without its lowest one bit.
drop_lowest :
    (n v : ℕ)
    → 1 ≤ v
    → v < 2 ^ n
    → (ones n (bit_and v (v - 1)) + 1 ≡ ones n v) × (bit_and v (v - 1) < v)
drop_lowest zero v h k = absurd (omega arith)
drop_lowest (suc n) v h k = elim (Bool-cases (v % 2 == 0)) [
  | inr e ↦
      let odd : v % 2 ≡ 1 = ground (arith, e) in
      let half : (v - 1) / 2 ≡ v / 2 = omega (arith, odd) in
      let same : bit_and (v / 2) ((v - 1) / 2) ≡ v / 2 =
        rw half (and_self_upto (v / 2) (v / 2) (omega arith)) in
      let w : bit_and v (v - 1) ≡ v - 1 = omega (arith, bit_and_digit v (v - 1), same, odd) in
      let low : (v - 1) % 2 ≡ 0 = omega (arith, odd) in
      (rw (w, half, low, odd) (omega arith), omega (arith, w, h))
  | inl e ↦
      let even : v % 2 ≡ 0 = ground (arith, e) in
      let half : (v - 1) / 2 ≡ v / 2 - 1 = omega (arith, even, h) in
      let (fewer, less) =
        drop_lowest n (v / 2) (omega (arith, even, h)) (omega (arith, k, pow-suc 2 n)) in
      let w : bit_and v (v - 1) ≡ bit_and (v / 2) (v / 2 - 1) * 2 =
        omega (arith, bit_and_digit v (v - 1), ap (λ (t : ℕ). bit_and (v / 2) t) half, even) in
      let low : bit_and (v / 2) (v / 2 - 1) * 2 % 2 ≡ 0 = omega arith in
      let back : bit_and (v / 2) (v / 2 - 1) * 2 / 2 ≡ bit_and (v / 2) (v / 2 - 1) = omega arith in
      (rw (w, low, back, even) (omega (arith, fewer)), omega (arith, w, less, even))
]

ones_zero : (n : ℕ) → ones n 0 ≡ 0
ones_zero zero = refl
ones_zero (suc n) = omega (arith, ones_zero n)

-- CountBytes ends, on a word of `n` bits in `n + 1` rounds at most, with the number of the bits that
-- are one, added to what it started from.
pub count_bytes_lem :
    (n fuel v res : ℕ) → v < 2 ^ n → ones n v < fuel → count_bytes fuel v res ≡ ok (res + ones n v)
unfolding count_bytes
count_bytes_lem n zero v res h k = absurd (omega (arith, k))
count_bytes_lem n (suc fuel) v res h k = elim (Bool-cases (v == 0)) [
  | inl e ↦
      let z : v ≡ 0 = ground (arith, e) in
      let none_left : ones n v ≡ 0 = rw z (ones_zero n) in rw e (ap ok (omega (arith, none_left)))
  | inr e ↦
      let (fewer, less) = drop_lowest n v (ground (arith, e)) h in
      rw e (
        count_bytes_lem n fuel (bit_and v (v - 1)) (res + 1) (omega (arith, less, h))
          (omega (arith, fewer, k))
        ∙ ap ok (omega (arith, fewer)))
]

pub ones-le : (n v : ℕ) → ones n v ≤ n
ones-le zero v = omega arith
ones-le (suc n) v = omega (arith, ones-le n (v / 2))
