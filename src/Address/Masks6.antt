-- ===== src/Address/Masks6.antt =====
-- skt/address/address.cpp: the subnet masks of IPv6Address, bit by bit.
use native.Mathlib.Nat.{zero-div}
use learn_web.Common.{
  ℕ, zero, suc, ◌-◌, ◌/◌, ◌%◌, ◌^◌, ◌<◌, ◌≡◌, refl, ap, arith, Bool, true, false, ◌&&◌, ◌||◌,
  if◌then◌else◌, ltb, leb, ◌==◌, Bool-cases, inl, inr,
}
use learn_web.Common.Outcome.{◌>>=◌, ok, err, out_of_range}
use learn_web.Address.Defs.{create_mask, subnet_mask6}

-- Bit `k` of the sixteen bytes, counted from the front.
abbrev pub bit_of : (ℕ → ℕ) → ℕ → ℕ
bit_of bytes k = bytes (k / 8) / 2 ^ (7 - k % 8) % 2

-- A test that holds below a bound.
holds_below : ℕ → (ℕ → Bool) → Bool
holds_below zero f = true
holds_below (suc n) f = f n && holds_below n f

holds-at : (n k : ℕ) (f : ℕ → Bool) → holds_below n f ≡ true → k < n → f k ≡ true
unfolding holds_below
holds-at zero k f h l = absurd (omega (arith, l))
holds-at (suc n) k f h l = elim (Bool-cases (k == n)) [
  | inl e ↦ let z : k ≡ n = ground (arith, e) in rw z (ground (arith, h))
  | inr e ↦ holds-at n k f (ground (arith, h)) (ground (arith, e, l))
]

abbrev right_bit : ℕ → ℕ → Bool
right_bit r s = (255 - (2 ^ (8 - r) - 1) % 2 ^ 8) / 2 ^ (7 - s) % 2 == (if ltb s r then 1 else 0)

all_right : holds_below 8 (λ r. holds_below 8 (right_bit r)) ≡ true
unfolding holds_below
all_right = refl

mask_bit :
    (r s : ℕ)
    → r < 8
    → s < 8
    → (255 - (2 ^ (8 - r) - 1) % 2 ^ 8) / 2 ^ (7 - s) % 2 ≡ (if ltb s r then 1 else 0)
mask_bit r s h k =
    let e : right_bit r s ≡ true =
      holds-at 8 s (right_bit r) (holds-at 8 r (λ t. holds_below 8 (right_bit t)) all_right h) k in
    ground (arith, e)

ones_bit : (s : ℕ) → s < 8 → 255 / 2 ^ (7 - s) % 2 ≡ 1
unfolding holds_below
ones_bit s k =
    let e : (255 / 2 ^ (7 - s) % 2 == 1) ≡ true =
      holds-at 8 s (λ t. 255 / 2 ^ (7 - t) % 2 == 1) refl k in
    ground (arith, e)

mask_bytes : ℕ → ℕ → ℕ → ℕ
mask_bytes j b i = if ltb i j then 255 else if i == j then b else 0

mask_bytes_bit :
    (p k : ℕ)
    → bit_of (mask_bytes (p / 8) (255 - (2 ^ (8 - p % 8) - 1) % 2 ^ 8)) k
      ≡ (if ltb k p then 1 else 0)
unfolding mask_bytes
mask_bytes_bit p k = elim (Bool-cases (ltb (k / 8) (p / 8))) [
  | inl e ↦
      let below : ltb k p ≡ true = ground (arith, e) in
      rw (e, below) (ones_bit (k % 8) (omega arith))
  | inr e ↦ elim (Bool-cases (k / 8 == p / 8)) [
    | inl f ↦
        let same : ltb k p ≡ ltb (k % 8) (p % 8) = ground (arith, f) in
        rw (e, f, same) (mask_bit (p % 8) (k % 8) (omega arith) (omega arith))
    | inr f ↦
        let above : ltb k p ≡ false = ground (arith, e, f) in
        let nothing : 0 / 2 ^ (7 - k % 8) ≡ 0 = zero-div (2 ^ (7 - k % 8)) in
        rw (e, f, above, nothing) refl
  ]
]

create_mask8 : (r : ℕ) → r < 8 → create_mask 8 r ≡ ok ((2 ^ (8 - r) - 1) % 2 ^ 8)
unfolding create_mask
create_mask8 r h = let t : (ltb 8 r || leb 31 (8 - r)) ≡ false = ground (arith, h) in rw t refl

-- For a prefix of less than 128 bits, IPv6Address::subnetMask gives the address whose bit `k` is one
-- just for the `k` below the prefix length. A prefix of 128 bits, which is a single host, and a
-- longer one make it write behind the sixteen bytes.
pub subnet_mask6_lem :
    (p k : ℕ)
    → (subnet_mask6 p >>= λ m. ok (bit_of m.s6_addr k))
      ≡ (if ltb p 128 then ok (if ltb k p then 1 else 0) else err out_of_range)
unfolding subnet_mask6 mask_bytes
subnet_mask6_lem p k = elim (Bool-cases (ltb p 128)) [
  | inr e ↦ let t : leb 16 (p / 8) ≡ true = ground (arith, e) in rw (e, t) refl
  | inl e ↦
      let t : leb 16 (p / 8) ≡ false = ground (arith, e) in
      rw (e, t, create_mask8 (p % 8) (omega arith)) (ap ok (mask_bytes_bit p k))
]
