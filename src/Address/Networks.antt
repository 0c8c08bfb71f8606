-- ===== src/Address/Networks.antt =====
-- skt/address/address.cpp: the addresses that IPv4Address derives from a prefix length.
use native.Mathlib.Nat.{pow-suc}
use learn_web.Common.{
  ℕ, zero, suc, ◌+◌, ◌-◌, ◌*◌, ◌%◌, ◌^◌, ◌≤◌, ◌<◌, ◌≡◌, refl, sym, ap, ◌∙◌, arith, true, false,
  ◌||◌, some, bit_and, bit_or, ◌&&◌, if◌then◌else◌, ltb, leb, Bool-cases, inl, inr,
}
use learn_web.Common.Outcome.{ok, err, out_of_range}
use learn_web.Endian.{
  ByteOrder, big, little, byteswap, byteswap_on_little_endian, byteswap-byteswap, word_of,
}
use learn_web.Address.Masks.{byteswap-bit_or, byteswap-bit_and, and_mask, or_mask}
use learn_web.Address.Defs.{
  IPv4Address, create_mask, ipv4_address, broadcast_address, network_address, subnet_mask, get_port,
  set_port,
}

pow_pos : (k : ℕ) → 1 ≤ 2 ^ k
pow_pos zero = omega arith
pow_pos (suc k) = omega (arith, pow-suc 2 k, pow_pos k)

pow_below : (k d : ℕ) → 2 ^ k ≤ 2 ^ (k + d)
pow_below k zero = let e : k + 0 ≡ k = omega arith in rw e (omega arith)
pow_below k (suc d) =
    let e : k + suc d ≡ suc (k + d) = omega arith in
    rw e (omega (arith, pow-suc 2 (k + d), pow_below k d))

mask_below : (p : ℕ) → p ≤ 32 → 2 ^ (32 - p) - 1 < 2 ^ 32
mask_below p k =
    let b : 2 ^ (32 - p) ≤ 2 ^ (32 - p + p) = pow_below (32 - p) p in
    let e : 32 - p + p ≡ 32 = omega (arith, k) in
    omega (arith, b, ap (λ (n : ℕ). 2 ^ n) e, pow_pos (32 - p))

-- The mask of the host's bits.
create_mask_lem : (p : ℕ) → 2 ≤ p → p ≤ 32 → create_mask 32 p ≡ ok (2 ^ (32 - p) - 1)
unfolding create_mask
create_mask_lem p h k =
    let t : (ltb 32 p || leb 31 (32 - p)) ≡ false = ground (arith, h, k) in
    let m : (2 ^ (32 - p) - 1) % 2 ^ 32 ≡ 2 ^ (32 - p) - 1 = omega (arith, mask_below p k) in
    rw (t, m) refl

swap-bit_or :
    (order : ByteOrder) (a b : ℕ)
    → byteswap_on_little_endian order 4 (bit_or a b)
      ≡ bit_or (byteswap_on_little_endian order 4 a) (byteswap_on_little_endian order 4 b)
unfolding byteswap_on_little_endian
swap-bit_or big a b = refl
swap-bit_or little a b = byteswap-bit_or 4 a b

swap-bit_and :
    (order : ByteOrder) (a b : ℕ)
    → byteswap_on_little_endian order 4 (bit_and a b)
      ≡ bit_and (byteswap_on_little_endian order 4 a) (byteswap_on_little_endian order 4 b)
unfolding byteswap_on_little_endian
swap-bit_and big a b = refl
swap-bit_and little a b = byteswap-bit_and 4 a b

complement : (v : ℕ) → v < 2 ^ 32 → byteswap 4 (2 ^ 32 - 1 - v) ≡ 2 ^ 32 - 1 - byteswap 4 v
unfolding byteswap word_of
complement v h = omega (arith, h)

swap-complement :
    (order : ByteOrder) (v : ℕ)
    → v < 2 ^ 32
    → byteswap_on_little_endian order 4 (2 ^ 32 - 1 - v)
      ≡ 2 ^ 32 - 1 - byteswap_on_little_endian order 4 v
unfolding byteswap_on_little_endian
swap-complement big v h = refl
swap-complement little v h = complement v h

-- For a prefix of two bits at least, broadcastAddress sets all bits of the host's part of an address,
-- `x`, and leaves the network's part, `y`, and the port as they are. The host's byte order does not
-- matter.
pub broadcast_address_lem :
    (order : ByteOrder) (p x y port : ℕ)
    → 2 ≤ p
    → p ≤ 32
    → x < 2 ^ (32 - p)
    → broadcast_address order p (ipv4_address order (x + y * 2 ^ (32 - p)) port)
      ≡ ok (some (ipv4_address order (2 ^ (32 - p) - 1 + y * 2 ^ (32 - p)) port))
unfolding broadcast_address ipv4_address
broadcast_address_lem order p x y port h k f =
    let t : ltb 32 p ≡ false = ground (arith, k) in
    let e : bit_or (byteswap_on_little_endian order 4 (x + y * 2 ^ (32 - p)))
          (byteswap_on_little_endian order 4 (2 ^ (32 - p) - 1))
        ≡ byteswap_on_little_endian order 4 (2 ^ (32 - p) - 1 + y * 2 ^ (32 - p)) =
      sym (swap-bit_or order (x + y * 2 ^ (32 - p)) (2 ^ (32 - p) - 1))
      ∙ ap (byteswap_on_little_endian order 4) (or_mask (32 - p) x y f) in
    rw (t, create_mask_lem p h k, e) refl

-- For a prefix of two bits at least, networkAddress keeps the host's part of an address, `x`, and
-- clears the network's part, `y`, where the network's part is meant to be kept.
pub network_address_lem :
    (order : ByteOrder) (p x y port : ℕ)
    → 2 ≤ p
    → p ≤ 32
    → x < 2 ^ (32 - p)
    → network_address order p (ipv4_address order (x + y * 2 ^ (32 - p)) port)
      ≡ ok (some (ipv4_address order x port))
unfolding network_address ipv4_address
network_address_lem order p x y port h k f =
    let t : ltb 32 p ≡ false = ground (arith, k) in
    let e : bit_and (byteswap_on_little_endian order 4 (x + y * 2 ^ (32 - p)))
          (byteswap_on_little_endian order 4 (2 ^ (32 - p) - 1))
        ≡ byteswap_on_little_endian order 4 x =
      sym (swap-bit_and order (x + y * 2 ^ (32 - p)) (2 ^ (32 - p) - 1))
      ∙ ap (byteswap_on_little_endian order 4) (and_mask (32 - p) x y f) in
    rw (t, create_mask_lem p h k, e) refl

create_mask_undefined :
    (p : ℕ) → (leb 2 p && leb p 32) ≡ false → create_mask 32 p ≡ err out_of_range
unfolding create_mask
create_mask_undefined p e =
    let t : (ltb 32 p || leb 31 (32 - p)) ≡ true = ground (arith, e) in rw t refl

no_port : (order : ByteOrder) → byteswap_on_little_endian order 2 0 ≡ 0
unfolding byteswap_on_little_endian byteswap word_of
no_port big = refl
no_port little = refl

-- The subnet mask of a prefix of two bits at least is the address of as many one bits, followed by
-- zeros. For a shorter prefix, and for one that is too long, subnetMask is undefined: the shift or
-- the subtraction of CreateMask is.
pub subnet_mask_lem :
    (order : ByteOrder) (p : ℕ)
    → subnet_mask order p ≡ (
        if leb 2 p && leb p 32
        then ok (ipv4_address order (2 ^ 32 - 2 ^ (32 - p)) 0)
        else err out_of_range)
unfolding subnet_mask ipv4_address
subnet_mask_lem order p = elim (Bool-cases (leb 2 p && leb p 32)) [
  | inl e ↦
      let h : 2 ≤ p = ground (arith, e) in
      let k : p ≤ 32 = ground (arith, e) in
      let n : ℕ = 2 ^ (32 - p) - 1 in
      let below : n < 2 ^ 32 = mask_below p k in
      let v : 2 ^ 32 - 1 - byteswap_on_little_endian order 4 n
          ≡ byteswap_on_little_endian order 4 (2 ^ 32 - 2 ^ (32 - p)) =
        sym (swap-complement order n below)
        ∙ ap (byteswap_on_little_endian order 4) (omega (arith, below, pow_pos (32 - p))) in
      rw (e, create_mask_lem p h k, v, no_port order) refl
  | inr e ↦ rw (e, create_mask_undefined p e) refl
]

-- The port that setPort gives is the one that getPort answers, and the rest of the address stays.
pub get_port-set_port :
    (order : ByteOrder) (v : ℕ) (a : IPv4Address)
    → v < 2 ^ 16
    → (get_port order (set_port order v a) ≡ v) × ((set_port order v a).s_addr ≡ a.s_addr)
unfolding get_port set_port byteswap_on_little_endian
get_port-set_port big v a h = (refl, refl)
get_port-set_port little v a h = (byteswap-byteswap 2 v h, refl)
