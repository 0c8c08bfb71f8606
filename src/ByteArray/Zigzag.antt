-- ===== src/ByteArray/Zigzag.antt =====
-- skt/bytearray/bytearray.cpp: EncodeZigzag32 to DecodeZigzag64, writeInt32 to readInt64.
use learn_web.Common.{ℕ, ◌*◌, ◌/◌, ◌%◌, ◌^◌, ◌<◌, ◌≡◌, ap, ◌∙◌, arith, bit_and}
use learn_web.Common.Bits.{and_bit, xor_zero}
use learn_web.Common.Outcome.{ok, ◌>>=◌, then_ok}
use learn_web.Endian.{ByteOrder}
use learn_web.ByteArray.Defs.{ByteArray, set_position}
use learn_web.ByteArray.Invariant.{IsValid}
use learn_web.ByteArray.Codec.{
  write_uint32, write_uint64, read_uint32, read_uint64, encode_zigzag32, decode_zigzag32,
  encode_zigzag64, decode_zigzag64, write_int32, read_int32, write_int64, read_int64,
}
use learn_web.ByteArray.Varint.{read_uint32-write_uint32, read_uint64-write_uint64}

-- Zigzag of an unsigned argument drops the top bit: a negative int32 comes back as the pattern of
-- a nonnegative one.
pub decode-encode_zigzag32 : (v : ℕ) → v < 2 ^ 32 → decode_zigzag32 (encode_zigzag32 v) ≡ v % 2 ^ 31
unfolding decode_zigzag32 encode_zigzag32
decode-encode_zigzag32 v h =
    let even : bit_and (v * 2 % 2 ^ 32) 1 ≡ 0 = omega (arith, and_bit (v * 2 % 2 ^ 32)) in
    ground (arith, even, xor_zero (v * 2 % 2 ^ 32 / 2))

pub decode-encode_zigzag64 : (v : ℕ) → v < 2 ^ 64 → decode_zigzag64 (encode_zigzag64 v) ≡ v % 2 ^ 63
unfolding decode_zigzag64 encode_zigzag64
decode-encode_zigzag64 v h =
    let even : bit_and (v * 2 % 2 ^ 64) 1 ≡ 0 = omega (arith, and_bit (v * 2 % 2 ^ 64)) in
    ground (arith, even, xor_zero (v * 2 % 2 ^ 64 / 2))

encode_zigzag32-lt : (v : ℕ) → encode_zigzag32 v < 2 ^ 32
unfolding encode_zigzag32
encode_zigzag32-lt v = ground arith

encode_zigzag64-lt : (v : ℕ) → encode_zigzag64 v < 2 ^ 64
unfolding encode_zigzag64
encode_zigzag64-lt v = ground arith

module _ (host : ByteOrder) where
  -- An int32 comes back from readInt32 without its sign bit: those that are not negative come back
  -- as they are, and the others as other numbers.
  pub read_int32-write_int32 :
      (v : ℕ) (s : ByteArray)
      → IsValid s
      → v < 2 ^ 32
      → (x : ByteArray) × ((do
        t ← write_int32 v s
        u ← set_position s.position t
        read_int32 host u)
          ≡ ok (v % 2 ^ 31, x))
        × IsValid x
  unfolding read_int32 write_int32
  read_int32-write_int32 v s valid h =
      let z = encode_zigzag32 v in
      let (x, run, valid_x) = read_uint32-write_uint32 host z s valid (encode_zigzag32-lt v) in
      (
        x,
        then_ok (write_uint32 z s) (set_position s.position) (read_uint32 host)
              (λ r. ok (decode_zigzag32 r.0, r.1)) (z, x) run
            ∙ ap (λ (y : ℕ). ok (y, x)) (decode-encode_zigzag32 v h),
        valid_x,
      )

  pub read_int64-write_int64 :
      (v : ℕ) (s : ByteArray)
      → IsValid s
      → v < 2 ^ 64
      → (x : ByteArray) × ((do
        t ← write_int64 v s
        u ← set_position s.position t
        read_int64 host u)
          ≡ ok (v % 2 ^ 63, x))
        × IsValid x
  unfolding read_int64 write_int64
  read_int64-write_int64 v s valid h =
      let z = encode_zigzag64 v in
      let (x, run, valid_x) = read_uint64-write_uint64 host z s valid (encode_zigzag64-lt v) in
      (
        x,
        then_ok (write_uint64 z s) (set_position s.position) (read_uint64 host)
              (λ r. ok (decode_zigzag64 r.0, r.1)) (z, x) run
            ∙ ap (λ (y : ℕ). ok (y, x)) (decode-encode_zigzag64 v h),
        valid_x,
      )
