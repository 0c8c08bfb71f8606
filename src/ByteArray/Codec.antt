-- ===== src/ByteArray/Codec.antt =====
-- skt/bytearray/bytearray.cpp: the typed writes and reads. An integer is its bit pattern, signed or
-- not, and a float is the pattern of its 4 or 8 bytes. The byte order of the machine is `host`.
use learn_web.Common.{
  ℕ, zero, suc, ◌+◌, ◌-◌, ◌*◌, ◌/◌, ◌%◌, ◌^◌, bit_and, bit_or, bit_xor, true, false, List, [], ◌∷◌,
  length, get_or, tabulate, if◌then◌else◌, ltb, ◌==◌,
}
use learn_web.Common.Outcome.{Outcome, ok, err, out_of_fuel, ◌>>=◌}
use learn_web.Endian.{ByteOrder, same_order, byteswap, to_memory, from_memory}
use learn_web.ByteArray.Defs.{ByteArray, write, read, read_at, get_read_size}

-- The bytes of a std::string or an array, from its first one on.
abbrev pub bytes_of : List ℕ → ℕ → ℕ
bytes_of xs k = get_or xs k 0

-- EncodeZigzag32 and EncodeZigzag64. The argument is unsigned, so `v < 0` never holds.
unfoldable pub encode_zigzag32 : ℕ → ℕ
encode_zigzag32 v =
    if ltb v 0 then ((2 ^ 32 - v) % 2 ^ 32 * 2 + 2 ^ 32 - 1) % 2 ^ 32 else v * 2 % 2 ^ 32

unfoldable pub encode_zigzag64 : ℕ → ℕ
encode_zigzag64 v =
    if ltb v 0 then ((2 ^ 64 - v) % 2 ^ 64 * 2 + 2 ^ 64 - 1) % 2 ^ 64 else v * 2 % 2 ^ 64

-- DecodeZigzag32 and DecodeZigzag64: (v >> 1) ^ -(v & 1)
unfoldable pub decode_zigzag32 : ℕ → ℕ
decode_zigzag32 v = bit_xor (v / 2) ((2 ^ 32 - bit_and v 1) % 2 ^ 32)

unfoldable pub decode_zigzag64 : ℕ → ℕ
decode_zigzag64 v = bit_xor (v / 2) ((2 ^ 64 - bit_and v 1) % 2 ^ 64)

-- The loop of writeUint32 and writeUint64: what it puts into `tmp`, with at most `fuel` bytes.
unfoldable pub varint : ℕ → ℕ → Outcome (List ℕ)
varint zero value = err out_of_fuel
varint (suc fuel) value = elim (ltb value 0x80) [
  | true ↦ ok (value ∷ [])
  | false ↦ elim (varint fuel (value / 2 ^ 7)) [
    | ok rest ↦ ok (bit_or (bit_and value 0x7f) 0x80 ∷ rest)
    | err e ↦ err e
  ]
]

unfoldable pub write_bytes : List ℕ → ByteArray → Outcome ByteArray
write_bytes xs s = write (bytes_of xs) (length xs) s

-- `tmp` has room for 5 bytes in writeUint32 and for 10 in writeUint64.
unfoldable pub write_uint32 : ℕ → ByteArray → Outcome ByteArray
unfolding write_bytes
write_uint32 value s = do tmp ← varint 5 value; write_bytes tmp s

unfoldable pub write_uint64 : ℕ → ByteArray → Outcome ByteArray
unfolding write_bytes
write_uint64 value s = do tmp ← varint 10 value; write_bytes tmp s

unfoldable pub write_int32 : ℕ → ByteArray → Outcome ByteArray
write_int32 value s = write_uint32 (encode_zigzag32 value) s

unfoldable pub write_int64 : ℕ → ByteArray → Outcome ByteArray
write_int64 value s = write_uint64 (encode_zigzag64 value) s

unfoldable pub write_float : ℕ → ByteArray → Outcome ByteArray
write_float v s = write_uint32 v s

unfoldable pub write_double : ℕ → ByteArray → Outcome ByteArray
write_double v s = write_uint64 v s

unfoldable pub write_string_without_length : List ℕ → ByteArray → Outcome ByteArray
unfolding write_bytes
write_string_without_length value s = write_bytes value s

unfoldable pub write_string_vint : List ℕ → ByteArray → Outcome ByteArray
unfolding write_bytes
write_string_vint value s = do t ← write_uint64 (length value) s; write_bytes value t

-- `buff.resize(len)` and `read(&buff[0], len)`
unfoldable pub read_bytes : ℕ → ByteArray → Outcome (List ℕ × ByteArray)
read_bytes len s = do (out, t) ← read (λ _. 0) len s; ok (tabulate len out, t)

-- ByteArray::toString
unfoldable pub to_string : ByteArray → Outcome (List ℕ)
to_string s = if get_read_size s == 0 then ok [] else do
  out ← read_at (λ _. 0) (get_read_size s) s.position s
  ok (tabulate (get_read_size s) out)

module _ (host : ByteOrder) where
  -- `write(&value, sizeof(value))` and `read(&v, sizeof(v))`
  unfoldable pub write_object : ℕ → ℕ → ByteArray → Outcome ByteArray
  write_object n value s = write (to_memory host n value) n s

  unfoldable pub read_object : ℕ → ByteArray → Outcome (ℕ × ByteArray)
  read_object n s = do (out, t) ← read (λ _. 0) n s; ok (from_memory host n out, t)

  -- writeFint8 and writeFuint8, readFint8 and readFuint8
  unfoldable pub write_fuint8 : ℕ → ByteArray → Outcome ByteArray
  unfolding write_object
  write_fuint8 value s = write_object 1 value s

  unfoldable pub read_fuint8 : ByteArray → Outcome (ℕ × ByteArray)
  unfolding read_object
  read_fuint8 s = read_object 1 s

  -- writeFint16 to writeFuint64, on a word of `n` bytes
  unfoldable pub write_fixed : ℕ → ℕ → ByteArray → Outcome ByteArray
  unfolding write_object
  write_fixed n value s =
      write_object n (if same_order s.endian host then value else byteswap n value) s

  -- The macro XX of readFint16 to readFuint64
  unfoldable pub read_fixed : ℕ → ByteArray → Outcome (ℕ × ByteArray)
  unfolding read_object
  read_fixed n s = do
    (v, t) ← read_object n s
    ok ((if same_order t.endian host then v else byteswap n v), t)

  -- The loop of readUint32 and readUint64 over a result of `w` bits, at the shift `i`.
  unfoldable pub read_varint : ℕ → ℕ → ℕ → ℕ → ByteArray → Outcome (ℕ × ByteArray)
  read_varint zero w i result s = if ltb i w then err out_of_fuel else ok (result, s)
  read_varint (suc fuel) w i result s = elim (ltb i w) [
    | false ↦ ok (result, s)
    | true ↦ elim (read_fuint8 s) [
      | err e ↦ err e
      | ok r ↦ elim (ltb r.0 0x80) [
        | true ↦ ok (bit_or result (r.0 * 2 ^ i % 2 ^ w), r.1)
        | false ↦ read_varint fuel w (i + 7) (bit_or result (bit_and r.0 0x7f * 2 ^ i % 2 ^ w)) r.1
      ]
    ]
  ]

  unfoldable pub read_uint32 : ByteArray → Outcome (ℕ × ByteArray)
  read_uint32 s = read_varint 5 32 0 0 s

  unfoldable pub read_uint64 : ByteArray → Outcome (ℕ × ByteArray)
  read_uint64 s = read_varint 10 64 0 0 s

  unfoldable pub read_int32 : ByteArray → Outcome (ℕ × ByteArray)
  read_int32 s = do (v, t) ← read_uint32 s; ok (decode_zigzag32 v, t)

  unfoldable pub read_int64 : ByteArray → Outcome (ℕ × ByteArray)
  read_int64 s = do (v, t) ← read_uint64 s; ok (decode_zigzag64 v, t)

  unfoldable pub read_float : ByteArray → Outcome (ℕ × ByteArray)
  unfolding read_fixed
  read_float s = read_fixed 4 s

  unfoldable pub read_double : ByteArray → Outcome (ℕ × ByteArray)
  unfolding read_fixed
  read_double s = read_fixed 8 s

  -- writeStringF16, writeStringF32, writeStringF64: the length is cut to `n` bytes.
  unfoldable pub write_string : ℕ → List ℕ → ByteArray → Outcome ByteArray
  unfolding write_bytes
  write_string n value s = do t ← write_fixed n (length value % 256 ^ n) s; write_bytes value t

  -- readStringF16, readStringF32, readStringF64
  unfoldable pub read_string : ℕ → ByteArray → Outcome (List ℕ × ByteArray)
  unfolding read_bytes
  read_string n s = do (len, t) ← read_fixed n s; read_bytes len t

  -- readStringVint takes a length of 8 bytes.
  unfoldable pub read_string_vint : ByteArray → Outcome (List ℕ × ByteArray)
  unfolding read_bytes
  read_string_vint s = do (len, t) ← read_fixed 8 s; read_bytes len t
