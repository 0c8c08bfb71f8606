-- ===== src/ByteArray/Runs.antt =====
-- Runs of the model of skt/bytearray, and its theorems at concrete objects.
use learn_web.Common.{ℕ, ◌+◌, ◌*◌, ◌^◌, ◌<◌, ◌≡◌, refl, arith, [], ◌∷◌, if◌then◌else◌, ltb}
use learn_web.Common.Outcome.{ok, err, out_of_range, null_deref, ◌>>=◌}
use learn_web.Endian.{little, big, byteswap, to_memory, word_of}
use learn_web.ByteArray.Defs.{
  ByteArray, byte_array, write, read, read_at, set_position, get_read_size, add_capacity,
  extend_chain, add_nodes, write_loop, read_loop,
}
use learn_web.ByteArray.Invariant.{IsValid}
use learn_web.ByteArray.Flat.{
  view, flat_write, flat_read, skip, write-refines, read-refines, read-write, read_refusals,
}
use learn_web.ByteArray.Codec.{
  varint, write_fixed, write_uint64, read_uint64, write_string, read_string, to_string,
}
use learn_web.ByteArray.Varint.{read_uint64-write_uint64}
use learn_web.ByteArray.Strings.{read_string-write_string}

-- Two nodes of four bytes, with seven bytes of data and the position at the third.
abbrev two_nodes : ByteArray
two_nodes = record {
  base_size = 4;
  capacity = 8;
  position = 2;
  size = 7;
  endian = big;
  nodes = λ i. record { ptr = λ j. i * 4 + j + 10; size = 4 };
  node_count = 2;
  cur = 0;
}

two_nodes-IsValid : IsValid two_nodes
two_nodes-IsValid = record {
  seated = record {
    base_pos = omega arith;
    rooted = omega arith;
    sizes = λ i h. refl;
    cap = refl;
    row_begin = omega arith;
    row_end = omega arith;
    within = omega arith;
  };
  pos_le = omega arith;
  size_le = omega arith;
}

-- The same object with its position at the end of the data.
abbrev at_end : ByteArray
at_end = record two_nodes { position = 7; cur = 1 }

at_end-IsValid : IsValid at_end
at_end-IsValid = record {
  seated = record {
    base_pos = omega arith;
    rooted = omega arith;
    sizes = λ i h. refl;
    cap = refl;
    row_begin = omega arith;
    row_end = omega arith;
    within = omega arith;
  };
  pos_le = omega arith;
  size_le = omega arith;
}

-- Varints as the protocol documents them.
varint_300 : varint 5 300 ≡ ok (0xac ∷ 0x02 ∷ [])
unfolding varint
varint_300 = refl

-- A string of three bytes, across nodes of two bytes.
string_run :
    (do
      t ← write_string little 2 (97 ∷ 98 ∷ 99 ∷ []) (byte_array (λ i j. 0) 2)
      to_string (record t { position = 0; cur = 0 }))
    ≡ ok (0 ∷ 3 ∷ 97 ∷ 98 ∷ 99 ∷ [])
unfolding write_string byte_array write_fixed to_string write read_at get_read_size add_capacity
    set_position extend_chain add_nodes write_loop read_loop byteswap to_memory word_of
string_run = refl

write-refines_example :
    (t : ByteArray) × (write (λ k. k) 9 two_nodes ≡ ok t)
    × IsValid t
    × (view t ≡ flat_write (λ k. k) 9 (view two_nodes))
write-refines_example = write-refines (λ k. k) 9 two_nodes two_nodes-IsValid

read-refines_example :
    (t : ByteArray) × (read (λ _. 0) 5 two_nodes ≡ ok (flat_read (λ _. 0) 5 (view two_nodes), t))
    × IsValid t
    × (view t ≡ skip 5 (view two_nodes))
read-refines_example =
    read-refines (λ _. 0) 5 two_nodes two_nodes-IsValid (omega arith) (omega arith)

read_refusals_example :
    (5 < 6 → read (λ _. 0) 6 two_nodes ≡ err out_of_range)
    × (8 < 6 → set_position 6 two_nodes ≡ err out_of_range)
    × (◌≡◌ {A = ℕ} 2 8 → read (λ _. 0) 0 two_nodes ≡ err null_deref)
read_refusals_example = read_refusals (λ _. 0) 6 two_nodes two_nodes-IsValid

read-write_example :
    (w : ByteArray) × ((do
      t ← write (λ k. k) 10 two_nodes
      u ← set_position two_nodes.position t
      read (λ _. 0) 10 u)
      ≡ ok ((λ k. if ltb k 10 then k else 0), w))
    × IsValid w
    × (view w ≡ flat_write (λ k. k) 10 (view two_nodes))
read-write_example = read-write (λ k. k) (λ _. 0) 9 two_nodes two_nodes-IsValid

read_uint64-write_uint64_example :
    (x : ByteArray) × ((do
      t ← write_uint64 (2 ^ 63) two_nodes
      u ← set_position two_nodes.position t
      read_uint64 little u)
      ≡ ok (2 ^ 63, x))
    × IsValid x
read_uint64-write_uint64_example =
    read_uint64-write_uint64 little (2 ^ 63) two_nodes two_nodes-IsValid (omega arith)

read_string-write_string_example :
    (w : ByteArray) × ((do
      t ← write_string little 2 (104 ∷ 105 ∷ []) two_nodes
      u ← set_position two_nodes.position t
      read_string little 2 u)
      ≡ ok (104 ∷ 105 ∷ [], w))
    × IsValid w
read_string-write_string_example =
    read_string-write_string little 1 104 (105 ∷ []) two_nodes two_nodes-IsValid (omega arith)
