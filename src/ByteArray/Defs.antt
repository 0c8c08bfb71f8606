-- ===== src/ByteArray/Defs.antt =====
-- skt/bytearray/bytearray.h and .cpp: the object, its capacity, `write`, `read` and `setPosition`.
-- A chain of nodes is a table: the `next` of node `i` is node `i + 1`, and the number of the nodes
-- stands for the null pointer. What a node holds that nothing has written yet is whatever its
-- table says. Sizes and positions are sizes of memory that exists, so their sums do not wrap;
-- where the source subtracts, the wrap of size_t is written out (`sub64`).
use learn_web.Common.{
  ℕ, zero, suc, ◌+◌, ◌-◌, ◌/◌, ◌%◌, Bool, true, false, ◌&&◌, if◌then◌else◌, ltb, leb, ◌==◌, sub64,
}
use learn_web.Common.Outcome.{
  Outcome, ok, err, out_of_range, null_deref, div_by_zero, out_of_fuel, ◌>>=◌,
}
use learn_web.Endian.{ByteOrder, little, big}

-- ByteArray::Node; `ptr i` is the byte at offset `i`.
pub record Node : Type 0 where
  pub ptr : ℕ → ℕ
  pub size : ℕ

-- The fields m_baseSize, m_capacity, m_position, m_size, m_endian, and the chain of nodes from
-- m_root on; `cur` is the index of m_cur.
pub record ByteArray : Type 0 where
  pub base_size : ℕ
  pub capacity : ℕ
  pub position : ℕ
  pub size : ℕ
  pub endian : ByteOrder
  pub nodes : ℕ → Node
  pub node_count : ℕ
  pub cur : ℕ

-- `new Node(s)` where the allocator hands out memory that holds `junk`.
unfoldable pub new_node : (ℕ → ℕ) → ℕ → Node
new_node junk s = record { ptr = junk; size = s }

-- ByteArray::ByteArray; `junk i` is the content of the memory that node `i` will get.
unfoldable pub byte_array : (ℕ → ℕ → ℕ) → ℕ → ByteArray
unfolding new_node
byte_array junk base = record {
  base_size = base;
  capacity = base;
  position = 0;
  size = 0;
  endian = big;
  nodes = λ i. new_node (junk i) base;
  node_count = 1;
  cur = 0;
}

-- A use of `m_cur->`.
unfoldable pub deref : ByteArray → ℕ → Outcome Node
deref s i = if ltb i s.node_count then ok (s.nodes i) else err null_deref

-- `x % m_baseSize` and `x / m_baseSize`.
unfoldable pub mod_base : ByteArray → ℕ → Outcome ℕ
mod_base s x = if s.base_size == 0 then err div_by_zero else ok (x % s.base_size)

unfoldable pub div_base : ByteArray → ℕ → Outcome ℕ
div_base s x = if s.base_size == 0 then err div_by_zero else ok (x / s.base_size)

-- memcpy(dst + to, src + from, n)
abbrev pub memcpy : (ℕ → ℕ) → ℕ → (ℕ → ℕ) → ℕ → ℕ → ℕ → ℕ
memcpy dst to src from n j = if leb to j && ltb j (to + n) then src (from + (j - to)) else dst j

-- memcpy(m_cur->ptr + to, src + from, n)
unfoldable pub put_bytes : ByteArray → ℕ → (ℕ → ℕ) → ℕ → ℕ → ByteArray
put_bytes s to src from n = record s {
  nodes = λ i.
      if i == s.cur
      then record { ptr = memcpy (s.nodes i).ptr to src from n; size = (s.nodes i).size }
      else s.nodes i;
}

unfoldable pub is_little_endian : ByteArray → Bool
is_little_endian s = elim s.endian [ little ↦ true | big ↦ false ]

unfoldable pub set_is_little_endian : ByteArray → Bool → ByteArray
set_is_little_endian s value = record s { endian = if value then little else big }

unfoldable pub get_read_size : ByteArray → ℕ
get_read_size s = sub64 s.size s.position

unfoldable pub get_capacity : ByteArray → ℕ
get_capacity s = sub64 s.capacity s.position

-- One round of the loop that appends nodes at the end of the chain.
unfoldable pub add_node : ByteArray → ByteArray
unfolding new_node
add_node s = record s {
  nodes = λ i. if i == s.node_count then new_node (s.nodes i).ptr s.base_size else s.nodes i;
  node_count = s.node_count + 1;
  capacity = s.capacity + s.base_size;
}

unfoldable pub add_nodes : ℕ → ByteArray → ByteArray
unfolding add_node
add_nodes zero s = s
add_nodes (suc count) s = add_nodes count (add_node s)

-- The rest of ByteArray::addCapacity, where `missing` bytes are wanted: `ceil(1.0 * missing /
-- m_baseSize)` is the quotient rounded up, and a cursor behind the last node moves to the first new
-- one.
unfoldable pub extend_chain : ℕ → ByteArray → ByteArray
unfolding get_capacity
extend_chain missing s =
    let grown = add_nodes ((missing + s.base_size - 1) / s.base_size) s in
    record grown { cur = if get_capacity s == 0 then s.node_count else grown.cur }

-- ByteArray::addCapacity
unfoldable pub add_capacity : ℕ → ByteArray → Outcome ByteArray
unfolding get_capacity
add_capacity size s =
    if size == 0
    then ok s
    else if leb size (get_capacity s)
    then ok s
    else if s.base_size == 0
    then err div_by_zero
    else ok (extend_chain (size - get_capacity s) s)

-- The `while(size > 0)` of `write`; the node that it stands on has `ncap` bytes left from `npos`.
unfoldable pub write_loop : ℕ → (ℕ → ℕ) → ByteArray → ℕ → ℕ → ℕ → ℕ → Outcome ByteArray
unfolding deref put_bytes
write_loop zero buf s npos ncap bpos size = if size == 0 then ok s else err out_of_fuel
write_loop (suc fuel) buf s npos ncap bpos size = elim (size == 0) [
  | true ↦ ok s
  | false ↦ elim (deref s s.cur) [
    | err e ↦ err e
    | ok node ↦ elim (leb size ncap) [
      | true ↦
          write_loop fuel buf
            (record (put_bytes s npos buf bpos size) {
              cur = if node.size == npos + size then s.cur + 1 else s.cur;
              position = s.position + size;
            })
            npos ncap (bpos + size) 0
      | false ↦ elim (deref s (s.cur + 1)) [
        | err e ↦ err e
        | ok next ↦
            write_loop fuel buf
              (record (put_bytes s npos buf bpos ncap) {
                cur = s.cur + 1;
                position = s.position + ncap;
              })
              0 next.size (bpos + ncap) (size - ncap)
      ]
    ]
  ]
]

-- ByteArray::write(buf, size); each round of the loop but the last takes a byte at least.
unfoldable pub write : (ℕ → ℕ) → ℕ → ByteArray → Outcome ByteArray
unfolding deref mod_base
write buf size s = if size == 0 then ok s else do
  roomy ← add_capacity size s
  npos ← mod_base roomy roomy.position
  node ← deref roomy roomy.cur
  written ← write_loop size buf roomy npos (sub64 node.size npos) 0 size
  ok (record written {
    size = if ltb written.size written.position then written.position else written.size;
  })

-- The loop of both `read`s: `out` is the caller's buffer, and the cursor is `cur` and `position`.
pub record Cursor : Type 0 where
  pub cur : ℕ
  pub position : ℕ
  pub out : ℕ → ℕ

unfoldable pub read_loop : ℕ → ByteArray → Cursor → ℕ → ℕ → ℕ → ℕ → Outcome Cursor
unfolding deref
read_loop zero s c npos ncap bpos size = if size == 0 then ok c else err out_of_fuel
read_loop (suc fuel) s c npos ncap bpos size = elim (size == 0) [
  | true ↦ ok c
  | false ↦ elim (deref s c.cur) [
    | err e ↦ err e
    | ok node ↦ elim (leb size ncap) [
      | true ↦
          read_loop fuel s
            (record {
              cur = if node.size == npos + size then c.cur + 1 else c.cur;
              position = c.position + size;
              out = memcpy c.out bpos node.ptr npos size;
            })
            npos ncap (bpos + size) 0
      | false ↦ elim (deref s (c.cur + 1)) [
        | err e ↦ err e
        | ok next ↦
            read_loop fuel s
              (record {
                cur = c.cur + 1;
                position = c.position + ncap;
                out = memcpy c.out bpos node.ptr npos ncap;
              })
              0 next.size (bpos + ncap) (size - ncap)
      ]
    ]
  ]
]

-- ByteArray::read(buf, size)
unfoldable pub read : (ℕ → ℕ) → ℕ → ByteArray → Outcome ((ℕ → ℕ) × ByteArray)
unfolding deref mod_base get_read_size read_loop
read buf size s = if ltb (get_read_size s) size then err out_of_range else do
  npos ← mod_base s s.position
  node ← deref s s.cur
  c ←
      read_loop size s (record { cur = s.cur; position = s.position; out = buf }) npos
        (sub64 node.size npos) 0 size
  ok (c.out, record s { cur = c.cur; position = c.position })

-- ByteArray::read(buf, size, position) const: it starts at m_cur, whatever `position` is.
unfoldable pub read_at : (ℕ → ℕ) → ℕ → ℕ → ByteArray → Outcome (ℕ → ℕ)
unfolding deref mod_base read_loop
read_at buf size position s = if ltb (sub64 s.size position) size then err out_of_range else do
  npos ← mod_base s position
  node ← deref s s.cur
  c ←
      read_loop size s (record { cur = s.cur; position = position; out = buf }) npos
        (sub64 node.size npos) 0 size
  ok c.out

-- The `while(v > m_cur->size)` of `setPosition`, and the step behind it: the node of offset `v`.
unfoldable pub seek : ℕ → ByteArray → ℕ → ℕ → Outcome ℕ
unfolding deref
seek zero s cur v = err out_of_fuel
seek (suc fuel) s cur v = elim (deref s cur) [
  | err e ↦ err e
  | ok node ↦ elim (ltb node.size v) [
    | true ↦ seek fuel s (cur + 1) (v - node.size)
    | false ↦ ok (if v == node.size then cur + 1 else cur)
  ]
]

-- ByteArray::setPosition; a node takes a byte of `v` at least, unless nodes are empty.
unfoldable pub set_position : ℕ → ByteArray → Outcome ByteArray
unfolding seek
set_position v s = if ltb s.capacity v then err out_of_range else do
  cur ← seek (suc v) s 0 v
  ok (record s { position = v; size = if ltb s.size v then v else s.size; cur = cur })

-- ByteArray::clear: every node but the root is freed.
unfoldable pub clear : ByteArray → ByteArray
clear s = record s { position = 0; size = 0; capacity = s.base_size; node_count = 1; cur = 0 }
