-- ===== src/ByteArray/Invariant.antt =====
-- skt/bytearray/bytearray.cpp: the invariant of the object, kept by the operations that move the
-- cursor and grow the chain, and what one round of the loops does to the bytes.
use learn_web.Common.{
  ℕ, zero, suc, ◌+◌, ◌-◌, ◌*◌, ◌/◌, ◌≤◌, ◌<◌, ◌≡◌, refl, arith, ◌&&◌, if◌then◌else◌, ltb, leb,
  Bool-cases, inl, inr,
}
use learn_web.Common.Arithmetic.{row-le, row-lt, div-mul-add-mod}
use native.Mathlib.Nat.{mod-lt}
use learn_web.Common.Outcome.{ok}
use learn_web.ByteArray.Defs.{
  ByteArray, byte_array, deref, put_bytes, extend_chain, add_node, add_nodes, add_capacity,
}

-- The byte at offset `j` of node `i`.
abbrev pub cell : ByteArray → ℕ → ℕ → ℕ
cell s i j = (s.nodes i).ptr j

-- The cursor stands on the node of the position, or behind the last node at the very end.
pub record IsSeated (s : ByteArray) : Type 0 where
  pub base_pos : 0 < s.base_size
  pub rooted : 0 < s.node_count
  pub sizes : (i : ℕ) → i < s.node_count → (s.nodes i).size ≡ s.base_size
  pub cap : s.capacity ≡ s.node_count * s.base_size
  pub row_begin : s.cur * s.base_size ≤ s.position
  pub row_end : s.position < s.cur * s.base_size + s.base_size
  pub within : s.position ≤ s.capacity

pub record IsValid (s : ByteArray) : Type 0 where
  pub seated : IsSeated s
  pub open seated use *
  pub pos_le : s.position ≤ s.size
  pub size_le : s.size ≤ s.capacity

-- Where the position is below the capacity, the cursor is no null pointer.
pub seated_node : (s : ByteArray) → IsSeated s → s.position < s.capacity → s.cur < s.node_count
seated_node s v h = row-lt s.cur s.node_count s.base_size (omega (arith, v.cap, v.row_begin))

pub deref_lem : (s : ByteArray) (i : ℕ) → i < s.node_count → deref s i ≡ ok (s.nodes i)
unfolding deref
deref_lem s i h = ground arith

-- A copy into the current node, seen by absolute positions.
pub cell-put_bytes :
    (s : ByteArray) (npos : ℕ) (buf : ℕ → ℕ) (bpos n i j : ℕ)
    → IsSeated s
    → s.cur * s.base_size + npos ≡ s.position
    → npos + n ≤ s.base_size
    → j < s.base_size
    → cell (put_bytes s npos buf bpos n) i j ≡ (
        let p = i * s.base_size + j in
        if leb s.position p && ltb p (s.position + n)
        then buf (bpos + (p - s.position))
        else cell s i j)
unfolding put_bytes
cell-put_bytes s npos buf bpos n i j v e h k =
    ground (arith, row-le i s.cur s.base_size, row-le s.cur i s.base_size)

byte_array-IsValid : (junk : ℕ → ℕ → ℕ) (base : ℕ) → 0 < base → IsValid (byte_array junk base)
unfolding byte_array
byte_array-IsValid junk base h = record {
  seated = record {
    base_pos = h;
    rooted = omega arith;
    sizes = λ i k. refl;
    cap = omega arith;
    row_begin = omega arith;
    row_end = omega arith;
    within = omega arith;
  };
  pos_le = omega arith;
  size_le = omega arith;
}

-- What growing the chain by `count` nodes changes.
pub record Grown (s t : ByteArray) (count : ℕ) : Type 0 where
  pub base_size : t.base_size ≡ s.base_size
  pub position : t.position ≡ s.position
  pub size : t.size ≡ s.size
  pub endian : t.endian ≡ s.endian
  pub node_count : t.node_count ≡ s.node_count + count
  pub cur : t.cur ≡ s.cur
  pub capacity : t.capacity ≡ s.capacity + count * s.base_size
  pub sizes :
      ((i : ℕ) → i < s.node_count → (s.nodes i).size ≡ s.base_size)
      → (i : ℕ) → i < t.node_count
      → (t.nodes i).size ≡ s.base_size
  pub bytes : (i j : ℕ) → cell t i j ≡ cell s i j

add_nodes-Grown : (count : ℕ) (s : ByteArray) → Grown s (add_nodes count s) count
unfolding add_nodes
add_nodes-Grown zero s = record {
  base_size = refl;
  position = refl;
  size = refl;
  endian = refl;
  node_count = omega arith;
  cur = refl;
  capacity = omega arith;
  sizes = λ h. h;
  bytes = λ i j. refl;
}
add_nodes-Grown (suc count) s =
    let rest = add_nodes-Grown count (add_node s) in
    record {
      base_size = rest.base_size;
      position = rest.position;
      size = rest.size;
      endian = rest.endian;
      node_count = omega (arith, rest.node_count);
      cur = rest.cur;
      capacity = omega (arith, rest.capacity);
      sizes = λ h. rest.sizes (λ i k. ground (arith, h i));
      bytes = λ i j. ground (arith, rest.bytes i j);
    }

-- What `addCapacity(size)` promises: room for `size` more bytes, a cursor on a node, nothing else
-- changed.
pub record HasRoom (s t : ByteArray) (size : ℕ) : Type 0 where
  pub seated : IsSeated t
  pub room : t.position + size ≤ t.capacity
  pub base_size : t.base_size ≡ s.base_size
  pub position : t.position ≡ s.position
  pub size_kept : t.size ≡ s.size
  pub endian : t.endian ≡ s.endian
  pub capacity : s.capacity ≤ t.capacity
  pub bytes : (i j : ℕ) → cell t i j ≡ cell s i j

-- The quotient rounded up covers what is missing.
round_up : (m b : ℕ) → 0 < b → m ≤ (m + b - 1) / b * b
round_up m b h = grind (arith, div-mul-add-mod (m + b - 1) b, mod-lt (m + b - 1) {m = b} h)

extend_chain-HasRoom :
    (missing size : ℕ) (s : ByteArray)
    → IsSeated s
    → size ≡ missing + (s.capacity - s.position)
    → HasRoom s (extend_chain missing s) size
unfolding extend_chain
extend_chain-HasRoom missing size s v e =
    let count = (missing + s.base_size - 1) / s.base_size in
    let g = add_nodes-Grown count s in
    let up = round_up missing s.base_size v.base_pos in
    record {
      seated = record {
        base_pos = rw g.base_size v.base_pos;
        rooted = omega (arith, v.rooted, g.node_count);
        sizes = λ i k. rw g.base_size (g.sizes v.sizes i k);
        cap = rw (g.capacity, g.node_count, g.base_size) (omega (arith, v.cap));
        row_begin = ground (arith, g.base_size, g.cur, g.position);
        row_end = ground (arith, g.base_size, g.cur, g.position);
        within = ground (arith, g.position, g.capacity);
      };
      room = ground (arith, g.position, g.capacity, up);
      base_size = g.base_size;
      position = g.position;
      size_kept = g.size;
      endian = g.endian;
      capacity = omega (arith, g.capacity);
      bytes = g.bytes;
    }

HasRoom-refl :
    (s : ByteArray) (size : ℕ) → IsSeated s → size ≤ s.capacity - s.position → HasRoom s s size
HasRoom-refl s size v h = record {
  seated = v;
  room = omega arith;
  base_size = refl;
  position = refl;
  size_kept = refl;
  endian = refl;
  capacity = omega arith;
  bytes = λ i j. refl;
}

pub add_capacity-HasRoom :
    (size : ℕ) (s : ByteArray)
    → IsSeated s
    → (t : ByteArray) × (add_capacity size s ≡ ok t) × HasRoom s t size
unfolding add_capacity
add_capacity-HasRoom size s v = elim (Bool-cases (leb size (s.capacity - s.position))) [
  | inl fits ↦ (s, ground arith, HasRoom-refl s size v (ground arith))
  | inr more ↦ (
    extend_chain (size - (s.capacity - s.position)) s,
    ground arith,
    extend_chain-HasRoom (size - (s.capacity - s.position)) size s v (ground arith),
  )
]
