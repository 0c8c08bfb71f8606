-- ===== src/ByteArray/Read.antt =====
-- skt/bytearray/bytearray.cpp, `read`: what it copies out of the chain.
use learn_web.Common.{
  ℕ, zero, suc, ◌+◌, ◌-◌, ◌*◌, ◌/◌, ◌%◌, ◌≤◌, ◌<◌, ◌≡◌, refl, ◌∙◌, arith, ◌&&◌, if◌then◌else◌, ltb,
  leb, ◌==◌, sub64, Bool-cases, inl, inr,
}
use learn_web.Common.Arithmetic.{row-le, row-lt, row_of}
use learn_web.Common.Outcome.{ok, err, null_deref, out_of_range}
use learn_web.ByteArray.Defs.{ByteArray, Cursor, memcpy, read_loop, read, read_at}
use learn_web.ByteArray.Invariant.{cell, IsSeated, IsValid, seated_node}

-- The byte at an absolute position.
abbrev pub byte_at : ByteArray → ℕ → ℕ
byte_at s p = cell s (p / s.base_size) (p % s.base_size)

-- What reading `size` bytes to `bpos` makes of the cursor `c`.
pub record Fetched (s : ByteArray) (c d : Cursor) (bpos size : ℕ) : Type 0 where
  pub row_begin : d.cur * s.base_size ≤ d.position
  pub row_end : d.position < d.cur * s.base_size + s.base_size
  pub position : d.position ≡ c.position + size
  pub out :
      (k : ℕ)
      → d.out k ≡ (
          if leb bpos k && ltb k (bpos + size)
          then byte_at s (c.position + (k - bpos))
          else c.out k)

read_loop-zero :
    (fuel : ℕ) (s : ByteArray) (c : Cursor) (npos ncap bpos : ℕ)
    → read_loop fuel s c npos ncap bpos 0 ≡ ok c
unfolding read_loop
read_loop-zero zero s c npos ncap bpos = refl
read_loop-zero (suc fuel) s c npos ncap bpos = refl

abbrev after_copy : ByteArray → Cursor → ℕ → ℕ → ℕ → ℕ → Cursor
after_copy s c npos bpos n next = record {
  cur = next;
  position = c.position + n;
  out = memcpy c.out bpos (s.nodes c.cur).ptr npos n;
}

abbrev next_node : ByteArray → Cursor → ℕ → ℕ
next_node s c end = if (s.nodes c.cur).size == end then c.cur + 1 else c.cur

next_node_row :
    (s : ByteArray) (c : Cursor) (end : ℕ)
    → (s.nodes c.cur).size ≡ s.base_size
    → 0 < s.base_size
    → end ≤ s.base_size
    → (next_node s c end * s.base_size ≤ c.cur * s.base_size + end)
      × (c.cur * s.base_size + end < next_node s c end * s.base_size + s.base_size)
next_node_row s c end e pos h = elim (Bool-cases ((s.nodes c.cur).size == end)) [
  | inl full ↦
      let whole : s.base_size ≡ end = ground arith in
      rw full (omega (arith, whole), omega (arith, whole))
  | inr part ↦ let below : end < s.base_size = ground arith in rw part (omega arith, omega arith)
]

-- Inside one node, an absolute position is an offset.
byte_at_row :
    (s : ByteArray) (p i j : ℕ)
    → j < s.base_size
    → i * s.base_size + j ≡ p
    → byte_at s p ≡ cell s i j
byte_at_row s p i j h e =
    let (row, col) = row_of p i s.base_size (omega arith) (omega arith) in ground (arith, row, col)

after_copy-Fetched :
    (s : ByteArray) (c : Cursor) (npos bpos n next : ℕ)
    → c.cur * s.base_size + npos ≡ c.position
    → npos + n ≤ s.base_size
    → next * s.base_size ≤ c.position + n
    → c.position + n < next * s.base_size + s.base_size
    → Fetched s c (after_copy s c npos bpos n next) bpos n
after_copy-Fetched s c npos bpos n next at fits begins ends = record {
  row_begin = begins;
  row_end = ends;
  position = refl;
  out = λ k. ground (arith, byte_at_row s (c.position + (k - bpos)) c.cur (npos + (k - bpos)));
}

Fetched-trans :
    (s : ByteArray) (c d e : Cursor) (bpos m n total : ℕ)
    → m + n ≡ total
    → Fetched s c d bpos m
    → Fetched s d e (bpos + m) n
    → Fetched s c e bpos total
Fetched-trans s c d e bpos m n total q a b = record {
  row_begin = b.row_begin;
  row_end = b.row_end;
  position = omega (arith, a.position, b.position);
  out = λ k. ground (arith, a.out k, b.out k, a.position);
}

read_loop_last :
    (fuel : ℕ) (s : ByteArray) (c : Cursor) (npos ncap bpos m : ℕ)
    → c.cur < s.node_count
    → suc m ≤ ncap
    → read_loop (suc fuel) s c npos ncap bpos (suc m)
      ≡ ok (after_copy s c npos bpos (suc m) (next_node s c (npos + suc m)))
unfolding read_loop
read_loop_last fuel s c npos ncap bpos m h k = ground (
  arith,
  read_loop-zero fuel s (after_copy s c npos bpos (suc m) (next_node s c (npos + suc m))) npos ncap
      (bpos + suc m),
)

read_loop_more :
    (fuel : ℕ) (s : ByteArray) (c : Cursor) (npos ncap bpos m : ℕ)
    → c.cur + 1 < s.node_count
    → ncap < suc m
    → read_loop (suc fuel) s c npos ncap bpos (suc m)
      ≡ read_loop fuel s
          (after_copy s c npos bpos ncap (c.cur + 1))
          0
          (s.nodes (c.cur + 1)).size
          (bpos + ncap)
          (suc m - ncap)
unfolding read_loop
read_loop_more fuel s c npos ncap bpos m h k = ground arith

module _ (s : ByteArray) (v : IsSeated s) where
  pub read_loop-Fetched :
      (fuel : ℕ) (c : Cursor) (npos ncap bpos size : ℕ)
      → c.position + size ≤ s.capacity
      → c.cur * s.base_size + npos ≡ c.position
      → npos < s.base_size
      → npos + ncap ≡ s.base_size
      → size ≤ fuel
      → (d : Cursor) × (read_loop fuel s c npos ncap bpos size ≡ ok d) × Fetched s c d bpos size
  read_loop-Fetched fuel c npos ncap bpos zero room at inside width enough = (
    c,
    read_loop-zero fuel s c npos ncap bpos,
    record {
      row_begin = omega arith;
      row_end = omega arith;
      position = omega arith;
      out = λ k. ground arith;
    },
  )
  read_loop-Fetched zero c npos ncap bpos (suc m) room at inside width enough = absurd (omega arith)
  read_loop-Fetched (suc fuel) c npos ncap bpos (suc m) room at inside width enough =
      elim (Bool-cases (leb (suc m) ncap)) [
        | inl last ↦
            let fits : suc m ≤ ncap = ground arith in
            let (begins, ends) = row fits in
            (
              after_copy s c npos bpos (suc m) (next_node s c (npos + suc m)),
              read_loop_last fuel s c npos ncap bpos m on_node fits,
              after_copy-Fetched s c npos bpos (suc m) (next_node s c (npos + suc m)) at
                  (omega arith) (omega (arith, begins)) (omega (arith, ends)),
            )
        | inr more ↦
            let short : ncap < suc m = ground arith in
            let in_chain : c.cur + 1 < s.node_count = has_next short in
            let mid = after_copy s c npos bpos ncap (c.cur + 1) in
            let first =
              after_copy-Fetched s c npos bpos ncap (c.cur + 1) at (omega arith) (omega arith)
                (omega (arith, v.base_pos)) in
            let rest =
              read_loop-Fetched fuel mid 0 (s.nodes (c.cur + 1)).size (bpos + ncap) (suc m - ncap)
                (omega arith) (omega arith) v.base_pos (omega (arith, v.sizes (c.cur + 1) in_chain))
                (omega arith) in
            (
              rest.0,
              read_loop_more fuel s c npos ncap bpos m in_chain short ∙ rest.1,
              Fetched-trans s c mid rest.0 bpos ncap (suc m - ncap) (suc m) (omega arith) first
                  rest.2,
            )
      ]
    where
      on_node : c.cur < s.node_count
      on_node = row-lt c.cur s.node_count s.base_size (omega (arith, v.cap))

      row :
          suc m ≤ ncap
          → (next_node s c (npos + suc m) * s.base_size ≤ c.cur * s.base_size + (npos + suc m))
            × (c.cur * s.base_size + (npos + suc m)
                < next_node s c (npos + suc m) * s.base_size + s.base_size)
      row h = next_node_row s c (npos + suc m) (v.sizes c.cur on_node) v.base_pos (omega arith)

      has_next : ncap < suc m → c.cur + 1 < s.node_count
      has_next h = row-lt (c.cur + 1) s.node_count s.base_size (omega (arith, v.cap))

-- The object behind a read that moved the cursor to `c`.
abbrev pub moved : ByteArray → Cursor → ByteArray
moved s c = record s { cur = c.cur; position = c.position }

abbrev start : (ℕ → ℕ) → ByteArray → Cursor
start buf s = record { cur = s.cur; position = s.position; out = buf }

read_steps :
    (buf : ℕ → ℕ) (size : ℕ) (s : ByteArray) (c : Cursor)
    → size ≤ s.size - s.position
    → s.position ≤ s.size
    → 0 < s.base_size
    → s.cur < s.node_count
    → read_loop size s
        (start buf s)
        (s.position % s.base_size)
        (sub64 (s.nodes s.cur).size (s.position % s.base_size))
        0
        size
      ≡ ok c
    → read buf size s ≡ ok (c.out, moved s c)
unfolding read
read_steps buf size s c h k pos on_node run = ground arith

moved-IsValid :
    (s : ByteArray) (c : Cursor) {d : Cursor} {n : ℕ}
    → IsValid s
    → Fetched s d c 0 n
    → c.position ≤ s.size
    → IsValid (moved s c)
moved-IsValid s c v f h = record {
  seated = record {
    base_pos = v.base_pos;
    rooted = v.rooted;
    sizes = v.sizes;
    cap = v.cap;
    row_begin = f.row_begin;
    row_end = f.row_end;
    within = omega (arith, v.size_le);
  };
  pos_le = h;
  size_le = v.size_le;
}

-- `read` succeeds where the data is there and the cursor stands on a node.
pub read-Fetched :
    (buf : ℕ → ℕ) (size : ℕ) (s : ByteArray)
    → IsValid s
    → size ≤ s.size - s.position
    → s.position < s.capacity
    → (c : Cursor) × (read buf size s ≡ ok (c.out, moved s c))
      × Fetched s (start buf s) c 0 size
      × IsValid (moved s c)
read-Fetched buf size s v h k =
    let (_, npos) = row_of s.position s.cur s.base_size v.row_begin v.row_end in
    let on_node = seated_node s v.seated k in
    let (c, run, f) =
      read_loop-Fetched s v.seated size (start buf s) (s.position % s.base_size)
        (sub64 (s.nodes s.cur).size (s.position % s.base_size)) 0 size
        (omega (arith, v.pos_le, v.size_le)) (omega (arith, npos, v.row_begin))
        (omega (arith, npos, v.row_begin, v.row_end))
        (ground (arith, npos, v.row_end, v.row_begin, v.sizes s.cur on_node)) (omega arith) in
    (
      c,
      read_steps buf size s c h v.pos_le v.base_pos on_node run,
      f,
      moved-IsValid s c {d = start buf s} {n = size} v f (omega (arith, f.position, v.pos_le)),
    )

-- Too little data is the exception.
pub read_short :
    (buf : ℕ → ℕ) (size : ℕ) (s : ByteArray)
    → IsValid s
    → s.size - s.position < size
    → read buf size s ≡ err out_of_range
unfolding read
read_short buf size s v h = ground (arith, v.pos_le)

-- Where the position is the capacity there is no node: even a read of nothing uses a null pointer.
pub read_null :
    (buf : ℕ → ℕ) (s : ByteArray)
    → IsValid s
    → s.position ≡ s.capacity
    → read buf 0 s ≡ err null_deref
unfolding read
read_null buf s v e =
    ground (arith, v.pos_le, v.base_pos, row-le s.cur s.node_count s.base_size, v.row_end, v.cap)

-- `read(buf, size, position)` at the object's own position copies what `read` copies.
pub read_at-Fetched :
    (buf : ℕ → ℕ) (size : ℕ) (s : ByteArray)
    → IsValid s
    → size ≤ s.size - s.position
    → s.position < s.capacity
    → (c : Cursor) × (read_at buf size s.position s ≡ ok c.out) × Fetched s (start buf s) c 0 size
unfolding read_at
read_at-Fetched buf size s v h k =
    let (_, npos) = row_of s.position s.cur s.base_size v.row_begin v.row_end in
    let on_node = seated_node s v.seated k in
    let (c, run, f) =
      read_loop-Fetched s v.seated size (start buf s) (s.position % s.base_size)
        (sub64 (s.nodes s.cur).size (s.position % s.base_size)) 0 size
        (omega (arith, v.pos_le, v.size_le)) (omega (arith, npos, v.row_begin))
        (omega (arith, npos, v.row_begin, v.row_end))
        (ground (arith, npos, v.row_end, v.row_begin, v.sizes s.cur on_node)) (omega arith) in
    (c, ground (arith, run, v.pos_le, v.base_pos, on_node), f)
