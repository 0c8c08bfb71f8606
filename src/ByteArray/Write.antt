-- ===== src/ByteArray/Write.antt =====
-- skt/bytearray/bytearray.cpp, `write`: what it leaves in the chain, node by node.
use learn_web.Common.{
  ℕ, zero, suc, ◌+◌, ◌-◌, ◌*◌, ◌%◌, ◌≤◌, ◌<◌, ◌≡◌, refl, ◌∙◌, arith, ◌&&◌, if◌then◌else◌, ltb, leb,
  sub64, ◌==◌, Bool-cases, inl, inr,
}
use learn_web.Common.Arithmetic.{row-lt, row_of}
use learn_web.Common.Outcome.{ok}
use learn_web.ByteArray.Defs.{ByteArray, put_bytes, add_capacity, write_loop, write}
use learn_web.ByteArray.Invariant.{
  cell, IsSeated, IsValid, seated_node, cell-put_bytes, HasRoom, add_capacity-HasRoom,
}

-- What writing `size` bytes of `buf` from `bpos` on at the cursor makes of `s`.
pub record Written (s t : ByteArray) (buf : ℕ → ℕ) (bpos size : ℕ) : Type 0 where
  pub seated : IsSeated t
  pub base_size : t.base_size ≡ s.base_size
  pub capacity : t.capacity ≡ s.capacity
  pub size_kept : t.size ≡ s.size
  pub endian : t.endian ≡ s.endian
  pub position : t.position ≡ s.position + size
  pub bytes :
      (i j : ℕ)
      → j < s.base_size
      → cell t i j ≡ (
          let p = i * s.base_size + j in
          if leb s.position p && ltb p (s.position + size)
          then buf (bpos + (p - s.position))
          else cell s i j)

-- The state behind one round: `n` bytes copied at `npos`, the cursor at `next`.
abbrev after_round : ByteArray → ℕ → (ℕ → ℕ) → ℕ → ℕ → ℕ → ByteArray
after_round s npos buf bpos n next = record (put_bytes s npos buf bpos n) {
  cur = next;
  position = s.position + n;
}

module _ (s : ByteArray) (npos : ℕ) (buf : ℕ → ℕ) (bpos n next : ℕ) (v : IsSeated s)
    (at : s.cur * s.base_size + npos ≡ s.position) (fits : npos + n ≤ s.base_size)
    (room : s.position + n ≤ s.capacity) (begins : next * s.base_size ≤ s.position + n)
    (ends : s.position + n < next * s.base_size + s.base_size) where
  after_round-Written : Written s (after_round s npos buf bpos n next) buf bpos n
  unfolding put_bytes
  after_round-Written = record {
    seated = record {
      base_pos = v.base_pos;
      rooted = v.rooted;
      sizes = λ i k. ground (arith, v.sizes i);
      cap = v.cap;
      row_begin = begins;
      row_end = ends;
      within = room;
    };
    base_size = refl;
    capacity = refl;
    size_kept = refl;
    endian = refl;
    position = refl;
    bytes = λ i j k. cell-put_bytes s npos buf bpos n i j v at fits k;
  }

-- Two writes one after the other.
Written-trans :
    (s t u : ByteArray) (buf : ℕ → ℕ) (bpos m n total : ℕ)
    → m + n ≡ total
    → Written s t buf bpos m
    → Written t u buf (bpos + m) n
    → Written s u buf bpos total
Written-trans s t u buf bpos m n total e a b = record {
  seated = b.seated;
  base_size = b.base_size ∙ a.base_size;
  capacity = b.capacity ∙ a.capacity;
  size_kept = b.size_kept ∙ a.size_kept;
  endian = b.endian ∙ a.endian;
  position = omega (arith, a.position, b.position);
  bytes = λ i j k.
      ground (arith, a.bytes i j k, b.bytes i j (rw a.base_size k), a.position, a.base_size);
}

write_loop-zero :
    (fuel : ℕ) (buf : ℕ → ℕ) (s : ByteArray) (npos ncap bpos : ℕ)
    → write_loop fuel buf s npos ncap bpos 0 ≡ ok s
unfolding write_loop
write_loop-zero zero buf s npos ncap bpos = refl
write_loop-zero (suc fuel) buf s npos ncap bpos = refl

Written-zero : (s : ByteArray) (buf : ℕ → ℕ) (bpos : ℕ) → IsSeated s → Written s s buf bpos 0
Written-zero s buf bpos v = record {
  seated = v;
  base_size = refl;
  capacity = refl;
  size_kept = refl;
  endian = refl;
  position = omega arith;
  bytes = λ i j k. ground arith;
}

-- The node behind the cursor after a last round.
abbrev next_node : ByteArray → ℕ → ℕ
next_node s end = if (s.nodes s.cur).size == end then s.cur + 1 else s.cur

-- It is the node of the position reached.
next_node_row :
    (s : ByteArray) (end : ℕ)
    → (s.nodes s.cur).size ≡ s.base_size
    → 0 < s.base_size
    → end ≤ s.base_size
    → (next_node s end * s.base_size ≤ s.cur * s.base_size + end)
      × (s.cur * s.base_size + end < next_node s end * s.base_size + s.base_size)
next_node_row s end e pos h = elim (Bool-cases ((s.nodes s.cur).size == end)) [
  | inl full ↦
      let whole : s.base_size ≡ end = ground arith in
      rw full (omega (arith, whole), omega (arith, whole))
  | inr part ↦ let below : end < s.base_size = ground arith in rw part (omega arith, omega arith)
]

write_loop_last :
    (fuel : ℕ) (buf : ℕ → ℕ) (s : ByteArray) (npos ncap bpos m : ℕ)
    → s.cur < s.node_count
    → suc m ≤ ncap
    → write_loop (suc fuel) buf s npos ncap bpos (suc m)
      ≡ ok (after_round s npos buf bpos (suc m) (next_node s (npos + suc m)))
unfolding write_loop
write_loop_last fuel buf s npos ncap bpos m h k = ground (
  arith,
  write_loop-zero fuel buf (after_round s npos buf bpos (suc m) (next_node s (npos + suc m))) npos
      ncap (bpos + suc m),
)

write_loop_more :
    (fuel : ℕ) (buf : ℕ → ℕ) (s : ByteArray) (npos ncap bpos m : ℕ)
    → s.cur + 1 < s.node_count
    → ncap < suc m
    → write_loop (suc fuel) buf s npos ncap bpos (suc m)
      ≡ write_loop fuel buf
          (after_round s npos buf bpos ncap (s.cur + 1))
          0
          (s.nodes (s.cur + 1)).size
          (bpos + ncap)
          (suc m - ncap)
unfolding write_loop
write_loop_more fuel buf s npos ncap bpos m h k = ground arith

write_loop-Written :
    (fuel : ℕ) (buf : ℕ → ℕ) (s : ByteArray) (npos ncap bpos size : ℕ)
    → IsSeated s
    → s.position + size ≤ s.capacity
    → s.cur * s.base_size + npos ≡ s.position
    → npos + ncap ≡ s.base_size
    → size ≤ fuel
    → (t : ByteArray) × (write_loop fuel buf s npos ncap bpos size ≡ ok t)
      × Written s t buf bpos size
unfolding put_bytes
write_loop-Written fuel buf s npos ncap bpos zero v room at width enough =
    (s, write_loop-zero fuel buf s npos ncap bpos, Written-zero s buf bpos v)
write_loop-Written zero buf s npos ncap bpos (suc m) v room at width enough = absurd (omega arith)
write_loop-Written (suc fuel) buf s npos ncap bpos (suc m) v room at width enough =
    elim (Bool-cases (leb (suc m) ncap)) [
      | inl last ↦
          let fits : suc m ≤ ncap = ground arith in
          let (begins, ends) = row fits in
          (
            after_round s npos buf bpos (suc m) (next_node s (npos + suc m)),
            write_loop_last fuel buf s npos ncap bpos m on_node fits,
            after_round-Written s npos buf bpos (suc m) (next_node s (npos + suc m)) v at
                (omega arith) room (omega (arith, begins)) (omega (arith, ends)),
          )
      | inr more ↦
          let short : ncap < suc m = ground arith in
          let in_chain : s.cur + 1 < s.node_count = has_next short in
          let mid = after_round s npos buf bpos ncap (s.cur + 1) in
          let first =
            after_round-Written s npos buf bpos ncap (s.cur + 1) v at (omega arith) (omega arith)
              (omega arith) (omega arith) in
          let rest =
            write_loop-Written fuel buf mid 0 (s.nodes (s.cur + 1)).size (bpos + ncap)
              (suc m - ncap) first.seated (omega arith) (omega arith)
              (omega (arith, v.sizes (s.cur + 1) in_chain)) (omega arith) in
          (
            rest.0,
            write_loop_more fuel buf s npos ncap bpos m in_chain short ∙ rest.1,
            Written-trans s mid rest.0 buf bpos ncap (suc m - ncap) (suc m) (omega arith) first
                rest.2,
          )
    ]
  where
    on_node : s.cur < s.node_count
    on_node = seated_node s v (omega arith)

    row :
        suc m ≤ ncap
        → (next_node s (npos + suc m) * s.base_size ≤ s.cur * s.base_size + (npos + suc m))
          × (s.cur * s.base_size + (npos + suc m)
              < next_node s (npos + suc m) * s.base_size + s.base_size)
    row h = next_node_row s (npos + suc m) (v.sizes s.cur on_node) v.base_pos (omega arith)

    has_next : ncap < suc m → s.cur + 1 < s.node_count
    has_next h = row-lt (s.cur + 1) s.node_count s.base_size (omega (arith, v.cap))

-- What `write(buf, size)` promises.
pub record Wrote (s t : ByteArray) (buf : ℕ → ℕ) (size : ℕ) : Type 0 where
  pub valid : IsValid t
  pub base_size : t.base_size ≡ s.base_size
  pub endian : t.endian ≡ s.endian
  pub position : t.position ≡ s.position + size
  pub size_max : t.size ≡ (if ltb s.size (s.position + size) then s.position + size else s.size)
  pub bytes :
      (i j : ℕ)
      → j < s.base_size
      → cell t i j ≡ (
          let p = i * s.base_size + j in
          if leb s.position p && ltb p (s.position + size)
          then buf (p - s.position)
          else cell s i j)

-- The rest of `write` behind `addCapacity`.
module _ (s t u : ByteArray) (buf : ℕ → ℕ) (size : ℕ) (v : IsValid s) (g : HasRoom s t size)
    (w : Written t u buf 0 size) where
  abbrev finish : ByteArray
  finish = record u { size = if ltb u.size u.position then u.position else u.size }

  finish-Wrote : Wrote s finish buf size
  finish-Wrote = record {
    valid = record {
      seated = record {
        base_pos = w.seated.base_pos;
        rooted = w.seated.rooted;
        sizes = w.seated.sizes;
        cap = w.seated.cap;
        row_begin = w.seated.row_begin;
        row_end = w.seated.row_end;
        within = w.seated.within;
      };
      pos_le = ground arith;
      size_le = ground (arith, w.seated.within, v.size_le, w.size_kept, w.capacity);
    };
    base_size = w.base_size ∙ g.base_size;
    endian = w.endian ∙ g.endian;
    position = omega (arith, w.position, g.position);
    size_max = ground (arith, w.position, g.position, w.size_kept, g.size_kept);
    bytes = λ i j k.
        ground (arith, g.bytes i j, w.bytes i j (rw g.base_size k), g.position, g.base_size);
  }

write-zero : (buf : ℕ → ℕ) (s : ByteArray) → write buf 0 s ≡ ok s
unfolding write
write-zero buf s = refl

write_steps :
    (buf : ℕ → ℕ) (m : ℕ) (s t u : ByteArray)
    → add_capacity (suc m) s ≡ ok t
    → 0 < t.base_size
    → t.cur < t.node_count
    → write_loop
        (suc m)
        buf
        t
        (t.position % t.base_size)
        (sub64 (t.nodes t.cur).size (t.position % t.base_size))
        0
        (suc m)
      ≡ ok u
    → write buf (suc m) s
      ≡ ok (record u { size = if ltb u.size u.position then u.position else u.size })
unfolding write
write_steps buf m s t u e pos on_node run = ground arith

Wrote-refl : (s : ByteArray) (buf : ℕ → ℕ) → IsValid s → Wrote s s buf 0
Wrote-refl s buf v = record {
  valid = v;
  base_size = refl;
  endian = refl;
  position = omega arith;
  size_max = ground (arith, v.pos_le);
  bytes = λ i j k. ground arith;
}

-- On a valid object `write` always succeeds, and does what it promises.
pub write-Wrote :
    (buf : ℕ → ℕ) (size : ℕ) (s : ByteArray)
    → IsValid s
    → (t : ByteArray) × (write buf size s ≡ ok t) × Wrote s t buf size
write-Wrote buf zero s v = (s, write-zero buf s, Wrote-refl s buf v)
write-Wrote buf (suc m) s v =
    let (t, grown, g) = add_capacity-HasRoom (suc m) s v.seated in
    let (_, npos) = row_of t.position t.cur t.base_size g.seated.row_begin g.seated.row_end in
    let on_node = seated_node t g.seated (omega (arith, g.room)) in
    let (u, run, w) =
      write_loop-Written (suc m) buf t (t.position % t.base_size)
        (sub64 (t.nodes t.cur).size (t.position % t.base_size)) 0 (suc m) g.seated g.room
        (omega (arith, npos, g.seated.row_begin))
        (ground (arith, npos, g.seated.row_end, g.seated.sizes t.cur on_node)) (omega arith) in
    (
      finish s t u buf (suc m) v g w,
      write_steps buf m s t u grown g.seated.base_pos on_node run,
      finish-Wrote s t u buf (suc m) v g w,
    )
