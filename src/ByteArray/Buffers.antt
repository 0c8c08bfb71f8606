-- ===== src/ByteArray/Buffers.antt =====
-- skt/bytearray/bytearray.cpp: getReadBuffers and getWriteBuffers, which lend the chain's memory as
-- iovecs for scattered input and output.
use learn_web.Common.{
  ℕ, zero, suc, ◌+◌, ◌-◌, ◌*◌, ◌%◌, ◌≤◌, ◌<◌, ◌≡◌, refl, arith, true, false, List, [], ◌∷◌,
  if◌then◌else◌, ltb, leb, ◌==◌, sub64, Bool-cases, inl, inr,
}
use learn_web.Common.Arithmetic.{row-lt, row_of}
use learn_web.Common.Outcome.{Outcome, ok, err, out_of_fuel, ◌>>=◌}
use learn_web.ByteArray.Defs.{ByteArray, deref, mod_base, div_base, get_read_size, add_capacity}
use learn_web.ByteArray.Invariant.{IsSeated, IsValid, seated_node, HasRoom, add_capacity-HasRoom}

-- `iov_base` is an offset in a node.
pub record Iovec : Type 0 where
  pub node : ℕ
  pub offset : ℕ
  pub len : ℕ

-- The loop of getWriteBuffers; `m_cur` stays, and `cur` walks.
unfoldable pub write_iovecs : ℕ → ByteArray → ℕ → ℕ → ℕ → ℕ → Outcome (List Iovec)
unfolding deref
write_iovecs zero s cur npos ncap len = if len == 0 then ok [] else err out_of_fuel
write_iovecs (suc fuel) s cur npos ncap len = elim (len == 0) [
  | true ↦ ok []
  | false ↦ elim (leb len ncap) [
    | true ↦ ok (record { node = cur; offset = npos; len = len } ∷ [])
    | false ↦ elim (deref s (cur + 1)) [
      | err e ↦ err e
      | ok next ↦ elim (write_iovecs fuel s (cur + 1) 0 next.size (len - ncap)) [
        | err e ↦ err e
        | ok rest ↦ ok (record { node = cur; offset = npos; len = ncap } ∷ rest)
      ]
    ]
  ]
]

-- ByteArray::getWriteBuffers: the object with its new capacity, the count, and what is pushed.
unfoldable pub get_write_buffers : ℕ → ByteArray → Outcome (ByteArray × ℕ × List Iovec)
unfolding deref mod_base
get_write_buffers len s = if len == 0 then ok (s, 0, []) else do
  t ← add_capacity len s
  npos ← mod_base t t.position
  node ← deref t t.cur
  buffs ← write_iovecs len t t.cur npos (sub64 node.size npos) len
  ok (t, len, buffs)

-- The loop of both getReadBuffers; `size` is the length asked for, which the loop does not change,
-- and `len`, a uint64_t, is what is left of it.
unfoldable pub read_iovecs : ℕ → ByteArray → ℕ → ℕ → ℕ → ℕ → ℕ → Outcome (List Iovec)
unfolding deref
read_iovecs zero s size cur npos ncap len = if len == 0 then ok [] else err out_of_fuel
read_iovecs (suc fuel) s size cur npos ncap len = elim (len == 0) [
  | true ↦ ok []
  | false ↦ elim (leb size ncap) [
    | true ↦ ok (record { node = cur; offset = npos; len = len } ∷ [])
    | false ↦ elim (deref s (cur + 1)) [
      | err e ↦ err e
      | ok next ↦ elim (read_iovecs fuel s size (cur + 1) 0 next.size (sub64 len ncap)) [
        | err e ↦ err e
        | ok rest ↦ ok (record { node = cur; offset = npos; len = ncap } ∷ rest)
      ]
    ]
  ]
]

-- ByteArray::getReadBuffers(buffs, len); a round moves on by a node, so the nodes are fuel enough.
unfoldable pub get_read_buffers : ℕ → ByteArray → Outcome (ℕ × List Iovec)
unfolding deref mod_base get_read_size
get_read_buffers len s =
    let size = if ltb (get_read_size s) len then get_read_size s else len in
    if size == 0 then ok (0, []) else do
      npos ← mod_base s s.position
      node ← deref s s.cur
      buffs ← read_iovecs (suc s.node_count) s size s.cur npos (sub64 node.size npos) size
      ok (size, buffs)

-- The `while(count > 0)` that walks from m_root, and a last use of the node.
unfoldable pub walk : ℕ → ByteArray → ℕ → Outcome ℕ
unfolding deref
walk zero s cur = ok cur
walk (suc count) s cur = elim (deref s cur) [ err e ↦ err e | ok _ ↦ walk count s (cur + 1) ]

-- ByteArray::getReadBuffers(buffs, len, position): `ncap` is taken from m_cur, not from `cur`.
unfoldable pub get_read_buffers_at : ℕ → ℕ → ByteArray → Outcome (ℕ × List Iovec)
unfolding deref mod_base div_base get_read_size walk
get_read_buffers_at len position s =
    let size = if ltb (get_read_size s) len then get_read_size s else len in
    if size == 0 then ok (0, []) else do
      npos ← mod_base s position
      count ← div_base s position
      cur ← walk count s 0
      node ← deref s s.cur
      first ← deref s cur
      buffs ← read_iovecs (suc s.node_count) s size cur npos (sub64 node.size npos) size
      ok (size, buffs)

-- The iovecs are the `n` bytes from the position `p` on, in order, each within a node.
abbrev pub Covers : ByteArray → ℕ → List Iovec → ℕ → Type 0
Covers s p [] n = n ≡ 0
Covers s p (v ∷ vs) n =
    (v.node * s.base_size + v.offset ≡ p)
    × (v.offset + v.len ≤ s.base_size)
    × (v.node < s.node_count)
    × (v.len ≤ n)
    × Covers s (p + v.len) vs (n - v.len)

module _ (s : ByteArray) (v : IsSeated s) where
  write_iovecs-Covers :
      (fuel cur npos ncap len p : ℕ)
      → cur * s.base_size + npos ≡ p
      → npos < s.base_size
      → npos + ncap ≡ s.base_size
      → p + len ≤ s.capacity
      → len ≤ fuel
      → (vs : List Iovec) × (write_iovecs fuel s cur npos ncap len ≡ ok vs) × Covers s p vs len
  unfolding write_iovecs
  write_iovecs-Covers zero cur npos ncap zero p at inside width room enough = ([], refl, refl)
  write_iovecs-Covers zero cur npos ncap (suc m) p at inside width room enough =
      absurd (omega arith)
  write_iovecs-Covers (suc fuel) cur npos ncap zero p at inside width room enough = ([], refl, refl)
  write_iovecs-Covers (suc fuel) cur npos ncap (suc m) p at inside width room enough =
      elim (Bool-cases (leb (suc m) ncap)) [
        | inl last ↦
            let fits : suc m ≤ ncap = ground arith in
            (
              record { node = cur; offset = npos; len = suc m } ∷ [],
              ground arith,
              (at, omega arith, on_node, omega arith, omega arith),
            )
        | inr more ↦
            let short : ncap < suc m = ground arith in
            let next : cur + 1 < s.node_count = has_next short in
            let (vs, run, covers) =
              write_iovecs-Covers fuel (cur + 1) 0 (s.nodes (cur + 1)).size (suc m - ncap)
                (p + ncap) (omega arith) v.base_pos (omega (arith, v.sizes (cur + 1) next))
                (omega arith) (omega arith) in
            (
              record { node = cur; offset = npos; len = ncap } ∷ vs,
              ground (arith, run, next),
              (at, omega arith, on_node, omega arith, covers),
            )
      ]
    where
      on_node : cur < s.node_count
      on_node = row-lt cur s.node_count s.base_size (omega (arith, v.cap))

      has_next : ncap < suc m → cur + 1 < s.node_count
      has_next h = row-lt (cur + 1) s.node_count s.base_size (omega (arith, v.cap))

-- getWriteBuffers makes room and lends exactly the next `len + 1` bytes behind the position; the
-- position and the size stay.
pub get_write_buffers-Covers :
    (m : ℕ) (s : ByteArray)
    → IsValid s
    → (t : ByteArray) × (vs : List Iovec) × (get_write_buffers (suc m) s ≡ ok (t, suc m, vs))
      × HasRoom s t (suc m)
      × Covers t s.position vs (suc m)
unfolding get_write_buffers
get_write_buffers-Covers m s v =
    let (t, grown, g) = add_capacity-HasRoom (suc m) s v.seated in
    let (_, npos) = row_of t.position t.cur t.base_size g.seated.row_begin g.seated.row_end in
    let on_node = seated_node t g.seated (omega (arith, g.room)) in
    let (vs, run, covers) =
      write_iovecs-Covers t g.seated (suc m) t.cur (t.position % t.base_size)
        (sub64 (t.nodes t.cur).size (t.position % t.base_size)) (suc m) s.position
        (omega (arith, npos, g.seated.row_begin, g.position))
        (omega (arith, npos, g.seated.row_begin, g.seated.row_end))
        (ground (arith, npos, g.seated.row_end, g.seated.sizes t.cur on_node))
        (omega (arith, g.room, g.position)) (omega arith) in
    (t, vs, ground (arith, grown, run, on_node, g.seated.base_pos), g, covers)
