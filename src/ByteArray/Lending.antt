-- ===== src/ByteArray/Lending.antt =====
-- skt/bytearray/bytearray.cpp, getReadBuffers: its loop tests the length asked for where it means the
-- length left, which is right as long as that length is at most a node.
use learn_web.Common.{
  ℕ, zero, suc, ◌+◌, ◌-◌, ◌*◌, ◌%◌, ◌^◌, ◌≤◌, ◌<◌, ◌≡◌, ◌≢◌, sym, ap, ◌∙◌, arith, List, [], ◌∷◌,
  if◌then◌else◌, leb, sub64, Bool-cases, inl, inr,
}
use learn_web.Common.Arithmetic.{row-lt, row-le, row_of}
use learn_web.Common.Outcome.{ok, err, null_deref}
use native.Mathlib.Nat.{mul-mod_left}
use learn_web.ByteArray.Defs.{ByteArray}
use learn_web.ByteArray.Invariant.{IsSeated, IsValid, seated_node}
use learn_web.ByteArray.Buffers.{Iovec, read_iovecs, get_read_buffers, Covers}

-- The call behind its tests.
get_read_buffers_ok :
    (n : ℕ) (s : ByteArray) (vs : List Iovec)
    → IsValid s
    → 0 < n
    → n ≤ s.size - s.position
    → s.cur < s.node_count
    → read_iovecs
        (suc s.node_count)
        s
        n
        s.cur
        (s.position % s.base_size)
        (sub64 (s.nodes s.cur).size (s.position % s.base_size))
        n
      ≡ ok vs
    → get_read_buffers n s ≡ ok (n, vs)
unfolding get_read_buffers
get_read_buffers_ok n s vs v pos h on_node run = ground (arith, v.pos_le, v.base_pos)

get_read_buffers_err :
    (n : ℕ) (s : ByteArray)
    → IsValid s
    → 0 < n
    → n ≤ s.size - s.position
    → s.cur < s.node_count
    → read_iovecs
        (suc s.node_count)
        s
        n
        s.cur
        (s.position % s.base_size)
        (sub64 (s.nodes s.cur).size (s.position % s.base_size))
        n
      ≡ err null_deref
    → get_read_buffers n s ≡ err null_deref
unfolding get_read_buffers
get_read_buffers_err n s v pos h on_node run = ground (arith, v.pos_le, v.base_pos)

one_node :
    (fuel : ℕ) (s : ByteArray) (size cur npos ncap len : ℕ)
    → 0 < len
    → size ≤ ncap
    → read_iovecs (suc fuel) s size cur npos ncap len
      ≡ ok (record { node = cur; offset = npos; len = len } ∷ [])
unfolding read_iovecs
one_node fuel s size cur npos ncap len pos h = ground arith

two_nodes :
    (fuel : ℕ) (s : ByteArray) (size cur npos ncap len : ℕ)
    → 0 < fuel
    → ncap < len
    → ncap < size
    → cur + 1 < s.node_count
    → size ≤ (s.nodes (cur + 1)).size
    → read_iovecs (suc fuel) s size cur npos ncap len
      ≡ ok (
          record { node = cur; offset = npos; len = ncap }
          ∷ record { node = cur + 1; offset = 0; len = len - ncap }
          ∷ [])
unfolding read_iovecs
two_nodes zero s size cur npos ncap len some h k next fits = absurd (omega arith)
two_nodes (suc fuel) s size cur npos ncap len some h k next fits = ground arith

-- A length of at most a node is lent exactly: the iovecs are the `n` bytes from the position on.
pub get_read_buffers-Covers :
    (n : ℕ) (s : ByteArray)
    → IsValid s
    → 0 < n
    → n ≤ s.size - s.position
    → n ≤ s.base_size
    → (vs : List Iovec) × (get_read_buffers n s ≡ ok (n, vs)) × Covers s s.position vs n
get_read_buffers-Covers n s v pos h fits =
    let on_node = seated_node s v.seated (omega (arith, v.size_le, v.pos_le)) in
    let (_, npos) = row_of s.position s.cur s.base_size v.row_begin v.row_end in
    let col = s.position % s.base_size in
    let ncap = sub64 (s.nodes s.cur).size col in
    let width : col + ncap ≡ s.base_size =
      ground (arith, npos, v.row_end, v.row_begin, v.sizes s.cur on_node) in
    let at : s.cur * s.base_size + col ≡ s.position = omega (arith, npos, v.row_begin) in
    elim (Bool-cases (leb n ncap)) [
      | inl single ↦
          let inside : n ≤ ncap = ground arith in
          (
            record { node = s.cur; offset = col; len = n } ∷ [],
            get_read_buffers_ok n s _ v pos h on_node
                (one_node s.node_count s n s.cur col ncap n pos inside),
            (at, omega (arith, width), on_node, omega arith, omega arith),
          )
      | inr double ↦
          let over : ncap < n = ground arith in
          let next : s.cur + 1 < s.node_count =
            row-lt (s.cur + 1) s.node_count s.base_size
              (omega (arith, width, at, v.cap, v.size_le, v.pos_le)) in
          (
            record { node = s.cur; offset = col; len = ncap }
                ∷ record { node = s.cur + 1; offset = 0; len = n - ncap }
                ∷ [],
            get_read_buffers_ok n s _ v pos h on_node (
                two_nodes s.node_count s n s.cur col ncap n v.rooted over over next
                  (omega (arith, v.sizes (s.cur + 1) next))),
            (
              at,
              omega (arith, width),
              on_node,
              omega (arith, over),
              (omega (arith, width, at), omega arith, next, omega arith, omega arith),
            ),
          )
    ]

-- A round that is not the last, at the end of the chain and before it.
no_next :
    (fuel : ℕ) (s : ByteArray) (size cur npos ncap len : ℕ)
    → 0 < len
    → ncap < size
    → s.node_count ≤ cur + 1
    → read_iovecs (suc fuel) s size cur npos ncap len ≡ err null_deref
unfolding read_iovecs
no_next fuel s size cur npos ncap len pos h end = ground arith

next_off :
    (fuel : ℕ) (s : ByteArray) (size cur npos ncap len : ℕ)
    → 0 < len
    → ncap < size
    → cur + 1 < s.node_count
    → read_iovecs fuel s size (cur + 1) 0 (s.nodes (cur + 1)).size (sub64 len ncap) ≡ err null_deref
    → read_iovecs (suc fuel) s size cur npos ncap len ≡ err null_deref
unfolding read_iovecs
next_off fuel s size cur npos ncap len pos h next run = ground arith

-- What is left at the node `c` of a length that ends at the position `end`, as a uint64_t.
abbrev left_at : ByteArray → ℕ → ℕ → ℕ
left_at s end c =
    if leb (c * s.base_size) end then end - c * s.base_size else end + 2 ^ 64 - c * s.base_size

module _ (s : ByteArray) (v : IsSeated s) (end size : ℕ) (inside : end ≤ s.capacity)
    (small : s.capacity < 2 ^ 64) (ragged : end % s.base_size ≢ 0) (long : s.base_size < size) where
  no_row : (c : ℕ) → c * s.base_size ≢ end
  no_row c e = ragged (ap (λ (x : ℕ). x % s.base_size) (sym e) ∙ mul-mod_left c s.base_size)

  row_inside : (c : ℕ) → c < s.node_count → c * s.base_size + s.base_size ≤ s.capacity
  row_inside c h = omega (arith, row-le c s.node_count s.base_size h, v.cap)

  left_pos : (c : ℕ) → c < s.node_count → 0 < left_at s end c
  left_pos c h = ground (arith, row_inside c, no_row c)

  left_step :
      (c : ℕ) → c < s.node_count → sub64 (left_at s end c) s.base_size ≡ left_at s end (c + 1)
  left_step c h = ground (arith, row_inside c, no_row c)

  runs_off :
      (fuel cur : ℕ)
      → cur < s.node_count
      → s.node_count ≤ fuel + cur
      → read_iovecs fuel s size cur 0 (s.nodes cur).size (left_at s end cur) ≡ err null_deref
  runs_off zero cur h enough = absurd (omega arith)
  runs_off (suc fuel) cur h enough = elim (Bool-cases (leb s.node_count (cur + 1))) [
    | inl end_of_chain ↦
        no_next fuel s size cur 0 (s.nodes cur).size (left_at s end cur) (left_pos cur h)
          (omega (arith, v.sizes cur h)) (ground arith)
    | inr more ↦
        let next : cur + 1 < s.node_count = ground arith in
        next_off fuel s size cur 0 (s.nodes cur).size (left_at s end cur) (left_pos cur h)
          (omega (arith, v.sizes cur h)) next
          (rw (v.sizes cur h, left_step cur h) (runs_off fuel (cur + 1) next (omega arith)))
  ]

-- A length above a node that does not end on a node boundary makes the loop run off the chain: the
-- length left passes below zero, and the call uses a null pointer.
pub get_read_buffers_long :
    (n : ℕ) (s : ByteArray)
    → IsValid s
    → n ≤ s.size - s.position
    → s.base_size < n
    → (s.position + n) % s.base_size ≢ 0
    → s.capacity < 2 ^ 64
    → get_read_buffers n s ≡ err null_deref
get_read_buffers_long n s v h long ragged small =
    let on_node = seated_node s v.seated (omega (arith, v.size_le, v.pos_le)) in
    let (_, npos) = row_of s.position s.cur s.base_size v.row_begin v.row_end in
    let col = s.position % s.base_size in
    let ncap = sub64 (s.nodes s.cur).size col in
    let width : col + ncap ≡ s.base_size =
      ground (arith, npos, v.row_end, v.row_begin, v.sizes s.cur on_node) in
    let at : s.cur * s.base_size + col ≡ s.position = omega (arith, npos, v.row_begin) in
    let end = s.position + n in
    let next : s.cur + 1 < s.node_count =
      row-lt (s.cur + 1) s.node_count s.base_size
        (omega (arith, width, at, v.cap, v.size_le, v.pos_le)) in
    let first : sub64 n ncap ≡ left_at s end (s.cur + 1) = ground (arith, width, at, long) in
    get_read_buffers_err n s v (omega arith) h on_node (
      next_off s.node_count s n s.cur col ncap n (omega arith) (omega (arith, width)) next (
        rw first (
          runs_off s v.seated end n (omega (arith, v.size_le, v.pos_le)) small ragged long
            s.node_count (s.cur + 1) next (omega arith))))
