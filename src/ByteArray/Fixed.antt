-- ===== src/ByteArray/Fixed.antt =====
-- skt/bytearray/bytearray.cpp: the integers of fixed width, writeFint16 to readFuint64.
use learn_web.Common.{
  ℕ, suc, ◌+◌, ◌-◌, ◌^◌, ◌≤◌, ◌<◌, ◌≡◌, sym, ap, ◌∙◌, arith, if◌then◌else◌, ltb, Bool-cases, inl,
  inr,
}
use learn_web.Common.Outcome.{ok, ◌>>=◌, then_ok}
use learn_web.Endian.{
  ByteOrder, same_order, byteswap, to_memory, from_memory, from_memory-to_memory, from_memory_ext,
  to_memory-byteswap, byteswap-byteswap, byteswap-lt, same_order_iff,
}
use learn_web.ByteArray.Defs.{ByteArray, write, read, set_position}
use learn_web.ByteArray.Invariant.{IsValid}
use learn_web.ByteArray.Flat.{
  Flat, view, flat_write, flat_read, skip, write-refines, read-refines, read-write,
}
use learn_web.ByteArray.Codec.{read_object, write_fixed, read_fixed}
use mathlib.Core.Path.{fun_ext}

-- The bytes that a word of `n` bytes is written as: those of the word in the buffer's order,
-- whatever the machine's order is.
stored-to_memory :
    (host order : ByteOrder) (n v i : ℕ)
    → i < n
    → to_memory host n (if same_order order host then v else byteswap n v) i ≡ to_memory order n v i
stored-to_memory host order n v i h = elim (Bool-cases (same_order order host)) [
  | inl same ↦
      rw same (ap (λ (o : ByteOrder). to_memory o n v i) (sym (same_order_iff order host same)))
  | inr other ↦ rw other (to_memory-byteswap host order n v i other h)
]

flat_write_ext :
    (f g : ℕ → ℕ) (n : ℕ) (s : Flat)
    → ((i : ℕ) → i < n → f i ≡ g i)
    → flat_write f n s ≡ flat_write g n s
flat_write_ext f g n s h =
    ap
      (λ (c : ℕ → ℕ). record {
        position = s.position + n;
        size = if ltb s.size (s.position + n) then s.position + n else s.size;
        order = s.order;
        content = c;
      })
      (fun_ext λ p. ground (arith, h (p - s.position)))

-- An integer of `n` bytes is written in the byte order that the buffer is set to, on a machine of
-- either order: the bytes at the position become those of the value in that order.
pub write_fixed-refines :
    (host : ByteOrder) (n v : ℕ) (s : ByteArray)
    → IsValid s
    → (t : ByteArray) × (write_fixed host n v s ≡ ok t)
      × IsValid t
      × (view t ≡ flat_write (to_memory s.endian n v) n (view s))
unfolding write_fixed
write_fixed-refines host n v s valid =
    let stored : ℕ = if same_order s.endian host then v else byteswap n v in
    let (t, run, valid_t, view_t) = write-refines (to_memory host n stored) n s valid in
    (
      t,
      run,
      valid_t,
      view_t
          ∙ flat_write_ext (to_memory host n stored) (to_memory s.endian n v) n (view s)
              (stored-to_memory host s.endian n v),
    )

-- Swapping on the way in and on the way out cancels.
fixed_value :
    (host order : ByteOrder) (n v : ℕ)
    → v < 256 ^ n
    → (if same_order order host
        then from_memory host n (λ k.
          if ltb k n
          then to_memory host n (if same_order order host then v else byteswap n v) k
          else 0)
        else byteswap n (
            from_memory host n (λ k.
              if ltb k n
              then to_memory host n (if same_order order host then v else byteswap n v) k
              else 0)))
      ≡ v
fixed_value host order n v h = elim (Bool-cases (same_order order host)) [
  | inl same ↦ rw same (value v ∙ from_memory-to_memory host n v h)
  | inr other ↦ rw other (
      ap (byteswap n)
        (value (byteswap n v) ∙ from_memory-to_memory host n (byteswap n v) (byteswap-lt n v))
      ∙ byteswap-byteswap n v h)
]
  where
    value :
        (u : ℕ)
        → from_memory host n (λ k. if ltb k n then to_memory host n u k else 0)
          ≡ from_memory host n (to_memory host n u)
    value u =
        from_memory_ext host n (λ k. if ltb k n then to_memory host n u k else 0)
          (to_memory host n u) (λ i k. ground arith)

-- An integer of `m + 1` bytes that was written is read back, in either byte order and on a machine
-- of either order.
pub read_fixed-write_fixed :
    (host : ByteOrder) (m v : ℕ) (s : ByteArray)
    → IsValid s
    → v < 256 ^ suc m
    → (w : ByteArray) × ((do
      t ← write_fixed host (suc m) v s
      u ← set_position s.position t
      read_fixed host (suc m) u)
        ≡ ok (v, w))
      × IsValid w
unfolding write_fixed read_fixed
read_fixed-write_fixed host m v s valid h =
    let stored : ℕ = if same_order s.endian host then v else byteswap (suc m) v in
    let buf = to_memory host (suc m) stored in
    let (w, run, valid_w, view_w) = read-write buf (λ _. 0) m s valid in
    let out : ℕ → ℕ = λ k. if ltb k (suc m) then buf k else 0 in
    let raw = from_memory host (suc m) out in
    let order_w : w.endian ≡ s.endian = ap (λ (f : Flat). f.order) view_w in
    (
      w,
      then_ok (write buf (suc m) s) (set_position s.position) (read_object host (suc m))
            (λ r. ok ((if same_order r.1.endian host then r.0 else byteswap (suc m) r.0), r.1))
            (raw, w)
            (then_ok (write buf (suc m) s) (set_position s.position) (read (λ _. 0) (suc m))
              (λ r. ok (from_memory host (suc m) r.0, r.1)) (out, w) run)
          ∙ ap (λ (x : ℕ). ok (x, w))
              (ap (λ (o : ByteOrder). if same_order o host then raw else byteswap (suc m) raw)
                  order_w
                ∙ fixed_value host s.endian (suc m) v h),
      valid_w,
    )

-- An integer that stands at the position in the buffer's order is read as it is.
pub read_fixed-refines :
    (host : ByteOrder) (n v : ℕ) (s : ByteArray)
    → IsValid s
    → n ≤ s.size - s.position
    → s.position < s.capacity
    → v < 256 ^ n
    → ((i : ℕ) → i < n → (view s).content (s.position + i) ≡ to_memory s.endian n v i)
    → (t : ByteArray) × (read_fixed host n s ≡ ok (v, t)) × IsValid t × (view t ≡ skip n (view s))
unfolding read_fixed
read_fixed-refines host n v s valid room inside h here =
    let (t, run, valid_t, view_t) = read-refines (λ _. 0) n s valid room inside in
    let order_t : t.endian ≡ s.endian = ap (λ (f : Flat). f.order) view_t in
    let raw = from_memory host n (flat_read (λ _. 0) n (view s)) in
    let stored : ℕ = if same_order s.endian host then v else byteswap n v in
    let raw_eq : raw ≡ from_memory host n (λ k. if ltb k n then to_memory host n stored k else 0) =
      from_memory_ext host n (flat_read (λ _. 0) n (view s))
        (λ k. if ltb k n then to_memory host n stored k else 0)
        (λ i k. ground (arith, here i k, stored-to_memory host s.endian n v i k)) in
    (
      t,
      rw run (
          ap (λ (x : ℕ). ok (x, t))
            (ap (λ (o : ByteOrder). if same_order o host then raw else byteswap n raw) order_t
              ∙ ap (λ (r : ℕ). if same_order s.endian host then r else byteswap n r) raw_eq
              ∙ fixed_value host s.endian n v h)),
      valid_t,
      view_t,
    )
