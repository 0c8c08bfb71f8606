-- ===== src/ByteArray/Flat.antt =====
-- skt/bytearray: the object as a client sees it, one flat sequence of bytes with a position, and
-- the operations of bytearray.cpp as operations on that sequence.
use learn_web.Common.{
  ℕ, suc, ◌+◌, ◌-◌, ◌/◌, ◌%◌, ◌≤◌, ◌<◌, ◌≡◌, refl, ap, ◌∙◌, arith, ◌&&◌, if◌then◌else◌, ltb, leb,
}
use learn_web.Common.Arithmetic.{div-mul-add-mod}
use learn_web.Common.Outcome.{ok, err, out_of_range, null_deref, ◌>>=◌}
use learn_web.Endian.{ByteOrder}
use learn_web.ByteArray.Defs.{ByteArray, write, read, set_position}
use learn_web.ByteArray.Invariant.{IsValid}
use learn_web.ByteArray.Write.{Wrote, write-Wrote}
use learn_web.ByteArray.Read.{byte_at, Fetched, moved, read-Fetched, read_short, read_null}
use learn_web.ByteArray.Seek.{sought, set_position-sought, set_position_far}
use mathlib.Core.Path.{fun_ext}
use native.Mathlib.Nat.{mod-lt}

pub record Flat : Type 0 where
  pub position : ℕ
  pub size : ℕ
  pub order : ByteOrder
  pub content : ℕ → ℕ

abbrev pub view : ByteArray → Flat
view s = record { position = s.position; size = s.size; order = s.endian; content = byte_at s }

-- `n` bytes of `buf` replace those from the position on, and the size grows to hold them.
abbrev pub flat_write : (ℕ → ℕ) → ℕ → Flat → Flat
flat_write buf n f = record {
  position = f.position + n;
  size = if ltb f.size (f.position + n) then f.position + n else f.size;
  order = f.order;
  content =
      λ p. if leb f.position p && ltb p (f.position + n) then buf (p - f.position) else f.content p;
}

-- The caller's buffer behind a read of `n` bytes.
abbrev pub flat_read : (ℕ → ℕ) → ℕ → Flat → ℕ → ℕ
flat_read buf n f k = if ltb k n then f.content (f.position + k) else buf k

-- `n` bytes further on.
abbrev pub skip : ℕ → Flat → Flat
skip n f = record f { position = f.position + n }

abbrev pub flat_seek : ℕ → Flat → Flat
flat_seek v f = record f { position = v; size = if ltb f.size v then v else f.size }

Flat-eq :
    (f g : Flat)
    → f.position ≡ g.position
    → f.size ≡ g.size
    → f.order ≡ g.order
    → f.content ≡ g.content
    → f ≡ g
Flat-eq f g p q r c i = record { position = p i; size = q i; order = r i; content = c i }

Wrote-view :
    (s t : ByteArray) (buf : ℕ → ℕ) (n : ℕ)
    → IsValid s
    → Wrote s t buf n
    → view t ≡ flat_write buf n (view s)
Wrote-view s t buf n v w =
    Flat-eq (view t) (flat_write buf n (view s)) w.position w.size_max w.endian (
      fun_ext λ p. rw w.base_size (
        ground (
          arith,
          w.bytes (p / s.base_size) (p % s.base_size) (mod-lt p v.base_pos),
          div-mul-add-mod p s.base_size,
        )))

-- `write(buf, n)` on a valid object succeeds, keeps it valid, and is `flat_write` on its view.
pub write-refines :
    (buf : ℕ → ℕ) (n : ℕ) (s : ByteArray)
    → IsValid s
    → (t : ByteArray) × (write buf n s ≡ ok t) × IsValid t × (view t ≡ flat_write buf n (view s))
write-refines buf n s v =
    let (t, run, w) = write-Wrote buf n s v in (t, run, w.valid, Wrote-view s t buf n v w)

Fetched-read :
    (s : ByteArray) (buf : ℕ → ℕ) (n : ℕ) {c : _}
    → Fetched s (record { cur = s.cur; position = s.position; out = buf }) c 0 n
    → c.out ≡ flat_read buf n (view s)
Fetched-read s buf n f = fun_ext λ k. ground (arith, f.out k)

-- Where the data is there and the cursor stands on a node, `read(buf, n)` succeeds, keeps the
-- object valid, hands over the bytes of the view, and moves only the position.
pub read-refines :
    (buf : ℕ → ℕ) (n : ℕ) (s : ByteArray)
    → IsValid s
    → n ≤ s.size - s.position
    → s.position < s.capacity
    → (t : ByteArray) × (read buf n s ≡ ok (flat_read buf n (view s), t))
      × IsValid t
      × (view t ≡ skip n (view s))
read-refines buf n s v h k =
    let (c, run, f, valid) = read-Fetched buf n s v h k in
    (
      moved s c,
      run ∙ ap (λ (o : ℕ → ℕ). ok (o, moved s c)) (Fetched-read s buf n {c = c} f),
      valid,
      Flat-eq (view (moved s c)) (skip n (view s)) f.position refl refl refl,
    )

-- `setPosition(v)` inside the capacity succeeds, keeps the object valid, and moves only the
-- position, with the size behind it.
pub set_position-refines :
    (p : ℕ) (s : ByteArray)
    → IsValid s
    → p ≤ s.capacity
    → (t : ByteArray) × (set_position p s ≡ ok t)
      × IsValid t
      × (view t ≡ flat_seek p (view s))
      × (t.capacity ≡ s.capacity)
set_position-refines p s v h =
    let (i, run, valid) = set_position-sought p s v h in (sought s p i, run, valid, refl, refl)

-- The three ways in which `read` and `setPosition` refuse on a valid object: too little data and a
-- position behind the capacity throw std::out_of_range, and at a position that is the capacity a
-- read of no bytes uses the null pointer.
pub read_refusals :
    (buf : ℕ → ℕ) (n : ℕ) (s : ByteArray)
    → IsValid s
    → (s.size - s.position < n → read buf n s ≡ err out_of_range)
      × (s.capacity < n → set_position n s ≡ err out_of_range)
      × (s.position ≡ s.capacity → read buf 0 s ≡ err null_deref)
read_refusals buf n s v = (read_short buf n s v, set_position_far n s, read_null buf s v)

flat_write_read :
    (buf out : ℕ → ℕ) (n : ℕ) (f : Flat)
    → flat_read out n (flat_seek f.position (flat_write buf n f))
      ≡ (λ k. if ltb k n then buf k else out k)
flat_write_read buf out n f = fun_ext λ k. ground arith

flat_write_back :
    (buf : ℕ → ℕ) (n : ℕ) (f : Flat)
    → f.position ≤ f.size
    → skip n (flat_seek f.position (flat_write buf n f)) ≡ flat_write buf n f
flat_write_back buf n f h =
    Flat-eq (skip n (flat_seek f.position (flat_write buf n f))) (flat_write buf n f) refl
      (ground arith) refl refl

-- Bytes that were written at a position are read back from there: the caller's buffer gets the
-- first `n` bytes of `buf`, and the object ends as `write` left it.
pub read-write :
    (buf out : ℕ → ℕ) (m : ℕ) (s : ByteArray)
    → IsValid s
    → (w : ByteArray) × ((do
      t ← write buf (suc m) s
      u ← set_position s.position t
      read out (suc m) u)
        ≡ ok ((λ k. if ltb k (suc m) then buf k else out k), w))
      × IsValid w
      × (view w ≡ flat_write buf (suc m) (view s))
read-write buf out m s v =
    let (t, run_t, valid_t, view_t) = write-refines buf (suc m) s v in
    let pos_t : t.position ≡ s.position + suc m = ap (λ (f : Flat). f.position) view_t in
    let (u, run_u, valid_u, view_u, cap_u) =
      set_position-refines s.position t valid_t (omega (arith, valid_t.pos_le, valid_t.size_le)) in
    let pos_u : u.position ≡ s.position = ap (λ (f : Flat). f.position) view_u in
    let size_u : u.size ≡ (if ltb t.size s.position then s.position else t.size) =
      ap (λ (f : Flat). f.size) view_u in
    let (w, run_w, valid_w, view_w) =
      read-refines out (suc m) u valid_u (ground (arith, pos_u, size_u, pos_t, valid_t.pos_le))
        (omega (arith, pos_u, cap_u, pos_t, valid_t.pos_le, valid_t.size_le)) in
    let back : view u ≡ flat_seek s.position (flat_write buf (suc m) (view s)) =
      view_u ∙ ap (flat_seek s.position) view_t in
    (
      w,
      rw run_t (
          rw run_u (
            run_w
            ∙ ap (λ (o : ℕ → ℕ). ok (o, w))
                (ap (flat_read out (suc m)) back ∙ flat_write_read buf out (suc m) (view s)))),
      valid_w,
      view_w ∙ ap (skip (suc m)) back ∙ flat_write_back buf (suc m) (view s) v.pos_le,
    )
