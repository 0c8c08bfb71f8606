-- ===== src/ByteArray/Seek.antt =====
-- skt/bytearray/bytearray.cpp, `setPosition` and `clear`.
use learn_web.Common.{
  ℕ, zero, suc, ◌+◌, ◌-◌, ◌*◌, ◌≤◌, ◌<◌, ◌≡◌, ◌∙◌, arith, if◌then◌else◌, ltb, ◌==◌, Bool-cases, inl,
  inr,
}
use learn_web.Common.Arithmetic.{row-lt}
use learn_web.Common.Outcome.{ok, err, out_of_range}
use learn_web.ByteArray.Defs.{ByteArray, seek, set_position, clear}
use learn_web.ByteArray.Invariant.{IsSeated, IsValid}

seek_more :
    (fuel : ℕ) (s : ByteArray) (cur v : ℕ)
    → cur < s.node_count
    → (s.nodes cur).size < v
    → seek (suc fuel) s cur v ≡ seek fuel s (cur + 1) (v - (s.nodes cur).size)
unfolding seek
seek_more fuel s cur v h k = ground arith

seek_here :
    (fuel : ℕ) (s : ByteArray) (cur v : ℕ)
    → cur < s.node_count
    → v ≤ (s.nodes cur).size
    → seek (suc fuel) s cur v ≡ ok (if v == (s.nodes cur).size then cur + 1 else cur)
unfolding seek
seek_here fuel s cur v h k = ground arith

-- The node where a position falls.
abbrev Row : ByteArray → ℕ → ℕ → Type 0
Row s p i = (i * s.base_size ≤ p) × (p < i * s.base_size + s.base_size)

step-Row :
    (s : ByteArray) (cur v p : ℕ)
    → v ≤ s.base_size
    → 0 < s.base_size
    → cur * s.base_size + v ≡ p
    → Row s p (if v == s.base_size then cur + 1 else cur)
step-Row s cur v p h pos e = elim (Bool-cases (v == s.base_size)) [
  | inl full ↦ let whole : v ≡ s.base_size = ground arith in rw full (omega arith, omega arith)
  | inr part ↦ let below : v < s.base_size = ground arith in rw part (omega arith, omega arith)
]

module _ (s : ByteArray) (valid : IsSeated s) where
  seek-Row :
      (fuel cur v p : ℕ)
      → cur < s.node_count
      → cur * s.base_size + v ≡ p
      → p ≤ s.capacity
      → v < fuel
      → (i : ℕ) × (seek fuel s cur v ≡ ok i) × Row s p i
  seek-Row zero cur v p inside at fits enough = absurd (omega arith)
  seek-Row (suc fuel) cur v p inside at fits enough = elim (Bool-cases (ltb (s.nodes cur).size v)) [
    | inl more ↦
        let far : s.base_size < v = ground (arith, width) in
        let next = row-lt (cur + 1) s.node_count s.base_size (omega (arith, valid.cap)) in
        let rest =
          seek-Row fuel (cur + 1) (v - (s.nodes cur).size) p next (omega (arith, width)) fits
            (omega (arith, width, valid.base_pos)) in
        (rest.0, seek_more fuel s cur v inside (omega (arith, width)) ∙ rest.1, rest.2)
    | inr near ↦
        let close : v ≤ s.base_size = ground (arith, width) in
        (
          (if v == (s.nodes cur).size then cur + 1 else cur),
          seek_here fuel s cur v inside (omega (arith, width)),
          rw width (step-Row s cur v p close valid.base_pos at),
        )
  ]
    where
      width : (s.nodes cur).size ≡ s.base_size
      width = valid.sizes cur inside

-- What `setPosition(v)` makes of the object.
abbrev pub sought : ByteArray → ℕ → ℕ → ByteArray
sought s v i = record s { position = v; size = if ltb s.size v then v else s.size; cur = i }

sought-IsValid :
    (s : ByteArray) (v i : ℕ) → IsValid s → v ≤ s.capacity → Row s v i → IsValid (sought s v i)
sought-IsValid s v i valid h (begins, ends) = record {
  seated = record {
    base_pos = valid.base_pos;
    rooted = valid.rooted;
    sizes = valid.sizes;
    cap = valid.cap;
    row_begin = begins;
    row_end = ends;
    within = h;
  };
  pos_le = ground arith;
  size_le = ground (arith, valid.size_le);
}

set_position_steps :
    (v i : ℕ) (s : ByteArray)
    → v ≤ s.capacity
    → seek (suc v) s 0 v ≡ ok i
    → set_position v s ≡ ok (sought s v i)
unfolding set_position
set_position_steps v i s h run = ground arith

-- `setPosition` inside the capacity finds the node, and keeps the object valid.
pub set_position-sought :
    (v : ℕ) (s : ByteArray)
    → IsValid s
    → v ≤ s.capacity
    → (i : ℕ) × (set_position v s ≡ ok (sought s v i)) × IsValid (sought s v i)
set_position-sought v s valid h =
    let (i, run, row) =
      seek-Row s valid.seated (suc v) 0 v v valid.rooted (omega arith) h (omega arith) in
    (i, set_position_steps v i s h run, sought-IsValid s v i valid h row)

pub set_position_far :
    (v : ℕ) (s : ByteArray) → s.capacity < v → set_position v s ≡ err out_of_range
unfolding set_position
set_position_far v s h = ground arith

pub clear-IsValid : (s : ByteArray) → IsValid s → IsValid (clear s)
unfolding clear
clear-IsValid s valid = record {
  seated = record {
    base_pos = valid.base_pos;
    rooted = omega arith;
    sizes = λ i h. valid.sizes i (omega (arith, valid.rooted));
    cap = omega arith;
    row_begin = omega arith;
    row_end = omega (arith, valid.base_pos);
    within = omega arith;
  };
  pos_le = omega arith;
  size_le = omega arith;
}
