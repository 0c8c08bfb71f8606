-- ===== src/ByteArray/Varint.antt =====
-- skt/bytearray/bytearray.cpp: the integers of variable length, writeUint32 to readInt64.
use learn_web.Common.{
  ℕ, zero, suc, ◌+◌, ◌*◌, ◌/◌, ◌%◌, ◌^◌, ◌≤◌, ◌<◌, ◌≡◌, refl, ap, ◌∙◌, arith, List, [], ◌∷◌, length,
  get_or, All, bit_or, if◌then◌else◌, ltb, Bool-cases, inl, inr,
}
use learn_web.Common.Bits.{or_shifted, and_0x7f, or_0x80}
use learn_web.Common.Outcome.{Outcome, ok, ◌>>=◌}
use learn_web.Endian.{ByteOrder, from_memory_one}
use learn_web.ByteArray.Defs.{ByteArray, set_position}
use learn_web.ByteArray.Invariant.{IsValid}
use learn_web.ByteArray.Flat.{
  Flat, view, flat_write, flat_read, flat_seek, skip, write-refines, read-refines,
  set_position-refines,
}
use learn_web.ByteArray.Codec.{
  bytes_of, varint, write_bytes, write_uint32, write_uint64, read_fuint8, read_varint, read_uint32,
  read_uint64,
}
use native.Mathlib.Nat.{pow-suc, mod-eq_of_lt, div-add-mod}
use native.Mathlib.Numerals.{towards_suc}

-- What the loop writes for a value below `128 ^ (k + 1)`: groups of seven bits, the lowest first,
-- with the top bit set on every byte but the last.
unfoldable pub groups : ℕ → ℕ → List ℕ
groups zero v = v ∷ []
groups (suc k) v =
    let rest = groups k (v / 128) in if ltb v 128 then v ∷ [] else (v % 128 + 128) ∷ rest

-- The loop ends, and the array is as long as its fuel at most.
pub varint-groups : (k v : ℕ) → v < 128 ^ suc k → varint (suc k) v ≡ ok (groups k v)
unfolding varint groups
varint-groups zero v h = ground arith
varint-groups (suc k) v h = ground (
  arith,
  varint-groups k (v / 128) (omega (arith, pow-suc 128 (suc k))),
  and_0x7f v,
  or_0x80 (v % 128),
)

pub groups_shape :
    (k v : ℕ)
    → v < 128 ^ suc k
    → All (λ b. b < 256) (groups k v) × (1 ≤ length (groups k v)) × (length (groups k v) ≤ k + 1)
unfolding groups
groups_shape zero v h = omega arith
groups_shape (suc k) v h =
    ground (arith, groups_shape k (v / 128) (omega (arith, pow-suc 128 (suc k))))

-- A value below `128 ^ (j + 1)` takes `j + 1` bytes at most.
pub length-groups : (j k v : ℕ) → v < 128 ^ suc j → length (groups k v) ≤ suc j
unfolding groups
length-groups j zero v h = omega arith
length-groups zero (suc k) v h = ground arith
length-groups (suc j) (suc k) v h =
    ground (arith, length-groups j k (v / 128) (omega (arith, pow-suc 128 (suc j))))

groups_last : (k v : ℕ) → v < 128 → groups k v ≡ v ∷ []
unfolding groups
groups_last zero v h = refl
groups_last (suc k) v h = ground arith

groups_inner : (k v : ℕ) → 128 ≤ v → groups (suc k) v ≡ (v % 128 + 128) ∷ groups k (v / 128)
unfolding groups
groups_inner k v h = ground arith

-- The bytes `bs` stand from the position on, within the size.
abbrev pub Holds : Flat → List ℕ → Type 0
Holds f [] = Unit {0}
Holds f (b ∷ bs) = (f.position < f.size) × (f.content f.position ≡ b) × Holds (skip 1 f) bs

Holds-table :
    (bs : List ℕ) (f : Flat)
    → f.position + length bs ≤ f.size
    → ((i : ℕ) → i < length bs → f.content (f.position + i) ≡ get_or bs i 0)
    → Holds f bs
Holds-table [] f h c = tt
Holds-table (b ∷ bs) f h c = (
  omega arith,
  ap f.content (omega arith) ∙ c 0 (omega arith),
  Holds-table bs (skip 1 f) (omega arith)
      (λ i k. ap f.content (omega arith) ∙ c (suc i) (omega arith)),
)

-- Behind a write that is rewound, the bytes stand there.
pub Holds-written :
    (bs : List ℕ) (f : Flat)
    → Holds (flat_seek f.position (flat_write (bytes_of bs) (length bs) f)) bs
Holds-written bs f =
    Holds-table bs (flat_seek f.position (flat_write (bytes_of bs) (length bs) f)) (ground arith)
      (λ i h. ground arith)

skip-skip : (n : ℕ) (f : Flat) → skip n (skip 1 f) ≡ skip (suc n) f
skip-skip n f = ap (λ (p : ℕ). record f { position = p }) (omega arith)

-- Bytes that were appended and rewound to stand from the position on.
pub rewound :
    (bs : List ℕ) (s : ByteArray)
    → IsValid s
    → (t : ByteArray) × (u : ByteArray) × (write_bytes bs s ≡ ok t)
      × (set_position s.position t ≡ ok u)
      × IsValid u
      × Holds (view u) bs
      × (view u ≡ flat_seek s.position (flat_write (bytes_of bs) (length bs) (view s)))
unfolding write_bytes
rewound bs s v =
    let (t, run_t, valid_t, view_t) = write-refines (bytes_of bs) (length bs) s v in
    let pos_t : t.position ≡ s.position + length bs = ap (λ (f : Flat). f.position) view_t in
    let (u, run_u, valid_u, view_u, _) =
      set_position-refines s.position t valid_t (omega (arith, valid_t.pos_le, valid_t.size_le)) in
    let all = view_u ∙ ap (flat_seek s.position) view_t in
    (t, u, run_t, run_u, valid_u, rw all (Holds-written bs (view s)), all)

-- What the two writers append.
pub write_uint32-groups :
    (v : ℕ) (s : ByteArray) → v < 2 ^ 32 → write_uint32 v s ≡ write_bytes (groups 4 v) s
unfolding write_uint32
write_uint32-groups v s h = rw (varint-groups 4 v (omega arith))

pub write_uint64-groups :
    (v : ℕ) (s : ByteArray) → v < 2 ^ 64 → write_uint64 v s ≡ write_bytes (groups 9 v) s
unfolding write_uint64
write_uint64-groups v s h = rw (varint-groups 9 v (omega arith))

-- `result |= group << i`, where the result has `i` bits so far.
or_group :
    (w i acc g : ℕ)
    → acc < 2 ^ i
    → g * 2 ^ i < 2 ^ w
    → bit_or acc (g * 2 ^ i % 2 ^ w) ≡ acc + g * 2 ^ i
or_group w i acc g h k = rw (mod-eq_of_lt k) (or_shifted i acc g h)

shift_seven : (i : ℕ) → 2 ^ (i + 7) ≡ 128 * 2 ^ i
shift_seven i = simp towards_suc (omega arith)

-- The lowest group and the rest, both at the shift `i`.
split_group : (v i : ℕ) → v * 2 ^ i ≡ v % 128 * 2 ^ i + v / 128 * 2 ^ (i + 7)
split_group v i = omega (
  arith,
  ap (λ (t : ℕ). t * 2 ^ i) (div-add-mod v 128),
  ap (λ (t : ℕ). v / 128 * t) (shift_seven i),
)

group_fits : (g acc i : ℕ) → g < 128 → acc < 2 ^ i → acc + g * 2 ^ i < 2 ^ (i + 7)
group_fits g acc i h k = grind (arith, shift_seven i)

module _ (host : ByteOrder) where
  -- One byte is read as it stands.
  pub read_fuint8-refines :
      (s : ByteArray)
      → IsValid s
      → s.position < s.size
      → (t : ByteArray) × (read_fuint8 host s ≡ ok ((view s).content s.position, t))
        × IsValid t
        × (view t ≡ skip 1 (view s))
  unfolding read_fuint8
  read_fuint8-refines s v h =
      let (t, run, valid_t, view_t) =
        read-refines (λ _. 0) 1 s v (omega arith) (omega (arith, v.size_le)) in
      (
        t,
        rw run (
            ap (λ (x : ℕ). ok (x, t))
              (from_memory_one host (flat_read (λ _. 0) 1 (view s))
                ∙ ap (view s).content (omega arith))),
        valid_t,
        view_t,
      )

  last_byte :
      (fuel w i acc g : ℕ) (s t : ByteArray)
      → read_fuint8 host s ≡ ok (g, t)
      → i < w
      → g < 128
      → acc < 2 ^ i
      → g * 2 ^ i < 2 ^ w
      → read_varint host (suc fuel) w i acc s ≡ ok (acc + g * 2 ^ i, t)
  unfolding read_varint
  last_byte fuel w i acc g s t run h small fits below =
      ground (arith, or_group w i acc g fits below)

  inner_byte :
      (fuel w i acc g : ℕ) (s t : ByteArray)
      → read_fuint8 host s ≡ ok (g + 128, t)
      → i < w
      → g < 128
      → acc < 2 ^ i
      → g * 2 ^ i < 2 ^ w
      → read_varint host (suc fuel) w i acc s ≡ read_varint host fuel w (i + 7) (acc + g * 2 ^ i) t
  unfolding read_varint
  inner_byte fuel w i acc g s t run h small fits below =
      ground (arith, or_group w i acc g fits below, and_0x7f (g + 128))

  -- The value that is left is below 128: the loop ends with this byte.
  read_last :
      (fuel k v w i acc : ℕ) (s : ByteArray)
      → IsValid s
      → Holds (view s) (groups k v)
      → v < 128
      → acc < 2 ^ i
      → acc + v * 2 ^ i < 2 ^ w
      → i < w
      → (t : ByteArray) × (read_varint host (suc fuel) w i acc s ≡ ok (acc + v * 2 ^ i, t))
        × IsValid t
        × (view t ≡ skip (length (groups k v)) (view s))
  read_last fuel k v w i acc s valid holds h fits below shifts =
      let (room, here, _) : Holds (view s) (v ∷ []) = rw (groups_last k v h) at holds in
      let (t, run, valid_t, view_t) = read_fuint8-refines s valid room in
      (
        t,
        last_byte fuel w i acc v s t (rw here at run) shifts h fits (omega arith),
        valid_t,
        rw (groups_last k v h) view_t,
      )

  -- The loop of a read reads back what the loop of a write wrote.
  pub read_varint-groups :
      (k v w i acc : ℕ) (s : ByteArray)
      → IsValid s
      → Holds (view s) (groups k v)
      → v < 128 ^ suc k
      → acc < 2 ^ i
      → acc + v * 2 ^ i < 2 ^ w
      → i + 7 * k < w
      → (t : ByteArray) × (read_varint host (suc k) w i acc s ≡ ok (acc + v * 2 ^ i, t))
        × IsValid t
        × (view t ≡ skip (length (groups k v)) (view s))
  read_varint-groups zero v w i acc s valid holds h fits below shifts =
      read_last zero zero v w i acc s valid holds (omega arith) fits below (omega arith)
  read_varint-groups (suc k) v w i acc s valid holds h fits below shifts =
      elim (Bool-cases (ltb v 128)) [
        | inl small ↦
            read_last (suc k) (suc k) v w i acc s valid holds (ground arith) fits below
              (omega arith)
        | inr large ↦
            let big : 128 ≤ v = ground arith in
            let g = v % 128 in
            let (room, here, rest) : Holds (view s) ((g + 128) ∷ groups k (v / 128)) =
              rw (groups_inner k v big) at holds in
            let (t, run, valid_t, view_t) = read_fuint8-refines s valid room in
            let part = split_group v i in
            let (u, run_u, valid_u, view_u) =
              read_varint-groups k (v / 128) w (i + 7) (acc + g * 2 ^ i) t valid_t (rw view_t rest)
                (omega (arith, pow-suc 128 (suc k))) (group_fits g acc i (omega arith) fits)
                (omega (arith, part)) (omega arith) in
            (
              u,
              inner_byte (suc k) w i acc g s t (rw here at run) (omega arith) (omega arith) fits
                    (omega (arith, part))
                  ∙ run_u
                  ∙ ap (λ (x : ℕ). ok (x, u)) (omega (arith, part)),
              valid_u,
              rw (groups_inner k v big) (
                  view_u
                  ∙ ap (skip (length (groups k (v / 128)))) view_t
                  ∙ skip-skip (length (groups k (v / 128))) (view s)),
            )
      ]

  -- A write of the groups of `v`, a rewind, and the read loop over `w` bits.
  round_trip :
      (k v w : ℕ) (s : ByteArray) (written : Outcome ByteArray)
      → written ≡ write_bytes (groups k v) s
      → IsValid s
      → v < 128 ^ suc k
      → v < 2 ^ w
      → 7 * k < w
      → (x : ByteArray) × ((do
        t ← written
        u ← set_position s.position t
        read_varint host (suc k) w 0 0 u)
          ≡ ok (v, x))
        × IsValid x
  round_trip k v w s written e valid h below shifts =
      let (t, u, run_t, run_u, valid_u, holds, _) = rewound (groups k v) s valid in
      let (x, run_x, valid_x, _) =
        read_varint-groups k v w 0 0 u valid_u holds h (omega arith) (omega arith) (omega arith) in
      (x, rw e (rw run_t (rw run_u (run_x ∙ ap (λ (y : ℕ). ok (y, x)) (omega arith)))), valid_x)

  -- A uint32 that writeUint32 wrote is read back by readUint32.
  pub read_uint32-write_uint32 :
      (v : ℕ) (s : ByteArray)
      → IsValid s
      → v < 2 ^ 32
      → (x : ByteArray) × ((do
        t ← write_uint32 v s
        u ← set_position s.position t
        read_uint32 host u)
          ≡ ok (v, x))
        × IsValid x
  unfolding read_uint32
  read_uint32-write_uint32 v s valid h =
      round_trip 4 v 32 s (write_uint32 v s) (write_uint32-groups v s h) valid (omega arith) h
        (omega arith)

  -- A uint64 that writeUint64 wrote is read back by readUint64.
  pub read_uint64-write_uint64 :
      (v : ℕ) (s : ByteArray)
      → IsValid s
      → v < 2 ^ 64
      → (x : ByteArray) × ((do
        t ← write_uint64 v s
        u ← set_position s.position t
        read_uint64 host u)
          ≡ ok (v, x))
        × IsValid x
  unfolding read_uint64
  read_uint64-write_uint64 v s valid h =
      round_trip 9 v 64 s (write_uint64 v s) (write_uint64-groups v s h) valid (omega arith) h
        (omega arith)

-- The loop of writeUint32 ends and stays within its `tmp[5]`, that of writeUint64 within `tmp[10]`,
-- and both put only bytes there.
pub varint_fits :
    (v : ℕ)
    → (v < 2 ^ 32 → (bs : List ℕ) × (varint 5 v ≡ ok bs) × (length bs ≤ 5) × All (λ b. b < 256) bs)
      × (v < 2 ^ 64
          → (bs : List ℕ) × (varint 10 v ≡ ok bs) × (length bs ≤ 10) × All (λ b. b < 256) bs)
varint_fits v = (
  λ h. (groups 4 v, varint-groups 4 v (omega arith), (shape4 h).2, (shape4 h).0),
  λ h. (groups 9 v, varint-groups 9 v (omega arith), (shape9 h).2, (shape9 h).0),
)
  where
    shape4 :
        v < 2 ^ 32
        → All (λ b. b < 256) (groups 4 v) × (1 ≤ length (groups 4 v)) × (length (groups 4 v) ≤ 5)
    shape4 h = groups_shape 4 v (omega arith)

    shape9 :
        v < 2 ^ 64
        → All (λ b. b < 256) (groups 9 v) × (1 ≤ length (groups 9 v)) × (length (groups 9 v) ≤ 10)
    shape9 h = groups_shape 9 v (omega arith)
