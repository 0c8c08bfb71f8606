-- ===== src/ByteArray/Strings.antt =====
-- skt/bytearray/bytearray.cpp: strings, floats, and `toString`.
use learn_web.Common.{
  ℕ, suc, ◌+◌, ◌-◌, ◌^◌, ◌≤◌, ◌<◌, ◌≡◌, sym, ap, ◌∙◌, arith, List, ◌∷◌, length, get_or, tabulate,
  tabulate_ext, tabulate-get_or, ◌==◌, Bool-cases, inl, inr,
}
use learn_web.Common.Outcome.{ok, err, out_of_range, ◌>>=◌, bind_ok, err_first}
use learn_web.Endian.{ByteOrder, to_memory}
use learn_web.ByteArray.Defs.{ByteArray, read, set_position, get_read_size}
use learn_web.ByteArray.Invariant.{IsValid}
use learn_web.ByteArray.Read.{byte_at, read_short, read_at-Fetched}
use learn_web.ByteArray.Flat.{
  Flat, view, flat_write, flat_read, flat_seek, skip, write-refines, read-refines,
  set_position-refines,
}
use learn_web.ByteArray.Codec.{
  bytes_of, write_bytes, read_bytes, write_uint32, write_uint64, read_fixed, write_float,
  read_float, write_double, read_double, write_string, read_string, write_string_vint,
  read_string_vint, to_string,
}
use learn_web.ByteArray.Fixed.{write_fixed-refines, read_fixed-refines}
use learn_web.ByteArray.Varint.{
  groups, length-groups, write_uint32-groups, write_uint64-groups, rewound,
}
use mathlib.Core.Path.{subst}
use native.Mathlib.Nat.{mod-eq_of_lt}

-- The bytes `xs` stand from the position on.
abbrev Stands : Flat → List ℕ → Type 0
Stands f xs = (i : ℕ) → i < length xs → f.content (f.position + i) ≡ get_or xs i 0

-- A string of known length is read as it stands.
read_bytes-refines :
    (xs : List ℕ) (s : ByteArray)
    → IsValid s
    → length xs ≤ s.size - s.position
    → s.position < s.capacity
    → Stands (view s) xs
    → (t : ByteArray) × (read_bytes (length xs) s ≡ ok (xs, t))
      × IsValid t
      × (view t ≡ skip (length xs) (view s))
unfolding read_bytes
read_bytes-refines xs s v room inside here =
    let (t, run, valid_t, view_t) = read-refines (λ _. 0) (length xs) s v room inside in
    (
      t,
      rw run (
          ap (λ (ys : List ℕ). ok (ys, t))
            (tabulate_ext (length xs) (flat_read (λ _. 0) (length xs) (view s)) (bytes_of xs)
                (λ i h. ground (arith, here i h))
              ∙ tabulate-get_or xs 0)),
      valid_t,
      view_t,
    )

-- The length and the text, one behind the other.
abbrev record_view : ByteOrder → ℕ → List ℕ → Flat → Flat
record_view order n xs f =
    flat_write (bytes_of xs) (length xs) (flat_write (to_memory order n (length xs)) n f)

record_length :
    (order : ByteOrder) (n : ℕ) (xs : List ℕ) (f : Flat) (i : ℕ)
    → i < n
    → (record_view order n xs f).content (f.position + i) ≡ to_memory order n (length xs) i
record_length order n xs f i h = ground arith

record_text :
    (order : ByteOrder) (n : ℕ) (xs : List ℕ) (f : Flat) (i : ℕ)
    → i < length xs
    → (record_view order n xs f).content (f.position + n + i) ≡ get_or xs i 0
record_text order n xs f i h = ground arith

write_string-refines :
    (host : ByteOrder) (n : ℕ) (xs : List ℕ) (s : ByteArray)
    → IsValid s
    → length xs < 256 ^ n
    → (t : ByteArray) × (write_string host n xs s ≡ ok t)
      × IsValid t
      × (view t ≡ record_view s.endian n xs (view s))
unfolding write_string write_bytes
write_string-refines host n xs s v h =
    let (t, run_t, valid_t, view_t) = write_fixed-refines host n (length xs) s v in
    let (u, run_u, valid_u, view_u) = write-refines (bytes_of xs) (length xs) t valid_t in
    (
      u,
      rw (mod-eq_of_lt h) (rw run_t run_u),
      valid_u,
      view_u ∙ ap (flat_write (bytes_of xs) (length xs)) view_t,
    )

-- A string whose length and text stand at the position is read.
read_string_stands :
    (host : ByteOrder) (n x : ℕ) (xs : List ℕ) (s : ByteArray)
    → IsValid s
    → s.position + n + length (x ∷ xs) ≤ s.size
    → length (x ∷ xs) < 256 ^ n
    → ((i : ℕ)
        → i < n
        → (view s).content (s.position + i) ≡ to_memory s.endian n (length (x ∷ xs)) i)
    → ((i : ℕ) → i < length (x ∷ xs) → (view s).content (s.position + n + i) ≡ get_or (x ∷ xs) i 0)
    → (t : ByteArray) × (read_string host n s ≡ ok (x ∷ xs, t)) × IsValid t
unfolding read_string
read_string_stands host n x xs s v room h len text =
    let (r, run_r, valid_r, view_r) =
      read_fixed-refines host n (length (x ∷ xs)) s v (omega arith) (omega (arith, v.size_le)) h
        len in
    let pos_r : r.position ≡ s.position + n = ap (λ (f : Flat). f.position) view_r in
    let size_r : r.size ≡ s.size = ap (λ (f : Flat). f.size) view_r in
    let (t, run_t, valid_t, _) =
      read_bytes-refines (x ∷ xs) r valid_r (omega arith) (omega (arith, valid_r.size_le)) (λ i k.
        subst (λ f. f.content (f.position + i) ≡ get_or (x ∷ xs) i 0) (sym view_r) (text i k)) in
    (t, rw run_r run_t, valid_t)

-- A string that is not empty comes back from the length of `m + 1` bytes and the text, if its
-- length fits them: writeStringF16 to readStringF64, in either byte order.
pub read_string-write_string :
    (host : ByteOrder) (m x : ℕ) (xs : List ℕ) (s : ByteArray)
    → IsValid s
    → length (x ∷ xs) < 256 ^ suc m
    → (w : ByteArray) × ((do
      t ← write_string host (suc m) (x ∷ xs) s
      u ← set_position s.position t
      read_string host (suc m) u)
        ≡ ok (x ∷ xs, w))
      × IsValid w
read_string-write_string host m x xs s v h =
    let str : List ℕ = x ∷ xs in
    let n = suc m in
    let (t, run_t, valid_t, view_t) = write_string-refines host n str s v h in
    let pos_t : t.position ≡ s.position + n + length str = ap (λ (f : Flat). f.position) view_t in
    let (u, run_u, valid_u, view_u, _) =
      set_position-refines s.position t valid_t (omega (arith, valid_t.pos_le, valid_t.size_le)) in
    let all : view u ≡ flat_seek s.position (record_view s.endian n str (view s)) =
      view_u ∙ ap (flat_seek s.position) view_t in
    let pos_u : u.position ≡ s.position = ap (λ (f : Flat). f.position) all in
    let size_u : s.position + n + length str ≤ u.size =
      subst (λ (f : Flat). s.position + n + length str ≤ f.size) (sym all) (ground arith) in
    let (w, run_w, valid_w) =
      read_string_stands host n x xs u valid_u (omega arith) h
        (λ i k.
          subst (λ f. f.content (f.position + i) ≡ to_memory f.order n (length str) i) (sym all)
            (record_length s.endian n str (view s) i k))
        (λ i k.
          subst (λ f. f.content (f.position + n + i) ≡ get_or str i 0) (sym all)
            (record_text s.endian n str (view s) i k)) in
    (
      w,
      bind_ok (write_string host n str s)
          (λ t. set_position s.position t >>= λ u. read_string host n u) t run_t
          (bind_ok (set_position s.position t) (λ u. read_string host n u) u run_u run_w),
      valid_w,
    )

-- Few bytes behind the end of the data are too few for a read of `n`.
short_read :
    (bs : List ℕ) (n : ℕ) (s : ByteArray)
    → IsValid s
    → s.position ≡ s.size
    → length bs < n
    → (t : ByteArray) × (u : ByteArray) × (write_bytes bs s ≡ ok t)
      × (set_position s.position t ≡ ok u)
      × ((buf : ℕ → ℕ) → read buf n u ≡ err out_of_range)
short_read bs n s v e h =
    let (t, u, run_t, run_u, valid_u, _, view_u) = rewound bs s v in
    let pos_u : u.position ≡ s.position = ap (λ (f : Flat). f.position) view_u in
    let size_u : u.size ≡ s.position + length bs =
      ap (λ (f : Flat). f.size) view_u ∙ ground (arith, e) in
    (t, u, run_t, run_u, λ buf. read_short buf n u valid_u (omega (arith, pos_u, size_u)))

read_fixed_short :
    (host : ByteOrder) (n : ℕ) (s : ByteArray)
    → ((buf : ℕ → ℕ) → read buf n s ≡ err out_of_range)
    → read_fixed host n s ≡ err out_of_range
unfolding read_fixed
read_fixed_short host n s h = rw (h (λ _. 0))

-- A float whose pattern is below 2 ^ 21, such as 0, is written in at most three bytes, and readFloat
-- wants four: at the end of the data it throws std::out_of_range on what writeFloat wrote.
pub read_float-write_float :
    (host : ByteOrder) (v : ℕ) (s : ByteArray)
    → IsValid s
    → s.position ≡ s.size
    → v < 2 ^ 21
    → (do t ← write_float v s; u ← set_position s.position t; read_float host u) ≡ err out_of_range
unfolding write_float read_float
read_float-write_float host v s valid e h =
    let (t, u, run_t, run_u, short) =
      short_read (groups 4 v) 4 s valid e (omega (arith, length-groups 2 4 v (omega arith))) in
    bind_ok (write_uint32 v s) _ t (write_uint32-groups v s (omega arith) ∙ run_t)
      (bind_ok (set_position s.position t) _ u run_u (read_fixed_short host 4 u short))

-- So it is with a double whose pattern is below 2 ^ 49, and the 8 bytes that readDouble wants.
pub read_double-write_double :
    (host : ByteOrder) (v : ℕ) (s : ByteArray)
    → IsValid s
    → s.position ≡ s.size
    → v < 2 ^ 49
    → (do t ← write_double v s; u ← set_position s.position t; read_double host u)
      ≡ err out_of_range
unfolding write_double read_double
read_double-write_double host v s valid e h =
    let (t, u, run_t, run_u, short) =
      short_read (groups 9 v) 8 s valid e (omega (arith, length-groups 6 9 v (omega arith))) in
    bind_ok (write_uint64 v s) _ t (write_uint64-groups v s (omega arith) ∙ run_t)
      (bind_ok (set_position s.position t) _ u run_u (read_fixed_short host 8 u short))

-- Nor does readStringVint read what writeStringVint wrote: of a string of at most six bytes at the
-- end of the data it throws std::out_of_range, since it wants a length of 8 bytes.
pub read_string_vint-write_string_vint :
    (host : ByteOrder) (xs : List ℕ) (s : ByteArray)
    → IsValid s
    → s.position ≡ s.size
    → length xs ≤ 6
    → (do t ← write_string_vint xs s; u ← set_position s.position t; read_string_vint host u)
      ≡ err out_of_range
unfolding write_string_vint read_string_vint
read_string_vint-write_string_vint host xs s valid e h =
    let len : List ℕ = groups 9 (length xs) in
    let short_len : length len ≤ 1 = length-groups 0 9 (length xs) (omega arith) in
    let (t, run_t, valid_t, view_t) = write_refines len s valid in
    let (u, run_u, valid_u, view_u) = write_refines xs t valid_t in
    let pos_u : u.position ≡ s.position + length len + length xs =
      ap (λ (f : Flat). f.position) (view_u ∙ ap (flat_write (bytes_of xs) (length xs)) view_t) in
    let size_u : u.size ≡ s.position + length len + length xs =
      ap (λ (f : Flat). f.size) (view_u ∙ ap (flat_write (bytes_of xs) (length xs)) view_t)
      ∙ ground (arith, e) in
    let (w, run_w, valid_w, view_w, _) =
      set_position-refines s.position u valid_u (omega (arith, valid_u.pos_le, valid_u.size_le)) in
    let pos_w : w.position ≡ s.position = ap (λ (f : Flat). f.position) view_w in
    let size_w : w.size ≡ u.size = ap (λ (f : Flat). f.size) view_w ∙ ground (arith, size_u) in
    bind_ok (write_string_vint xs s) _ u
      (bind_ok (write_uint64 (length xs) s) _ t
        (write_uint64-groups (length xs) s (omega arith) ∙ run_t) run_u)
      (bind_ok (set_position s.position u) _ w run_w (
        err_first (read_fixed host 8 w) _ (
          read_fixed_short host 8 w
            (λ buf. read_short buf 8 w valid_w (omega (arith, pos_w, size_w, size_u))))))
  where
    write_refines :
        (bs : List ℕ) (r : ByteArray)
        → IsValid r
        → (q : ByteArray) × (write_bytes bs r ≡ ok q)
          × IsValid q
          × (view q ≡ flat_write (bytes_of bs) (length bs) (view r))
    write_refines bs r v = unfold write_bytes in write-refines (bytes_of bs) (length bs) r v

get_read_size_lem : (s : ByteArray) → IsValid s → get_read_size s ≡ s.size - s.position
unfolding get_read_size
get_read_size_lem s v = ground (arith, v.pos_le)

-- `toString` is the bytes from the position to the size.
pub to_string_lem :
    (s : ByteArray)
    → IsValid s
    → to_string s ≡ ok (tabulate (s.size - s.position) (λ k. byte_at s (s.position + k)))
unfolding to_string
to_string_lem s v = rw (get_read_size_lem s v) (elim (Bool-cases (s.size - s.position == 0)) [
  | inl at_end ↦ let nothing : s.size - s.position ≡ 0 = ground arith in rw nothing
  | inr some_left ↦
      let more : s.position < s.size = ground arith in
      let (c, run, f) =
        read_at-Fetched (λ _. 0) (s.size - s.position) s v (omega arith)
          (omega (arith, v.size_le)) in
      rw some_left (
        rw run (
          ap ok (
            tabulate_ext (s.size - s.position) c.out (λ k. byte_at s (s.position + k))
              (λ i h. ground (arith, f.out i)))))
])
