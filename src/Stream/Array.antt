-- ===== src/Stream/Array.antt =====
-- skt/stream/stream.cpp: the overloads for a ByteArray.
use learn_web.Common.{
  ℕ, zero, suc, ◌+◌, ◌-◌, ◌≤◌, ◌<◌, ◌≡◌, ◌⊎◌, refl, ap, ◌∙◌, arith, true, false, ◌^◌, if◌then◌else◌,
  ltb, Option, none, some, ◌==◌, Bool-cases, inl, inr,
}
use learn_web.Common.Integers.{ℤ, pos, negsuc, signed32, signed64}
use learn_web.Common.Outcome.{Outcome, ok}
use learn_web.Stream.Defs.{loop_array, fix_size_array}

-- What the documentation of read and write promises of a call for `left` bytes: it moves as many
-- bytes as it answers, at most that many, and none when it fails.
pub record IsCall {S : Type 0} (moved : S → ℕ) (call : ℕ → S → ℤ × S) : Type 0 where
  pub some_moved :
      (left n : ℕ) (s : S)
      → (call left s).0 ≡ pos n
      → (n ≤ left) × (moved (call left s).1 ≡ moved s + n)
  pub none_moved :
      (left k : ℕ) (s : S) → (call left s).0 ≡ negsuc k → moved (call left s).1 ≡ moved s

-- An answer of a call that fails or moves nothing.
pub data IsEnd : ℤ → Type 0 where
  nothing : IsEnd (pos 0)
  failed : (k : ℕ) → IsEnd (negsuc k)

zero_of : (n : ℕ) → (n == 0) ≡ true → n ≡ 0
zero_of n z = ground (arith, z)

-- The bytes that a call for `length` bytes is after: an int64_t holds no length of 2^63 or more.
abbrev pub wanted : ℕ → ℕ
wanted length = if ltb length (2 ^ 63) then length else 0

module _ {S : Type 0} (moved : S → ℕ) (call : ℕ → S → ℤ × S) (c : IsCall moved call) where
  -- `r` is what a call of the stream for some bytes answered, nothing or a failure, and `t` is the
  -- state behind that call.
  abbrev pub Answered : ℤ → S → Type 0
  Answered r t = IsEnd r × ((l : ℕ) × (u : S) × (call l u ≡ (r, t)))

  -- How the loop for `left` bytes ends.
  abbrev pub Ends : ℕ → S → Outcome (Option ℤ × S) → Type 0
  Ends left s o =
      ((t : S) × (o ≡ ok (none, t)) × (moved t ≡ moved s + left))
      ⊎ ((t : S) × (r : ℤ) × Answered r t × (o ≡ ok (some r, t)) × (moved t < moved s + left))

  loop_array-Ends :
      (fuel left : ℕ) (s : S) → left < fuel → Ends left s (loop_array call fuel left s)
  unfolding loop_array
  loop_array-Ends zero left s h = absurd (omega arith)
  loop_array-Ends (suc fuel) left s h = elim (Bool-cases (left == 0)) [
    | inl e ↦ inl (s, rw e refl, ground arith)
    | inr n ↦ answer (loop_array-Ends fuel) n (call left s).0 refl
  ]
    where
      answer :
          ((l : ℕ) (u : S) → l < fuel → Ends l u (loop_array call fuel l u))
          → (left == 0) ≡ false
          → (r : ℤ) → (call left s).0 ≡ r
          → Ends left s (loop_array call (suc fuel) left s)
      answer again more (negsuc k) e = inr (
        (call left s).1,
        negsuc k,
        (failed k, (left, s, ap (λ x. (x, (call left s).1)) e)),
        rw (more, e) refl,
        ground (arith, c.none_moved left k s e),
      )
      answer again more (pos n) e = elim (Bool-cases (n == 0)) [
        | inl z ↦ inr (
          (call left s).1,
          pos 0,
          (nothing, (left, s, ap (λ x. (x, (call left s).1)) (e ∙ ap pos (zero_of n z)))),
          rw (more, e, z) refl,
          ground (arith, c.some_moved left n s e),
        )
        | inr p ↦
            let (fits, moves) = c.some_moved left n s e in
            let step : loop_array call (suc fuel) left s
                ≡ loop_array call fuel (left - n) (call left s).1 =
              rw (more, e, p) refl in
            elim (again (left - n) (call left s).1 (ground arith)) [
              | inl (t, o, m) ↦ inl (t, step ∙ o, ground (arith, m, moves))
              | inr (t, r, end, o, m) ↦ inr (t, r, end, step ∙ o, ground (arith, m, moves))
            ]
      ]

  -- readFixSize and writeFixSize of a ByteArray return, when each call of the stream moves as many
  -- bytes as it answers and at most those that are left. They return the length as an int, and then
  -- just so many bytes were moved; or they return what the last call of the stream has answered,
  -- zero or an error, and then fewer were. For a length of 2^63 or more no byte is moved, and the
  -- length is returned all the same.
  pub fix_size_array_lem :
      (length : ℕ) (s : S)
      → length < 2 ^ 64
      → ((t : S) × (fix_size_array call length s ≡ ok (signed32 length, t))
          × (moved t ≡ moved s + wanted length))
        ⊎ ((t : S) × (r : ℤ) × Answered r t
            × (fix_size_array call length s ≡ ok (r, t))
            × (moved t < moved s + wanted length))
  unfolding fix_size_array
  fix_size_array_lem length s h = elim (Bool-cases (ltb length (2 ^ 63))) [
    | inr e ↦
        let m : signed64 length ≡ negsuc (2 ^ 64 - 1 - length) = ground (arith, e, h) in
        inl (s, rw m refl, rw e (omega arith))
    | inl e ↦
        let m : signed64 length ≡ pos length = ground (arith, e) in
        elim (loop_array-Ends (suc length) length s (omega arith)) [
          | inl (t, o, n) ↦ inl (t, rw (m, o) refl, rw e n)
          | inr (t, r, end, o, n) ↦ inr (t, r, end, rw (m, o) refl, rw e n)
        ]
  ]
