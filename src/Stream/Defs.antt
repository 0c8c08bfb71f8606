-- ===== src/Stream/Defs.antt =====
-- skt/stream/stream.cpp: readFixSize and writeFixSize. The virtual read and write of a stream are an
-- argument `call`: what a call answers and the state behind it, which has the stream, the buffer and
-- the ByteArray in it. The read and the write loops of the source differ in that call alone.
use learn_web.Common.{
  ℕ, zero, suc, ◌+◌, ◌-◌, ◌^◌, ◌%◌, Option, none, some, if◌then◌else◌, ◌==◌, sub64,
}
use learn_web.Common.Integers.{ℤ, pos, negsuc, signed32, signed64}
use learn_web.Common.Outcome.{Outcome, ok, err, ◌>>=◌, out_of_fuel}

-- An int converted to size_t.
unfoldable pub to_size : ℤ → ℕ
to_size (pos n) = n
to_size (negsuc n) = 2 ^ 64 - 1 - n

-- `return length`, or the answer that ended the loop.
abbrev pub returned : ℕ → Option ℤ → ℤ
returned length none = signed32 length
returned length (some r) = r

module _ {S : Type 0} where
  -- The loop of the overloads for a ByteArray, with left and len as int64_t; a `left` below zero
  -- ends the loop as zero does. The first component is none when the loop ends by its test.
  unfoldable pub loop_array : (ℕ → S → ℤ × S) → ℕ → ℕ → S → Outcome (Option ℤ × S)
  loop_array call zero left s = err out_of_fuel
  loop_array call (suc fuel) left s = if left == 0 then ok (none, s) else elim (call left s).0 [
    | negsuc k ↦ ok (some (negsuc k), (call left s).1)
    | pos n ↦
        let rest = loop_array call fuel (left - n) (call left s).1 in
        if n == 0 then ok (some (pos 0), (call left s).1) else rest
  ]

  -- The loop from `left` on.
  abbrev pub loop_from : (ℕ → S → ℤ × S) → ℤ → S → Outcome (Option ℤ × S)
  loop_from call (pos n) s = loop_array call (suc n) n s
  loop_from call (negsuc k) s = ok (none, s)

  -- readFixSize and writeFixSize of a ByteArray, which put the length into an int64_t
  unfoldable pub fix_size_array : (ℕ → S → ℤ × S) → ℕ → S → Outcome (ℤ × S)
  fix_size_array call length s =
      loop_from call (signed64 length) s >>= λ r. ok (returned length r.0, r.1)

  -- The loop of the overloads for a buffer, with offset, left and len as size_t; `call` takes the
  -- offset too.
  unfoldable pub loop_buffer : (ℕ → ℕ → S → ℤ × S) → ℕ → ℕ → ℕ → S → Outcome (Option ℤ × S)
  unfolding to_size
  loop_buffer call zero offset left s = err out_of_fuel
  loop_buffer call (suc fuel) offset left s =
      let len = to_size (call offset left s).0 in
      let rest =
        loop_buffer call fuel ((offset + len) % 2 ^ 64) (sub64 left len) (call offset left s).1 in
      if left == 0
      then ok (none, s)
      else if len == 0
      then ok (some (pos 0), (call offset left s).1)
      else rest

  -- readFixSize and writeFixSize of a buffer, with a bound on the rounds
  unfoldable pub fix_size_buffer : ℕ → (ℕ → ℕ → S → ℤ × S) → ℕ → S → Outcome (ℤ × S)
  fix_size_buffer fuel call length s =
      loop_buffer call fuel 0 length s >>= λ r. ok (returned length r.0, r.1)
