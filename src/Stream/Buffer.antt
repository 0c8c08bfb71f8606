-- ===== src/Stream/Buffer.antt =====
-- skt/stream/stream.cpp: the overloads for a buffer, whose `len` is a size_t.
use learn_web.Common.{
  ℕ, zero, suc, ◌+◌, ◌-◌, ◌^◌, ◌%◌, ◌<◌, ◌≡◌, refl, ◌∙◌, arith, false, ◌==◌, sub64,
}
use learn_web.Common.Integers.{ℤ, negsuc}
use learn_web.Common.Outcome.{err, out_of_fuel, err_first}
use learn_web.Stream.Defs.{to_size, loop_buffer, fix_size_buffer}

module _ {S : Type 0} (call : ℕ → ℕ → S → ℤ × S) where
  -- An answer -1 is taken for 2^64 - 1 bytes.
  loop_buffer-failed :
      (fuel offset left : ℕ) (s : S)
      → (call offset left s).0 ≡ negsuc 0
      → 0 < left
      → left + 1 < 2 ^ 64
      → loop_buffer call (suc fuel) offset left s
        ≡ loop_buffer call fuel ((offset + (2 ^ 64 - 1)) % 2 ^ 64) (left + 1) (call offset left s).1
  unfolding loop_buffer to_size
  loop_buffer-failed fuel offset left s e h k =
      let more : (left == 0) ≡ false = ground arith in
      let left' : sub64 left (2 ^ 64 - 1) ≡ left + 1 = ground arith in rw (more, e, left') refl

  loop_buffer-never :
      (fuel offset left : ℕ) (s : S)
      → ((offset left : ℕ) (s : S) → (call offset left s).0 ≡ negsuc 0)
      → 0 < left
      → left + fuel < 2 ^ 64
      → loop_buffer call fuel offset left s ≡ err out_of_fuel
  unfolding loop_buffer
  loop_buffer-never zero offset left s fails h k = refl
  loop_buffer-never (suc fuel) offset left s fails h k =
      loop_buffer-failed fuel offset left s (fails offset left s) h (omega (arith, k))
      ∙ loop_buffer-never fuel ((offset + (2 ^ 64 - 1)) % 2 ^ 64) (left + 1) (call offset left s).1
          fails (omega arith) (omega (arith, k))

  -- When every call of the stream fails with -1, readFixSize and writeFixSize of a buffer, for one
  -- byte at least, do not return the error: for any number of rounds, as far as size_t counts,
  -- they are still in the loop.
  pub fix_size_buffer-never :
      (fuel length : ℕ) (s : S)
      → ((offset left : ℕ) (s : S) → (call offset left s).0 ≡ negsuc 0)
      → 0 < length
      → length + fuel < 2 ^ 64
      → fix_size_buffer fuel call length s ≡ err out_of_fuel
  unfolding fix_size_buffer
  fix_size_buffer-never fuel length s fails h k =
      err_first _ _ (loop_buffer-never fuel 0 length s fails h k)
