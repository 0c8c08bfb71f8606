-- ===== src/Stream/Runs.antt =====
-- skt/stream at concrete streams.
use learn_web.Common.{ℕ, zero, suc, ◌+◌, ◌≤◌, ◌<◌, ◌≡◌, ◌⊎◌, refl, arith}
use learn_web.Common.Integers.{ℤ, pos, negsuc, signed32}
use learn_web.Common.Outcome.{ok, err, out_of_fuel}
use learn_web.Stream.Defs.{fix_size_array, fix_size_buffer}
use learn_web.Stream.Array.{IsCall, Answered, wanted, fix_size_array_lem}
use learn_web.Stream.Buffer.{fix_size_buffer-never}

-- A stream that hands out one byte at a time and counts them.
abbrev one_by_one : ℕ → ℕ → ℤ × ℕ
one_by_one zero s = (pos 0, s)
one_by_one (suc left) s = (pos 1, s + 1)

one_by_one_moves :
    (left n s : ℕ) → (one_by_one left s).0 ≡ pos n → (n ≤ left) × ((one_by_one left s).1 ≡ s + n)
one_by_one_moves zero n s e = let same : 0 ≡ n = cc in (omega (arith, same), omega (arith, same))
one_by_one_moves (suc left) n s e =
    let same : 1 ≡ n = cc in (omega (arith, same), omega (arith, same))

one_by_one_answers : (left k s : ℕ) → (one_by_one left s).0 ≡ negsuc k → (one_by_one left s).1 ≡ s
one_by_one_answers zero k s e = cc
one_by_one_answers (suc left) k s e = cc

one_by_one-IsCall : IsCall (λ s. s) one_by_one
one_by_one-IsCall = record { some_moved = one_by_one_moves; none_moved = one_by_one_answers }

fix_size_array_example :
    ((t : ℕ) × (fix_size_array one_by_one 5 2 ≡ ok (signed32 5, t)) × (t ≡ 2 + wanted 5))
    ⊎ ((t : ℕ) × (r : ℤ) × Answered (λ s. s) one_by_one one_by_one-IsCall r t
        × (fix_size_array one_by_one 5 2 ≡ ok (r, t))
        × (t < 2 + wanted 5))
fix_size_array_example = fix_size_array_lem (λ s. s) one_by_one one_by_one-IsCall 5 2 (omega arith)

abbrev broken : ℕ → ℕ → ℕ → ℤ × ℕ
broken offset left s = (negsuc 0, s)

fix_size_buffer-never_example : fix_size_buffer 50 broken 8 0 ≡ err out_of_fuel
fix_size_buffer-never_example =
    fix_size_buffer-never broken 50 8 0 (λ offset left s. refl) (omega arith) (omega arith)
