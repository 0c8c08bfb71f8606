-- ===== src/Hook/Sleeps.antt =====
-- skt/hook/hook.cpp: how long the calls that sleep do so.
use learn_web.Common.{
  ℕ, ◌+◌, ◌*◌, ◌/◌, ◌%◌, ◌^◌, ◌<◌, ◌≡◌, arith, true, ltb, ◌==◌, Bool-cases, inl, inr,
}
use learn_web.Hook.Defs.{nanosleep_ms}

-- nanosleep waits for the time it is asked for, in whole milliseconds, just when the nanoseconds are
-- less than a thousand: of the others it takes the microseconds for milliseconds. This is for times
-- that an int holds.
pub nanosleep_lem :
    (sec nsec : ℕ)
    → sec < 2 ^ 20
    → nsec < 10 ^ 9
    → (nanosleep_ms sec nsec == sec * 1000 + nsec / 10 ^ 6) ≡ ltb nsec 1000
unfolding nanosleep_ms
nanosleep_lem sec nsec h k =
    let whole : (sec * 1000 + nsec / 1000) % 2 ^ 32 ≡ sec * 1000 + nsec / 1000 =
      omega (arith, h, k) in
    let fits : ltb (sec * 1000 + nsec / 1000) (2 ^ 31) ≡ true = ground (arith, h, k) in
    rw (whole, fits)
      (elim (Bool-cases (ltb nsec 1000)) [ inl e ↦ ground (arith, e) | inr e ↦ ground (arith, e) ])
