-- ===== src/Timer/Rearm.antt =====
-- skt/timer/timer.cpp: `refresh` and `reset`.
use learn_web.Common.{
  Option-cases, ℕ, ◌+◌, ◌≡◌, ◌≢◌, ◌%◌, ◌^◌, refl, arith, Bool, true, false, not, ◌&&◌, Option, none,
  some, mem, ◌==◌, Bool-cases, inl, inr,
}
use learn_web.Timer.Order.{set_erase, mem-insert, find-mem, mem-erase}
use learn_web.Timer.Defs.{
  Callback, Timer, TimerManager, next_of, put, is_some, add_timer_locked, taken_out, insert_timer,
  refresh, reset,
}
use learn_web.Timer.Defs.{reset_start}
use learn_web.Timer.Invariant.{
  IsValid, taken_out-IsValidBut, insert_timer-IsValid, add_timer_locked-IsValid, OthersKept,
}

-- A timer taken out and put back with the new value `t`, by either way.
record Moved (a : ℕ) (t : Timer) (s r : TimerManager) : Type 0 where
  valid : IsValid r
  value : r.timer a ≡ t
  inside : mem a r.timers ≡ true
  others : OthersKept a s r

reinserted :
    (a : ℕ) (t : Timer) (s : TimerManager)
    → IsValid s
    → is_some t.cb ≡ true
    → Moved a t s (insert_timer a (taken_out a t s))
unfolding insert_timer taken_out
reinserted a t s v h =
    let rest = set_erase (next_of s) a s.timers in
    let next = λ (b : ℕ). (put s.timer a t b).next in
    record {
      valid = insert_timer-IsValid a (taken_out a t s) (taken_out-IsValidBut a t s v h);
      value = ground arith;
      inside = ground (arith, mem-insert next a a rest);
      others = λ b n. (
        ground arith,
        ground (arith, mem-insert next b a rest, mem-erase (next_of s) b a s.timers v.ordered),
      );
    }

readded :
    (a : ℕ) (t : Timer) (s : TimerManager)
    → IsValid s
    → is_some t.cb ≡ true
    → Moved a t s (add_timer_locked a (taken_out a t s))
unfolding add_timer_locked taken_out
readded a t s v h =
    let rest = set_erase (next_of s) a s.timers in
    let next = λ (b : ℕ). (put s.timer a t b).next in
    record {
      valid = add_timer_locked-IsValid a (taken_out a t s) (taken_out-IsValidBut a t s v h);
      value = ground arith;
      inside = ground (arith, mem-insert next a a rest);
      others = λ b n. (
        ground arith,
        ground (arith, mem-insert next b a rest, mem-erase (next_of s) b a s.timers v.ordered),
      );
    }

refresh_armed :
    (now a : ℕ) (c : Callback) (s : TimerManager)
    → IsValid s
    → (s.timer a).cb ≡ some c
    → refresh now a s ≡ (
      true,
      insert_timer a
          (taken_out a (record (s.timer a) { next = (now + (s.timer a).ms) % 2 ^ 64 }) s),
    )
unfolding refresh
refresh_armed now a c s v e =
    ground (arith, e, find-mem (next_of s) a s.timers v.ordered, v.armed a)

refresh_idle : (now a : ℕ) (s : TimerManager) → (s.timer a).cb ≡ none → refresh now a s ≡ (false, s)
unfolding refresh
refresh_idle now a s e = rw (e, refresh)

-- On a well-formed manager `refresh` of a timer that has a callback succeeds: the timer counts its
-- interval from now, is in the set, and the other timers are as before. Of a timer without one it
-- fails and changes nothing. The manager stays well-formed.
pub refresh_lem :
    (now a : ℕ) (s : TimerManager)
    → IsValid s
    → IsValid (refresh now a s).1
      × ((refresh now a s).0 ≡ is_some (s.timer a).cb)
      × (((s.timer a).cb ≡ none) → (refresh now a s).1 ≡ s)
      × (((s.timer a).cb ≢ none)
          → ((refresh now a s).1.timer a
              ≡ record (s.timer a) { next = (now + (s.timer a).ms) % 2 ^ 64 })
            × (mem a (refresh now a s).1.timers ≡ true)
            × OthersKept a s (refresh now a s).1)
refresh_lem now a s v = refresh_cases (s.timer a).cb refl
  where
    refresh_cases :
        (o : Option Callback)
        → (s.timer a).cb ≡ o
        → IsValid (refresh now a s).1
          × ((refresh now a s).0 ≡ is_some (s.timer a).cb)
          × (((s.timer a).cb ≡ none) → (refresh now a s).1 ≡ s)
          × (((s.timer a).cb ≢ none)
              → ((refresh now a s).1.timer a
                  ≡ record (s.timer a) { next = (now + (s.timer a).ms) % 2 ^ 64 })
                × (mem a (refresh now a s).1.timers ≡ true)
                × OthersKept a s (refresh now a s).1)
    refresh_cases none e =
        let same : refresh now a s ≡ (false, s) = refresh_idle now a s e in
        rw same (v, ground (arith, e), λ _. refl, λ n. absurd (n e))
    refresh_cases (some c) e =
        let t : Timer = record (s.timer a) { next = (now + (s.timer a).ms) % 2 ^ 64 } in
        let m = reinserted a t s v (ground (arith, e)) in
        rw (refresh_armed now a c s v e)
          (m.valid, ground (arith, e), λ n. cc, λ _. (m.value, m.inside, m.others))

reset_armed :
    (now a ms : ℕ) (from_now : Bool) (c : Callback) (s : TimerManager)
    → IsValid s
    → (s.timer a).cb ≡ some c
    → (ms == (s.timer a).ms && not from_now) ≡ false
    → reset now a ms from_now s ≡ (
      true,
      add_timer_locked a (
          taken_out a
            (record (s.timer a) {
              ms = ms;
              next = (reset_start now (s.timer a) from_now + ms) % 2 ^ 64;
            })
            s),
    )
unfolding reset
reset_armed now a ms from_now c s v e k =
    ground (arith, k, e, find-mem (next_of s) a s.timers v.ordered, v.armed a)

reset_idle :
    (now a ms : ℕ) (from_now : Bool) (s : TimerManager)
    → (s.timer a).cb ≡ none
    → (ms == (s.timer a).ms && not from_now) ≡ false
    → reset now a ms from_now s ≡ (false, s)
unfolding reset
reset_idle now a ms from_now s e k = rw (k, e, reset)

reset_same :
    (now a ms : ℕ) (from_now : Bool) (s : TimerManager)
    → (ms == (s.timer a).ms && not from_now) ≡ true
    → reset now a ms from_now s ≡ (true, s)
unfolding reset
reset_same now a ms from_now s k = rw k refl

-- On a well-formed manager `reset` to the interval that the timer has, not from now, succeeds and
-- changes nothing, even without a callback. Any other `reset` succeeds just if the timer has a
-- callback: it then has the new interval, ends one interval after its start, is in the set, and
-- the other timers are as before; else it changes nothing. The manager stays well-formed.
pub reset_lem :
    (now a ms : ℕ) (from_now : Bool) (s : TimerManager)
    → IsValid s
    → IsValid (reset now a ms from_now s).1
      × (((ms == (s.timer a).ms && not from_now) ≡ true) → reset now a ms from_now s ≡ (true, s))
      × (((ms == (s.timer a).ms && not from_now) ≡ false)
          → ((reset now a ms from_now s).0 ≡ is_some (s.timer a).cb)
            × (((s.timer a).cb ≡ none) → (reset now a ms from_now s).1 ≡ s)
            × (((s.timer a).cb ≢ none)
                → ((reset now a ms from_now s).1.timer a ≡ record (s.timer a) {
                  ms = ms;
                  next = (reset_start now (s.timer a) from_now + ms) % 2 ^ 64;
                })
                  × (mem a (reset now a ms from_now s).1.timers ≡ true)
                  × OthersKept a s (reset now a ms from_now s).1))
reset_lem now a ms from_now s v = elim (Bool-cases (ms == (s.timer a).ms && not from_now)) [
  | inl k ↦
      let same : reset now a ms from_now s ≡ (true, s) = reset_same now a ms from_now s k in
      rw same (v, λ _. refl, λ k'. cc)
  | inr k ↦ elim (Option-cases (s.timer a).cb) [
    | inl e ↦
        rw (reset_idle now a ms from_now s e k)
          (v, λ k'. cc, λ _. (ground (arith, e), λ _. refl, λ n. absurd (n e)))
    | inr (c, e) ↦
        let t : Timer = record (s.timer a) {
          ms = ms;
          next = (reset_start now (s.timer a) from_now + ms) % 2 ^ 64;
        } in
        let m = readded a t s v (ground (arith, e)) in
        rw (reset_armed now a ms from_now c s v e k)
          (m.valid, λ k'. cc, λ _. (ground (arith, e), λ n. cc, λ _. (m.value, m.inside, m.others)))
  ]
]
