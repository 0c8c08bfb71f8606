-- ===== src/Timer/Invariant.antt =====
-- skt/timer/timer.cpp: the invariant of a TimerManager, kept by every call.
use learn_web.Common.{
  ℕ, ◌+◌, ◌≡◌, ◌≢◌, ◌%◌, ◌^◌, refl, arith, Bool, true, false, Option, none, some, List, mem,
}
use learn_web.Common.Outcome.{ok}
use learn_web.Timer.Order.{
  set_erase, IsOrdered, insert-IsOrdered, mem-insert, find-mem, erase-IsOrdered, mem-erase,
  IsOrdered-unchanged,
}
use learn_web.Timer.Defs.{
  Callback, Timer, TimerManager, next_of, put, is_some, timer_manager, add_timer_locked, add_timer,
  cancel, taken_out, insert_timer,
}

-- The set is in order, and its members are just the timers that have a callback.
pub record IsValid (s : TimerManager) : Type 0 where
  pub ordered : IsOrdered (next_of s) s.timers
  pub armed : (a : ℕ) → mem a s.timers ≡ is_some (s.timer a).cb

pub timer_manager-IsValid : (now : ℕ) → IsValid (timer_manager now)
unfolding timer_manager
timer_manager-IsValid now = record { ordered = tt; armed = λ a. refl }

-- A timer outside the set that has a callback can be put into it.
pub record IsValidBut (a : ℕ) (s : TimerManager) : Type 0 where
  pub ordered : IsOrdered (next_of s) s.timers
  pub absent : mem a s.timers ≡ false
  pub callback : is_some (s.timer a).cb ≡ true
  pub armed : (b : ℕ) → b ≢ a → mem b s.timers ≡ is_some (s.timer b).cb

pub insert_timer-IsValid : (a : ℕ) (s : TimerManager) → IsValidBut a s → IsValid (insert_timer a s)
unfolding insert_timer
insert_timer-IsValid a s v = record {
  ordered = insert-IsOrdered (next_of s) a s.timers v.ordered;
  armed = λ b. ground (arith, mem-insert (next_of s) b a s.timers, v.callback, v.armed b);
}

pub add_timer_locked-IsValid :
    (a : ℕ) (s : TimerManager) → IsValidBut a s → IsValid (add_timer_locked a s)
unfolding add_timer_locked
add_timer_locked-IsValid a s v = record {
  ordered = insert-IsOrdered (next_of s) a s.timers v.ordered;
  armed = λ b. ground (arith, mem-insert (next_of s) b a s.timers, v.callback, v.armed b);
}

pub put-IsOrdered :
    (a : ℕ) (t : Timer) (s : TimerManager) (xs : List ℕ)
    → mem a xs ≡ false
    → IsOrdered (next_of s) xs
    → IsOrdered (λ b. (put s.timer a t b).next) xs
put-IsOrdered a t s xs h =
    IsOrdered-unchanged (next_of s) (λ b. (put s.timer a t b).next) xs (λ b m. ground arith)

-- Taken out and changed, a timer can be put back.
pub taken_out-IsValidBut :
    (a : ℕ) (t : Timer) (s : TimerManager)
    → IsValid s
    → is_some t.cb ≡ true
    → IsValidBut a (taken_out a t s)
unfolding taken_out
taken_out-IsValidBut a t s v h =
    let out : mem a (set_erase (next_of s) a s.timers) ≡ false =
      ground (arith, mem-erase (next_of s) a a s.timers v.ordered) in
    record {
      ordered =
          put-IsOrdered a t s (set_erase (next_of s) a s.timers) out
            (erase-IsOrdered (next_of s) a s.timers v.ordered);
      absent = out;
      callback = ground (arith, h);
      armed = λ b n. ground (arith, mem-erase (next_of s) b a s.timers v.ordered, v.armed b);
    }

-- A new timer with a callback, at an address where no timer has one, keeps a well-formed manager
-- well-formed: its set is in order and has just the timers with a callback.
pub add_timer-IsValid :
    (now a ms : ℕ) (cb : Callback) (recurring : Bool) (s : TimerManager)
    → IsValid s
    → (s.timer a).cb ≡ none
    → IsValid (add_timer now a ms (some cb) recurring s)
unfolding add_timer
add_timer-IsValid now a ms cb recurring s v free =
    let t : Timer = record {
      recurring = recurring;
      ms = ms;
      next = (now + ms) % 2 ^ 64;
      cb = some cb;
    } in
    let out : mem a s.timers ≡ false = ground (arith, v.armed a) in
    add_timer_locked-IsValid a (record s { timer = put s.timer a t })
      (record {
        ordered = put-IsOrdered a t s s.timers out v.ordered;
        absent = out;
        callback = ground arith;
        armed = λ b n. ground (arith, v.armed b);
      })

-- What a call that works on the timer `a` alone leaves of the others.
abbrev pub OthersKept : ℕ → TimerManager → TimerManager → Type 0
OthersKept a s t = (b : ℕ) → b ≢ a → (t.timer b ≡ s.timer b) × (mem b t.timers ≡ mem b s.timers)

cancel_armed :
    (a : ℕ) (c : Callback) (s : TimerManager)
    → IsValid s
    → (s.timer a).cb ≡ some c
    → (t : TimerManager) × (cancel a s ≡ ok (true, t))
      × IsValid t
      × ((t.timer a).cb ≡ none)
      × (mem a t.timers ≡ false)
      × OthersKept a s t
unfolding cancel
cancel_armed a c s v e =
    let t : Timer = record (s.timer a) { cb = none } in
    let out : mem a (set_erase (next_of s) a s.timers) ≡ false =
      ground (arith, mem-erase (next_of s) a a s.timers v.ordered) in
    (
      record s { timer = put s.timer a t; timers = set_erase (next_of s) a s.timers },
      ground (arith, e, find-mem (next_of s) a s.timers v.ordered, v.armed a),
      record {
        ordered =
            put-IsOrdered a t s (set_erase (next_of s) a s.timers) out
              (erase-IsOrdered (next_of s) a s.timers v.ordered);
        armed = λ b. ground (arith, mem-erase (next_of s) b a s.timers v.ordered, v.armed b);
      },
      ground arith,
      out,
      λ b n. (ground arith, ground (arith, mem-erase (next_of s) b a s.timers v.ordered)),
    )

-- On a well-formed manager `cancel` says whether the timer had a callback; it then has none and is
-- in the set no more, the other timers are as before, and the manager stays well-formed. It never
-- erases the end iterator.
pub cancel_lem :
    (a : ℕ) (s : TimerManager)
    → IsValid s
    → (t : TimerManager) × (cancel a s ≡ ok (is_some (s.timer a).cb, t))
      × IsValid t
      × ((t.timer a).cb ≡ none)
      × (mem a t.timers ≡ false)
      × OthersKept a s t
unfolding cancel
cancel_lem a s v = cancel_cases (s.timer a).cb refl
  where
    cancel_cases :
        (o : Option Callback)
        → (s.timer a).cb ≡ o
        → (t : TimerManager) × (cancel a s ≡ ok (is_some (s.timer a).cb, t))
          × IsValid t
          × ((t.timer a).cb ≡ none)
          × (mem a t.timers ≡ false)
          × OthersKept a s t
    cancel_cases none e = (s, rw (e, cancel), v, e, ground (arith, v.armed a), λ b n. (refl, refl))
    cancel_cases (some c) e = rw e (cancel_armed a c s v e)
