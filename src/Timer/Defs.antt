-- ===== src/Timer/Defs.antt =====
-- skt/timer/timer.h and timer.cpp: Timer and TimerManager. The timers live at addresses; an address
-- that no timer has holds one without a callback. The time of GetCurrentMs and the address that
-- `new` gives are arguments. Each call runs under the manager's lock, so calls do not interleave;
-- times are uint64_t, and their sums wrap.
use learn_web.Common.{
  ℕ, ◌+◌, ◌-◌, ◌*◌, ◌%◌, ◌^◌, Bool, true, false, not, ◌&&◌, Option, none, some, List, [], ◌∷◌,
  if◌then◌else◌, ltb, ◌==◌, sub64,
}
use learn_web.Common.Outcome.{Outcome, ok, err, null_deref}
use learn_web.Timer.Order.{less, set_find, set_insert, set_erase}

-- A std::function<void()>: a callback by its number, or one that `std::bind(&OnTimer, cond, cb)`
-- made, which looks at a condition first.
pub data Callback : Type 0 where
  plain : ℕ → Callback
  conditional : ℕ → ℕ → Callback

-- What a call of it runs; `alive` says which conditions still exist (weak_ptr::lock).
unfoldable pub on_timer : (ℕ → Bool) → Callback → Option ℕ
on_timer alive (plain cb) = some cb
on_timer alive (conditional cond cb) = if alive cond then some cb else none

pub record Timer : Type 0 where
  pub recurring : Bool
  pub ms : ℕ
  pub next : ℕ
  pub cb : Option Callback

-- `front_calls` counts the calls of onTimerInsertedAtFront, which a subclass defines.
pub record TimerManager : Type 0 where
  pub timer : ℕ → Timer
  pub timers : List ℕ
  pub tickled : Bool
  pub previous_time : ℕ
  pub front_calls : ℕ

abbrev pub next_of : TimerManager → ℕ → ℕ
next_of s a = (s.timer a).next

abbrev pub put : (ℕ → Timer) → ℕ → Timer → ℕ → Timer
put heap a t b = if b == a then t else heap b

abbrev pub is_some : Option Callback → Bool
is_some none = false
is_some (some c) = true

-- TimerManager::TimerManager
unfoldable pub timer_manager : ℕ → TimerManager
timer_manager now = record {
  timer = λ _. record { recurring = false; ms = 0; next = 0; cb = none };
  timers = [];
  tickled = false;
  previous_time = now;
  front_calls = 0;
}

-- `it == m_timers.begin()` for the iterator of an element.
abbrev at_begin : ℕ → List ℕ → Bool
at_begin a [] = false
at_begin a (x ∷ xs) = x == a

-- TimerManager::addTimer(val, lock)
unfoldable pub add_timer_locked : ℕ → TimerManager → TimerManager
add_timer_locked a s =
    let timers = set_insert (next_of s) a s.timers in
    let at_front = at_begin a timers && not s.tickled in
    record s {
      timers = timers;
      tickled = if at_front then true else s.tickled;
      front_calls = if at_front then s.front_calls + 1 else s.front_calls;
    }

-- Timer::Timer and TimerManager::addTimer; `a` is the address of the new timer.
unfoldable pub add_timer : ℕ → ℕ → ℕ → Option Callback → Bool → TimerManager → TimerManager
unfolding add_timer_locked
add_timer now a ms cb recurring s = add_timer_locked a (record s {
  timer =
      put s.timer a
        (record { recurring = recurring; ms = ms; next = (now + ms) % 2 ^ 64; cb = cb });
})

-- TimerManager::addConditionTimer
unfoldable pub add_condition_timer : ℕ → ℕ → ℕ → ℕ → ℕ → Bool → TimerManager → TimerManager
unfolding add_timer
add_condition_timer now a ms cb cond recurring s =
    add_timer now a ms (some (conditional cond cb)) recurring s

-- Timer::cancel; to erase the end iterator is undefined.
unfoldable pub cancel : ℕ → TimerManager → Outcome (Bool × TimerManager)
cancel a s = elim (s.timer a).cb [
  | none ↦ ok (false, s)
  | some _ ↦
      if set_find (next_of s) a s.timers
      then ok (
        true,
        record s {
          timer = put s.timer a (record (s.timer a) { cb = none });
          timers = set_erase (next_of s) a s.timers;
        },
      )
      else err null_deref
]

-- The set without `a`, and `a` changed to `t` in memory.
unfoldable pub taken_out : ℕ → Timer → TimerManager → TimerManager
taken_out a t s = record s { timer = put s.timer a t; timers = set_erase (next_of s) a s.timers }

-- `m_timers.insert(shared_from_this())`
unfoldable pub insert_timer : ℕ → TimerManager → TimerManager
insert_timer a s = record s { timers = set_insert (next_of s) a s.timers }

-- Timer::refresh
unfoldable pub refresh : ℕ → ℕ → TimerManager → Bool × TimerManager
unfolding taken_out insert_timer
refresh now a s = elim (s.timer a).cb [
  | none ↦ (false, s)
  | some _ ↦
      if set_find (next_of s) a s.timers
      then (
        true,
        insert_timer a
            (taken_out a (record (s.timer a) { next = (now + (s.timer a).ms) % 2 ^ 64 }) s),
      )
      else (false, s)
]

-- The start from which Timer::reset counts.
unfoldable pub reset_start : ℕ → Timer → Bool → ℕ
reset_start now t from_now = if from_now then now else sub64 t.next t.ms

-- Timer::reset
unfoldable pub reset : ℕ → ℕ → ℕ → Bool → TimerManager → Bool × TimerManager
unfolding taken_out add_timer_locked reset_start
reset now a ms from_now s =
    if ms == (s.timer a).ms && not from_now then (true, s) else elim (s.timer a).cb [
      | none ↦ (false, s)
      | some _ ↦
          if set_find (next_of s) a s.timers
          then (
            true,
            add_timer_locked a (
                taken_out a
                  (record (s.timer a) {
                    ms = ms;
                    next = (reset_start now (s.timer a) from_now + ms) % 2 ^ 64;
                  })
                  s),
          )
          else (false, s)
    ]

-- The wait of TimerManager::getNextTimer, for the first timer of the set.
unfoldable pub wait_for : ℕ → (ℕ → ℕ) → List ℕ → ℕ
wait_for now next [] = 2 ^ 64 - 1
wait_for now next (a ∷ _) = if ltb (next a) now then 0 else next a - now

-- TimerManager::getNextTimer
unfoldable pub get_next_timer : ℕ → TimerManager → ℕ × TimerManager
unfolding wait_for
get_next_timer now s = (wait_for now (next_of s) s.timers, record s { tickled = false })

-- TimerManager::hasTimer
unfoldable pub has_timer : TimerManager → Bool
has_timer s = elim s.timers [ [] ↦ false | _ ∷ _ ↦ true ]

-- TimerManager::detectClockRollover
unfoldable pub detect_clock_rollover : ℕ → TimerManager → Bool × TimerManager
detect_clock_rollover now s = (
  ltb now s.previous_time && ltb now (sub64 s.previous_time (60 * 60 * 1000)),
  record s { previous_time = now },
)

-- The loop behind lower_bound: `it` moves over the timers of this very time.
unfoldable pub take_now : (ℕ → ℕ) → ℕ → List ℕ → List ℕ × List ℕ
take_now next now [] = ([], [])
take_now next now (x ∷ xs) =
    let rest = take_now next now xs in if next x == now then (x ∷ rest.0, rest.1) else ([], x ∷ xs)

-- lower_bound of a timer with the time `now` at the address `key`, and the loop behind it: what is
-- in front of `it`, and what is not.
unfoldable pub split_expired : (ℕ → ℕ) → ℕ → ℕ → List ℕ → List ℕ × List ℕ
unfolding take_now
split_expired next now key [] = ([], [])
split_expired next now key (x ∷ xs) =
    let rest = split_expired next now key xs in
    if less (λ b. if b == key then now else next b) (some x) (some key)
    then (x ∷ rest.0, rest.1)
    else take_now next now (x ∷ xs)

-- One round of the loop over `expired`: a recurring timer starts again, another one is done.
unfoldable pub fire_one : ℕ → ℕ → TimerManager → TimerManager
unfolding insert_timer
fire_one now a s =
    if (s.timer a).recurring
    then insert_timer a (record s {
      timer = put s.timer a (record (s.timer a) { next = (now + (s.timer a).ms) % 2 ^ 64 });
    })
    else record s { timer = put s.timer a (record (s.timer a) { cb = none }) }

-- The loop over `expired`: what it pushes, and the manager behind it.
unfoldable pub fire : ℕ → List ℕ → TimerManager → List (Option Callback) × TimerManager
unfolding fire_one
fire now [] s = ([], s)
fire now (a ∷ others) s =
    let rest = fire now others (fire_one now a s) in ((s.timer a).cb ∷ rest.0, rest.1)

-- TimerManager::listExpiredCb from the copy to `expired` on.
unfoldable pub collect : Bool → ℕ → ℕ → TimerManager → List (Option Callback) × TimerManager
collect rollover now key s =
    let parts = if rollover then (s.timers, []) else split_expired (next_of s) now key s.timers in
    fire now parts.0 (record s { timers = parts.1 })

-- Its part behind the tests that the set is not empty, whose first timer is `x`.
unfoldable pub list_expired_first : ℕ → ℕ → ℕ → TimerManager → List (Option Callback) × TimerManager
unfolding detect_clock_rollover
list_expired_first x now key s =
    let (rollover, s') = detect_clock_rollover now s in
    if not rollover && ltb now (next_of s x) then ([], s') else collect rollover now key s'

-- TimerManager::listExpiredCb; `key` is the address of `now_timer`.
unfoldable pub list_expired_cb : ℕ → ℕ → TimerManager → List (Option Callback) × TimerManager
unfolding list_expired_first
list_expired_cb now key s = elim s.timers [ [] ↦ ([], s) | x ∷ _ ↦ list_expired_first x now key s ]
