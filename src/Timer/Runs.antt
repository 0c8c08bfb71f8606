-- ===== src/Timer/Runs.antt =====
-- skt/timer: the manager at concrete inputs.
use learn_web.Common.{◌≡◌, refl, true, false, none, some, mem}
use learn_web.Common.Outcome.{ok}
use learn_web.Timer.Order.{less, set_insert}
use learn_web.Timer.Defs.{
  plain, TimerManager, is_some, timer_manager, add_timer, cancel, detect_clock_rollover,
  list_expired_cb,
}
use learn_web.Timer.Invariant.{
  IsValid, OthersKept, timer_manager-IsValid, add_timer-IsValid, cancel_lem,
}
use learn_web.Timer.Listing.{Fired, expired, list_expired_cb_lem}

-- One timer that fires once, at 1030, and then a recurring one, at 1050.
abbrev one_timer : TimerManager
one_timer = add_timer 1000 4 30 (some (plain 7)) false (timer_manager 1000)

abbrev two_timers : TimerManager
two_timers = add_timer 1000 8 50 (some (plain 9)) true one_timer

one_timer-IsValid : IsValid one_timer
unfolding timer_manager
one_timer-IsValid =
    add_timer-IsValid 1000 4 30 (plain 7) false (timer_manager 1000) (timer_manager-IsValid 1000)
      refl

two_timers-IsValid : IsValid two_timers
unfolding add_timer timer_manager
two_timers-IsValid = add_timer-IsValid 1000 8 50 (plain 9) true one_timer one_timer-IsValid refl

add_timer-IsValid_example : IsValid (add_timer 1010 12 20 (some (plain 3)) false two_timers)
unfolding add_timer timer_manager
add_timer-IsValid_example =
    add_timer-IsValid 1010 12 20 (plain 3) false two_timers two_timers-IsValid refl

cancel_example :
    (t : TimerManager) × (cancel 4 two_timers ≡ ok (is_some (two_timers.timer 4).cb, t))
    × IsValid t
    × ((t.timer 4).cb ≡ none)
    × (mem 4 t.timers ≡ false)
    × OthersKept 4 two_timers t
cancel_example = cancel_lem 4 two_timers two_timers-IsValid

list_expired_cb_example :
    Fired
      (expired (detect_clock_rollover 1050 two_timers).0 1050 two_timers)
      1050
      two_timers
      (list_expired_cb 1050 16 two_timers)
unfolding add_timer timer_manager set_insert less
list_expired_cb_example = list_expired_cb_lem 1050 16 two_timers two_timers-IsValid refl
