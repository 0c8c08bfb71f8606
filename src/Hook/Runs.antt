-- ===== src/Hook/Runs.antt =====
-- skt/hook/hook.cpp: the theorems at concrete calls.
use learn_web.Common.{
  ◌+◌, ◌*◌, ◌/◌, ◌==◌, ltb, ◌^◌, ◌-◌, ◌≡◌, refl, arith, true, false, none, some, List, [], ◌∷◌,
}
use learn_web.Common.Integers.{pos}
use learn_web.Common.Outcome.{ok}
use learn_web.FdManager.Defs.{FdCtx, get_timeout}
use learn_web.Hook.Defs.{
  Answer, returned, failed, Wait, eintr, eagain, einprogress, etimedout, rcvtimeo, do_io, io_loop,
  await_connect, connect_with_timeout, timeout_of, nanosleep_ms, call, arm, add_event,
  yield_to_hold, cancel_timer,
}
use learn_web.Hook.Retries.{answer_of, do_io_lem}
use learn_web.Hook.Sleeps.{nanosleep_lem}
use learn_web.Hook.Timers.{Tidy, Balanced, timers_lem}

-- A socket with a timeout of five seconds for what it receives.
abbrev a_socket : FdCtx
a_socket = record {
  is_init = true;
  is_socket = true;
  sys_nonblock = true;
  user_nonblock = false;
  is_closed = false;
  fd = pos 5;
  recv_timeout = 5000;
  send_timeout = 2 ^ 64 - 1;
}

abbrev woken : Wait
woken = record { refused = none; expired = false }

abbrev some_answers : List Answer
some_answers = failed eintr ∷ (failed eagain ∷ (failed eagain ∷ (returned 7 ∷ [])))

do_io_run :
    do_io true (some a_socket) rcvtimeo (record woken { expired = true } ∷ []) some_answers
    ≡ ok (
      call ∷ (call ∷ (arm 5000 ∷ (add_event ∷ (yield_to_hold ∷ (cancel_timer ∷ []))))),
      failed etimedout,
    )
unfolding do_io io_loop timeout_of get_timeout
do_io_run = refl

-- connect_with_timeout answers that it has connected when addEvent has failed and the connection is
-- still on its way.
connect_run :
    (connect_with_timeout true
      (some a_socket)
      3000
      (record woken { refused = some 2 })
      (returned 0)
      (failed einprogress)).1
    ≡ returned 0
unfolding connect_with_timeout await_connect
connect_run = refl

do_io_example :
    answer_of (do_io true (some a_socket) rcvtimeo (woken ∷ (woken ∷ [])) some_answers)
    ≡ ok (returned 7)
unfolding timeout_of get_timeout
do_io_example =
    do_io_lem a_socket rcvtimeo (woken ∷ (woken ∷ [])) some_answers (returned 7) refl
      ((refl, refl), ((refl, refl), tt)) (omega arith) refl

timers_example :
    Tidy (do_io true (some a_socket) rcvtimeo (woken ∷ (woken ∷ [])) some_answers)
    × Balanced
        (connect_with_timeout true (some a_socket) 3000 woken (returned 0) (failed einprogress)).0
timers_example =
    timers_lem true (some a_socket) rcvtimeo 3000 (woken ∷ (woken ∷ [])) some_answers woken
      (returned 0) (failed einprogress)

-- One and a half seconds become more than eight minutes.
nanosleep_run : nanosleep_ms 1 (5 * 10 ^ 8) ≡ 501000
unfolding nanosleep_ms
nanosleep_run = refl

nanosleep_example :
    (nanosleep_ms 1 (5 * 10 ^ 8) == 1 * 1000 + (5 * 10 ^ 8) / 10 ^ 6) ≡ ltb (5 * 10 ^ 8) 1000
nanosleep_example = nanosleep_lem 1 (5 * 10 ^ 8) (omega arith) (omega arith)
