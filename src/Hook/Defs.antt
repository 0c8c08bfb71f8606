-- ===== src/Hook/Defs.antt =====
-- skt/hook/hook.cpp: do_io and connect_with_timeout. What the system call answers, one attempt after
-- the other, is a list, and so is what comes of each wait; the timer and the event are actions, in
-- the order in which they are made.
use learn_web.Common.{
  ℕ, ◌+◌, ◌*◌, ◌/◌, ◌%◌, ltb, ◌^◌, ◌-◌, Bool, true, false, not, ◌&&◌, ◌||◌, Option, none, some,
  List, [], ◌∷◌, ◌++◌, if◌then◌else◌, ◌==◌,
}
use learn_web.Common.Outcome.{Outcome, ok, err, out_of_fuel, ◌>>=◌}
use learn_web.FdManager.Defs.{FdCtx, get_timeout}

-- What a system call answers: a result, or -1 with an errno.
pub data Answer : Type 0 where
  returned : ℕ → Answer
  failed : ℕ → Answer

abbrev pub eintr : ℕ
eintr = 4

abbrev pub ebadf : ℕ
ebadf = 9

abbrev pub eagain : ℕ
eagain = 11

abbrev pub etimedout : ℕ
etimedout = 110

abbrev pub einprogress : ℕ
einprogress = 115

abbrev pub rcvtimeo : ℕ
rcvtimeo = 20

abbrev pub fails_with : ℕ → Answer → Bool
fails_with e (returned n) = false
fails_with e (failed d) = d == e

pub data Action : Type 0 where
  call : Action
  arm : ℕ → Action
  add_event : Action
  yield_to_hold : Action
  cancel_timer : Action

-- What comes of a wait: the errno when addEvent refuses it, and whether the callback of the timer has
-- run when the fiber goes on.
pub record Wait : Type 0 where
  pub refused : Option ℕ
  pub expired : Bool

-- The timer of a wait, when there is a timeout.
abbrev pub armed : Option ℕ → List Action
armed none = []
armed (some ms) = arm ms ∷ []

abbrev pub disarmed : Option ℕ → List Action
disarmed none = []
disarmed (some ms) = cancel_timer ∷ []

abbrev pub has_timer : Option ℕ → Bool
has_timer none = false
has_timer (some ms) = true

-- The wait behind EAGAIN, by what addEvent answers.
abbrev pub waited : Option ℕ → Bool → Option ℕ → List Action × Option Answer
waited to expired (some e) = (armed to ++ (add_event ∷ disarmed to), some (failed e))
waited to expired none = (
  armed to ++ (add_event ∷ (yield_to_hold ∷ disarmed to)),
  if has_timer to && expired then some (failed etimedout) else none,
)

-- What do_io returns behind it, none when it tries again.
unfoldable pub wait_for : Option ℕ → Wait → List Action × Option Answer
wait_for to w = waited to w.expired w.refused

-- The calls until the answer is not EINTR, and the answers that are left.
unfoldable pub call_again : List Answer → Outcome (List Action × (Answer × List Answer))
call_again [] = err out_of_fuel
call_again (a ∷ more) =
    let rest = call_again more in
    if fails_with eintr a then (rest >>= λ r. ok (call ∷ r.0, r.1)) else ok (call ∷ [], (a, more))

abbrev pub behind_wait :
    List Action
    → List Action × Option Answer
    → Outcome (List Action × Answer)
    → Outcome (List Action × Answer)
behind_wait calls p again = elim p.1 [
  | some a ↦ ok (calls ++ p.0, a)
  | none ↦ again >>= λ s. ok (calls ++ (p.0 ++ s.0), s.1)
]

-- The loop of do_io.
unfoldable pub io_loop : Option ℕ → List Wait → List Answer → Outcome (List Action × Answer)
unfolding wait_for call_again
io_loop to [] answers = call_again answers >>= λ r.
    if fails_with eagain (r.1).0 then err out_of_fuel else ok (r.0, (r.1).0)
io_loop to (w ∷ ws) answers = call_again answers >>= λ r.
    let again = io_loop to ws (r.1).1 in
    if fails_with eagain (r.1).0 then behind_wait r.0 (wait_for to w) again else ok (r.0, (r.1).0)

-- A call that is passed on.
abbrev pub one_call : List Answer → Outcome (List Action × Answer)
one_call [] = err out_of_fuel
one_call (a ∷ more) = ok (call ∷ [], a)

-- The timeout of a context, none when it is -1.
unfoldable pub timeout_of : ℕ → Option ℕ
timeout_of t = if t == 2 ^ 64 - 1 then none else some t

-- do_io, where FdMgr::get has answered `ctx`.
unfoldable pub do_io :
    Bool → Option FdCtx → ℕ → List Wait → List Answer → Outcome (List Action × Answer)
do_io hook_enable ctx timeout_so waits answers =
    if not hook_enable then one_call answers else elim ctx [
      | none ↦ one_call answers
      | some c ↦
          if c.is_closed
          then ok ([], failed ebadf)
          else if not c.is_socket || c.user_nonblock
          then one_call answers
          else io_loop (timeout_of (get_timeout rcvtimeo timeout_so c)) waits answers
    ]

-- What getsockopt has answered: the error of the socket, or that it has failed.
abbrev pub socket_error : Answer → Answer
socket_error (failed e) = failed e
socket_error (returned e) = if e == 0 then returned 0 else failed e

-- The wait of connect_with_timeout. When addEvent refuses it, the error of the socket is asked for
-- at once.
unfoldable pub await_connect : Option ℕ → Wait → Answer → List Action × Answer
await_connect to w so_error =
    let p = wait_for to w in
    let end : Answer = elim p.1 [ none ↦ socket_error so_error | some a ↦ a ] in
    (call ∷ p.0, elim w.refused [ some e ↦ socket_error so_error | none ↦ end ])

-- connect_with_timeout
unfoldable pub connect_with_timeout :
    Bool → Option FdCtx → ℕ → Wait → Answer → Answer → List Action × Answer
connect_with_timeout hook_enable ctx timeout_ms w so_error answer =
    if not hook_enable then (call ∷ [], answer) else elim ctx [
      | none ↦ ([], failed ebadf)
      | some c ↦
          if c.is_closed
          then ([], failed ebadf)
          else if not c.is_socket
          then (call ∷ [], answer)
          else if c.user_nonblock
          then (call ∷ [], answer)
          else if fails_with einprogress answer
          then await_connect (timeout_of timeout_ms) w so_error
          else (call ∷ [], answer)
    ]

-- The milliseconds of the timer that sleep, usleep and nanosleep wait for. The product in sleep is
-- that of unsigned ints; nanosleep puts its sum into an int, which addTimer takes as a uint64_t.
unfoldable pub sleep_ms : ℕ → ℕ
sleep_ms seconds = seconds * 1000 % 2 ^ 32

unfoldable pub usleep_ms : ℕ → ℕ
usleep_ms usec = usec / 1000

unfoldable pub nanosleep_ms : ℕ → ℕ → ℕ
nanosleep_ms sec nsec =
    let timeout_ms = (sec * 1000 + nsec / 1000) % 2 ^ 32 in
    if ltb timeout_ms (2 ^ 31) then timeout_ms else timeout_ms + (2 ^ 64 - 2 ^ 32)
