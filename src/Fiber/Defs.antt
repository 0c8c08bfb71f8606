-- ===== src/Fiber/Defs.antt =====
-- skt/fiber/fiber.h and fiber.cpp: Fiber. A callback is a number and a stack a Boolean. What a fiber
-- does between the switch to its context and the next switch away from it is an argument, `end`: it
-- yields in one of two ways, or its callback returns or throws. getcontext and swapcontext succeed.
use learn_web.Common.{ℕ, suc, Bool, true, false, not, ◌&&◌, ◌||◌, Option, none, some, if◌then◌else◌}
use learn_web.Common.Outcome.{Outcome, ok, err, assert_failed}

pub data State : Type 0 where
  init hold exec term ready except : State

abbrev pub is_exec : State → Bool
is_exec exec = true
is_exec _ = false

-- `state == TERM || state == EXCEPT`
abbrev pub is_over : State → Bool
is_over term = true
is_over except = true
is_over _ = false

abbrev pub is_ready : State → Bool
is_ready ready = true
is_ready _ = false

abbrev pub is_term : State → Bool
is_term term = true
is_term _ = false

abbrev pub is_except : State → Bool
is_except except = true
is_except _ = false

abbrev pub is_new : State → Bool
is_new init = true
is_new _ = false

pub record Fiber : Type 0 where
  pub id : ℕ
  pub state : State
  pub stack : Bool
  pub cb : Option ℕ

-- Fiber::Fiber(), the main fiber of a thread.
unfoldable pub main_fiber : Fiber
main_fiber = record { id = 0; state = exec; stack = false; cb = none }

-- Fiber::Fiber(cb, stacksize, use_caller); `last` is s_fiber_id.
unfoldable pub new_fiber : ℕ → Option ℕ → Fiber
new_fiber last cb = record { id = suc last; state = init; stack = true; cb = cb }

-- The assertions of Fiber::~Fiber
unfoldable pub can_destroy : Fiber → Bool
can_destroy f =
    if f.stack
    then is_over f.state || is_new f.state
    else not (elim f.cb [ none ↦ false | some c ↦ true ]) && is_exec f.state

-- Fiber::reset
unfoldable pub reset_fiber : Option ℕ → Fiber → Outcome Fiber
reset_fiber cb f =
    if f.stack
    then (if is_over f.state || is_new f.state
        then ok (record f { cb = cb; state = init })
        else err assert_failed)
    else err assert_failed

-- How a fiber gives its thread back.
pub data End : Type 0 where
  yields_ready yields_hold returns throws : End

-- Fiber::YieldToReady
unfoldable pub yield_to_ready : Fiber → Outcome Fiber
yield_to_ready f = if is_exec f.state then ok (record f { state = ready }) else err assert_failed

-- Fiber::YieldToHold, which leaves the state to the scheduler.
unfoldable pub yield_to_hold : Fiber → Outcome Fiber
yield_to_hold f = if is_exec f.state then ok f else err assert_failed

-- Fiber::MainFunc and CallerMainFunc behind the callback, which returned or threw.
unfoldable pub main_func : Bool → Fiber → Fiber
main_func threw f =
    if threw then record f { state = except } else record f { cb = none; state = term }

-- The fiber when the switch away from it is done.
unfoldable pub run_to_end : End → Fiber → Outcome Fiber
run_to_end yields_ready f = yield_to_ready f
run_to_end yields_hold f = yield_to_hold f
run_to_end returns f = ok (main_func false f)
run_to_end throws f = ok (main_func true f)

-- Fiber::swapIn up to the switch to its context
unfoldable pub swap_in : Fiber → Outcome Fiber
swap_in f = if is_exec f.state then err assert_failed else ok (record f { state = exec })

-- Fiber::call up to the switch, without the assertion
unfoldable pub call_fiber : Fiber → Fiber
call_fiber f = record f { state = exec }

-- The thread-local t_fiber and t_threadFiber, as addresses.
pub record Thread : Type 0 where
  pub current : Option ℕ
  pub thread_fiber : Option ℕ

-- Fiber::GetThis, which makes the main fiber at the address `a` on its first call; the last
-- component says whether it did.
unfoldable pub get_this : ℕ → Thread → ℕ × Thread × Bool
get_this a t = elim t.current [
  | some f ↦ (f, t, false)
  | none ↦ (a, record { current = some a; thread_fiber = some a }, true)
]

-- Fiber::GetFiberId
unfoldable pub get_fiber_id : (ℕ → Fiber) → Thread → ℕ
get_fiber_id fibers t = elim t.current [ none ↦ 0 | some f ↦ (fibers f).id ]
