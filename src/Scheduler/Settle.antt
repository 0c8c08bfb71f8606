-- ===== src/Scheduler/Settle.antt =====
-- skt/scheduler/scheduler.cpp: the state of a fiber that has given its thread back to run.
use learn_web.Common.{
  ℕ, ◌≡◌, ◌≢◌, refl, sym, arith, true, false, not, none, some, List, [], ◌∷◌, ◌++◌, append_nil,
  if◌then◌else◌, sub64,
}
use learn_web.Common.Integers.{negsuc}
use learn_web.Common.Outcome.{ok}
use learn_web.Fiber.Defs.{
  State, hold, term, except, ready, is_exec, is_over, is_ready, Fiber, End, yields_ready,
  yields_hold, returns, throws, run_to_end, yield_to_ready, yield_to_hold, main_func,
}
use learn_web.Scheduler.Defs.{FiberAndThread, schedule_no_lock}
use learn_web.Scheduler.Run.{World, put_fiber, put_hold, one_less, schedule_fiber}

-- The fiber when the switch away from it is done.
abbrev pub left_by : End → Fiber → Fiber
left_by yields_ready f = record f { state = ready }
left_by yields_hold f = f
left_by returns f = record f { cb = none; state = term }
left_by throws f = record f { state = except }

-- The fiber when the round is done.
abbrev pub settled : End → Fiber → Fiber
settled yields_hold f = record f { state = hold }
settled e f = left_by e f

-- The task that a fiber leaves behind.
abbrev pub requeued : End → ℕ → List FiberAndThread
requeued yields_ready a = record { fiber = some a; cb = none; thread = negsuc 0 } ∷ []
requeued _ a = []

-- What `execute` leaves as it is: the state and the stack of the fiber that it runs, and the number
-- of active threads.
pub record Keeps (execute : ℕ → World → End × World) : Type 0 where
  pub state :
      (a : ℕ) (w : World)
      → is_exec (w.fibers a).state ≡ true
      → is_exec ((execute a w).1.fibers a).state ≡ true
  pub stack : (a : ℕ) (w : World) → ((execute a w).1.fibers a).stack ≡ (w.fibers a).stack
  pub active : (a : ℕ) (w : World) → (execute a w).1.sched.active ≡ w.sched.active

pub run_to_end_lem :
    (e : End) (f : Fiber) → is_exec f.state ≡ true → run_to_end e f ≡ ok (left_by e f)
unfolding run_to_end yield_to_ready yield_to_hold main_func
run_to_end_lem yields_ready f h = rw h refl
run_to_end_lem yields_hold f h = rw h refl
run_to_end_lem returns f h = refl
run_to_end_lem throws f h = refl

pub put_here : (a : ℕ) (f : Fiber) (w : World) → (put_fiber a f w).fibers a ≡ f
put_here a f w = ground arith

abbrev pub concluded : ℕ → World → World
concluded a after =
    let less = one_less after in
    if is_ready (after.fibers a).state
    then schedule_fiber a less
    else if not (is_over (after.fibers a).state)
    then put_hold a less
    else less

put_there : (a b : ℕ) (f : Fiber) (w : World) → b ≢ a → (put_fiber a f w).fibers b ≡ w.fibers b
put_there a b f w h = ground (arith, h)

pub other_state :
    (f : Fiber) → is_exec f.state ≡ true → (is_ready f.state ≡ false) × (is_over f.state ≡ false)
other_state f h =
    elim f.state as (λ s. is_exec s ≡ true → (is_ready s ≡ false) × (is_over s ≡ false)) [
      | State.exec ↦ λ _. (refl, refl)
      | State.init ↦ λ h. cc
      | State.hold ↦ λ h. cc
      | State.term ↦ λ h. cc
      | State.ready ↦ λ h. cc
      | State.except ↦ λ h. cc
    ]
      h

-- What becomes of a fiber that left the world `v` by `e`, in the world `w`.
pub record Done (e : End) (a : ℕ) (v w : World) : Type 0 where
  pub fiber : w.fibers a ≡ settled e (v.fibers a)
  pub others : (b : ℕ) → b ≢ a → w.fibers b ≡ v.fibers b
  pub queue : w.sched.fibers ≡ v.sched.fibers ++ requeued e a
  pub active : w.sched.active ≡ sub64 v.sched.active 1

pub concluded_lem :
    (e : End) (a : ℕ) (v : World)
    → is_exec (v.fibers a).state ≡ true
    → Done e a v (concluded a (put_fiber a (left_by e (v.fibers a)) v))
unfolding schedule_fiber schedule_no_lock
concluded_lem yields_ready a v h =
    let here = put_here a (left_by yields_ready (v.fibers a)) v in
    rw here (record {
      fiber = here;
      others = λ b n. put_there a b (left_by yields_ready (v.fibers a)) v n;
      queue = refl;
      active = refl;
    })
concluded_lem yields_hold a v h =
    let here = put_here a (v.fibers a) v in
    let (nr, nv) = other_state (v.fibers a) h in
    rw (here, nr, nv)
      (record {
        fiber = ground (arith, here);
        others = λ b n. ground (arith, n);
        queue = sym (append_nil v.sched.fibers);
        active = refl;
      })
concluded_lem returns a v h =
    let here = put_here a (left_by returns (v.fibers a)) v in
    rw here (record {
      fiber = here;
      others = λ b n. put_there a b (left_by returns (v.fibers a)) v n;
      queue = sym (append_nil v.sched.fibers);
      active = refl;
    })
concluded_lem throws a v h =
    let here = put_here a (left_by throws (v.fibers a)) v in
    rw here (record {
      fiber = here;
      others = λ b n. put_there a b (left_by throws (v.fibers a)) v n;
      queue = sym (append_nil v.sched.fibers);
      active = refl;
    })

pub left_by-stack : (e : End) (f : Fiber) → (left_by e f).stack ≡ f.stack
left_by-stack yields_ready f = refl
left_by-stack yields_hold f = refl
left_by-stack returns f = refl
left_by-stack throws f = refl
