-- ===== src/Scheduler/Callback.antt =====
-- skt/scheduler/scheduler.cpp: the fiber that run gives a callback, before and after its run.
use learn_web.Common.{
  ℕ, ◌≡◌, refl, arith, true, false, ◌||◌, Option, some, Option-cases, inl, inr, sub64,
}
use learn_web.Common.Outcome.{ok}
use learn_web.Fiber.Defs.{
  State, is_exec, is_over, is_new, is_except, Fiber, new_fiber, reset_fiber, End, yields_ready,
  yields_hold, returns, throws,
}
use learn_web.Scheduler.Defs.{schedule_no_lock}
use learn_web.Scheduler.Run.{World, Worker, put_fiber, schedule_fiber, fiber_for, after_callback}
use learn_web.Scheduler.Settle.{left_by, put_here, other_state}

-- A round of run can start: the idle fiber does not execute and has not thrown, and cb_fiber, when there is one, was
-- reset, or its callback is over.
pub record IsReady (worker : Worker) (w : World) : Type 0 where
  pub idle : is_exec (w.fibers worker.idle_fiber).state ≡ false
  pub sound : is_except (w.fibers worker.idle_fiber).state ≡ false
  pub stack : (a : ℕ) → worker.cb_fiber ≡ some a → (w.fibers a).stack ≡ true
  pub free :
      (a : ℕ)
      → worker.cb_fiber ≡ some a
      → (is_over (w.fibers a).state || is_new (w.fibers a).state) ≡ true

-- The outcome of after_callback, and the threads that it leaves active.
abbrev pub CallbackDone : ℕ → World → ℕ → Type 0
CallbackDone a after n =
    (r : Option ℕ × World) × (after_callback a after ≡ ok r) × (r.1.sched.active ≡ sub64 n 1)

pub after_callback_lem :
    (e : End) (a : ℕ) (v : World)
    → is_exec (v.fibers a).state ≡ true
    → (v.fibers a).stack ≡ true
    → CallbackDone a (put_fiber a (left_by e (v.fibers a)) v) v.sched.active
unfolding after_callback schedule_fiber schedule_no_lock reset_fiber
after_callback_lem yields_ready a v h s =
    rw (put_here a (left_by yields_ready (v.fibers a)) v) (_, refl, refl)
after_callback_lem yields_hold a v h s =
    let (nr, nv) = other_state (v.fibers a) h in
    rw (put_here a (v.fibers a) v, nr, nv) (_, refl, refl)
after_callback_lem returns a v h s =
    rw (put_here a (left_by returns (v.fibers a)) v, s) (_, refl, refl)
after_callback_lem throws a v h s =
    rw (put_here a (left_by throws (v.fibers a)) v, s) (_, refl, refl)

not-exec : (f : Fiber) → (is_over f.state || is_new f.state) ≡ true → is_exec f.state ≡ false
not-exec f h =
    elim f.state as (λ s. (is_over s || is_new s) ≡ true → is_exec s ≡ false) [
      | State.exec ↦ λ h. cc
      | _ ↦ λ h. refl
    ]
      h

-- The fiber of a callback can be switched to.
pub fiber_for_lem :
    (c : ℕ) (worker : Worker) (w : World)
    → IsReady worker w
    → (p : ℕ × World) × (fiber_for c worker.cb_fiber w ≡ ok p)
      × (is_exec (p.1.fibers p.0).state ≡ false)
      × (is_over (p.1.fibers p.0).state ≡ false)
      × ((p.1.fibers p.0).stack ≡ true)
      × (p.1.sched.active ≡ w.sched.active)
unfolding fiber_for reset_fiber new_fiber
fiber_for_lem c worker w i = elim (Option-cases worker.cb_fiber) [
  | inl n ↦ rw n (_, refl, ground arith, ground arith, ground arith, refl)
  | inr (a, e) ↦
      rw (e, i.stack a e, i.free a e) (_, refl, ground arith, ground arith, ground arith, refl)
]
