-- ===== src/Scheduler/Switch.antt =====
-- skt/scheduler/scheduler.cpp: the switch of run to a fiber and back.
use learn_web.Common.{ℕ, ◌≡◌, refl, ap, ◌∙◌, true, false, sub64}
use learn_web.Common.Outcome.{ok, bind_ok}
use learn_web.Fiber.Defs.{exec, is_exec, is_over, End, swap_in}
use learn_web.Scheduler.Run.{World, put_fiber, swap, run_fiber}
use learn_web.Scheduler.Settle.{
  left_by, Keeps, Done, run_to_end_lem, put_here, concluded, concluded_lem,
}

-- The world that a fiber starts to run in.
abbrev pub entered : ℕ → World → World
entered a w = put_fiber a (record (w.fibers a) { state = exec }) w

pub entered-exec : (a : ℕ) (w : World) → is_exec ((entered a w).fibers a).state ≡ true
entered-exec a w = rw (put_here a (record (w.fibers a) { state = exec }) w) refl

pub entered-stack : (a : ℕ) (w : World) → ((entered a w).fibers a).stack ≡ (w.fibers a).stack
entered-stack a w = rw (put_here a (record (w.fibers a) { state = exec }) w) refl

module _ (execute : ℕ → World → End × World) where
  -- How a fiber gives the thread back, and the world it leaves.
  abbrev pub ran : ℕ → World → End × World
  ran a w = execute a (entered a w)

  abbrev pub switched : ℕ → World → World
  switched a w = put_fiber a (left_by (ran a w).0 ((ran a w).1.fibers a)) (ran a w).1

module _ (execute : ℕ → World → End × World) (k : Keeps execute) where
  pub swap_lem :
      (a : ℕ) (w : World)
      → is_exec (w.fibers a).state ≡ false
      → is_over (w.fibers a).state ≡ false
      → swap execute a w ≡ ok (switched execute a w)
  unfolding swap swap_in
  swap_lem a w h v =
      rw
        (
          v,
          h,
          run_to_end_lem (ran execute a w).0 ((ran execute a w).1.fibers a)
              (k.state a (entered a w) (entered-exec a w)),
        )
        refl

  -- A fiber that neither executes nor is over is switched to, and the round ends well whichever way it
  -- gives the thread back: a fiber that yields to ready is READY and stands at the end of the queue, for any
  -- thread; one that yields to hold has the state HOLD; one whose callback returned is TERM without
  -- a callback, one whose callback threw is EXCEPT, and these three are not queued. The round counts
  -- one active thread less, and changes no other fiber. What a fiber does while it runs leaves its own
  -- state and stack and the number of active threads as they are.
  pub run_fiber_lem :
      (a : ℕ) (w : World)
      → is_exec (w.fibers a).state ≡ false
      → is_over (w.fibers a).state ≡ false
      → (after : World) × (run_fiber execute a w ≡ ok after)
        × Done (ran execute a w).0 a (ran execute a w).1 after
  unfolding run_fiber
  run_fiber_lem a w h v = (
    concluded a (switched execute a w),
    bind_ok _ _ _ (swap_lem a w h v) refl,
    concluded_lem (ran execute a w).0 a (ran execute a w).1
        (k.state a (entered a w) (entered-exec a w)),
  )

  -- The branch of a task that is a fiber leaves one active thread less.
  pub run_fiber-active :
      (a : ℕ) (w : World)
      → is_exec (w.fibers a).state ≡ false
      → is_over (w.fibers a).state ≡ false
      → (after : World) × (run_fiber execute a w ≡ ok after)
        × (after.sched.active ≡ sub64 w.sched.active 1)
  run_fiber-active a w h v =
      let (after, e, d) = run_fiber_lem a w h v in
      (after, e, d.active ∙ ap (λ n. sub64 n 1) (k.active a (entered a w)))
