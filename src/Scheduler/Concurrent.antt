-- ===== src/Scheduler/Concurrent.antt =====
-- skt/scheduler at a concrete round, and at two threads that share a queue.
use learn_web.Common.{ℕ, ◌≡◌, refl, arith, true, false, none, some, List, [], ◌∷◌, ◌&&◌}
use learn_web.Common.Integers.{negsuc}
use learn_web.Common.Outcome.{ok}
use learn_web.Fiber.Defs.{
  init, exec, ready, is_ready, Fiber, End, yields_ready, swap_in, run_to_end, yield_to_ready,
}
use learn_web.Scheduler.Defs.{
  FiberAndThread, Scheduler, Taken, no_tasks, scheduler_stopping, schedule_no_lock, next_task,
  take_task, for_other_thread, is_running,
}
use learn_web.Scheduler.Run.{World, Worker, put_fiber, live, run_fiber, run_round}
use learn_web.Scheduler.Settle.{Keeps, Done}
use learn_web.Scheduler.Callback.{IsReady}
use learn_web.Scheduler.Switch.{ran, run_fiber_lem}
use learn_web.Scheduler.Rounds.{RoundDone, run_round_lem}
use learn_web.Scheduler.Workers.{
  Work, seeking, chosen, going, running, leaving, uncounted, RunThread, Pool, at, Turns, wake, ask,
  take, check, start, leave, uncount, Reach, here, later, IsFresh,
}
use learn_web.Scheduler.Counting.{count_busy, all_free, Reach-stopping}

abbrev some_fiber : Fiber
some_fiber = record { id = 3; state = init; stack = true; cb = some 5 }

-- A fiber that yields at once.
abbrev yield_at_once : ℕ → World → End × World
yield_at_once a w = (yields_ready, w)

yield-Keeps : Keeps yield_at_once
yield-Keeps = record { state = λ a w h. h; stack = λ a w. refl; active = λ a w. refl }

abbrev one_callback : World
one_callback = record {
  sched = record {
    fibers = record { fiber = none; cb = some 8; thread = negsuc 0 } ∷ [];
    active = 0;
    stop_asked = false;
    auto_stop = true;
  };
  fibers = λ a. some_fiber;
  free = 4;
  last_id = 3;
  idle_threads = 0;
}

abbrev fresh_worker : Worker
fresh_worker = record { cb_fiber = none; idle_fiber = 1 }

fresh-IsReady : IsReady fresh_worker one_callback
fresh-IsReady = record { idle = refl; sound = refl; stack = λ a h. cc; free = λ a h. cc }

run_fiber_example :
    (after : World) × (run_fiber yield_at_once 2 one_callback ≡ ok after)
    × Done (ran yield_at_once 2 one_callback).0 2 (ran yield_at_once 2 one_callback).1 after
run_fiber_example = run_fiber_lem yield_at_once yield-Keeps 2 one_callback refl refl

run_round_example :
    RoundDone yield_at_once yield-Keeps 7 fresh_worker one_callback
      (run_round yield_at_once 7 fresh_worker one_callback)
run_round_example =
    run_round_lem yield_at_once yield-Keeps 7 fresh_worker one_callback (refl, tt) fresh-IsReady
      (omega arith)

abbrev a_thread : ℕ → RunThread
a_thread id = record { id = id; vars = fresh_worker; work = seeking }

abbrev two_threads : Pool
two_threads = record {
  world = record one_callback { sched = record one_callback.sched { fibers = [] } };
  threads = a_thread 7 ∷ a_thread 8 ∷ [];
}

two_threads-IsFresh : IsFresh two_threads
two_threads-IsFresh = record { active = refl; entering = (refl, (refl, tt)) }

abbrev fiber_9 : FiberAndThread
fiber_9 = record { fiber = some 9; cb = none; thread = negsuc 0 }

-- The first of the two threads, at the work `x`, with the other one at `y`.
abbrev both : Work → Work → List RunThread
both x y = at x (a_thread 7) ∷ at y (a_thread 8) ∷ []

first : (x y z : Work) → Turns (at x (a_thread 7)) (at y (at x (a_thread 7))) (both x z) (both y z)
first x y z = record { front = []; rest = at z (a_thread 8) ∷ []; before = refl; after = refl }

second : (x y z : Work) → Turns (at x (a_thread 8)) (at y (at x (a_thread 8))) (both z x) (both z y)
second x y z = record { front = at z (a_thread 7) ∷ []; rest = []; before = refl; after = refl }

abbrev the_task : Taken
the_task = record { task = some fiber_9; left = []; tickle_me = false }

abbrev counted : ℕ → List FiberAndThread → Scheduler
counted n fts = record one_callback.sched { fibers = fts; active = n }

-- The first thread has run the fiber, which yields to ready; it has written its state, and not yet
-- switched back.
abbrev yielding : Pool
yielding = record {
  world =
      put_fiber 9 (record some_fiber { state = ready })
        (put_fiber 9 (record some_fiber { state = exec })
          (record one_callback { sched = counted 1 [] }));
  threads = both (leaving false 9) seeking;
}

yielding-Reach : Reach two_threads yielding
unfolding schedule_no_lock next_task take_task for_other_thread is_running live swap_in run_to_end
    yield_to_ready
yielding-Reach =
    later
      (later
        (later
          (later (later here (wake {p = two_threads} fiber_9)) (
            take (a_thread 7) the_task fiber_9 (counted 1 [])
              (first seeking (chosen fiber_9) seeking) refl refl refl))
          (check (at (chosen fiber_9) (a_thread 7)) fiber_9 9
            (first (chosen fiber_9) (going false 9) seeking) refl refl))
        (start (at (going false 9) (a_thread 7)) false 9 (record some_fiber { state = exec })
          (first (going false 9) (running false 9) seeking) refl refl refl))
      (leave (at (running false 9) (a_thread 7)) false 9 yields_ready
        (record some_fiber { state = ready }) (first (running false 9) (leaving false 9) seeking)
        refl refl)

-- It has counted itself off, and the scheduler is asked to stop.
abbrev early : Pool
early = record {
  world = record yielding.world { sched = record (counted 0 []) { stop_asked = true } };
  threads = both (uncounted false 9) seeking;
}

early-Reach : Reach two_threads early
early-Reach =
    later
      (later yielding-Reach (
        uncount {p = yielding} (at (leaving false 9) (a_thread 7)) false 9
          (first (leaving false 9) (uncounted false 9) seeking) refl))
      ask

-- stopping answers true although the fiber is READY and about to be queued.
early_run :
    (scheduler_stopping early.world.sched ≡ true) × (is_ready (early.world.fibers 9).state ≡ true)
unfolding scheduler_stopping
early_run = (refl, refl)

Reach-stopping_example :
    (early.world.sched.active ≡ count_busy early.threads)
    × (scheduler_stopping early.world.sched ≡ (
        early.world.sched.auto_stop
        && early.world.sched.stop_asked
        && no_tasks early.world.sched.fibers
        && all_free early.threads))
Reach-stopping_example = Reach-stopping two_threads-IsFresh early-Reach

-- The fiber is scheduled by somebody else before it has switched back: another thread takes it and
-- switches to it, and two threads are on its stack.
abbrev shared : Pool
shared = record {
  world =
      put_fiber 9 (record some_fiber { state = exec })
        (record yielding.world { sched = counted 2 [] });
  threads = both (leaving false 9) (running false 9);
}

shared-Reach : Reach two_threads shared
unfolding schedule_no_lock next_task take_task for_other_thread is_running live swap_in
shared-Reach =
    later
      (later
        (later (later yielding-Reach (wake {p = yielding} fiber_9)) (
          take (a_thread 8) the_task fiber_9 (counted 2 [])
            (second seeking (chosen fiber_9) (leaving false 9)) refl refl refl))
        (check (at (chosen fiber_9) (a_thread 8)) fiber_9 9
          (second (chosen fiber_9) (going false 9) (leaving false 9)) refl refl))
      (start (at (going false 9) (a_thread 8)) false 9 (record some_fiber { state = exec })
        (second (going false 9) (running false 9) (leaving false 9)) refl refl refl)
