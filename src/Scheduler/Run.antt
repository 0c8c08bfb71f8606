-- ===== src/Scheduler/Run.antt =====
-- skt/scheduler/scheduler.cpp: what the loop of run does with the task it took. A fiber is its
-- address. What a fiber does from the switch to it on is the parameter `execute`: it changes the
-- world as it likes, and gives the thread back in one of the ways of `End`.
use learn_web.Common.{
  ℕ, suc, Bool, true, false, not, Option, none, some, if◌then◌else◌, ◌==◌, sub64,
}
use learn_web.Common.Integers.{negsuc}
use learn_web.Common.Outcome.{Outcome, ok, err, assert_failed, ◌>>=◌}
use learn_web.Fiber.Defs.{
  hold, is_exec, is_over, is_ready, is_term, Fiber, new_fiber, reset_fiber, End, run_to_end,
  swap_in,
}
use learn_web.Scheduler.Defs.{FiberAndThread, Scheduler, schedule_no_lock, next_task}

-- A Scheduler, the fibers by their addresses, the next free address, s_fiber_id, and
-- m_idleThreadCount.
pub record World : Type 0 where
  pub sched : Scheduler
  pub fibers : ℕ → Fiber
  pub free : ℕ
  pub last_id : ℕ
  pub idle_threads : ℕ

-- The variables cb_fiber and idle_fiber of run.
pub record Worker : Type 0 where
  pub cb_fiber : Option ℕ
  pub idle_fiber : ℕ

abbrev pub put_fiber : ℕ → Fiber → World → World
put_fiber a f w = record w { fibers = λ b. if b == a then f else w.fibers b }

-- `m_state = HOLD`
abbrev pub put_hold : ℕ → World → World
put_hold a w = put_fiber a (record (w.fibers a) { state = hold }) w

-- `--m_activeThreadCount`
abbrev pub one_less : World → World
one_less w = record w { sched = record w.sched { active = sub64 w.sched.active 1 } }

-- `schedule(fiber)`, for any thread.
unfoldable pub schedule_fiber : ℕ → World → World
schedule_fiber a w = record w {
  sched = (schedule_no_lock (record { fiber = some a; cb = none; thread = negsuc 0 }) w.sched).1;
}

-- The fiber of a task, when it has one that is not over.
unfoldable pub live : FiberAndThread → World → Option ℕ
live ft w = elim ft.fiber [
  | none ↦ none
  | some a ↦ if is_over (w.fibers a).state then none else some a
]

-- The fiber that a callback is run by: cb_fiber with another callback, or a new one.
unfoldable pub fiber_for : ℕ → Option ℕ → World → Outcome (ℕ × World)
fiber_for c (some a) w = reset_fiber (some c) (w.fibers a) >>= λ f. ok (a, put_fiber a f w)
fiber_for c none w =
    let f = new_fiber w.last_id (some c) in
    ok (w.free, record (put_fiber w.free f w) { free = suc w.free; last_id = f.id })

-- What becomes of cb_fiber behind the callback's switch.
unfoldable pub after_callback : ℕ → World → Outcome (Option ℕ × World)
after_callback a after =
    let less = one_less after in
    if is_ready (after.fibers a).state
    then ok (none, schedule_fiber a less)
    else if is_over (after.fibers a).state
    then (reset_fiber none (after.fibers a) >>= λ f. ok (some a, put_fiber a f less))
    else ok (none, put_hold a less)

module _ (execute : ℕ → World → End × World) where
  -- Fiber::swapIn, until the fiber has given the thread back. A fiber that is over goes on behind the
  -- last swapOut of MainFunc, where an assertion fails.
  unfoldable pub swap : ℕ → World → Outcome World
  swap a w =
      if is_over (w.fibers a).state
      then err assert_failed
      else (swap_in (w.fibers a) >>= λ f.
          let (end, after) = execute a (put_fiber a f w) in
          run_to_end end (after.fibers a) >>= λ g. ok (put_fiber a g after))

  -- The branch of a task that is a fiber.
  unfoldable pub run_fiber : ℕ → World → Outcome World
  run_fiber a w = swap a w >>= λ after.
      let less = one_less after in
      ok (
        if is_ready (after.fibers a).state
        then schedule_fiber a less
        else if not (is_over (after.fibers a).state)
        then put_hold a less
        else less)

  -- The branch of a task that is a callback.
  unfoldable pub run_callback : ℕ → Worker → World → Outcome (Worker × World)
  run_callback c worker w = fiber_for c worker.cb_fiber w >>= λ p. swap p.0 p.1 >>= λ after.
      after_callback p.0 after >>= λ r. ok (record worker { cb_fiber = r.0 }, r.1)

  -- The branch of no task, or of a fiber that is over; the first component says whether run returns.
  unfoldable pub run_idle : Bool → Worker → World → Outcome (Bool × World)
  run_idle is_active worker w =
      let idle = worker.idle_fiber in
      if is_active
      then ok (false, one_less w)
      else if is_term (w.fibers idle).state
      then ok (true, w)
      else (swap idle (record w { idle_threads = suc w.idle_threads }) >>= λ after.
          let less = record after { idle_threads = sub64 after.idle_threads 1 } in
          ok (false, if is_over (after.fibers idle).state then less else put_hold idle less))

  -- The round behind the choice of the task.
  unfoldable pub run_task : Option FiberAndThread → Worker → World → Outcome (Bool × Worker × World)
  run_task none worker w = run_idle false worker w >>= λ r. ok (r.0, worker, r.1)
  run_task (some ft) worker w = elim (live ft w) [
    | some a ↦ run_fiber a w >>= λ after. ok (false, worker, after)
    | none ↦ elim ft.cb [
      | some c ↦ run_callback c worker w >>= λ r. ok (false, r.0, r.1)
      | none ↦ run_idle true worker w >>= λ r. ok (r.0, worker, r.1)
    ]
  ]

  -- A round of the loop of run on the thread `me`.
  unfoldable pub run_round : ℕ → Worker → World → Outcome (Bool × Worker × World)
  run_round me worker w = next_task (λ a. is_exec (w.fibers a).state) me w.sched >>= λ r.
      run_task r.0.task worker (record w { sched = r.1 })
