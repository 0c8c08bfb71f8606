-- ===== src/Scheduler/Workers.antt =====
-- skt/scheduler/scheduler.cpp: the threads that run the loop of Scheduler::run beside each other, as
-- steps, one for each stretch of the code that other threads see as a whole: the choice of a task and
-- the additions to the queue under m_mutex, the tests and the writes of a fiber's state, and the
-- changes of the count. What the fibers and the rest of the program do to the fibers meanwhile is a
-- step of its own, and anybody may schedule any task at any time. A failed assertion ends the
-- program, and is no step.
use learn_web.Common.{
  ℕ, suc, ◌≡◌, Bool, true, false, none, some, List, ◌∷◌, ◌++◌, All, if◌then◌else◌, sub64,
}
use learn_web.Common.Outcome.{ok}
use learn_web.Fiber.Defs.{
  is_exec, is_over, is_ready, is_term, Fiber, End, run_to_end, swap_in, reset_fiber,
}
use learn_web.Scheduler.Defs.{FiberAndThread, Scheduler, Taken, schedule_no_lock, next_task}
use learn_web.Scheduler.Run.{
  World, Worker, put_fiber, put_hold, one_less, schedule_fiber, live, fiber_for,
}

-- What a thread is at: it looks for a task; it has taken one; it has tested the fiber of the task, or
-- found a fiber for its callback, and not yet switched to it; it runs that fiber; the fiber is about
-- to switch back, with its state written; it has counted itself off, with what becomes of the fiber
-- still to be done; it runs its idle fiber; it has left the loop. The Boolean says whether the fiber
-- runs a callback.
pub data Work : Type 0 where
  seeking idling ended : Work
  chosen : FiberAndThread → Work
  going running leaving uncounted : Bool → ℕ → Work

-- A thread of the pool: its id, the variables of run, and its place there.
pub record RunThread : Type 0 where
  pub id : ℕ
  pub vars : Worker
  pub work : Work

pub record Pool : Type 0 where
  pub world : World
  pub threads : List RunThread

abbrev pub at : Work → RunThread → RunThread
at x t = record t { work = x }

-- The test for EXEC that the choice of a task makes.
abbrev pub executing_in : World → ℕ → Bool
executing_in w a = is_exec (w.fibers a).state

-- The variables behind the round of a callback's fiber that is not over: cb_fiber is given away.
abbrev pub given_away : Bool → RunThread → RunThread
given_away callback t =
    if callback then record t { vars = record t.vars { cb_fiber = none } } else t

-- One thread becomes another record, and the others stay.
pub record Turns (t u : RunThread) (ts us : List RunThread) : Type 0 where
  pub front : List RunThread
  pub rest : List RunThread
  pub before : ts ≡ front ++ (t ∷ rest)
  pub after : us ≡ front ++ (u ∷ rest)

pub data Step : Pool → Pool → Type 0 where
  -- schedule(task), from anywhere
  wake :
      {p : Pool} (ft : FiberAndThread)
      → Step p
          (record p { world = record p.world { sched = (schedule_no_lock ft p.world.sched).1 } })
  -- `m_stopping = true`
  ask :
      {p : Pool}
      → Step p (record p {
        world = record p.world { sched = record p.world.sched { stop_asked = true } };
      })
  -- The program makes, resets and destroys fibers.
  act :
      {p : Pool} (fibers : ℕ → Fiber) (free last : ℕ)
      → Step p
          (record p { world = record p.world { fibers = fibers; free = free; last_id = last } })
  -- The loop over m_fibers takes a task.
  take :
      {p : Pool} {us : List RunThread} (t : RunThread) (r : Taken) (ft : FiberAndThread)
      (s : Scheduler)
      → Turns t (at (chosen ft) t) p.threads us
      → t.work ≡ seeking
      → next_task (executing_in p.world) t.id p.world.sched ≡ ok (r, s)
      → r.task ≡ some ft
      → Step p (record p { world = record p.world { sched = s }; threads = us })
  -- It takes none, and the idle fiber is switched to.
  idle :
      {p : Pool} {us : List RunThread} (t : RunThread) (r : Taken) (s : Scheduler) (f : Fiber)
      → Turns t (at idling t) p.threads us
      → t.work ≡ seeking
      → next_task (executing_in p.world) t.id p.world.sched ≡ ok (r, s)
      → r.task ≡ none
      → is_over (p.world.fibers t.vars.idle_fiber).state ≡ false
      → swap_in (p.world.fibers t.vars.idle_fiber) ≡ ok f
      → Step p (record p {
        world =
            put_fiber t.vars.idle_fiber f
              (record p.world { sched = s; idle_threads = suc p.world.idle_threads });
        threads = us;
      })
  -- It takes none, and the idle fiber is TERM.
  quit :
      {p : Pool} {us : List RunThread} (t : RunThread) (r : Taken) (s : Scheduler)
      → Turns t (at ended t) p.threads us
      → t.work ≡ seeking
      → next_task (executing_in p.world) t.id p.world.sched ≡ ok (r, s)
      → r.task ≡ none
      → is_term (p.world.fibers t.vars.idle_fiber).state ≡ true
      → Step p (record p { world = record p.world { sched = s }; threads = us })
  -- The idle fiber switches back.
  resume :
      {p : Pool} {us : List RunThread} (t : RunThread) (e : End) (f : Fiber)
      → Turns t (at seeking t) p.threads us
      → t.work ≡ idling
      → run_to_end e (p.world.fibers t.vars.idle_fiber) ≡ ok f
      → Step p (record p {
        world =
            (let less = record (put_fiber t.vars.idle_fiber f p.world) {
              idle_threads = sub64 p.world.idle_threads 1;
            } in
              if is_over f.state then less else put_hold t.vars.idle_fiber less);
        threads = us;
      })
  -- The fiber of the task is over, and there is no callback.
  drop :
      {p : Pool} {us : List RunThread} (t : RunThread) (ft : FiberAndThread)
      → Turns t (at seeking t) p.threads us
      → t.work ≡ chosen ft
      → live ft p.world ≡ none
      → ft.cb ≡ none
      → Step p (record p { world = one_less p.world; threads = us })
  -- The fiber of the task is not over.
  check :
      {p : Pool} {us : List RunThread} (t : RunThread) (ft : FiberAndThread) (a : ℕ)
      → Turns t (at (going false a) t) p.threads us
      → t.work ≡ chosen ft
      → live ft p.world ≡ some a
      → Step p (record p { threads = us })
  -- The callback of the task gets cb_fiber or a new fiber.
  equip :
      {p : Pool} {us : List RunThread} (t : RunThread) (ft : FiberAndThread) (c a : ℕ) (w : World)
      → Turns t
          (record t { work = going true a; vars = record t.vars { cb_fiber = some a } })
          p.threads
          us
      → t.work ≡ chosen ft
      → live ft p.world ≡ none
      → ft.cb ≡ some c
      → fiber_for c t.vars.cb_fiber p.world ≡ ok (a, w)
      → Step p (record { world = w; threads = us })
  -- swapIn
  start :
      {p : Pool} {us : List RunThread} (t : RunThread) (callback : Bool) (a : ℕ) (f : Fiber)
      → Turns t (at (running callback a) t) p.threads us
      → t.work ≡ going callback a
      → is_over (p.world.fibers a).state ≡ false
      → swap_in (p.world.fibers a) ≡ ok f
      → Step p (record p { world = put_fiber a f p.world; threads = us })
  -- YieldToReady, YieldToHold or the end of MainFunc, up to swapOut
  leave :
      {p : Pool} {us : List RunThread} (t : RunThread) (callback : Bool) (a : ℕ) (e : End)
      (f : Fiber)
      → Turns t (at (leaving callback a) t) p.threads us
      → t.work ≡ running callback a
      → run_to_end e (p.world.fibers a) ≡ ok f
      → Step p (record p { world = put_fiber a f p.world; threads = us })
  -- `--m_activeThreadCount`
  uncount :
      {p : Pool} {us : List RunThread} (t : RunThread) (callback : Bool) (a : ℕ)
      → Turns t (at (uncounted callback a) t) p.threads us
      → t.work ≡ leaving callback a
      → Step p (record p { world = one_less p.world; threads = us })
  -- `schedule(ft.fiber)`, `schedule(cb_fiber)`
  requeue :
      {p : Pool} {us : List RunThread} (t : RunThread) (callback : Bool) (a : ℕ)
      → Turns t (at seeking (given_away callback t)) p.threads us
      → t.work ≡ uncounted callback a
      → is_ready (p.world.fibers a).state ≡ true
      → Step p (record p { world = schedule_fiber a p.world; threads = us })
  -- `m_state = HOLD`
  park :
      {p : Pool} {us : List RunThread} (t : RunThread) (callback : Bool) (a : ℕ)
      → Turns t (at seeking (given_away callback t)) p.threads us
      → t.work ≡ uncounted callback a
      → is_ready (p.world.fibers a).state ≡ false
      → is_over (p.world.fibers a).state ≡ false
      → Step p (record p { world = put_hold a p.world; threads = us })
  -- Nothing is to be done for the fiber of a task that is over.
  finish :
      {p : Pool} {us : List RunThread} (t : RunThread) (a : ℕ)
      → Turns t (at seeking t) p.threads us
      → t.work ≡ uncounted false a
      → is_over (p.world.fibers a).state ≡ true
      → Step p (record p { threads = us })
  -- `cb_fiber->reset(nullptr)`
  clear :
      {p : Pool} {us : List RunThread} (t : RunThread) (a : ℕ) (f : Fiber)
      → Turns t (at seeking t) p.threads us
      → t.work ≡ uncounted true a
      → is_over (p.world.fibers a).state ≡ true
      → reset_fiber none (p.world.fibers a) ≡ ok f
      → Step p (record p { world = put_fiber a f p.world; threads = us })

-- The states that the threads reach.
pub data Reach (p : Pool) : Pool → Type 0 where
  here : Reach p p
  later : {q r : Pool} → Reach p q → Step q r → Reach p r

-- The threads enter the loop, and none of them is counted; the queue may have tasks already, as the
-- ones that are scheduled before start.
pub record IsFresh (p : Pool) : Type 0 where
  pub active : p.world.sched.active ≡ 0
  pub entering : All (λ t. t.work ≡ seeking) p.threads
