-- ===== src/Scheduler/Defs.antt =====
-- skt/scheduler/scheduler.h and scheduler.cpp: the tasks of a Scheduler, schedule, the loop of run that
-- takes one, and stopping. A fiber and a callback are numbers; `executing fiber` says whether the
-- state of a fiber is EXEC. A thread id is an int, -1 for any thread.
use learn_web.Common.{
  ℕ, ◌+◌, Bool, true, false, not, ◌&&◌, ◌||◌, Option, none, some, List, [], ◌∷◌, ◌++◌,
  if◌then◌else◌, ◌==◌,
}
use learn_web.Common.Integers.{ℤ, pos, negsuc}
use learn_web.Common.Outcome.{Outcome, ok, err, ◌>>=◌, assert_failed}

pub record FiberAndThread : Type 0 where
  pub fiber : Option ℕ
  pub cb : Option ℕ
  pub thread : ℤ

abbrev pub is_some : Option ℕ → Bool
is_some none = false
is_some (some a) = true

-- `m_stopping` starts as true, `m_active` is m_activeThreadCount.
pub record Scheduler : Type 0 where
  pub fibers : List FiberAndThread
  pub active : ℕ
  pub stop_asked : Bool
  pub auto_stop : Bool

abbrev pub no_tasks : List FiberAndThread → Bool
no_tasks [] = true
no_tasks (t ∷ ts) = false

-- Scheduler::scheduleNoLock; the result is need_tickle.
unfoldable pub schedule_no_lock : FiberAndThread → Scheduler → Bool × Scheduler
schedule_no_lock ft s = (
  no_tasks s.fibers,
  if is_some ft.fiber || is_some ft.cb then record s { fibers = s.fibers ++ (ft ∷ []) } else s,
)

-- Scheduler::schedule of a range; the result is whether it calls tickle.
unfoldable pub schedule_all : List FiberAndThread → Scheduler → Bool × Scheduler
unfolding schedule_no_lock
schedule_all [] s = (false, s)
schedule_all (ft ∷ others) s =
    let one = schedule_no_lock ft s in
    let rest = schedule_all others one.1 in (one.0 || rest.0, rest.1)

-- `it->thread != -1 && it->thread != skt::GetThreadId()`
unfoldable pub for_other_thread : ℕ → FiberAndThread → Bool
for_other_thread me ft = elim ft.thread [ pos n ↦ not (n == me) | negsuc n ↦ not (n == 0) ]

-- `it->fiber && it->fiber->getState() == Fiber::EXEC`
unfoldable pub is_running : (ℕ → Bool) → FiberAndThread → Bool
is_running executing ft = elim ft.fiber [ none ↦ false | some f ↦ executing f ]

-- What the loop over m_fibers comes to: the task it takes, the tasks that are left, and tickle_me.
pub record Taken : Type 0 where
  pub task : Option FiberAndThread
  pub left : List FiberAndThread
  pub tickle_me : Bool

abbrev passed_over : FiberAndThread → Bool → Taken → Taken
passed_over ft tickle r = record {
  task = r.task;
  left = ft ∷ r.left;
  tickle_me = tickle || r.tickle_me;
}

-- The loop of Scheduler::run over m_fibers; the tasks of `fibers` are those from `it` on.
unfoldable pub take_task : (ℕ → Bool) → ℕ → List FiberAndThread → Outcome Taken
unfolding for_other_thread is_running
take_task executing me [] = ok (record { task = none; left = []; tickle_me = false })
take_task executing me (ft ∷ fibers) =
    let rest = take_task executing me fibers in
    if for_other_thread me ft
    then (rest >>= λ r. ok (passed_over ft true r))
    else if not (is_some ft.fiber || is_some ft.cb)
    then err assert_failed
    else if is_running executing ft
    then (rest >>= λ r. ok (passed_over ft false r))
    else ok (record { task = some ft; left = fibers; tickle_me = not (no_tasks fibers) })

-- One round of Scheduler::run up to the call of tickle.
unfoldable pub next_task : (ℕ → Bool) → ℕ → Scheduler → Outcome (Taken × Scheduler)
next_task executing me s = take_task executing me s.fibers >>= λ r. ok (
  r,
  record s { fibers = r.left; active = elim r.task [ none ↦ s.active | some ft ↦ s.active + 1 ] },
)

-- Scheduler::stopping
unfoldable pub scheduler_stopping : Scheduler → Bool
scheduler_stopping s = s.auto_stop && s.stop_asked && no_tasks s.fibers && s.active == 0
