-- ===== src/Scheduler/Counting.antt =====
-- skt/scheduler/scheduler.cpp: m_activeThreadCount counts the threads that have a task.
use mathlib.Core.Path.{subst}
use learn_web.Common.{
  ℕ, suc, ◌+◌, ◌≡◌, refl, sym, ap, ◌∙◌, arith, Bool, true, false, not, ◌&&◌, ◌||◌, Option, none,
  some, List, [], ◌∷◌, ◌++◌, All, if◌then◌else◌, ◌==◌, sub64, Bool-cases, inl, inr,
}
use learn_web.Common.Outcome.{Outcome, ok, err, ◌>>=◌}
use learn_web.Fiber.Defs.{reset_fiber}
use learn_web.Scheduler.Defs.{
  is_some, no_tasks, scheduler_stopping, FiberAndThread, Scheduler, Taken, schedule_no_lock,
  take_task, next_task,
}
use learn_web.Scheduler.Run.{World, put_hold, fiber_for, schedule_fiber}
use learn_web.Scheduler.Workers.{
  Work, seeking, chosen, going, running, leaving, RunThread, Pool, at, given_away, Turns, Step,
  wake, ask, act, take, idle, quit, resume, drop, check, equip, start, leave, uncount, requeue,
  park, finish, clear, Reach, here, later, IsFresh,
}

-- Whether a thread has a task in hand, and has not counted itself off.
abbrev pub busy : Work → Bool
busy (chosen ft) = true
busy (going c a) = true
busy (running c a) = true
busy (leaving c a) = true
busy _ = false

-- How many threads have.
abbrev pub count_busy : List RunThread → ℕ
count_busy [] = 0
count_busy (t ∷ ts) = if busy t.work then suc (count_busy ts) else count_busy ts

-- No thread has.
abbrev pub all_free : List RunThread → Bool
all_free [] = true
all_free (t ∷ ts) = not (busy t.work) && all_free ts

all_free_lem : (ts : List RunThread) → (count_busy ts == 0) ≡ all_free ts
all_free_lem [] = refl
all_free_lem (t ∷ ts) = elim (Bool-cases (busy t.work)) [
  | inl e ↦ rw e (ground arith)
  | inr e ↦ rw e (all_free_lem ts)
]

abbrev one_if : Bool → ℕ
one_if b = if b then 1 else 0

count_busy-append : (ts us : List RunThread) → count_busy (ts ++ us) ≡ count_busy ts + count_busy us
count_busy-append [] us = omega arith
count_busy-append (t ∷ ts) us = elim (Bool-cases (busy t.work)) [
  | inl e ↦ rw e (omega (arith, count_busy-append ts us))
  | inr e ↦ rw e (count_busy-append ts us)
]

count_one :
    (t : RunThread) (ts : List RunThread)
    → count_busy (t ∷ ts) ≡ one_if (busy t.work) + count_busy ts
count_one t ts = elim (Bool-cases (busy t.work)) [
  | inl e ↦ rw e (omega arith)
  | inr e ↦ rw e (omega arith)
]

Turns-count :
    {t u : RunThread} {ts us : List RunThread}
    → Turns t u ts us
    → count_busy us + one_if (busy t.work) ≡ count_busy ts + one_if (busy u.work)
Turns-count {t} {u} x = omega (
  arith,
  ap count_busy x.before,
  ap count_busy x.after,
  count_busy-append x.front (t ∷ x.rest),
  count_busy-append x.front (u ∷ x.rest),
  count_one t x.rest,
  count_one u x.rest,
)

schedule-active :
    (ft : FiberAndThread) (s : Scheduler) → (schedule_no_lock ft s).1.active ≡ s.active
unfolding schedule_no_lock
schedule-active ft s = elim (Bool-cases (is_some ft.fiber || is_some ft.cb)) [
  | inl e ↦ rw e refl
  | inr e ↦ rw e refl
]

abbrev added : Option FiberAndThread → ℕ → ℕ
added o n = elim o [ none ↦ n | some ft ↦ n + 1 ]

-- What holds of the result of a run, when there is one.
abbrev OfResult {ℓ} : {A : Type ℓ} → (A → Type 0) → Outcome A → Type 0
OfResult P (ok a) = P a
OfResult P (err e) = Unit {0}

of_result {ℓ} :
    {A : Type ℓ} (P : A → Type 0) (m : Outcome A) (a : A) → OfResult P m → m ≡ ok a → P a
of_result P m a h e = subst (OfResult P) e h

bind-OfResult {ℓ κ} :
    {A : Type ℓ} {B : Type κ} (P : B → Type 0) (m : Outcome A) (f : A → Outcome B)
    → ((a : A) → OfResult P (f a))
    → OfResult P (m >>= f)
bind-OfResult P (ok a) f h = h a
bind-OfResult P (err e) f h = tt

next_task-active :
    (executing : ℕ → Bool) (me : ℕ) (s s' : Scheduler) (r : Taken)
    → next_task executing me s ≡ ok (r, s')
    → s'.active ≡ added r.task s.active
unfolding next_task
next_task-active executing me s s' r h =
    of_result (λ x. x.1.active ≡ added x.0.task s.active) (next_task executing me s) (r, s')
      (bind-OfResult _ (take_task executing me s.fibers) _ (λ t. refl)) h

fiber_for-active :
    (c : ℕ) (o : Option ℕ) (w w' : World) (a : ℕ)
    → fiber_for c o w ≡ ok (a, w')
    → w'.sched.active ≡ w.sched.active
unfolding fiber_for
fiber_for-active c none w w' a h =
    of_result (λ x. x.1.sched.active ≡ w.sched.active) (fiber_for c none w) (a, w') refl h
fiber_for-active c (some b) w w' a h =
    of_result (λ x. x.1.sched.active ≡ w.sched.active) (fiber_for c (some b) w) (a, w')
      (bind-OfResult _ (reset_fiber (some c) (w.fibers b)) _ (λ f. refl)) h

held-active :
    (b : Bool) (a : ℕ) (w : World) → (if b then w else put_hold a w).sched.active ≡ w.sched.active
held-active true a w = refl
held-active false a w = refl

given_work : (c : Bool) (t : RunThread) → busy (at seeking (given_away c t)).work ≡ false
given_work c t = refl

-- m_activeThreadCount is the number of the threads that have a task in hand.
Counted : Pool → Type 0
Counted p = p.world.sched.active ≡ count_busy p.threads

one_off :
    {t u : RunThread} {ts us : List RunThread} (n : ℕ)
    → Turns t u ts us
    → busy t.work ≡ true
    → busy u.work ≡ false
    → n ≡ count_busy ts
    → sub64 n 1 ≡ count_busy us
one_off {t} {u} {ts} {us} n x b f e =
    let k : count_busy us + 1 ≡ count_busy ts =
      ap (λ c. count_busy us + one_if c) (sym b)
      ∙ Turns-count x
      ∙ ap (λ c. count_busy ts + one_if c) f
      ∙ omega arith in
    ground (arith, k, e)

as_before :
    {t u : RunThread} {ts us : List RunThread} (n : ℕ)
    → Turns t u ts us
    → busy t.work ≡ busy u.work
    → n ≡ count_busy ts
    → n ≡ count_busy us
as_before n x b e = omega (arith, e, Turns-count x, ap one_if b)

one_on :
    {t u : RunThread} {ts us : List RunThread} (n : ℕ)
    → Turns t u ts us
    → busy t.work ≡ false
    → busy u.work ≡ true
    → n ≡ count_busy ts
    → n + 1 ≡ count_busy us
one_on n x b f e = omega (arith, e, Turns-count x, ap one_if b, ap one_if f)

Step-Counted : {p q : Pool} → Step p q → Counted p → Counted q
unfolding Counted schedule_fiber
Step-Counted {p} (wake ft) i = schedule-active ft p.world.sched ∙ i
Step-Counted ask i = i
Step-Counted (act fibers free last) i = i
Step-Counted {p} (take t r ft s x w n y) i =
    next_task-active _ t.id p.world.sched s r n
    ∙ ap (λ o. added o p.world.sched.active) y
    ∙ one_on p.world.sched.active x (ap busy w) refl i
Step-Counted {p} (idle t r s f x w n y o e) i =
    next_task-active _ t.id p.world.sched s r n
    ∙ ap (λ o. added o p.world.sched.active) y
    ∙ as_before p.world.sched.active x (ap busy w) i
Step-Counted {p} (quit t r s x w n y e) i =
    next_task-active _ t.id p.world.sched s r n
    ∙ ap (λ o. added o p.world.sched.active) y
    ∙ as_before p.world.sched.active x (ap busy w) i
Step-Counted {p} (resume t e f x w y) i =
    held-active _ _ _ ∙ as_before p.world.sched.active x (ap busy w) i
Step-Counted {p} (drop t ft x w l c) i = one_off p.world.sched.active x (ap busy w) refl i
Step-Counted {p} (check t ft a x w l) i = as_before p.world.sched.active x (ap busy w) i
Step-Counted {p} (equip t ft c a v x w l m n) i =
    fiber_for-active c t.vars.cb_fiber p.world v a n
    ∙ as_before p.world.sched.active x (ap busy w) i
Step-Counted {p} (start t c a f x w o s) i = as_before p.world.sched.active x (ap busy w) i
Step-Counted {p} (leave t c a e f x w o) i = as_before p.world.sched.active x (ap busy w) i
Step-Counted {p} (uncount t c a x w) i = one_off p.world.sched.active x (ap busy w) refl i
Step-Counted {p} (requeue t c a x w o) i =
    schedule-active _ p.world.sched ∙ as_before p.world.sched.active x (ap busy w) i
Step-Counted {p} (park t c a x w o v) i = as_before p.world.sched.active x (ap busy w) i
Step-Counted {p} (finish t a x w o) i = as_before p.world.sched.active x (ap busy w) i
Step-Counted {p} (clear t a f x w o s) i = as_before p.world.sched.active x (ap busy w) i

entering-free : (ts : List RunThread) → All (λ t. t.work ≡ seeking) ts → count_busy ts ≡ 0
entering-free [] h = refl
entering-free (t ∷ ts) (h, hs) =
    let e : busy t.work ≡ false = ap busy h in rw e (entering-free ts hs)

Reach-Counted : {p q : Pool} → IsFresh p → Reach p q → Counted q
unfolding Counted
Reach-Counted {p} i here = i.active ∙ sym (entering-free p.threads i.entering)
Reach-Counted i (later r s) = Step-Counted s (Reach-Counted i r)

-- However the threads of a scheduler interleave, with tasks that anybody schedules at any time, for
-- one thread or for all, m_activeThreadCount is the number of the threads that have a task in hand,
-- from its choice to the end of its fiber's run. So stopping answers true just when it was asked to
-- stop, no task is queued, and each thread is without a task, on its idle fiber or out of the loop,
-- or has counted itself off and not yet seen to what becomes of its fiber.
pub Reach-stopping :
    {p q : Pool}
    → IsFresh p
    → Reach p q
    → (q.world.sched.active ≡ count_busy q.threads)
      × (scheduler_stopping q.world.sched ≡ (
          q.world.sched.auto_stop
          && q.world.sched.stop_asked
          && no_tasks q.world.sched.fibers
          && all_free q.threads))
unfolding scheduler_stopping Counted
Reach-stopping {p} {q} i r =
    let e : q.world.sched.active ≡ count_busy q.threads = Reach-Counted i r in
    let f : (q.world.sched.active == 0) ≡ all_free q.threads =
      ap (λ n. n == 0) e ∙ all_free_lem q.threads in
    (
      e,
      ap
          (λ b.
            q.world.sched.auto_stop
            && q.world.sched.stop_asked
            && no_tasks q.world.sched.fibers
            && b)
          f,
    )
