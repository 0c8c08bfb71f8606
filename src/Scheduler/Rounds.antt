-- ===== src/Scheduler/Rounds.antt =====
-- skt/scheduler/scheduler.cpp: what a round of run comes to, whichever task it took.
use learn_web.Common.{
  ℕ, ◌<◌, ◌^◌, ◌≡◌, refl, sym, ap, ◌∙◌, arith, Bool, true, false, ◌&&◌, Option, none, some, List,
  [], ◌∷◌, ◌++◌, All, Bool-cases, Option-cases, inl, inr, if◌then◌else◌, sub64, suc, ◌+◌,
}
use learn_web.Common.Outcome.{Outcome, ok, ◌>>=◌, bind_ok, step_ok}
use learn_web.Fiber.Defs.{State, is_exec, is_over, is_term, is_except, End}
use learn_web.Scheduler.Defs.{FiberAndThread, is_running, Taken, take_task, next_task}
use learn_web.Scheduler.Choice.{has_work, passes, take_task_lem}
use learn_web.Scheduler.Run.{
  World, Worker, put_hold, swap, after_callback, run_callback, run_idle, run_task, run_round, live,
}
use learn_web.Scheduler.Settle.{Keeps}
use learn_web.Scheduler.Callback.{IsReady, after_callback_lem, fiber_for_lem}
use learn_web.Scheduler.Switch.{
  entered, ran, entered-exec, swap_lem, run_fiber-active, entered-stack,
}

live-exec :
    (ft : FiberAndThread) (w : World) (a : ℕ)
    → is_running (λ b. is_exec (w.fibers b).state) ft ≡ false
    → live ft w ≡ some a
    → is_exec (w.fibers a).state ≡ false
unfolding live is_running
live-exec ft w a h n = elim (Option-cases ft.fiber) [
  | inl e ↦ ground (arith, n, e)
  | inr (b, e) ↦ ground (arith, h, n, e)
]

live-over :
    (ft : FiberAndThread) (w : World) (a : ℕ)
    → live ft w ≡ some a
    → is_over (w.fibers a).state ≡ false
unfolding live
live-over ft w a n = elim (Option-cases ft.fiber) [
  | inl e ↦ ground (arith, n, e)
  | inr (b, e) ↦ ground (arith, n, e)
]

going_on : (s : State) → is_term s ≡ false → is_except s ≡ false → is_over s ≡ false
going_on s h k =
    elim s as (λ s. is_term s ≡ false → is_except s ≡ false → is_over s ≡ false) [
      | State.term ↦ λ h k. cc
      | State.except ↦ λ h k. cc
      | _ ↦ λ h k. refl
    ]
      h k

held_back : (b : Bool) (a : ℕ) (w : World) → (if b then w else put_hold a w).sched ≡ w.sched
held_back b a w = elim b as (λ b. (if b then w else put_hold a w).sched ≡ w.sched) [
  | true ↦ refl
  | false ↦ refl
]

-- Every task is passed over.
abbrev pub all_pass : (ℕ → Bool) → ℕ → List FiberAndThread → Bool
all_pass executing me [] = true
all_pass executing me (ft ∷ fts) = passes executing me ft && all_pass executing me fts

all_pass_lem :
    (executing : ℕ → Bool) (me : ℕ) (fts : List FiberAndThread)
    → All (λ ft. passes executing me ft ≡ true) fts
    → all_pass executing me fts ≡ true
all_pass_lem executing me [] h = refl
all_pass_lem executing me (ft ∷ fts) (h, hs) = rw (h, all_pass_lem executing me fts hs) refl

stops :
    (executing : ℕ → Bool) (me : ℕ) (front : List FiberAndThread) (ft : FiberAndThread)
    (rest : List FiberAndThread)
    → passes executing me ft ≡ false
    → all_pass executing me (front ++ (ft ∷ rest)) ≡ false
stops executing me [] ft rest h = rw h refl
stops executing me (t ∷ front) ft rest h = ground (arith, stops executing me front ft rest h)

fit_running :
    (executing : ℕ → Bool) (me : ℕ) (ft : FiberAndThread)
    → passes executing me ft ≡ false
    → is_running executing ft ≡ false
fit_running executing me ft h = ground (arith, h)

sub64_back : (n : ℕ) → n + 1 < 2 ^ 64 → sub64 (n + 1) 1 ≡ n
sub64_back n h = ground (arith, h)

same_fibers-IsReady :
    (worker : Worker) (w v : World) → v.fibers ≡ w.fibers → IsReady worker w → IsReady worker v
same_fibers-IsReady worker w v e i = record {
  idle = rw e i.idle;
  sound = rw e i.sound;
  stack = λ a h. rw e (i.stack a h);
  free = λ a h. rw e (i.free a h);
}

-- The test for EXEC that the choice of a task makes.
abbrev pub executing : World → ℕ → Bool
executing w a = is_exec (w.fibers a).state

module _ (execute : ℕ → World → End × World) (k : Keeps execute) where
  -- The callback's round, from the switch on.
  callback_switch :
      (a : ℕ) (w : World)
      → is_exec (w.fibers a).state ≡ false
      → is_over (w.fibers a).state ≡ false
      → (w.fibers a).stack ≡ true
      → (r : Option ℕ × World) × ((swap execute a w >>= λ after. after_callback a after) ≡ ok r)
        × (r.1.sched.active ≡ sub64 w.sched.active 1)
  callback_switch a w h v s =
      let (r, o, x) =
        after_callback_lem (ran execute a w).0 a (ran execute a w).1
          (k.state a (entered a w) (entered-exec a w))
          (k.stack a (entered a w) ∙ entered-stack a w ∙ s) in
      (
        r,
        bind_ok _ _ _ (swap_lem execute k a w h v) o,
        x ∙ ap (λ n. sub64 n 1) (k.active a (entered a w)),
      )

  run_callback_lem :
      (c : ℕ) (worker : Worker) (w : World)
      → IsReady worker w
      → (r : Worker × World) × (run_callback execute c worker w ≡ ok r)
        × (r.1.sched.active ≡ sub64 w.sched.active 1)
  unfolding run_callback
  run_callback_lem c worker w i =
      let (p, o, x, v, s, n) = fiber_for_lem c worker w i in
      let (r, q, y) = callback_switch p.0 p.1 x v s in
      (
        (record worker { cb_fiber = r.0 }, r.1),
        bind_ok _ _ _ o (step_ok (swap execute p.0 p.1) (λ after. after_callback p.0 after) _ r q),
        y ∙ ap (λ n. sub64 n 1) n,
      )

  -- What the branches of a task come to: the round goes on, with one active thread less.
  abbrev TaskDone : Outcome (Bool × Worker × World) → ℕ → Type 0
  TaskDone o n =
      (r : Bool × Worker × World) × (o ≡ ok r) × (r.0 ≡ false) × (r.2.sched.active ≡ sub64 n 1)

  run_some_lem :
      (ft : FiberAndThread) (worker : Worker) (w : World)
      → is_running (λ a. is_exec (w.fibers a).state) ft ≡ false
      → IsReady worker w
      → TaskDone (run_task execute (some ft) worker w) w.sched.active
  unfolding run_task run_idle
  run_some_lem ft worker w h i = elim (Option-cases (live ft w)) [
    | inl n ↦ elim (Option-cases ft.cb) [
      | inl m ↦ rw (n, m, run_task) (_, refl, refl, refl)
      | inr (c, m) ↦
          let (r, o, x) = run_callback_lem c worker w i in rw (n, m, o, run_task) (_, refl, refl, x)
    ]
    | inr (a, n) ↦
        let (after, o, x) =
          run_fiber-active execute k a w (live-exec ft w a h n) (live-over ft w a n) in
        rw (n, o, run_task) (_, refl, refl, x)
  ]

  run_none_lem :
      (worker : Worker) (w : World)
      → IsReady worker w
      → (r : Bool × Worker × World) × (run_task execute none worker w ≡ ok r)
        × (r.0 ≡ is_term (w.fibers worker.idle_fiber).state)
        × (r.2.sched.active ≡ w.sched.active)
  unfolding run_task run_idle
  run_none_lem worker w i = elim (Bool-cases (is_term (w.fibers worker.idle_fiber).state)) [
    | inl t ↦ rw t (_, refl, refl, refl)
    | inr t ↦
        let started : World = record w { idle_threads = suc w.idle_threads } in
        let o =
          swap_lem execute k worker.idle_fiber started i.idle
            (going_on (w.fibers worker.idle_fiber).state t i.sound) in
        rw (t, o)
          (
            _,
            refl,
            refl,
            ap (λ s. s.active) (held_back _ _ _)
                ∙ k.active worker.idle_fiber (entered worker.idle_fiber started),
          )
  ]

  -- The state behind a round, and whether run returns.
  abbrev pub RoundDone : ℕ → Worker → World → Outcome (Bool × Worker × World) → Type 0
  RoundDone me worker w o =
      (r : Bool × Worker × World) × (o ≡ ok r)
      × (r.2.sched.active ≡ w.sched.active)
      × (r.0 ≡ (
          all_pass (executing w) me w.sched.fibers && is_term (w.fibers worker.idle_fiber).state))

  -- A round is the branch of the task that it took.
  round_of :
      (me : ℕ) (worker : Worker) (w : World) (t : Taken) (x : Option FiberAndThread)
      → take_task (executing w) me w.sched.fibers ≡ ok t
      → t.task ≡ x
      → run_round execute me worker w
        ≡ run_task execute x worker (record w {
          sched = record w.sched {
            fibers = t.left;
            active = elim x [ none ↦ w.sched.active | some ft ↦ w.sched.active + 1 ];
          };
        })
  unfolding run_round next_task
  round_of me worker w t x o e = rw (o, e) refl

  -- A round of run from a state where it can start, with tasks that have a fiber or a callback each,
  -- ends well and leaves the number of active threads as it found it, whether it runs a fiber, a
  -- callback or the idle fiber, or drops a fiber that is over, and however these give the thread
  -- back. The loop ends just if the queue had no task for this thread and the idle fiber is TERM. The
  -- idle fiber does not execute at the start and has not thrown, for the loop switches to one that
  -- has, which fails an assertion; cb_fiber, when there is one, has a stack and is over or was reset.
  -- A fiber keeps its state, its stack and the number of active threads while it runs, and this
  -- number is less than 2^64 - 1.
  pub run_round_lem :
      (me : ℕ) (worker : Worker) (w : World)
      → All (λ ft. has_work ft ≡ true) w.sched.fibers
      → IsReady worker w
      → w.sched.active + 1 < 2 ^ 64
      → RoundDone me worker w (run_round execute me worker w)
  run_round_lem me worker w ws i b =
      let (t, o, cases) = take_task_lem (executing w) me w.sched.fibers ws in
      elim cases [
        | inl n ↦
            let v = record w { sched = record w.sched { fibers = t.left } } in
            let (r, e, x, y) = run_none_lem worker v (same_fibers-IsReady worker w v refl i) in
            (
              r,
              round_of me worker w t none o n.task ∙ e,
              y,
              x
                  ∙ ap (λ c. c && is_term (w.fibers worker.idle_fiber).state)
                      (sym (all_pass_lem (executing w) me w.sched.fibers n.passed)),
            )
        | inr f ↦
            let v : World = record w {
              sched = record w.sched { fibers = t.left; active = w.sched.active + 1 };
            } in
            let (r, e, x, y) =
              run_some_lem f.ft worker v (fit_running (executing w) me f.ft f.fit)
                (same_fibers-IsReady worker w v refl i) in
            (
              r,
              round_of me worker w t (some f.ft) o f.task ∙ e,
              y ∙ sub64_back w.sched.active b,
              x
                  ∙ ap (λ c. c && is_term (w.fibers worker.idle_fiber).state)
                      (sym (
                        ap (all_pass (executing w) me) f.queue
                        ∙ stops (executing w) me f.front f.ft f.rest f.fit)),
            )
      ]
