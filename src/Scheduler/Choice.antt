-- ===== src/Scheduler/Choice.antt =====
-- skt/scheduler/scheduler.cpp: which task the loop of run takes, and what schedule puts into the queue.
use learn_web.Common.{
  ℕ, ◌≡◌, ◌⊎◌, refl, sym, ap, ◌∙◌, arith, Bool, true, false, not, ◌&&◌, ◌||◌, none, some, List, [],
  ◌∷◌, ◌++◌, All, append_nil, Bool-cases, inl, inr,
}
use learn_web.Common.Outcome.{ok}
use learn_web.Scheduler.Defs.{
  FiberAndThread, is_some, Scheduler, no_tasks, schedule_no_lock, schedule_all, for_other_thread,
  is_running, Taken, take_task,
}

-- A task has a fiber or a callback.
abbrev pub has_work : FiberAndThread → Bool
has_work ft = is_some ft.fiber || is_some ft.cb

module _ (executing : ℕ → Bool) (me : ℕ) where
  -- A task that the thread `me` passes over.
  abbrev pub passes : FiberAndThread → Bool
  passes ft = for_other_thread me ft || is_running executing ft

  abbrev pub any_other : List FiberAndThread → Bool
  any_other [] = false
  any_other (ft ∷ fts) = for_other_thread me ft || any_other fts

  -- Nothing is taken, as every task is passed over.
  pub record NothingTaken (fibers : List FiberAndThread) (r : Taken) : Type 0 where
    pub task : r.task ≡ none
    pub left : r.left ≡ fibers
    pub passed : All (λ ft. passes ft ≡ true) fibers
    pub tickle : r.tickle_me ≡ any_other fibers

  -- The first task that is not passed over is taken, and no other one leaves the queue.
  pub record FirstTaken (fibers : List FiberAndThread) (r : Taken) : Type 0 where
    pub front : List FiberAndThread
    pub ft : FiberAndThread
    pub rest : List FiberAndThread
    pub queue : fibers ≡ front ++ (ft ∷ rest)
    pub passed : All (λ t. passes t ≡ true) front
    pub task : r.task ≡ some ft
    pub fit : passes ft ≡ false
    pub left : r.left ≡ front ++ rest
    pub tickle : r.tickle_me ≡ (any_other front || not (no_tasks rest))

  -- A round of the loop that passes over a task.
  passed_on :
      (ft : FiberAndThread) (fibers : List FiberAndThread) (r : Taken)
      → passes ft ≡ true
      → NothingTaken fibers r ⊎ FirstTaken fibers r
      → NothingTaken (ft ∷ fibers) (record {
        task = r.task;
        left = ft ∷ r.left;
        tickle_me = for_other_thread me ft || r.tickle_me;
      })
        ⊎ FirstTaken (ft ∷ fibers) (record {
          task = r.task;
          left = ft ∷ r.left;
          tickle_me = for_other_thread me ft || r.tickle_me;
        })
  passed_on ft fibers r p (inl n) = inl (record {
    task = n.task;
    left = ap (◌∷◌ ft) n.left;
    passed = (p, n.passed);
    tickle = ap (λ b. for_other_thread me ft || b) n.tickle;
  })
  passed_on ft fibers r p (inr f) = inr (record {
    front = ft ∷ f.front;
    ft = f.ft;
    rest = f.rest;
    queue = ap (◌∷◌ ft) f.queue;
    passed = (p, f.passed);
    task = f.task;
    fit = f.fit;
    left = ap (◌∷◌ ft) f.left;
    tickle = ground (arith, f.tickle);
  })

  -- The loop over m_fibers, of tasks with a fiber or a callback each, never fails its assertion. It
  -- takes the first task that is neither for another thread nor a fiber that executes, and leaves
  -- the others in their order; when there is no such task it leaves the queue as it is. It asks for
  -- another thread just if it passed over a task of another thread or tasks follow the one taken.
  pub take_task_lem :
      (fibers : List FiberAndThread)
      → All (λ ft. has_work ft ≡ true) fibers
      → (r : Taken) × (take_task executing me fibers ≡ ok r)
        × (NothingTaken fibers r ⊎ FirstTaken fibers r)
  unfolding take_task
  take_task_lem [] h = (
    record { task = none; left = []; tickle_me = false },
    refl,
    inl (record { task = refl; left = refl; passed = tt; tickle = refl }),
  )
  take_task_lem (ft ∷ fibers) (w, ws) =
      let (r, e, cases) = take_task_lem fibers ws in
      let passed : Taken = record {
        task = r.task;
        left = ft ∷ r.left;
        tickle_me = for_other_thread me ft || r.tickle_me;
      } in
      let work : not (is_some ft.fiber || is_some ft.cb) ≡ false = ground (arith, w) in
      elim (Bool-cases (for_other_thread me ft)) [
        | inl o ↦ (passed, rw (o, e) refl, passed_on ft fibers r (ground (arith, o)) cases)
        | inr o ↦ elim (Bool-cases (is_running executing ft)) [
          | inl x ↦
              (passed, rw (o, work, x, e) refl, passed_on ft fibers r (ground (arith, o, x)) cases)
          | inr x ↦ (
            record { task = some ft; left = fibers; tickle_me = not (no_tasks fibers) },
            rw (o, work, x) refl,
            inr (record {
              front = [];
              ft = ft;
              rest = fibers;
              queue = refl;
              passed = tt;
              task = refl;
              fit = ground (arith, o, x);
              left = refl;
              tickle = refl;
            }),
          )
        ]
      ]

append_one :
    (xs ys : List FiberAndThread) (x : FiberAndThread) → (xs ++ (x ∷ [])) ++ ys ≡ xs ++ (x ∷ ys)
append_one [] ys x = refl
append_one (y ∷ xs) ys x = ap (◌∷◌ y) (append_one xs ys x)

some_tasks : (xs : List FiberAndThread) (x : FiberAndThread) → no_tasks (xs ++ (x ∷ [])) ≡ false
some_tasks [] x = refl
some_tasks (y ∷ xs) x = refl

-- `schedule` of tasks with a fiber or a callback each puts all of them behind the queue, in their
-- order, and wakes a thread just if the queue was empty and there is a task.
pub schedule_all_lem :
    (fts : List FiberAndThread) (s : Scheduler)
    → All (λ ft. has_work ft ≡ true) fts
    → ((schedule_all fts s).1 ≡ record s { fibers = s.fibers ++ fts })
      × ((schedule_all fts s).0 ≡ (no_tasks s.fibers && not (no_tasks fts)))
unfolding schedule_all schedule_no_lock
schedule_all_lem [] s h =
    (ap (λ q. record s { fibers = q }) (sym (append_nil s.fibers)), ground arith)
schedule_all_lem (ft ∷ fts) s (w, ws) =
    let t : Scheduler = record s { fibers = s.fibers ++ (ft ∷ []) } in
    let (queue, tickle) = schedule_all_lem fts t ws in
    let longer = some_tasks s.fibers ft in
    (
      rw w (queue ∙ ap (λ q. record s { fibers = q }) (append_one s.fibers fts ft)),
      rw w (ground (arith, tickle, longer)),
    )
