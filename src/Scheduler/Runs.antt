-- ===== src/Scheduler/Runs.antt =====
-- skt/scheduler at a concrete queue.
use learn_web.Common.{ℕ, ◌≡◌, ◌⊎◌, refl, Bool, false, none, some, List, [], ◌∷◌, true, All, ◌==◌}
use learn_web.Common.Integers.{pos, negsuc}
use learn_web.Common.Outcome.{ok}
use learn_web.Scheduler.Defs.{FiberAndThread, Scheduler, Taken, take_task}
use learn_web.Scheduler.Choice.{has_work, NothingTaken, FirstTaken, take_task_lem}

-- A task of thread 9, an executing fiber, a callback for any thread, and a fiber.
abbrev queue : List FiberAndThread
queue =
    record { fiber = none; cb = some 1; thread = pos 9 }
    ∷ record { fiber = some 2; cb = none; thread = negsuc 0 }
    ∷ record { fiber = none; cb = some 3; thread = negsuc 0 }
    ∷ record { fiber = some 4; cb = none; thread = pos 7 }
    ∷ []

queue_works : All (λ ft. has_work ft ≡ true) queue
queue_works = (refl, (refl, (refl, (refl, tt))))

abbrev runs_two : ℕ → Bool
runs_two f = f == 2

take_task_example :
    (r : Taken) × (take_task runs_two 7 queue ≡ ok r)
    × (NothingTaken runs_two 7 queue r ⊎ FirstTaken runs_two 7 queue r)
take_task_example = take_task_lem runs_two 7 queue queue_works

abbrev idle_scheduler : Scheduler
idle_scheduler = record { fibers = []; active = 0; stop_asked = false; auto_stop = false }
