-- ===== src/IoManager/Calls.antt =====
-- skt/iomanager/iomanager.h and iomanager.cpp: the calls of an IOManager, which find the context of a
-- descriptor and work on it.
use learn_web.Common.{
  ℕ, zero, suc, ◌+◌, ◌-◌, ◌*◌, ◌/◌, ◌%◌, ◌^◌, Bool, false, ◌&&◌, Option, List, [], ◌∷◌, ◌++◌,
  length, get_or, if◌then◌else◌, ◌==◌, leb, sub64,
}
use learn_web.Common.Integers.{ℤ, pos, negsuc, ◌≤?◌, signed32}
use learn_web.Common.Slots.{set_at}
use learn_web.Common.Outcome.{Outcome, ok, err, ◌>>=◌, out_of_range}
use learn_web.IoManager.Defs.{
  Event, FdContext, new_context, Task, Change, add_to, del_from, cancel_from, cancel_all_from,
  handle_event,
}

-- `scheduled` has all that was handed to a scheduler, in order.
pub record IoManager : Type 0 where
  pub pending_event_count : ℕ
  pub fd_contexts : List FdContext
  pub scheduled : List (ℕ × Task)

-- The first `n` contexts from the descriptor `i` on, with new ones when there are fewer.
unfoldable pub resize_from : ℕ → ℕ → List FdContext → List FdContext
resize_from i zero cs = []
resize_from i (suc n) [] = new_context i ∷ resize_from (suc i) n []
resize_from i (suc n) (c ∷ cs) = c ∷ resize_from (suc i) n cs

-- IOManager::contextResize
unfoldable pub context_resize : ℕ → IoManager → IoManager
unfolding resize_from
context_resize size s = record s { fd_contexts = resize_from 0 size s.fd_contexts }

-- What IOManager::IOManager makes of the table; pipes and epoll are the system's.
unfoldable pub io_manager : IoManager
unfolding context_resize
io_manager =
    context_resize 32 (record { pending_event_count = 0; fd_contexts = []; scheduled = [] })

abbrev pub context_at : IoManager → ℕ → FdContext
context_at s n = get_or s.fd_contexts n (new_context n)

-- The manager behind a change of the context of `n`.
unfoldable pub changed : ℕ → Change → IoManager → IoManager
changed n r s = record {
  pending_event_count = sub64 s.pending_event_count r.done;
  fd_contexts = set_at s.fd_contexts n r.context;
  scheduled = s.scheduled ++ r.tasks;
}

-- A call on the context of a descriptor; a descriptor past the table has none.
unfoldable pub on_context :
    (FdContext → Outcome Change) → ℤ → IoManager → Outcome (Bool × IoManager)
on_context call fd s = if signed32 (length s.fd_contexts) ≤? fd then ok (false, s) else elim fd [
  | negsuc n ↦ err out_of_range
  | pos n ↦
      if leb (length s.fd_contexts) n
      then err out_of_range
      else (call (context_at s n) >>= λ r. ok (r.result, changed n r s))
]

-- IOManager::delEvent, cancelEvent and cancelAll
unfoldable pub del_event : Bool → ℤ → Event → IoManager → Outcome (Bool × IoManager)
del_event failed fd event s = on_context (del_from failed event) fd s

unfoldable pub cancel_event : Bool → ℤ → Event → IoManager → Outcome (Bool × IoManager)
cancel_event failed fd event s = on_context (cancel_from failed event) fd s

unfoldable pub cancel_all : Bool → ℤ → IoManager → Outcome (Bool × IoManager)
cancel_all failed fd s = on_context (cancel_all_from failed) fd s

-- The table in which addEvent looks a descriptor up.
unfoldable pub with_room : ℤ → IoManager → IoManager
unfolding context_resize
with_room fd s = elim fd [
  | negsuc n ↦ s
  | pos n ↦ if signed32 (length s.fd_contexts) ≤? pos n then context_resize (n * 3 / 2) s else s
]

-- IOManager::addEvent; the result is whether it returns 0 and not -1.
unfoldable pub add_event :
    Bool → Option ℕ → ℕ → Bool → ℤ → Event → Option ℕ → IoManager → Outcome (Bool × IoManager)
add_event failed scheduler fiber executing fd event cb s = elim fd [
  | negsuc n ↦ err out_of_range
  | pos n ↦
      let t = with_room (pos n) s in
      if leb (length t.fd_contexts) n
      then err out_of_range
      else (add_to failed scheduler fiber executing event cb (context_at t n) >>= λ r. ok (
        r.0,
        record t {
          pending_event_count =
              if r.0 then (t.pending_event_count + 1) % 2 ^ 64 else t.pending_event_count;
          fd_contexts = set_at t.fd_contexts n r.1;
        },
      ))
]

-- The loop of IOManager::idle for one reported event of a descriptor of the table.
unfoldable pub idle_event : Bool → Bool → Bool → Bool → ℤ → IoManager → Outcome (Bool × IoManager)
idle_event failed err_hup epoll_in epoll_out fd s =
    on_context (handle_event failed err_hup epoll_in epoll_out) fd s

-- IOManager::stopping with the wait of getNextTimer and the answer of Scheduler::stopping.
unfoldable pub stopping : ℕ → Bool → IoManager → Bool
stopping timeout scheduler_stops s =
    timeout == 2 ^ 64 - 1 && s.pending_event_count == 0 && scheduler_stops
