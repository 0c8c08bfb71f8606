-- ===== src/IoManager/Runs.antt =====
-- skt/iomanager: the manager at concrete descriptors.
use learn_web.Common.{
  ℕ, ◌≡◌, refl, arith, true, false, not, ◌&&◌, none, some, [], ◌∷◌, ◌++◌, if◌then◌else◌,
}
use learn_web.Common.Integers.{pos}
use learn_web.Common.Outcome.{ok}
use learn_web.IoManager.Defs.{read_event, write_event, has_event, new_context, unchanged}
use learn_web.IoManager.Calls.{
  IoManager, io_manager, context_resize, resize_from, context_at, add_event, cancel_event,
}
use learn_web.IoManager.Triggers.{cancelled}
use learn_web.IoManager.Invariant.{IsValid}
use learn_web.IoManager.Add.{new_slot, added, io_manager-IsValid}
use learn_web.IoManager.Register.{
  put_back, put_back-IsValid, Added, add_event_lem, task_of, cancel_event-add_event,
}
use learn_web.IoManager.Remove.{Did, registered, cancel_event_lem}

-- A callback waits to read the descriptor 3.
abbrev reading : IoManager
reading = put_back 3 (added read_event (new_slot 1 9 (some 5)) (new_context 3)) 1 io_manager

reading-IsValid : IsValid reading
unfolding io_manager context_resize resize_from
reading-IsValid =
    put_back-IsValid 3 1 (added read_event (new_slot 1 9 (some 5)) (new_context 3)) io_manager
      io_manager-IsValid (omega arith) refl refl (omega arith) refl

add_event_example :
    (t : IoManager) × (add_event false (some 1) 9 true (pos 40) write_event none reading
      ≡ ok (not false, t))
    × Added 40
        (if false
          then context_at reading 40
          else added write_event (new_slot 1 9 none) (context_at reading 40))
        (if false then 0 else 1)
        reading
        t
unfolding io_manager context_resize resize_from has_event
add_event_example =
    add_event_lem false 1 9 write_event none 40 reading reading-IsValid (omega arith) (λ e. cc) refl

cancel_event-add_event_example :
    (t u : IoManager) × (add_event false (some 1) 9 true (pos 3) write_event (some 6) reading
      ≡ ok (true, t))
    × (cancel_event false (pos 3) write_event t ≡ ok (true, u))
    × (u.scheduled ≡ reading.scheduled ++ ((1, task_of 9 (some 6)) ∷ []))
    × ((m : ℕ) → context_at u m ≡ context_at reading m)
    × (u.pending_event_count ≡ reading.pending_event_count)
unfolding io_manager context_resize resize_from has_event
cancel_event-add_event_example =
    cancel_event-add_event 1 9 write_event (some 6) 3 reading reading-IsValid (omega arith)
      (λ e. cc) refl

cancel_event_example :
    (t : IoManager) × (cancel_event false (pos 3) read_event reading
      ≡ ok (registered read_event 3 reading && not false, t))
    × Did 3
        (if registered read_event 3 reading && not false
          then cancelled read_event (context_at reading 3)
          else unchanged false (context_at reading 3))
        reading
        t
cancel_event_example = cancel_event_lem false read_event 3 reading reading-IsValid
