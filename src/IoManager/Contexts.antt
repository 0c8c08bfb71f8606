-- ===== src/IoManager/Contexts.antt =====
-- skt/iomanager/iomanager.cpp: the invariant of one context, and what the calls make of it.
use learn_web.Common.{
  ℕ, ◌+◌, ◌≡◌, refl, arith, Bool, true, false, not, ◌&&◌, Option, none, some, List, [], ◌∷◌, length,
  if◌then◌else◌,
}
use learn_web.Common.Outcome.{ok}
use learn_web.IoManager.Defs.{
  Event, no_event, read_event, write_event, has_event, and_not, EventContext, is_some,
  empty_context, is_empty, FdContext, get_context, put_context, Task, run_fiber, run_cb,
  schedule_context, used_context, trigger_event,
}

-- An event context of a registered event has a scheduler and either a callback or a fiber; of
-- another event it is empty.
abbrev pub slot_ok : Bool → EventContext → Bool
slot_ok true e =
    is_some e.scheduler && (if is_some e.cb then not (is_some e.fiber) else is_some e.fiber)
slot_ok false e = is_empty e

abbrev pub context_ok : FdContext → Bool
context_ok c = slot_ok c.events.reads c.read && slot_ok c.events.writes c.write

-- How many events of a context are registered.
abbrev pub count : FdContext → ℕ
count c = (if c.events.reads then 1 else 0) + (if c.events.writes then 1 else 0)

abbrev waiting_parts : Option ℕ → Option ℕ → Option ℕ → List (ℕ × Task)
waiting_parts none fiber cb = []
waiting_parts (some scheduler) fiber (some cb) = (scheduler, run_cb cb) ∷ []
waiting_parts (some scheduler) (some fiber) none = (scheduler, run_fiber fiber) ∷ []
waiting_parts (some scheduler) none none = []

-- The task that waits for an event, for its scheduler.
abbrev pub waiting : EventContext → List (ℕ × Task)
waiting e = waiting_parts e.scheduler e.fiber e.cb

abbrev pub waiting_for : Event → FdContext → List (ℕ × Task)
waiting_for no_event c = []
waiting_for read_event c = if c.events.reads then waiting c.read else []
waiting_for write_event c = if c.events.writes then waiting c.write else []

-- A context without one event.
abbrev pub without : Event → FdContext → FdContext
without no_event c = c
without read_event c = record c {
  read = empty_context;
  events = record (c.events) { reads = false };
}
without write_event c = record c {
  write = empty_context;
  events = record (c.events) { writes = false };
}

schedule_parts :
    (scheduler fiber cb : Option ℕ)
    → slot_ok true (record { scheduler = scheduler; fiber = fiber; cb = cb }) ≡ true
    → (schedule_context (record { scheduler = scheduler; fiber = fiber; cb = cb })
        ≡ ok (waiting_parts scheduler fiber cb))
      × (used_context (record { scheduler = scheduler; fiber = fiber; cb = cb }) ≡ empty_context)
      × (length (waiting_parts scheduler fiber cb) ≡ 1)
unfolding schedule_context used_context
schedule_parts none fiber cb h = cc
schedule_parts (some s) none none h = cc
schedule_parts (some s) none (some c) h = (refl, refl, refl)
schedule_parts (some s) (some f) none h = (refl, refl, refl)
schedule_parts (some s) (some f) (some c) h = cc

-- A registered event has just one task waiting.
pub waiting_one : (e : EventContext) → slot_ok true e ≡ true → length (waiting e) ≡ 1
waiting_one e h = (schedule_parts e.scheduler e.fiber e.cb h).2

pub trigger_read :
    (c : FdContext)
    → context_ok c ≡ true
    → c.events.reads ≡ true
    → trigger_event read_event c ≡ ok (without read_event c, waiting c.read)
unfolding trigger_event has_event and_not get_context put_context
trigger_read c h e =
    let slot : slot_ok true c.read ≡ true = ground (arith, h, e) in
    let (schedules, used, _) = schedule_parts c.read.scheduler c.read.fiber c.read.cb slot in
    rw (e, schedules, used) refl

pub trigger_write :
    (c : FdContext)
    → context_ok c ≡ true
    → c.events.writes ≡ true
    → trigger_event write_event c ≡ ok (without write_event c, waiting c.write)
unfolding trigger_event has_event and_not get_context put_context
trigger_write c h e =
    let slot : slot_ok true c.write ≡ true = ground (arith, h, e) in
    let (schedules, used, _) = schedule_parts c.write.scheduler c.write.fiber c.write.cb slot in
    rw (e, schedules, used) refl
