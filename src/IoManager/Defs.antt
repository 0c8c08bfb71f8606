-- ===== src/IoManager/Defs.antt =====
-- skt/iomanager/iomanager.h and iomanager.cpp: the contexts of an IOManager and what happens to one of
-- them. A scheduler, a fiber and a callback are numbers. `Events` is the word of the bits READ and
-- WRITE; the assertion of SKT_ASSERT that fails is a fault.
use learn_web.Common.{
  ℕ, ◌+◌, Bool, true, false, not, ◌&&◌, ◌||◌, Option, none, some, List, [], ◌∷◌, ◌++◌,
  if◌then◌else◌,
}
use learn_web.Common.Outcome.{Outcome, ok, err, ◌>>=◌, null_deref, assert_failed}

pub data Event : Type 0 where
  no_event read_event write_event : Event

pub record Events : Type 0 where
  pub reads : Bool
  pub writes : Bool

abbrev pub no_events : Events
no_events = record { reads = false; writes = false }

-- `events & event`
unfoldable pub has_event : Events → Event → Bool
has_event es no_event = false
has_event es read_event = es.reads
has_event es write_event = es.writes

-- `events | event`
unfoldable pub or_event : Events → Event → Events
or_event es no_event = es
or_event es read_event = record es { reads = true }
or_event es write_event = record es { writes = true }

-- `events & ~event`
unfoldable pub and_not : Events → Event → Events
and_not es no_event = es
and_not es read_event = record es { reads = false }
and_not es write_event = record es { writes = false }

-- `events` as a truth value.
abbrev pub any : Events → Bool
any es = es.reads || es.writes

pub record EventContext : Type 0 where
  pub scheduler : Option ℕ
  pub fiber : Option ℕ
  pub cb : Option ℕ

-- A pointer or a function object as a truth value.
abbrev pub is_some : Option ℕ → Bool
is_some none = false
is_some (some a) = true

abbrev pub empty_context : EventContext
empty_context = record { scheduler = none; fiber = none; cb = none }

pub record FdContext : Type 0 where
  pub fd : ℕ
  pub read : EventContext
  pub write : EventContext
  pub events : Events

-- `!event_ctx.scheduler && !event_ctx.fiber && !event_ctx.cb`
abbrev pub is_empty : EventContext → Bool
is_empty e = not (is_some e.scheduler) && not (is_some e.fiber) && not (is_some e.cb)

-- `new FdContext` with its descriptor.
abbrev pub new_context : ℕ → FdContext
new_context fd = record { fd = fd; read = empty_context; write = empty_context; events = no_events }

-- FdContext::getContext, and the context with that part changed.
unfoldable pub get_context : FdContext → Event → Outcome EventContext
get_context c no_event = err assert_failed
get_context c read_event = ok c.read
get_context c write_event = ok c.write

unfoldable pub put_context : FdContext → Event → EventContext → FdContext
put_context c no_event e = c
put_context c read_event e = record c { read = e }
put_context c write_event e = record c { write = e }

-- What a scheduler is given to run.
pub data Task : Type 0 where
  run_fiber run_cb : ℕ → Task

-- Scheduler::schedule of a pointer, which takes the object from where it points to.
unfoldable pub schedule_context : EventContext → Outcome (List (ℕ × Task))
schedule_context e = elim e.scheduler [
  | none ↦ err null_deref
  | some scheduler ↦ elim e.cb [
    | some cb ↦ ok ((scheduler, run_cb cb) ∷ [])
    | none ↦ elim e.fiber [ some fiber ↦ ok ((scheduler, run_fiber fiber) ∷ []) | none ↦ ok [] ]
  ]
]

-- An event context behind FdContext::triggerEvent: `schedule` has swapped the callback out, or the
-- fiber when there is no callback.
unfoldable pub used_context : EventContext → EventContext
used_context e = elim e.cb [
  | some cb ↦ record e { scheduler = none; cb = none }
  | none ↦ record e { scheduler = none; fiber = none }
]

-- FdContext::triggerEvent; the result lists what it schedules.
unfoldable pub trigger_event : Event → FdContext → Outcome (FdContext × List (ℕ × Task))
unfolding has_event and_not get_context put_context schedule_context used_context
trigger_event event c =
    if has_event c.events event
    then (get_context c event >>= λ e. schedule_context e >>= λ tasks.
        ok (
          put_context (record c { events = and_not c.events event }) event (used_context e),
          tasks,
        ))
    else err assert_failed

-- What a call does to one context: its result, the context behind it, what it schedules, and how
-- much it subtracts from m_pendingEventCount.
pub record Change : Type 0 where
  pub result : Bool
  pub context : FdContext
  pub tasks : List (ℕ × Task)
  pub done : ℕ

-- A call that returns with nothing done.
abbrev pub unchanged : Bool → FdContext → Change
unchanged result c = record { result = result; context = c; tasks = []; done = 0 }

-- `triggerEvent` and `--m_pendingEventCount` under a test.
unfoldable pub trigger_if : Bool → Event → FdContext → Outcome Change
trigger_if test event c =
    if test
    then (trigger_event event c >>= λ r.
        ok (record { result = true; context = r.0; tasks = r.1; done = 1 }))
    else ok (unchanged true c)

-- READ and then WRITE, each under its test.
unfoldable pub trigger_both : (FdContext → Bool) → (FdContext → Bool) → FdContext → Outcome Change
trigger_both reads writes c = trigger_if (reads c) read_event c >>= λ r.
    trigger_if (writes r.context) write_event r.context >>= λ w. ok (record {
      result = true;
      context = w.context;
      tasks = r.tasks ++ w.tasks;
      done = r.done + w.done;
    })

-- IOManager::addEvent from the lock of the context on. `failed` says whether epoll_ctl fails,
-- `scheduler` and `fiber` are those of the thread, and `executing` says whether that fiber is in
-- the state EXEC.
unfoldable pub add_to :
    Bool → Option ℕ → ℕ → Bool → Event → Option ℕ → FdContext → Outcome (Bool × FdContext)
unfolding has_event or_event get_context put_context
add_to failed scheduler fiber executing event cb c =
    if has_event c.events event
    then err assert_failed
    else if failed
    then ok (false, c)
    else (get_context c event >>= λ e.
        if is_empty e
        then (elim cb [
          | some f ↦ ok (
            true,
            put_context (record c { events = or_event c.events event }) event
                (record e { scheduler = scheduler; cb = some f }),
          )
          | none ↦
              if executing
              then ok (
                true,
                put_context (record c { events = or_event c.events event }) event
                    (record e { scheduler = scheduler; fiber = some fiber }),
              )
              else err assert_failed
        ])
        else err assert_failed)

-- IOManager::delEvent from the lock of the context on.
unfoldable pub del_from : Bool → Event → FdContext → Outcome Change
unfolding has_event and_not get_context put_context
del_from failed event c =
    if not (has_event c.events event) || failed
    then ok (unchanged false c)
    else (get_context c event >>= λ e. ok (record {
      result = true;
      context = put_context (record c { events = and_not c.events event }) event empty_context;
      tasks = [];
      done = 1;
    }))

-- IOManager::cancelEvent from the lock of the context on.
unfoldable pub cancel_from : Bool → Event → FdContext → Outcome Change
cancel_from failed event c =
    if not (has_event c.events event) || failed
    then ok (unchanged false c)
    else trigger_if true event c

-- IOManager::cancelAll from the lock of the context on.
unfoldable pub cancel_all_from : Bool → FdContext → Outcome Change
cancel_all_from failed c =
    if not (any c.events) || failed
    then ok (unchanged false c)
    else (trigger_both (λ d. d.events.reads) (λ d. d.events.writes) c >>= λ r.
        if any r.context.events then err assert_failed else ok r)

-- The part of IOManager::idle for one event that epoll_wait reports of a context: whether EPOLLERR
-- or EPOLLHUP, EPOLLIN and EPOLLOUT are among its flags.
unfoldable pub handle_event : Bool → Bool → Bool → Bool → FdContext → Outcome Change
handle_event failed err_hup epoll_in epoll_out c =
    let reads = epoll_in || err_hup in
    let writes = epoll_out || err_hup in
    if not (c.events.reads && reads || c.events.writes && writes) || failed
    then ok (unchanged true c)
    else trigger_both (λ _. reads) (λ _. writes) c
