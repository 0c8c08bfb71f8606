-- ===== src/IoManager/Register.antt =====
-- skt/iomanager/iomanager.cpp: addEvent as a whole, and addEvent followed by cancelEvent.
use learn_web.Common.{
  ℕ, ◌+◌, ◌%◌, ◌^◌, ◌≤◌, ◌<◌, ◌≡◌, ◌≢◌, refl, sym, ap, ◌∙◌, arith, Bool, true, false, not, ◌&&◌,
  Option, none, some, [], ◌∷◌, ◌++◌, length, if◌then◌else◌, ◌==◌, leb, Bool-cases, inl, inr,
}
use mathlib.Core.Path.{ap₂, subst}
use learn_web.Common.Integers.{pos}
use learn_web.Common.Slots.{set_at, length-set_at}
use learn_web.Common.Outcome.{ok}
use learn_web.IoManager.Defs.{
  Event, no_event, read_event, write_event, has_event, empty_context, FdContext, new_context, Task,
  run_cb, run_fiber, unchanged,
}
use learn_web.IoManager.Calls.{IoManager, context_at, with_room, add_event, cancel_event}
use learn_web.IoManager.Contexts.{context_ok, count, waiting_for, without}
use learn_web.IoManager.Invariant.{IsValid, total_bound, context-changed, total-set_at}
use learn_web.IoManager.Add.{HasRoom, with_room-HasRoom, add_to_lem, new_slot, added, empty_slot}
use learn_web.IoManager.Remove.{Did, registered, cancel_event_lem}
use learn_web.IoManager.Triggers.{cancelled}

-- The manager with a new context for `n`, in which `k` events more are registered.
abbrev pub put_back : ℕ → FdContext → ℕ → IoManager → IoManager
put_back n c k t = record t {
  pending_event_count = (t.pending_event_count + k) % 2 ^ 64;
  fd_contexts = set_at t.fd_contexts n c;
}

pub put_back-IsValid :
    (n k : ℕ) (c : FdContext) (t : IoManager)
    → IsValid t
    → n < length t.fd_contexts
    → context_ok c ≡ true
    → c.fd ≡ n
    → k ≤ 1
    → count c ≡ count (context_at t n) + k
    → IsValid (put_back n c k t)
put_back-IsValid n k c t v h fine fd small more =
    let len = length-set_at t.fd_contexts n c in
    record {
      at_least = rw len v.at_least;
      at_most = rw len v.at_most;
      fd = λ m. rw (context-changed n m c t h) (ground (arith, v.fd m, fd));
      fine = λ m. rw (context-changed n m c t h) (ground (arith, v.fine m, fine));
      pending = ground (
        arith,
        v.pending,
        more,
        total_bound t v,
        total-set_at t.fd_contexts n c (new_context n) h,
      );
    }

added_lem :
    (scheduler fiber : ℕ) (ev : Event) (cb : Option ℕ) (c : FdContext)
    → context_ok c ≡ true
    → ev ≢ no_event
    → has_event c.events ev ≡ false
    → (context_ok (added ev (new_slot scheduler fiber cb) c) ≡ true)
      × ((added ev (new_slot scheduler fiber cb) c).fd ≡ c.fd)
      × (count (added ev (new_slot scheduler fiber cb) c) ≡ count c + 1)
unfolding has_event
added_lem scheduler fiber no_event cb c h d e = absurd (d refl)
added_lem scheduler fiber read_event none c h d e = (ground (arith, h), refl, ground (arith, e))
added_lem scheduler fiber read_event (some f) c h d e = (ground (arith, h), refl, ground (arith, e))
added_lem scheduler fiber write_event none c h d e = (ground (arith, h), refl, ground (arith, e))
added_lem scheduler fiber write_event (some f) c h d e =
    (ground (arith, h), refl, ground (arith, e))

-- What addEvent makes of the manager `s`: the context of `n` is `c` and `k` events more are
-- registered.
pub record Added (n : ℕ) (c : FdContext) (k : ℕ) (s t : IoManager) : Type 0 where
  pub valid : IsValid t
  pub here : context_at t n ≡ c
  pub others : (m : ℕ) → m ≢ n → context_at t m ≡ context_at s m
  pub scheduled : t.scheduled ≡ s.scheduled
  pub pending : t.pending_event_count ≡ s.pending_event_count + k

put_back-Added :
    (n k : ℕ) (c : FdContext) (s t : IoManager)
    → HasRoom n s t
    → context_ok c ≡ true
    → c.fd ≡ n
    → k ≤ 1
    → count c ≡ count (context_at s n) + k
    → Added n c k s (put_back n c k t)
put_back-Added n k c s t r fine fd small more = record {
  valid = put_back-IsValid n k c t r.valid r.fits fine fd small (rw (r.same n) more);
  here = context-changed n n c t r.fits ∙ ground arith;
  others = λ m d. context-changed n m c t r.fits ∙ ground (arith, r.same m);
  scheduled = r.scheduled;
  pending = ground (arith, r.pending, r.valid.pending, total_bound t r.valid);
}

-- On a well-formed manager `addEvent` of a descriptor below 2^30 that is no negative number, for
-- READ or WRITE that is not registered, by a thread with a scheduler whose fiber is executing,
-- never fails an assertion. When epoll_ctl succeeds the event is registered with the callback, or
-- with the fiber when there is no callback, for that scheduler; when it fails addEvent fails and
-- no context changes. Nothing is scheduled, no other context changes, and the manager stays well-
-- formed.
pub add_event_lem :
    (failed : Bool) (scheduler fiber : ℕ) (ev : Event) (cb : Option ℕ) (n : ℕ) (s : IoManager)
    → IsValid s
    → n < 2 ^ 30
    → ev ≢ no_event
    → registered ev n s ≡ false
    → (t : IoManager) × (add_event failed (some scheduler) fiber true (pos n) ev cb s
        ≡ ok (not failed, t))
      × Added n
          (if failed
            then context_at s n
            else added ev (new_slot scheduler fiber cb) (context_at s n))
          (if failed then 0 else 1)
          s
          t
unfolding add_event
add_event_lem false scheduler fiber ev cb n s v h d e =
    let r = with_room-HasRoom n s v h in
    let c = added ev (new_slot scheduler fiber cb) (context_at s n) in
    let (fine, fd, more) = added_lem scheduler fiber ev cb (context_at s n) (v.fine n) d e in
    let inside : leb (length (with_room (pos n) s).fd_contexts) n ≡ false =
      ground (arith, r.fits) in
    (
      put_back n c 1 (with_room (pos n) s),
      rw (inside, r.same n, add_to_lem false scheduler fiber ev cb (context_at s n) (v.fine n) d e)
          refl,
      put_back-Added n 1 c s (with_room (pos n) s) r fine (fd ∙ v.fd n) (omega arith) more,
    )
add_event_lem true scheduler fiber ev cb n s v h d e =
    let r = with_room-HasRoom n s v h in
    let c = context_at s n in
    let inside : leb (length (with_room (pos n) s).fd_contexts) n ≡ false =
      ground (arith, r.fits) in
    let bound : (with_room (pos n) s).pending_event_count
        ≡ ((with_room (pos n) s).pending_event_count + 0) % 2 ^ 64 =
      ground (arith, r.valid.pending, total_bound (with_room (pos n) s) r.valid) in
    (
      put_back n c 0 (with_room (pos n) s),
      rw (inside, r.same n, add_to_lem true scheduler fiber ev cb (context_at s n) (v.fine n) d e)
          (ap
            (λ p. ok (
              false,
              record (with_room (pos n) s) {
                pending_event_count = p;
                fd_contexts = set_at (with_room (pos n) s).fd_contexts n c;
              },
            ))
            bound),
      put_back-Added n 0 c s (with_room (pos n) s) r (v.fine n) (v.fd n) (omega arith)
          (omega arith),
    )

-- The task that addEvent lets wait: the callback, or the fiber when there is none.
abbrev pub task_of : ℕ → Option ℕ → Task
task_of fiber none = run_fiber fiber
task_of fiber (some cb) = run_cb cb

read_gone :
    (c : FdContext)
    → context_ok c ≡ true
    → c.events.reads ≡ false
    → record c { read = empty_context; events = record (c.events) { reads = false } } ≡ c
read_gone c h e =
    ap₂ (λ x y. record c { read = x; events = record (c.events) { reads = y } })
      (sym (empty_slot c.read (ground (arith, h, e)))) (sym e)

write_gone :
    (c : FdContext)
    → context_ok c ≡ true
    → c.events.writes ≡ false
    → record c { write = empty_context; events = record (c.events) { writes = false } } ≡ c
write_gone c h e =
    ap₂ (λ x y. record c { write = x; events = record (c.events) { writes = y } })
      (sym (empty_slot c.write (ground (arith, h, e)))) (sym e)

added_then_taken :
    (scheduler fiber : ℕ) (ev : Event) (cb : Option ℕ) (c : FdContext)
    → context_ok c ≡ true
    → ev ≢ no_event
    → has_event c.events ev ≡ false
    → (has_event (added ev (new_slot scheduler fiber cb) c).events ev ≡ true)
      × (without ev (added ev (new_slot scheduler fiber cb) c) ≡ c)
      × (waiting_for ev (added ev (new_slot scheduler fiber cb) c)
          ≡ (scheduler, task_of fiber cb) ∷ [])
unfolding has_event
added_then_taken scheduler fiber no_event cb c h d e = absurd (d refl)
added_then_taken scheduler fiber read_event none c h d e = (refl, read_gone c h e, refl)
added_then_taken scheduler fiber read_event (some f) c h d e = (refl, read_gone c h e, refl)
added_then_taken scheduler fiber write_event none c h d e = (refl, write_gone c h e, refl)
added_then_taken scheduler fiber write_event (some f) c h d e = (refl, write_gone c h e, refl)

-- On a well-formed manager `addEvent` and then `cancelEvent` of READ or WRITE, not registered
-- before, of a descriptor below 2^30 that is no negative number, when epoll_ctl succeeds both
-- times, hands the callback, or the fiber when there is none, to the scheduler of the thread that
-- added it, once; every context and the count of events are as they were before.
pub cancel_event-add_event :
    (scheduler fiber : ℕ) (ev : Event) (cb : Option ℕ) (n : ℕ) (s : IoManager)
    → IsValid s
    → n < 2 ^ 30
    → ev ≢ no_event
    → registered ev n s ≡ false
    → (t u : IoManager) × (add_event false (some scheduler) fiber true (pos n) ev cb s
        ≡ ok (true, t))
      × (cancel_event false (pos n) ev t ≡ ok (true, u))
      × (u.scheduled ≡ s.scheduled ++ ((scheduler, task_of fiber cb) ∷ []))
      × ((m : ℕ) → context_at u m ≡ context_at s m)
      × (u.pending_event_count ≡ s.pending_event_count)
cancel_event-add_event scheduler fiber ev cb n s v h d e =
    let (t, adds, a) = add_event_lem false scheduler fiber ev cb n s v h d e in
    let (there, back, task) =
      added_then_taken scheduler fiber ev cb (context_at s n) (v.fine n) d e in
    let now : registered ev n t ≡ true = rw a.here there in
    let (u, cancels, r) = cancel_event_lem false ev n t a.valid in
    let did : Did n (cancelled ev (context_at t n)) t u =
      subst
        (λ b.
          Did n
            (if b && true then cancelled ev (context_at t n) else unchanged false (context_at t n))
            t u)
        now r in
    (
      t,
      u,
      adds,
      cancels ∙ rw now refl,
      did.scheduled ∙ rw (a.here, a.scheduled, task) refl,
      λ m. elim (Bool-cases (m == n)) [
        | inl same ↦ let at_n : m ≡ n = ground arith in rw at_n (did.here ∙ rw a.here back)
        | inr other ↦ did.others m (ground arith) ∙ a.others m (ground arith)
      ],
      ground (arith, did.pending, a.pending),
    )
