-- ===== src/IoManager/Remove.antt =====
-- skt/iomanager/iomanager.cpp: what delEvent, cancelEvent, cancelAll and the loop of idle do to an
-- IOManager.
use learn_web.Common.{
  ℕ, ◌+◌, ◌≤◌, ◌<◌, ◌≡◌, ◌≢◌, refl, sym, ap, ◌∙◌, arith, Bool, true, false, not, ◌&&◌, ◌||◌, List,
  [], ◌∷◌, ◌++◌, length, if◌then◌else◌, leb, Bool-cases, inl, inr,
}
use learn_web.Common.Integers.{pos}
use learn_web.Common.Slots.{get_or_past}
use learn_web.Common.Outcome.{Outcome, ok, err, assert_failed}
use learn_web.IoManager.Defs.{
  Event, read_event, write_event, has_event, any, FdContext, new_context, Change, unchanged,
  del_from, cancel_from, cancel_all_from, handle_event,
}
use learn_web.IoManager.Calls.{
  IoManager, context_at, changed, on_context, del_event, cancel_event, cancel_all, idle_event,
}
use learn_web.IoManager.Contexts.{waiting_for}
use learn_web.IoManager.Triggers.{
  IsChange, unchanged-IsChange, both, both-IsChange, removed, cancelled, without-IsChange,
  del_from_lem, cancel_from_lem, cancel_all_from_lem, IsReported, handle_event_lem,
  handle_event_unregistered,
}
use learn_web.IoManager.Invariant.{
  IsValid, signed_small, total_bound, context-changed, changed-IsValid, on_context_lem,
  on_context_past, total-set_at,
}

-- What a call that changes the context of `n` by `r` makes of the manager `s`.
pub record Did (n : ℕ) (r : Change) (s t : IoManager) : Type 0 where
  pub valid : IsValid t
  pub here : context_at t n ≡ r.context
  pub others : (m : ℕ) → m ≢ n → context_at t m ≡ context_at s m
  pub scheduled : t.scheduled ≡ s.scheduled ++ r.tasks
  pub pending : t.pending_event_count + r.done ≡ s.pending_event_count

append_nil : {A : Type 0} (xs : List A) → xs ++ [] ≡ xs
append_nil [] = refl
append_nil (x ∷ xs) = ap (◌∷◌ x) (append_nil xs)

on_context-Did_in :
    (call : FdContext → Outcome Change) (n : ℕ) (r : Change) (s : IoManager)
    → IsValid s
    → n < length s.fd_contexts
    → call (context_at s n) ≡ ok r
    → IsChange (context_at s n) r
    → (t : IoManager) × (on_context call (pos n) s ≡ ok (r.result, t)) × Did n r s t
unfolding changed
on_context-Did_in call n r s v h e k = (
  changed n r s,
  on_context_lem call n r s v h e,
  record {
    valid = changed-IsValid n r s v h k;
    here = context-changed n n r.context s h ∙ ground arith;
    others = λ m d. context-changed n m r.context s h ∙ ground arith;
    scheduled = refl;
    pending = ground (
      arith,
      v.pending,
      k.balance,
      total_bound s v,
      total-set_at s.fd_contexts n r.context (new_context n) h,
    );
  },
)

on_context-Did_any :
    (call : FdContext → Outcome Change) (n : ℕ) (r : Change) (s : IoManager)
    → IsValid s
    → (length s.fd_contexts ≤ n → r ≡ unchanged false (context_at s n))
    → call (context_at s n) ≡ ok r
    → IsChange (context_at s n) r
    → (t : IoManager) × (on_context call (pos n) s ≡ ok (r.result, t)) × Did n r s t
on_context-Did_any call n r s v p e k = elim (Bool-cases (leb (length s.fd_contexts) n)) [
  | inr within ↦ on_context-Did_in call n r s v (ground arith) e k
  | inl past ↦ rw (p (ground arith)) (
    s,
    on_context_past call n s v (ground arith),
    record {
      valid = v;
      here = refl;
      others = λ m d. refl;
      scheduled = sym (append_nil s.scheduled);
      pending = omega arith;
    },
  )
]

-- Whether an event of a descriptor is registered.
abbrev pub registered : Event → ℕ → IoManager → Bool
registered ev n s = has_event (context_at s n).events ev

past_nothing :
    (ev : Event) (n : ℕ) (s : IoManager) → length s.fd_contexts ≤ n → registered ev n s ≡ false
unfolding has_event
past_nothing ev n s h = rw (get_or_past s.fd_contexts n (new_context n) h) (nothing ev)
  where
    nothing : (ev : Event) → has_event (new_context n).events ev ≡ false
    nothing Event.no_event = refl
    nothing Event.read_event = refl
    nothing Event.write_event = refl

-- A call that does `r` under a test, and else returns false with nothing done.
on_context-Did_under :
    (call : FdContext → Outcome Change) (b : Bool) (n : ℕ) (r : Change) (s : IoManager)
    → IsValid s
    → (length s.fd_contexts ≤ n → b ≡ false)
    → r.result ≡ true
    → call (context_at s n) ≡ ok (if b then r else unchanged false (context_at s n))
    → (b ≡ true → IsChange (context_at s n) r)
    → (t : IoManager) × (on_context call (pos n) s ≡ ok (b, t))
      × Did n (if b then r else unchanged false (context_at s n)) s t
on_context-Did_under call true n r s v p q e k =
    let (t, returns, did) =
      on_context-Did_any call n r s v (λ h. absurd (ground (arith, p h))) e (k refl) in
    (t, returns ∙ rw q refl, did)
on_context-Did_under call false n r s v p q e k =
    on_context-Did_any call n (unchanged false (context_at s n)) s v (λ h. refl) e
      (unchanged-IsChange false (context_at s n) (v.fine n))

-- `delEvent` removes a registered event, schedules nothing, and succeeds; when the event is not
-- registered or epoll_ctl fails it fails and changes nothing. No other context changes, and the
-- manager stays well-formed.
pub del_event_lem :
    (failed : Bool) (ev : Event) (n : ℕ) (s : IoManager)
    → IsValid s
    → (t : IoManager) × (del_event failed (pos n) ev s ≡ ok (registered ev n s && not failed, t))
      × Did n
          (if registered ev n s && not failed
            then removed ev (context_at s n)
            else unchanged false (context_at s n))
          s
          t
unfolding del_event
del_event_lem failed ev n s v =
    on_context-Did_under (del_from failed ev) (registered ev n s && not failed) n
      (removed ev (context_at s n)) s v (λ h. rw (past_nothing ev n s h) refl) refl
      (del_from_lem failed ev (context_at s n))
      (λ e. without-IsChange ev (context_at s n) [] (v.fine n) (ground arith))

-- On a well-formed manager and for a descriptor that is no negative number, `cancelEvent` removes
-- a registered event, hands the task that waits for it to its scheduler, and succeeds; when the
-- event is not registered or epoll_ctl fails it fails and changes nothing. No other context
-- changes, no assertion fails, and the manager stays well-formed.
pub cancel_event_lem :
    (failed : Bool) (ev : Event) (n : ℕ) (s : IoManager)
    → IsValid s
    → (t : IoManager) × (cancel_event failed (pos n) ev s ≡ ok (registered ev n s && not failed, t))
      × Did n
          (if registered ev n s && not failed
            then cancelled ev (context_at s n)
            else unchanged false (context_at s n))
          s
          t
unfolding cancel_event
cancel_event_lem failed ev n s v =
    on_context-Did_under (cancel_from failed ev) (registered ev n s && not failed) n
      (cancelled ev (context_at s n)) s v (λ h. rw (past_nothing ev n s h) refl) refl
      (cancel_from_lem failed ev (context_at s n) (v.fine n))
      (λ e.
        without-IsChange ev (context_at s n) (waiting_for ev (context_at s n)) (v.fine n)
          (ground arith))

-- On a well-formed manager and for a descriptor that is no negative number, `cancelAll` removes
-- all registered events of it and hands their tasks, that of READ first, to their schedulers; when
-- none is registered or epoll_ctl fails it fails and changes nothing. No other context changes, no
-- assertion fails, and the manager stays well-formed.
pub cancel_all_lem :
    (failed : Bool) (n : ℕ) (s : IoManager)
    → IsValid s
    → (t : IoManager) × (cancel_all failed (pos n) s
        ≡ ok (any (context_at s n).events && not failed, t))
      × Did n
          (if any (context_at s n).events && not failed
            then both (context_at s n).events.reads (context_at s n).events.writes (context_at s n)
            else unchanged false (context_at s n))
          s
          t
unfolding cancel_all
cancel_all_lem failed n s v =
    let c = context_at s n in
    on_context-Did_under (cancel_all_from failed) (any c.events && not failed) n
      (both c.events.reads c.events.writes c) s v
      (λ h. rw (get_or_past s.fd_contexts n (new_context n) h) refl) refl
      (cancel_all_from_lem failed c (v.fine n))
      (λ e. both-IsChange c.events.reads c.events.writes c (v.fine n) (λ k. k) (λ k. k))

-- What the loop of `idle` does, on a well-formed manager, with an event that epoll reports for a
-- descriptor of the table, all of whose reported conditions are registered events: unless
-- epoll_ctl fails, just the reported events are removed and their tasks, that of READ first,
-- handed to their schedulers. The manager stays well-formed.
pub idle_event_lem :
    (failed err_hup epoll_in epoll_out : Bool) (n : ℕ) (s : IoManager)
    → IsValid s
    → n < length s.fd_contexts
    → IsReported err_hup epoll_in epoll_out (context_at s n)
    → (t : IoManager) × (idle_event failed err_hup epoll_in epoll_out (pos n) s ≡ ok (true, t))
      × Did n
          (if (epoll_in || epoll_out || err_hup) && not failed
            then both (epoll_in || err_hup) (epoll_out || err_hup) (context_at s n)
            else unchanged true (context_at s n))
          s
          t
unfolding idle_event
idle_event_lem failed err_hup epoll_in epoll_out n s v h p =
    cases ((epoll_in || epoll_out || err_hup) && not failed) refl
  where
    call : FdContext → Outcome Change
    call = handle_event failed err_hup epoll_in epoll_out

    cases :
        (b : Bool)
        → ((epoll_in || epoll_out || err_hup) && not failed) ≡ b
        → (t : IoManager) × (on_context call (pos n) s ≡ ok (true, t))
          × Did n
              (if (epoll_in || epoll_out || err_hup) && not failed
                then both (epoll_in || err_hup) (epoll_out || err_hup) (context_at s n)
                else unchanged true (context_at s n))
              s
              t
    cases true e =
        let r = both (epoll_in || err_hup) (epoll_out || err_hup) (context_at s n) in
        rw e (
          on_context-Did_in call n r s v h
            (handle_event_lem failed err_hup epoll_in epoll_out (context_at s n) (v.fine n) p
              ∙ rw e refl)
            (both-IsChange (epoll_in || err_hup) (epoll_out || err_hup) (context_at s n) (v.fine n)
              p.reads p.writes))
    cases false e = rw e (
        on_context-Did_in call n (unchanged true (context_at s n)) s v h
          (handle_event_lem failed err_hup epoll_in epoll_out (context_at s n) (v.fine n) p
            ∙ rw e refl)
          (unchanged-IsChange true (context_at s n) (v.fine n)))

-- On a well-formed manager an error or hang-up of a descriptor of the table for which READ is
-- registered and WRITE is not fails an assertion when epoll_ctl succeeds, whatever else epoll
-- reports: `idle` takes it for both events and triggers both.
pub idle_event_unregistered :
    (epoll_in epoll_out : Bool) (n : ℕ) (s : IoManager)
    → IsValid s
    → n < length s.fd_contexts
    → registered read_event n s ≡ true
    → registered write_event n s ≡ false
    → idle_event false true epoll_in epoll_out (pos n) s ≡ err assert_failed
unfolding idle_event on_context has_event
idle_event_unregistered epoll_in epoll_out n s v h r w =
    let within : leb (length s.fd_contexts) n ≡ false = ground arith in
    rw
      (
        signed_small (length s.fd_contexts) v.at_most,
        within,
        handle_event_unregistered epoll_in epoll_out (context_at s n) (v.fine n) r w,
      )
      refl
