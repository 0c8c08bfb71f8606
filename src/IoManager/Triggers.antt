-- ===== src/IoManager/Triggers.antt =====
-- skt/iomanager/iomanager.cpp: what delEvent, cancelEvent, cancelAll and idle make of one context.
use learn_web.Common.{
  ℕ, ◌+◌, ◌≡◌, refl, arith, Bool, true, false, not, ◌&&◌, ◌||◌, List, [], ◌++◌, if◌then◌else◌,
  Bool-cases, inl, inr,
}
use learn_web.Common.Outcome.{bind_ok, ok, err, assert_failed}
use learn_web.IoManager.Defs.{
  Event, no_event, read_event, write_event, has_event, and_not, any, FdContext, get_context,
  put_context, Task, trigger_event, Change, unchanged, trigger_if, trigger_both, del_from,
  cancel_from, cancel_all_from, handle_event,
}
use learn_web.IoManager.Contexts.{
  context_ok, count, waiting, waiting_for, without, trigger_read, trigger_write,
}

-- The change when the tests for READ and WRITE are `a` and `b`.
abbrev pub both : Bool → Bool → FdContext → Change
both a b c = record {
  result = true;
  context =
      if b
      then without write_event (if a then without read_event c else c)
      else (if a then without read_event c else c);
  tasks = (if a then waiting c.read else []) ++ (if b then waiting c.write else []);
  done = (if a then 1 else 0) + (if b then 1 else 0);
}

-- A change that keeps the invariant of a context and the account of its events.
pub record IsChange (c : FdContext) (r : Change) : Type 0 where
  pub fine : context_ok r.context ≡ true
  pub fd : r.context.fd ≡ c.fd
  pub balance : count r.context + r.done ≡ count c

pub unchanged-IsChange :
    (result : Bool) (c : FdContext) → context_ok c ≡ true → IsChange c (unchanged result c)
unchanged-IsChange result c h = record { fine = h; fd = refl; balance = omega arith }

pub both-IsChange :
    (a b : Bool) (c : FdContext)
    → context_ok c ≡ true
    → (a ≡ true → c.events.reads ≡ true)
    → (b ≡ true → c.events.writes ≡ true)
    → IsChange c (both a b c)
both-IsChange false false c h r w = record { fine = h; fd = refl; balance = omega arith }
both-IsChange true false c h r w = record {
  fine = ground (arith, h);
  fd = refl;
  balance = ground (arith, r refl);
}
both-IsChange false true c h r w = record {
  fine = ground (arith, h);
  fd = refl;
  balance = ground (arith, w refl);
}
both-IsChange true true c h r w = record {
  fine = refl;
  fd = refl;
  balance = ground (arith, r refl, w refl);
}

pub trigger_both_lem :
    (f g : FdContext → Bool) (a b : Bool) (c : FdContext)
    → context_ok c ≡ true
    → f c ≡ a
    → g (if a then without read_event c else c) ≡ b
    → (a ≡ true → c.events.reads ≡ true)
    → (b ≡ true → c.events.writes ≡ true)
    → trigger_both f g c ≡ ok (both a b c)
unfolding trigger_both trigger_if
trigger_both_lem f g false false c h x y r w = rw (x, y) refl
trigger_both_lem f g true false c h x y r w = rw (x, trigger_read c h (r refl), y) refl
trigger_both_lem f g false true c h x y r w = rw (x, y, trigger_write c h (w refl)) refl
trigger_both_lem f g true true c h x y r w =
    rw
      (
        x,
        trigger_read c h (r refl),
        y,
        trigger_write (without read_event c) (ground (arith, h)) (w refl),
      )
      refl

-- The change when a call takes one event, without a task or with it.
abbrev pub removed : Event → FdContext → Change
removed ev c = record { result = true; context = without ev c; tasks = []; done = 1 }

abbrev pub cancelled : Event → FdContext → Change
cancelled ev c = record {
  result = true;
  context = without ev c;
  tasks = waiting_for ev c;
  done = 1;
}

pub without-IsChange :
    (ev : Event) (c : FdContext) (tasks : List (ℕ × Task))
    → context_ok c ≡ true
    → has_event c.events ev ≡ true
    → IsChange c (record { result = true; context = without ev c; tasks = tasks; done = 1 })
unfolding has_event
without-IsChange no_event c tasks h e = cc
without-IsChange read_event c tasks h e = record {
  fine = ground (arith, h);
  fd = refl;
  balance = ground (arith, e);
}
without-IsChange write_event c tasks h e = record {
  fine = ground (arith, h);
  fd = refl;
  balance = ground (arith, e);
}

pub del_from_lem :
    (failed : Bool) (ev : Event) (c : FdContext)
    → del_from failed ev c
      ≡ ok (if has_event c.events ev && not failed then removed ev c else unchanged false c)
unfolding del_from get_context put_context and_not has_event
del_from_lem failed no_event c = refl
del_from_lem failed read_event c = ground arith
del_from_lem failed write_event c = ground arith

pub cancel_from_lem :
    (failed : Bool) (ev : Event) (c : FdContext)
    → context_ok c ≡ true
    → cancel_from failed ev c
      ≡ ok (if has_event c.events ev && not failed then cancelled ev c else unchanged false c)
unfolding cancel_from trigger_if has_event
cancel_from_lem failed no_event c h = refl
cancel_from_lem failed read_event c h = elim (Bool-cases (c.events.reads && not failed)) [
  | inl e ↦
      let r : c.events.reads ≡ true = ground arith in
      let f : failed ≡ false = ground arith in rw (trigger_read c h r, r, f) refl
  | inr e ↦ ground (arith, e)
]
cancel_from_lem failed write_event c h = elim (Bool-cases (c.events.writes && not failed)) [
  | inl e ↦
      let r : c.events.writes ≡ true = ground arith in
      let f : failed ≡ false = ground arith in rw (trigger_write c h r, r, f) refl
  | inr e ↦ ground (arith, e)
]

drained :
    (a b : Bool) (c : FdContext)
    → c.events.reads ≡ a
    → c.events.writes ≡ b
    → any (both a b c).context.events ≡ false
drained false false c r w = ground (arith, r, w)
drained false true c r w = ground (arith, r, w)
drained true false c r w = ground (arith, r, w)
drained true true c r w = refl

pub cancel_all_from_lem :
    (failed : Bool) (c : FdContext)
    → context_ok c ≡ true
    → cancel_all_from failed c
      ≡ ok (
          if any c.events && not failed
          then both c.events.reads c.events.writes c
          else unchanged false c)
unfolding cancel_all_from
cancel_all_from_lem failed c h = elim (Bool-cases (any c.events && not failed)) [
  | inl e ↦
      let go : (not (any c.events) || failed) ≡ false = ground (arith, e) in
      let triggers =
        trigger_both_lem (λ d. d.events.reads) (λ d. d.events.writes) c.events.reads c.events.writes
          c h refl (ground arith) (λ k. k) (λ k. k) in
      rw (go, e)
        (bind_ok _ _ _ triggers (rw (drained c.events.reads c.events.writes c refl refl) refl))
  | inr e ↦
      let stop : (not (any c.events) || failed) ≡ true = ground (arith, e) in rw (stop, e) refl
]

-- The events that epoll reports are registered ones.
pub record IsReported (err_hup epoll_in epoll_out : Bool) (c : FdContext) : Type 0 where
  pub reads : (epoll_in || err_hup) ≡ true → c.events.reads ≡ true
  pub writes : (epoll_out || err_hup) ≡ true → c.events.writes ≡ true

pub handle_event_lem :
    (failed err_hup epoll_in epoll_out : Bool) (c : FdContext)
    → context_ok c ≡ true
    → IsReported err_hup epoll_in epoll_out c
    → handle_event failed err_hup epoll_in epoll_out c
      ≡ ok (
          if (epoll_in || epoll_out || err_hup) && not failed
          then both (epoll_in || err_hup) (epoll_out || err_hup) c
          else unchanged true c)
unfolding handle_event
handle_event_lem failed err_hup epoll_in epoll_out c h p =
    let same : (not
            (c.events.reads && (epoll_in || err_hup) || c.events.writes && (epoll_out || err_hup))
          || failed)
        ≡ not ((epoll_in || epoll_out || err_hup) && not failed) =
      ground (arith, p.reads, p.writes) in
    elim (Bool-cases ((epoll_in || epoll_out || err_hup) && not failed)) [
      | inl e ↦
          rw (same, e)
            (trigger_both_lem (λ d. epoll_in || err_hup) (λ d. epoll_out || err_hup)
              (epoll_in || err_hup) (epoll_out || err_hup) c h refl refl p.reads p.writes)
      | inr e ↦ rw (same, e) refl
    ]

write_refused :
    (c : FdContext) → c.events.writes ≡ false → trigger_event write_event c ≡ err assert_failed
unfolding trigger_event has_event
write_refused c w = rw w refl

-- READ registered and WRITE not: the write event of an error fails the assertion.
pub handle_event_unregistered :
    (epoll_in epoll_out : Bool) (c : FdContext)
    → context_ok c ≡ true
    → c.events.reads ≡ true
    → c.events.writes ≡ false
    → handle_event false true epoll_in epoll_out c ≡ err assert_failed
unfolding handle_event trigger_both trigger_if
handle_event_unregistered epoll_in epoll_out c h r w =
    let i : (epoll_in || true) ≡ true = ground arith in
    let o : (epoll_out || true) ≡ true = ground arith in
    let go : (c.events.reads && (epoll_in || true) || c.events.writes && (epoll_out || true))
        ≡ true =
      ground (arith, r) in
    rw (go, i, o, trigger_read c h r, write_refused (without read_event c) w) refl
