-- ===== src/IoManager/Add.antt =====
-- skt/iomanager/iomanager.cpp: what addEvent does to an IOManager, and how its table grows.
use learn_web.Common.{
  ℕ, zero, suc, ◌+◌, ◌*◌, ◌/◌, ◌^◌, ◌≤◌, ◌<◌, ◌≡◌, ◌≢◌, refl, sym, ap, ◌∙◌, arith, Bool, true,
  false, Option, none, some, List, [], ◌∷◌, length, get_or, if◌then◌else◌, leb, Bool-cases, inl,
  inr,
}
use mathlib.Core.Path.{subst}
use learn_web.Common.Integers.{pos}
use learn_web.Common.Outcome.{ok}
use learn_web.IoManager.Defs.{
  Event, no_event, read_event, write_event, has_event, or_event, EventContext, empty_context,
  is_empty, FdContext, new_context, get_context, put_context, add_to,
}
use learn_web.IoManager.Calls.{
  IoManager, resize_from, context_resize, io_manager, context_at, with_room,
}
use learn_web.IoManager.Contexts.{context_ok, count}
use learn_web.IoManager.Invariant.{IsValid, signed_small, total}

-- A larger table has the same contexts and new ones, and as many events.
length-resize_from : (n i : ℕ) (cs : List FdContext) → length (resize_from i n cs) ≡ n
unfolding resize_from
length-resize_from zero i cs = refl
length-resize_from (suc n) i [] = ap suc (length-resize_from n (suc i) [])
length-resize_from (suc n) i (c ∷ cs) = ap suc (length-resize_from n (suc i) cs)

get_or-resize_from :
    (n i m : ℕ) (cs : List FdContext)
    → length cs ≤ n
    → get_or (resize_from i n cs) m (new_context (i + m)) ≡ get_or cs m (new_context (i + m))
unfolding resize_from
get_or-resize_from zero i m [] h = refl
get_or-resize_from zero i m (c ∷ cs) h = absurd (omega (arith, h))
get_or-resize_from (suc n) i zero [] h = ap new_context (omega arith)
get_or-resize_from (suc n) i zero (c ∷ cs) h = refl
get_or-resize_from (suc n) i (suc m) [] h =
    let shift : suc i + m ≡ i + suc m = omega arith in
    rw (← shift) (get_or-resize_from n (suc i) m [] (omega arith))
get_or-resize_from (suc n) i (suc m) (c ∷ cs) h =
    let shift : suc i + m ≡ i + suc m = omega arith in
    rw (← shift) (get_or-resize_from n (suc i) m cs (omega (arith, h)))

total-resize_from :
    (n i : ℕ) (cs : List FdContext) → length cs ≤ n → total (resize_from i n cs) ≡ total cs
unfolding resize_from
total-resize_from zero i [] h = refl
total-resize_from zero i (c ∷ cs) h = absurd (omega (arith, h))
total-resize_from (suc n) i [] h = omega (arith, total-resize_from n (suc i) [] (omega arith))
total-resize_from (suc n) i (c ∷ cs) h =
    ap (λ t. count c + t) (total-resize_from n (suc i) cs (omega (arith, h)))

pub io_manager-IsValid : IsValid io_manager
unfolding io_manager context_resize
io_manager-IsValid =
    let len = length-resize_from 32 0 [] in
    let same : (m : ℕ) → get_or (resize_from 0 32 []) m (new_context m) ≡ new_context m = λ m.
      subst (λ k. get_or (resize_from 0 32 []) m (new_context k) ≡ new_context k) (omega arith)
        (get_or-resize_from 32 0 m [] (omega arith)) in
    record {
      at_least = omega (arith, len);
      at_most = omega (arith, len);
      fd = λ m. ap (λ c. c.fd) (same m);
      fine = λ m. ap context_ok (same m);
      pending = sym (total-resize_from 32 0 [] (omega arith));
    }

-- The table in which addEvent looks up the descriptor `n`.
pub record HasRoom (n : ℕ) (s t : IoManager) : Type 0 where
  pub valid : IsValid t
  pub fits : n < length t.fd_contexts
  pub same : (m : ℕ) → context_at t m ≡ context_at s m
  pub scheduled : t.scheduled ≡ s.scheduled
  pub pending : t.pending_event_count ≡ s.pending_event_count

pub with_room-HasRoom :
    (n : ℕ) (s : IoManager) → IsValid s → n < 2 ^ 30 → HasRoom n s (with_room (pos n) s)
unfolding with_room context_resize
with_room-HasRoom n s v h = elim (Bool-cases (leb (length s.fd_contexts) n)) [
  | inr within ↦
      rw (signed_small (length s.fd_contexts) v.at_most, within)
        (record {
          valid = v;
          fits = ground arith;
          same = λ m. refl;
          scheduled = refl;
          pending = refl;
        })
  | inl past ↦
      let size = n * 3 / 2 in
      let more : length s.fd_contexts ≤ size = ground (arith, v.at_least) in
      let len : length (resize_from 0 size s.fd_contexts) ≡ size =
        length-resize_from size 0 s.fd_contexts in
      let same : (m : ℕ)
          → get_or (resize_from 0 size s.fd_contexts) m (new_context m) ≡ context_at s m =
        λ m.
          subst
            (λ k.
              get_or (resize_from 0 size s.fd_contexts) m (new_context k)
              ≡ get_or s.fd_contexts m (new_context k))
            (omega arith) (get_or-resize_from size 0 m s.fd_contexts more) in
      rw (signed_small (length s.fd_contexts) v.at_most, past)
        (record {
          valid = record {
            at_least = ground (arith, len, v.at_least);
            at_most = ground (arith, len);
            fd = λ m. rw (same m) (v.fd m);
            fine = λ m. rw (same m) (v.fine m);
            pending = v.pending ∙ sym (total-resize_from size 0 s.fd_contexts more);
          };
          fits = ground (arith, len, v.at_least);
          same = same;
          scheduled = refl;
          pending = refl;
        })
]

-- The event context that addEvent fills: the callback, or the fiber when there is none.
abbrev pub new_slot : ℕ → ℕ → Option ℕ → EventContext
new_slot scheduler fiber none = record { scheduler = some scheduler; fiber = some fiber; cb = none }
new_slot scheduler fiber (some cb) = record {
  scheduler = some scheduler;
  fiber = none;
  cb = some cb;
}

-- A context with one event more.
abbrev pub added : Event → EventContext → FdContext → FdContext
added no_event e c = c
added read_event e c = record c { read = e; events = record (c.events) { reads = true } }
added write_event e c = record c { write = e; events = record (c.events) { writes = true } }

empty_parts :
    (scheduler fiber cb : Option ℕ)
    → is_empty (record { scheduler = scheduler; fiber = fiber; cb = cb }) ≡ true
    → record { scheduler = scheduler; fiber = fiber; cb = cb } ≡ empty_context
empty_parts none none none h = refl
empty_parts none none (some c) h = cc
empty_parts none (some f) cb h = cc
empty_parts (some s) fiber cb h = cc

pub empty_slot : (e : EventContext) → is_empty e ≡ true → e ≡ empty_context
empty_slot e h = empty_parts e.scheduler e.fiber e.cb h

pub add_to_lem :
    (failed : Bool) (scheduler fiber : ℕ) (ev : Event) (cb : Option ℕ) (c : FdContext)
    → context_ok c ≡ true
    → ev ≢ no_event
    → has_event c.events ev ≡ false
    → add_to failed (some scheduler) fiber true ev cb c
      ≡ ok (if failed then (false, c) else (true, added ev (new_slot scheduler fiber cb) c))
unfolding add_to has_event or_event get_context put_context
add_to_lem failed scheduler fiber no_event cb c h d e = absurd (d refl)
add_to_lem true scheduler fiber read_event cb c h d e = rw e refl
add_to_lem true scheduler fiber write_event cb c h d e = rw e refl
add_to_lem false scheduler fiber read_event none c h d e =
    rw (e, empty_slot c.read (ground (arith, h, e))) refl
add_to_lem false scheduler fiber read_event (some cb) c h d e =
    rw (e, empty_slot c.read (ground (arith, h, e))) refl
add_to_lem false scheduler fiber write_event none c h d e =
    rw (e, empty_slot c.write (ground (arith, h, e))) refl
add_to_lem false scheduler fiber write_event (some cb) c h d e =
    rw (e, empty_slot c.write (ground (arith, h, e))) refl
