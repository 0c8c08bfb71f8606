-- ===== src/IoManager/Invariant.antt =====
-- skt/iomanager/iomanager.cpp: the invariant of an IOManager, and a call on one context.
use learn_web.Common.{
  ℕ, zero, suc, ◌+◌, ◌*◌, ◌^◌, ◌≤◌, ◌<◌, ◌≡◌, refl, arith, true, false, List, [], ◌∷◌, length,
  get_or, if◌then◌else◌, ◌==◌, leb,
}
use learn_web.Common.Integers.{pos, signed32}
use learn_web.Common.Slots.{set_at, length-set_at, get_or-set_at}
use learn_web.Common.Outcome.{Outcome, ok}
use learn_web.IoManager.Defs.{FdContext, new_context, Change}
use learn_web.IoManager.Calls.{IoManager, context_at, changed, on_context}
use learn_web.IoManager.Contexts.{context_ok, count}
use learn_web.IoManager.Triggers.{IsChange}

-- How many events are registered in all.
abbrev pub total : List FdContext → ℕ
total [] = 0
total (c ∷ cs) = count c + total cs

count_le : (c : FdContext) → count c ≤ 2
count_le c = ground arith

total_le : (cs : List FdContext) → total cs ≤ 2 * length cs
total_le [] = omega arith
total_le (c ∷ cs) = omega (arith, count_le c, total_le cs)

pub total-set_at :
    (cs : List FdContext) (n : ℕ) (c d : FdContext)
    → n < length cs
    → total (set_at cs n c) + count (get_or cs n d) ≡ total cs + count c
total-set_at [] n c d h = absurd (omega (arith, h))
total-set_at (x ∷ cs) zero c d h = omega arith
total-set_at (x ∷ cs) (suc n) c d h = omega (arith, total-set_at cs n c d (omega (arith, h)))

-- What holds of an IOManager between two calls: 32 contexts at least, each of its descriptor and in
-- order, and m_pendingEventCount counts the registered events.
pub record IsValid (s : IoManager) : Type 0 where
  pub at_least : 32 ≤ length s.fd_contexts
  pub at_most : length s.fd_contexts < 2 ^ 31
  pub fd : (n : ℕ) → (context_at s n).fd ≡ n
  pub fine : (n : ℕ) → context_ok (context_at s n) ≡ true
  pub pending : s.pending_event_count ≡ total s.fd_contexts

pub signed_small : (m : ℕ) → m < 2 ^ 31 → signed32 m ≡ pos m
signed_small m h = ground arith

pub total_bound : (s : IoManager) → IsValid s → total s.fd_contexts < 2 ^ 32
total_bound s v = omega (arith, total_le s.fd_contexts, v.at_most)

pub context-changed :
    (n m : ℕ) (c : FdContext) (s : IoManager)
    → n < length s.fd_contexts
    → get_or (set_at s.fd_contexts n c) m (new_context m) ≡ (if m == n then c else context_at s m)
context-changed n m c s h = get_or-set_at s.fd_contexts n m c (new_context m) h

pub changed-IsValid :
    (n : ℕ) (r : Change) (s : IoManager)
    → IsValid s
    → n < length s.fd_contexts
    → IsChange (context_at s n) r
    → IsValid (changed n r s)
unfolding changed
changed-IsValid n r s v h k =
    let len = length-set_at s.fd_contexts n r.context in
    record {
      at_least = rw len v.at_least;
      at_most = rw len v.at_most;
      fd = λ m. rw (context-changed n m r.context s h) (ground (arith, v.fd m, v.fd n, k.fd));
      fine = λ m. rw (context-changed n m r.context s h) (ground (arith, v.fine m, k.fine));
      pending =
          ground
            (arith, v.pending, k.balance, total-set_at s.fd_contexts n r.context (new_context n) h);
    }

-- A call on the context of a descriptor of the table does what it does to that context.
pub on_context_lem :
    (call : FdContext → Outcome Change) (n : ℕ) (r : Change) (s : IoManager)
    → IsValid s
    → n < length s.fd_contexts
    → call (context_at s n) ≡ ok r
    → on_context call (pos n) s ≡ ok (r.result, changed n r s)
unfolding on_context
on_context_lem call n r s v h e =
    let inside : leb (length s.fd_contexts) n ≡ false = ground arith in
    rw (signed_small (length s.fd_contexts) v.at_most, inside, e) refl

-- A descriptor past the table has nothing registered.
pub on_context_past :
    (call : FdContext → Outcome Change) (n : ℕ) (s : IoManager)
    → IsValid s
    → length s.fd_contexts ≤ n
    → on_context call (pos n) s ≡ ok (false, s)
unfolding on_context
on_context_past call n s v h =
    let past : leb (length s.fd_contexts) n ≡ true = ground arith in
    rw (signed_small (length s.fd_contexts) v.at_most, past) refl
