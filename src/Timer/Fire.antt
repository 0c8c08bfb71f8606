-- ===== src/Timer/Fire.antt =====
-- skt/timer/timer.cpp: the loop of TimerManager::listExpiredCb over the expired timers, and the call.
use learn_web.Common.{
  ℕ, ◌+◌, ◌≡◌, ◌%◌, ◌^◌, refl, ap, ◌∙◌, arith, true, false, none, List, [], ◌∷◌, mem, map,
  if◌then◌else◌, ◌==◌, Bool-cases, inl, inr,
}
use mathlib.Core.Path.{ap₂}
use learn_web.Timer.Order.{IsOrdered, insert-IsOrdered, mem-insert}
use learn_web.Timer.Defs.{Timer, TimerManager, next_of, put, is_some, insert_timer, fire_one, fire}
use learn_web.Timer.Invariant.{IsValid, put-IsOrdered}

-- An expired timer when the loop is done with it.
abbrev pub rearmed : ℕ → Timer → Timer
rearmed now t =
    if t.recurring then record t { next = (now + t.ms) % 2 ^ 64 } else record t { cb = none }

-- Each address but once.
abbrev pub Distinct : List ℕ → Type 0
Distinct [] = Unit {0}
Distinct (x ∷ xs) = (mem x xs ≡ false) × Distinct xs

-- The loop has `es` before it: those have a callback and are out of the set, and on the other
-- timers the invariant holds.
pub record Firing (es : List ℕ) (s : TimerManager) : Type 0 where
  pub ordered : IsOrdered (next_of s) s.timers
  pub waiting :
      (b : ℕ) → mem b es ≡ true → (mem b s.timers ≡ false) × (is_some (s.timer b).cb ≡ true)
  pub armed : (b : ℕ) → mem b es ≡ false → mem b s.timers ≡ is_some (s.timer b).cb

fire_one_recurring :
    (now a : ℕ) (s : TimerManager)
    → (s.timer a).recurring ≡ true
    → fire_one now a s
      ≡ insert_timer a (record s {
        timer = put s.timer a (record (s.timer a) { next = (now + (s.timer a).ms) % 2 ^ 64 });
      })
unfolding fire_one
fire_one_recurring now a s e = rw e refl

fire_one_once :
    (now a : ℕ) (s : TimerManager)
    → (s.timer a).recurring ≡ false
    → fire_one now a s ≡ record s { timer = put s.timer a (record (s.timer a) { cb = none }) }
unfolding fire_one
fire_one_once now a s e = rw e refl

-- One round, whichever kind of timer it is for.
fire_one-Firing :
    (now a : ℕ) (es : List ℕ) (s : TimerManager)
    → mem a es ≡ false
    → Firing (a ∷ es) s
    → Firing es (fire_one now a s)
unfolding insert_timer
fire_one-Firing now a es s n f = elim (Bool-cases (s.timer a).recurring) [
  | inl e ↦
      let t : Timer = record (s.timer a) { next = (now + (s.timer a).ms) % 2 ^ 64 } in
      let next = λ (b : ℕ). (put s.timer a t b).next in
      let (out, has) = f.waiting a (ground arith) in
      rw (fire_one_recurring now a s e) (record {
        ordered = insert-IsOrdered next a s.timers (put-IsOrdered a t s s.timers out f.ordered);
        waiting = λ b m. (
          ground (arith, mem-insert next b a s.timers, f.waiting b),
          ground (arith, f.waiting b),
        );
        armed = λ b m. ground (arith, mem-insert next b a s.timers, f.armed b, has);
      })
  | inr e ↦
      let t : Timer = record (s.timer a) { cb = none } in
      let (out, has) = f.waiting a (ground arith) in
      rw (fire_one_once now a s e) (record {
        ordered = put-IsOrdered a t s s.timers out f.ordered;
        waiting = λ b m. (ground (arith, f.waiting b), ground (arith, f.waiting b));
        armed = λ b m. ground (arith, f.armed b, out);
      })
]

fire_one-timer :
    (now a b : ℕ) (s : TimerManager)
    → (fire_one now a s).timer b ≡ (if b == a then rearmed now (s.timer a) else s.timer b)
unfolding fire_one insert_timer
fire_one-timer now a b s = elim (Bool-cases (s.timer a).recurring) [
  | inl e ↦ rw e refl
  | inr e ↦ rw e refl
]

pub fire-IsValid :
    (now : ℕ) (es : List ℕ) (s : TimerManager)
    → Distinct es
    → Firing es s
    → IsValid (fire now es s).1
unfolding fire
fire-IsValid now [] s d f = record { ordered = f.ordered; armed = λ b. f.armed b refl }
fire-IsValid now (a ∷ es) s (n, d) f =
    fire-IsValid now es (fire_one now a s) d (fire_one-Firing now a es s n f)

pub fire-timer :
    (now : ℕ) (es : List ℕ) (s : TimerManager) (b : ℕ)
    → Distinct es
    → (fire now es s).1.timer b ≡ (if mem b es then rearmed now (s.timer b) else s.timer b)
unfolding fire
fire-timer now [] s b d = refl
fire-timer now (a ∷ es) s b (n, d) =
    fire-timer now es (fire_one now a s) b d ∙ ground (arith, fire_one-timer now a b s)

pub fire-cbs :
    (now : ℕ) (es : List ℕ) (s t : TimerManager)
    → Distinct es
    → ((b : ℕ) → mem b es ≡ true → t.timer b ≡ s.timer b)
    → (fire now es t).0 ≡ map (λ a. (s.timer a).cb) es
unfolding fire
fire-cbs now [] s t d same = refl
fire-cbs now (a ∷ es) s t (n, d) same =
    let head : (t.timer a).cb ≡ (s.timer a).cb = ap (λ u. u.cb) (same a (ground arith)) in
    let tail : (fire now es (fire_one now a t)).0 ≡ map (λ b. (s.timer b).cb) es =
      fire-cbs now es s (fire_one now a t) d
        (λ b m. fire_one-timer now a b t ∙ ground (arith, same b)) in
    ap₂ ◌∷◌ head tail
