-- ===== src/Timer/Listing.antt =====
-- skt/timer/timer.cpp: TimerManager::listExpiredCb, getNextTimer and detectClockRollover.
use learn_web.Common.{
  ℕ, ◌+◌, ◌-◌, ◌≤◌, ◌<◌, ◌≡◌, ◌↔◌, ◌⊎◌, ◌^◌, refl, ◌∙◌, arith, Bool, true, false, not, ◌&&◌, ◌||◌,
  Option, List, [], ◌∷◌, All, mem, keep, map, if◌then◌else◌, ltb, Bool-cases, inl, inr,
}
use mathlib.Core.Path.{subst}
use learn_web.Timer.Order.{less, before, IsOrdered, not-mem_self}
use learn_web.Timer.Defs.{
  Callback, TimerManager, next_of, is_some, detect_clock_rollover, collect, list_expired_first,
  list_expired_cb, split_expired, wait_for, get_next_timer,
}
use learn_web.Timer.Invariant.{IsValid}
use learn_web.Timer.Expire.{due, All-undue, split_expired_lem}
use learn_web.Timer.Fire.{Distinct, Firing, rearmed, fire-IsValid, fire-timer, fire-cbs}

module _ (next : ℕ → ℕ) (p : ℕ → Bool) where
  mem-keep : (b : ℕ) (xs : List ℕ) → mem b (keep p xs) ≡ (mem b xs && p b)
  mem-keep b [] = refl
  mem-keep b (x ∷ xs) = ground (arith, mem-keep b xs)

  keep-All :
      (x : ℕ) (xs : List ℕ)
      → All (λ y. before next x y ≡ true) xs
      → All (λ y. before next x y ≡ true) (keep p xs)
  keep-All x [] h = tt
  keep-All x (y ∷ ys) (h, hs) = elim (Bool-cases (p y)) [
    | inl e ↦ rw e (h, keep-All x ys hs)
    | inr e ↦ rw e (keep-All x ys hs)
  ]

  keep-IsOrdered : (xs : List ℕ) → IsOrdered next xs → IsOrdered next (keep p xs)
  keep-IsOrdered [] h = tt
  keep-IsOrdered (x ∷ xs) (h, hs) = elim (Bool-cases (p x)) [
    | inl e ↦ rw e (keep-All x xs h, keep-IsOrdered xs hs)
    | inr e ↦ rw e (keep-IsOrdered xs hs)
  ]

IsOrdered-Distinct : (next : ℕ → ℕ) (xs : List ℕ) → IsOrdered next xs → Distinct xs
IsOrdered-Distinct next [] h = tt
IsOrdered-Distinct next (x ∷ xs) (h, hs) = (not-mem_self next x xs h, IsOrdered-Distinct next xs hs)

-- The timers that a call at `now` takes: all of them when the clock went back, else those due.
abbrev pub expired : Bool → ℕ → TimerManager → List ℕ
expired rollover now s = keep (λ a. rollover || due (next_of s) now a) s.timers

-- What a call at `now` that takes the timers `es` has done with them and with the others.
pub record Fired (es : List ℕ) (now : ℕ) (s : TimerManager)
    (r : List (Option Callback) × TimerManager) : Type 0 where
  pub valid : IsValid r.1
  pub callbacks : r.0 ≡ map (λ a. (s.timer a).cb) es
  pub timer : (b : ℕ) → r.1.timer b ≡ (if mem b es then rearmed now (s.timer b) else s.timer b)

taken-Firing :
    (rollover : Bool) (now : ℕ) (s : TimerManager)
    → IsValid s
    → Firing
        (expired rollover now s)
        (record s { timers = keep (λ a. not (rollover || due (next_of s) now a)) s.timers })
taken-Firing rollover now s v =
    let p = λ (a : ℕ). rollover || due (next_of s) now a in
    let q = λ (a : ℕ). not (rollover || due (next_of s) now a) in
    record {
      ordered = keep-IsOrdered (next_of s) q s.timers v.ordered;
      waiting = λ b m. (
        ground (arith, mem-keep (next_of s) p b s.timers, mem-keep (next_of s) q b s.timers),
        ground (arith, mem-keep (next_of s) p b s.timers, v.armed b),
      );
      armed = λ b m.
          ground (
            arith,
            mem-keep (next_of s) p b s.timers,
            mem-keep (next_of s) q b s.timers,
            v.armed b,
          );
    }

keep_all :
    (p : ℕ → Bool) (xs : List ℕ)
    → ((a : ℕ) → p a ≡ true)
    → (keep p xs ≡ xs) × (keep (λ a. not (p a)) xs ≡ [])
keep_all p [] h = (refl, refl)
keep_all p (x ∷ xs) h =
    let (all, none_left) = keep_all p xs h in
    (ground (arith, h x, all), ground (arith, h x, none_left))

parts_lem :
    (rollover : Bool) (now key : ℕ) (s : TimerManager)
    → IsValid s
    → mem key s.timers ≡ false
    → (if rollover then (s.timers, []) else split_expired (next_of s) now key s.timers)
      ≡ (expired rollover now s, keep (λ a. not (rollover || due (next_of s) now a)) s.timers)
parts_lem true now key s v n =
    let (all, none_left) = keep_all (λ a. true || due (next_of s) now a) s.timers (λ a. refl) in
    rw (all, none_left) refl
parts_lem false now key s v n = split_expired_lem (next_of s) now key s.timers v.ordered n

collect-Fired :
    (rollover : Bool) (now key : ℕ) (s : TimerManager)
    → IsValid s
    → mem key s.timers ≡ false
    → Fired (expired rollover now s) now s (collect rollover now key s)
unfolding collect
collect-Fired rollover now key s v n =
    let es = expired rollover now s in
    let t : TimerManager = record s {
      timers = keep (λ a. not (rollover || due (next_of s) now a)) s.timers;
    } in
    let d : Distinct es =
      IsOrdered-Distinct (next_of s) es
        (keep-IsOrdered (next_of s) (λ a. rollover || due (next_of s) now a) s.timers v.ordered) in
    rw (parts_lem rollover now key s v n) (record {
      valid = fire-IsValid now es t d (taken-Firing rollover now s v);
      callbacks = fire-cbs now es s t d (λ b m. refl);
      timer = λ b. fire-timer now es t b d;
    })

list_expired_cb_empty :
    (now key : ℕ) (s : TimerManager) → s.timers ≡ [] → list_expired_cb now key s ≡ ([], s)
unfolding list_expired_cb
list_expired_cb_empty now key s e = rw e refl

list_expired_cb_early :
    (now key x : ℕ) (xs : List ℕ) (s : TimerManager)
    → s.timers ≡ x ∷ xs
    → (not (detect_clock_rollover now s).0 && ltb now (next_of s x)) ≡ true
    → list_expired_cb now key s ≡ ([], record s { previous_time = now })
unfolding list_expired_cb list_expired_first detect_clock_rollover
list_expired_cb_early now key x xs s e k = rw (e, k) refl

list_expired_cb_late :
    (now key x : ℕ) (xs : List ℕ) (s : TimerManager)
    → s.timers ≡ x ∷ xs
    → (not (detect_clock_rollover now s).0 && ltb now (next_of s x)) ≡ false
    → list_expired_cb now key s
      ≡ collect (detect_clock_rollover now s).0 now key (record s { previous_time = now })
unfolding list_expired_cb list_expired_first detect_clock_rollover
list_expired_cb_late now key x xs s e k = rw (e, k) refl

expired_early :
    (now x : ℕ) (xs : List ℕ) (s : TimerManager)
    → IsValid s
    → s.timers ≡ x ∷ xs
    → now < next_of s x
    → expired false now s ≡ []
expired_early now x xs s v e h =
    let (first, _) : IsOrdered (next_of s) (x ∷ xs) =
      subst (λ l. IsOrdered (next_of s) l) e v.ordered in
    rw e (ground (arith, (All-undue (next_of s) now x xs h first).0))

-- On a well-formed manager `listExpiredCb` hands out the callbacks of the timers that are due, in
-- the order of their times, and of all timers when detectClockRollover says that the clock went
-- back. Of those timers, the recurring ones count their interval from now on and the others have
-- no callback any more; no other timer changes, and the manager stays well-formed. (No timer lives
-- at the address of the one that the call makes to search with.)
pub list_expired_cb_lem :
    (now key : ℕ) (s : TimerManager)
    → IsValid s
    → mem key s.timers ≡ false
    → Fired (expired (detect_clock_rollover now s).0 now s) now s (list_expired_cb now key s)
list_expired_cb_lem now key s v n = cases s.timers refl
  where
    cases :
        (xs : List ℕ)
        → s.timers ≡ xs
        → Fired (expired (detect_clock_rollover now s).0 now s) now s (list_expired_cb now key s)
    cases [] e =
        let none_expired : expired (detect_clock_rollover now s).0 now s ≡ [] = rw e refl in
        rw (list_expired_cb_empty now key s e, none_expired)
          (record { valid = v; callbacks = refl; timer = λ b. refl })
    cases (x ∷ xs) e =
        elim (Bool-cases (not (detect_clock_rollover now s).0 && ltb now (next_of s x))) [
          | inl k ↦
              let on : (detect_clock_rollover now s).0 ≡ false = ground arith in
              let none_expired : expired (detect_clock_rollover now s).0 now s ≡ [] =
                rw on (expired_early now x xs s v e (ground arith)) in
              rw (list_expired_cb_early now key x xs s e k, none_expired)
                (record {
                  valid = record { ordered = v.ordered; armed = v.armed };
                  callbacks = refl;
                  timer = λ b. refl;
                })
          | inr k ↦
              let t : TimerManager = record s { previous_time = now } in
              let f =
                collect-Fired (detect_clock_rollover now s).0 now key t
                  (record { ordered = v.ordered; armed = v.armed }) n in
              rw (list_expired_cb_late now key x xs s e k)
                (record { valid = f.valid; callbacks = f.callbacks; timer = f.timer })
        ]

-- When the clock shows less than at the last call, it counts as gone back just if it did so by
-- more than an hour, or if that last time was below one hour: then the test against one hour
-- before it wraps and is true for any time.
pub detect_clock_rollover_lem :
    (now : ℕ) (s : TimerManager)
    → s.previous_time < 2 ^ 64
    → now < s.previous_time
    → ((detect_clock_rollover now s).0 ≡ true)
      ↔ ((s.previous_time < 3600000) ⊎ (now + 3600000 < s.previous_time))
unfolding detect_clock_rollover
detect_clock_rollover_lem now s h k = (λ e. ground arith, λ c. ground arith)

first_least :
    (next : ℕ → ℕ) (b x : ℕ) (xs : List ℕ)
    → All (λ y. before next x y ≡ true) xs
    → mem b (x ∷ xs) ≡ true
    → next x ≤ next b
unfolding less
first_least next b x [] h m = ground arith
first_least next b x (y ∷ ys) (h, hs) m = ground (arith, first_least next b x ys hs)

-- On a well-formed manager where some timer has a callback, `getNextTimer` returns the time left
-- until one whose time is the least of all those, and zero if that time is past.
pub get_next_timer_lem :
    (now a : ℕ) (s : TimerManager)
    → IsValid s
    → is_some (s.timer a).cb ≡ true
    → (first : ℕ) × (is_some (s.timer first).cb ≡ true)
      × ((get_next_timer now s).0 ≡ next_of s first - now)
      × ((b : ℕ) → is_some (s.timer b).cb ≡ true → next_of s first ≤ next_of s b)
unfolding get_next_timer wait_for
get_next_timer_lem now a s v h = cases s.timers refl
  where
    cases :
        (xs : List ℕ)
        → s.timers ≡ xs
        → (first : ℕ) × (is_some (s.timer first).cb ≡ true)
          × ((get_next_timer now s).0 ≡ next_of s first - now)
          × ((b : ℕ) → is_some (s.timer b).cb ≡ true → next_of s first ≤ next_of s b)
    cases [] e = absurd (ground (arith, v.armed a, e))
    cases (x ∷ xs) e =
        let (later, _) : IsOrdered (next_of s) (x ∷ xs) =
          subst (λ l. IsOrdered (next_of s) l) e v.ordered in
        let member : (b : ℕ) → mem b (x ∷ xs) ≡ is_some (s.timer b).cb =
          λ b. subst (λ l. mem b l ≡ is_some (s.timer b).cb) e (v.armed b) in
        (
          x,
          ground (arith, member x),
          rw e (ground arith),
          λ b k. first_least (next_of s) b x xs later (member b ∙ k),
        )
