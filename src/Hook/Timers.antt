-- ===== src/Hook/Timers.antt =====
-- skt/hook/hook.cpp: the timers that do_io and connect_with_timeout arm.
use learn_web.Common.{
  ℕ, suc, ◌-◌, ◌≡◌, refl, ◌∙◌, arith, Bool, true, false, not, ◌||◌, Option, none, some, List, [],
  ◌∷◌, ◌++◌, if◌then◌else◌, Bool-cases, inl, inr,
}
use learn_web.Common.Outcome.{Outcome, ok, err, out_of_fuel, ◌>>=◌}
use learn_web.FdManager.Defs.{FdCtx, get_timeout}
use learn_web.Hook.Defs.{
  Answer, Action, call, arm, add_event, yield_to_hold, cancel_timer, Wait, eintr, eagain,
  einprogress, rcvtimeo, fails_with, waited, wait_for, call_again, behind_wait, io_loop, timeout_of,
  do_io, await_connect, connect_with_timeout, one_call,
}

-- The timers that are left behind, after some were before: each cancel takes one back.
abbrev pub timers : List Action → ℕ → ℕ
timers [] n = n
timers (call ∷ more) n = timers more n
timers (arm ms ∷ more) n = timers more (suc n)
timers (add_event ∷ more) n = timers more n
timers (yield_to_hold ∷ more) n = timers more n
timers (cancel_timer ∷ more) n = timers more (n - 1)

timers-append : (a b : List Action) (n : ℕ) → timers (a ++ b) n ≡ timers b (timers a n)
timers-append [] b n = refl
timers-append (call ∷ a) b n = timers-append a b n
timers-append (arm ms ∷ a) b n = timers-append a b (suc n)
timers-append (add_event ∷ a) b n = timers-append a b n
timers-append (yield_to_hold ∷ a) b n = timers-append a b n
timers-append (cancel_timer ∷ a) b n = timers-append a b (n - 1)

-- A list of actions that leaves as many timers as there were.
abbrev pub Balanced : List Action → Type 0
Balanced acts = (n : ℕ) → timers acts n ≡ n

append-Balanced : (a b : List Action) → Balanced a → Balanced b → Balanced (a ++ b)
append-Balanced a b h k n = timers-append a b n ∙ (k (timers a n) ∙ h n)

-- A run that, if it ends, leaves as many timers as there were.
abbrev pub Tidy {ℓ} : {A : Type ℓ} → Outcome (List Action × A) → Type 0
Tidy (ok r) = Balanced r.0
Tidy (err e) = Unit {0}

bind-Tidy {ℓ κ} :
    {A : Type ℓ} {B : Type κ} (m : Outcome (List Action × A))
    (f : List Action × A → Outcome (List Action × B))
    → Tidy m
    → ((r : List Action × A) → Balanced r.0 → Tidy (f r))
    → Tidy (m >>= f)
bind-Tidy (ok r) f h k = k r h
bind-Tidy (err e) f h k = tt

call_again-Tidy : (answers : List Answer) → Tidy (call_again answers)
unfolding call_again
call_again-Tidy [] = tt
call_again-Tidy (a ∷ more) = elim (Bool-cases (fails_with eintr a)) [
  | inl e ↦
      rw e
        (bind-Tidy (call_again more) (λ r. ok (call ∷ r.0, r.1)) (call_again-Tidy more) (λ r h. h))
  | inr e ↦ rw e (λ n. refl)
]

waited-Balanced :
    (to : Option ℕ) (expired : Bool) (refused : Option ℕ) → Balanced (waited to expired refused).0
waited-Balanced none expired none n = refl
waited-Balanced none expired (some e) n = refl
waited-Balanced (some ms) expired none n = omega arith
waited-Balanced (some ms) expired (some e) n = omega arith

wait_for-Balanced : (to : Option ℕ) (w : Wait) → Balanced (wait_for to w).0
unfolding wait_for
wait_for-Balanced to w = waited-Balanced to w.expired w.refused

behind_wait-Tidy :
    (calls : List Action) (p : List Action × Option Answer) (again : Outcome (List Action × Answer))
    → Balanced calls
    → Balanced p.0
    → Tidy again
    → Tidy (behind_wait calls p again)
behind_wait-Tidy calls (acts, some a) again h k t = append-Balanced calls acts h k
behind_wait-Tidy calls (acts, none) again h k t =
    bind-Tidy again (λ s. ok (calls ++ (acts ++ s.0), s.1)) t
      (λ s b. append-Balanced calls (acts ++ s.0) h (append-Balanced acts s.0 k b))

io_loop-Tidy :
    (to : Option ℕ) (waits : List Wait) (answers : List Answer) → Tidy (io_loop to waits answers)
unfolding io_loop
io_loop-Tidy to [] answers =
    bind-Tidy (call_again answers)
      (λ r. if fails_with eagain (r.1).0 then err out_of_fuel else ok (r.0, (r.1).0))
      (call_again-Tidy answers)
      (λ r h. elim (Bool-cases (fails_with eagain (r.1).0)) [ inl e ↦ rw e tt | inr e ↦ rw e h ])
io_loop-Tidy to (w ∷ ws) answers =
    bind-Tidy (call_again answers)
      (λ r.
        let again = io_loop to ws (r.1).1 in
        if fails_with eagain (r.1).0
        then behind_wait r.0 (wait_for to w) again
        else ok (r.0, (r.1).0))
      (call_again-Tidy answers)
      (λ r h. elim (Bool-cases (fails_with eagain (r.1).0)) [
        | inl e ↦ rw e (
            behind_wait-Tidy r.0 (wait_for to w) (io_loop to ws (r.1).1) h (wait_for-Balanced to w)
              (io_loop-Tidy to ws (r.1).1))
        | inr e ↦ rw e h
      ])

one_call-Tidy : (answers : List Answer) → Tidy (one_call answers)
one_call-Tidy [] = tt
one_call-Tidy (a ∷ more) = λ n. refl

do_io-Tidy :
    (enable : Bool) (ctx : Option FdCtx) (so : ℕ) (waits : List Wait) (answers : List Answer)
    → Tidy (do_io enable ctx so waits answers)
unfolding do_io
do_io-Tidy false ctx so waits answers = one_call-Tidy answers
do_io-Tidy true none so waits answers = one_call-Tidy answers
do_io-Tidy true (some c) so waits answers = elim (Bool-cases c.is_closed) [
  | inl e ↦ simp e (λ n. refl)
  | inr e ↦ elim (Bool-cases (not c.is_socket || c.user_nonblock)) [
    | inl d ↦ simp (e, d) (one_call-Tidy answers)
    | inr d ↦ simp (e, d) (io_loop-Tidy (timeout_of (get_timeout rcvtimeo so c)) waits answers)
  ]
]

await_connect-Balanced :
    (to : Option ℕ) (w : Wait) (so_error : Answer) → Balanced (await_connect to w so_error).0
unfolding await_connect
await_connect-Balanced to w so_error = wait_for-Balanced to w

connect-Balanced :
    (enable : Bool) (ctx : Option FdCtx) (ms : ℕ) (w : Wait) (so_error answer : Answer)
    → Balanced (connect_with_timeout enable ctx ms w so_error answer).0
unfolding connect_with_timeout
connect-Balanced false ctx ms w so_error answer n = refl
connect-Balanced true none ms w so_error answer n = refl
connect-Balanced true (some c) ms w so_error answer n = elim (Bool-cases c.is_closed) [
  | inl e ↦ simp e refl
  | inr e ↦ elim (Bool-cases (not c.is_socket)) [
    | inl d ↦ simp (e, d) refl
    | inr d ↦ elim (Bool-cases c.user_nonblock) [
      | inl u ↦ simp (e, d, u) refl
      | inr u ↦ elim (Bool-cases (fails_with einprogress answer)) [
        | inl i ↦ simp (e, d, u, i) (await_connect-Balanced (timeout_of ms) w so_error n)
        | inr i ↦ simp (e, d, u, i) refl
      ]
    ]
  ]
]

-- Each timer that do_io or connect_with_timeout arms is cancelled by it again, whichever way it
-- ends: when it returns, there are as many timers as there were.
pub timers_lem :
    (enable : Bool) (ctx : Option FdCtx) (so ms : ℕ) (waits : List Wait) (answers : List Answer)
    (w : Wait) (so_error answer : Answer)
    → Tidy (do_io enable ctx so waits answers)
      × Balanced (connect_with_timeout enable ctx ms w so_error answer).0
timers_lem enable ctx so ms waits answers w so_error answer =
    (do_io-Tidy enable ctx so waits answers, connect-Balanced enable ctx ms w so_error answer)
