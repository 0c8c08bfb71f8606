-- ===== src/Hook/Retries.antt =====
-- skt/hook/hook.cpp: how often do_io tries, and what it comes back with.
use learn_web.Common.{
  ℕ, suc, ◌≤◌, ◌≡◌, refl, sym, ap, ◌∙◌, ◌⊎◌, arith, Bool, true, false, not, ◌&&◌, ◌||◌, Option,
  none, some, List, [], ◌∷◌, ◌++◌, length, All, if◌then◌else◌, Bool-cases, inl, inr,
}
use learn_web.Common.Outcome.{Outcome, ok, err, ◌>>=◌}
use learn_web.FdManager.Defs.{FdCtx, get_timeout}
use learn_web.Hook.Defs.{
  Answer, Action, call, Wait, eintr, eagain, rcvtimeo, fails_with, has_timer, armed, disarmed,
  add_event, yield_to_hold, wait_for, call_again, io_loop, timeout_of, do_io,
}

-- The first answer that is neither EINTR nor EAGAIN.
abbrev pub first_settled : List Answer → Option Answer
first_settled [] = none
first_settled (a ∷ more) =
    let rest = first_settled more in
    if fails_with eintr a || fails_with eagain a then rest else some a

-- The answers EAGAIN before it.
abbrev pub count_again : List Answer → ℕ
count_again [] = 0
count_again (a ∷ more) =
    let rest = count_again more in
    if fails_with eintr a then rest else if fails_with eagain a then suc rest else 0

-- A wait that addEvent takes and the timer does not end.
abbrev pub Woken : Option ℕ → Wait → Type 0
Woken to w = (w.refused ≡ none) × ((has_timer to && w.expired) ≡ false)

-- What is behind the calls that were interrupted: EAGAIN, with fewer of these left, or the answer
-- that settles it.
Behind : List Answer → Answer → List Action × (Answer × List Answer) → Type 0
Behind answers a r =
    ((fails_with eagain (r.1).0 ≡ true)
      × (count_again answers ≡ suc (count_again (r.1).1))
      × (first_settled (r.1).1 ≡ some a))
    ⊎ ((fails_with eagain (r.1).0 ≡ false) × ((r.1).0 ≡ a))

call_again_lem :
    (answers : List Answer) (a : Answer)
    → first_settled answers ≡ some a
    → (r : List Action × (Answer × List Answer)) × (call_again answers ≡ ok r) × Behind answers a r
unfolding call_again Behind
call_again_lem [] a h = absurd (ground (arith, h))
call_again_lem (b ∷ more) a h = elim (Bool-cases (fails_with eintr b)) [
  | inl e ↦
      let same : first_settled (b ∷ more) ≡ first_settled more = rw e refl in
      let counted : count_again (b ∷ more) ≡ count_again more = rw e refl in
      let (r, called, behind) = call_again_lem more a (sym same ∙ h) in
      (
        (call ∷ r.0, r.1),
        rw (e, called) refl,
        elim behind [ inl (f, n, s) ↦ inl (f, counted ∙ n, s) | inr p ↦ inr p ],
      )
  | inr e ↦ (
    (call ∷ [], (b, more)),
    rw e refl,
    elim (Bool-cases (fails_with eagain b)) [
      | inl f ↦
          let same : first_settled (b ∷ more) ≡ first_settled more = rw (e, f) refl in
          inl (f, rw (e, f) refl, sym same ∙ h)
      | inr f ↦
          let same : first_settled (b ∷ more) ≡ some b = rw (e, f) refl in
          inr (f, ground (arith, sym same ∙ h))
    ],
  )
]

-- What a run answers, without the actions.
abbrev pub answer_of : Outcome (List Action × Answer) → Outcome Answer
answer_of m = m >>= λ r. ok r.1

answer_behind :
    (m : Outcome (List Action × Answer)) (f : List Action → List Action)
    → answer_of (m >>= λ s. ok (f s.0, s.1)) ≡ answer_of m
answer_behind (ok s) f = refl
answer_behind (err e) f = refl

loop_lem :
    (to : Option ℕ) (waits : List Wait) (answers : List Answer) (a : Answer)
    → All (Woken to) waits
    → count_again answers ≤ length waits
    → first_settled answers ≡ some a
    → answer_of (io_loop to waits answers) ≡ ok a
unfolding io_loop wait_for Behind
loop_lem to [] answers a w n h =
    let (r, called, behind) = call_again_lem answers a h in
    elim behind [
      | inl (f, more, s) ↦ absurd (omega (arith, n, more))
      | inr (f, s) ↦ rw (called, f) (ap ok s)
    ]
loop_lem to (w ∷ ws) answers a (woken, others) n h =
    let (r, called, behind) = call_again_lem answers a h in
    elim behind [
      | inl (f, more, s) ↦
          let again : answer_of (io_loop to ws (r.1).1) ≡ ok a =
            loop_lem to ws (r.1).1 a others (omega (arith, n, more)) s in
          rw (called, f, woken.0, woken.1)
            (answer_behind (io_loop to ws (r.1).1)
                (λ done. r.0 ++ (armed to ++ (add_event ∷ (yield_to_hold ∷ disarmed to)) ++ done))
              ∙ again)
      | inr (f, s) ↦ rw (called, f) (ap ok s)
    ]

-- Whether do_io handles the call itself, on a context that is not closed.
abbrev pub hooked : FdCtx → Bool
hooked c = not c.is_closed && (c.is_socket && not c.user_nonblock)

-- On a socket that the user has not made nonblocking, do_io comes back with the first answer of the
-- system call that is neither EINTR nor EAGAIN, when one comes, addEvent takes each wait before it,
-- and no timer ends one.
pub do_io_lem :
    (c : FdCtx) (so : ℕ) (waits : List Wait) (answers : List Answer) (a : Answer)
    → hooked c ≡ true
    → All (Woken (timeout_of (get_timeout rcvtimeo so c))) waits
    → count_again answers ≤ length waits
    → first_settled answers ≡ some a
    → answer_of (do_io true (some c) so waits answers) ≡ ok a
unfolding do_io
do_io_lem c so waits answers a k w n h =
    let open_now : c.is_closed ≡ false = ground (arith, k) in
    let direct : (not c.is_socket || c.user_nonblock) ≡ false = ground (arith, k) in
    simp (open_now, direct)
      (loop_lem (timeout_of (get_timeout rcvtimeo so c)) waits answers a w n h)
