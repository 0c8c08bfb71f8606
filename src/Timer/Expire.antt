-- ===== src/Timer/Expire.antt =====
-- skt/timer/timer.cpp: TimerManager::listExpiredCb, which takes the timers that are due from the set.
use learn_web.Common.{
  ℕ, ◌≤◌, ◌<◌, ◌≡◌, refl, arith, Bool, true, false, not, some, List, [], ◌∷◌, All, mem, keep,
  if◌then◌else◌, leb, ◌==◌, Bool-cases, inl, inr,
}
use learn_web.Timer.Order.{less, before, IsOrdered}
use learn_web.Timer.Defs.{take_now, split_expired}

module _ (next : ℕ → ℕ) (now : ℕ) where
  -- A timer whose time has come.
  abbrev pub due : ℕ → Bool
  due a = leb (next a) now

  All-later :
      (x : ℕ) (xs : List ℕ)
      → now ≤ next x
      → All (λ y. before next x y ≡ true) xs
      → All (λ y. now ≤ next y) xs
  unfolding less
  All-later x [] h k = tt
  All-later x (y ∷ ys) h (k, ks) = (ground arith, All-later x ys h ks)

  pub All-undue :
      (x : ℕ) (xs : List ℕ)
      → now < next x
      → All (λ y. before next x y ≡ true) xs
      → (keep due xs ≡ []) × (keep (λ a. not (due a)) xs ≡ xs)
  unfolding less
  All-undue x [] h k = (refl, refl)
  All-undue x (y ∷ ys) h (k, ks) =
      let (none_due, rest) = All-undue x ys h ks in
      let later : now < next y = ground arith in (ground (arith, none_due), ground (arith, rest))

  take_now_lem :
      (xs : List ℕ)
      → IsOrdered next xs
      → All (λ y. now ≤ next y) xs
      → take_now next now xs ≡ (keep due xs, keep (λ a. not (due a)) xs)
  unfolding take_now
  take_now_lem [] h k = refl
  take_now_lem (x ∷ xs) (h, hs) (k, ks) = elim (Bool-cases (next x == now)) [
    | inl e ↦
        let rest = take_now_lem xs hs ks in
        let d : due x ≡ true = ground arith in rw (e, d, rest) refl
    | inr n ↦
        let d : due x ≡ false = ground arith in
        let (none_due, rest) = All-undue x xs (ground arith) h in rw (n, d, none_due, rest) refl
  ]

  -- The lower bound and the loop behind it split an ordered set into the timers whose time has come
  -- and the others, both in order, if the key is not the address of one of them.
  pub split_expired_lem :
      (key : ℕ) (xs : List ℕ)
      → IsOrdered next xs
      → mem key xs ≡ false
      → split_expired next now key xs ≡ (keep due xs, keep (λ a. not (due a)) xs)
  unfolding split_expired less
  split_expired_lem key [] h n = refl
  split_expired_lem key (x ∷ xs) (h, hs) n =
      elim (Bool-cases (less (λ b. if b == key then now else next b) (some x) (some key))) [
        | inl lower ↦
            let d : due x ≡ true = ground arith in
            rw (lower, d, split_expired_lem key xs hs (ground arith)) refl
        | inr upper ↦
            let k : now ≤ next x = ground arith in
            rw (upper, take_now_lem (x ∷ xs) (h, hs) (k, All-later x xs k h)) refl
      ]
