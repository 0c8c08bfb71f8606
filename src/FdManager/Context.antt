-- ===== src/FdManager/Context.antt =====
-- skt/fd_manager/fd_manager.cpp: what FdCtx::init and the timeouts of a context promise.
use learn_web.Common.{
  ℕ, ◌≡◌, refl, arith, Bool, true, false, not, Option, some, ◌==◌, Bool-cases, inl, inr,
  Option-cases,
}
use learn_web.Common.Integers.{ℤ}
use learn_web.FdManager.Defs.{FdCtx, init, init_stat, set_timeout, get_timeout}

-- `init` once more changes nothing, if the system answers as before, and does not set O_NONBLOCK
-- again; and only a descriptor of a socket without that flag has it set at all.
pub init-init :
    (stat : ℤ → Option Bool) (nonblock : ℤ → Bool) (c : FdCtx)
    → (init stat nonblock (init stat nonblock c).0 ≡ ((init stat nonblock c).0, false))
      × ((init stat nonblock c).1 ≡ true
          → (stat c.fd ≡ some true) × (nonblock c.fd ≡ false) × (c.is_init ≡ false))
unfolding init init_stat
init-init stat nonblock c = elim (Bool-cases c.is_init) [
  | inl e ↦ rw e (refl, λ k. ground arith)
  | inr e ↦ elim (Option-cases (stat c.fd)) [
    | inl k ↦ rw (e, k) (rw k refl, λ b. ground arith)
    | inr (is_socket, k) ↦ rw (e, k) (refl, λ b. ground (arith, k, e))
  ]
]

-- A timeout that was set is read back, and the other one is as before.
pub get_timeout-set_timeout :
    (rcvtimeo set read v : ℕ) (c : FdCtx)
    → ((set == rcvtimeo) ≡ (read == rcvtimeo)
        → get_timeout rcvtimeo read (set_timeout rcvtimeo set v c) ≡ v)
      × ((set == rcvtimeo) ≡ not (read == rcvtimeo)
          → get_timeout rcvtimeo read (set_timeout rcvtimeo set v c) ≡ get_timeout rcvtimeo read c)
unfolding get_timeout set_timeout
get_timeout-set_timeout rcvtimeo set read v c = (λ e. ground (arith, e), λ e. ground (arith, e))
