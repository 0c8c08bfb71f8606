-- ===== src/FdManager/Race.antt =====
-- skt/fd_manager/fd_manager.cpp: FdManager::get of two threads, between whose two locks another thread
-- can run.
use learn_web.Common.{ℕ, ◌^◌, ◌<◌, ◌≡◌, ◌≢◌, refl, ◌∙◌, arith, Bool, true, Option, none, some}
use learn_web.Common.Integers.{ℤ, pos}
use learn_web.Common.Outcome.{ok}
use learn_web.FdManager.Defs.{FdManager, goes_on, look, create}
use learn_web.FdManager.Table.{
  IsValid, slot, look_lem, created, create_lem, created-IsValid, slot-created,
}

-- On a table of 64 to 2^31 places, two threads that look for a descriptor below 2^30 that has no
-- context, before either of them makes one, both make one: the second replaces the first in the
-- table, and the first thread is left with a context that the table does not hold.
pub get_race :
    (stat : ℤ → Option Bool) (nonblock : ℤ → Bool) (a b n : ℕ) (s : FdManager)
    → IsValid s
    → n < 2 ^ 30
    → slot s n ≡ none
    → a ≢ b
    → (look (pos n) true s ≡ ok goes_on)
      × ((t u : FdManager) × (create stat nonblock a (pos n) s ≡ ok (a, t))
          × (create stat nonblock b (pos n) t ≡ ok (b, u))
          × (slot t n ≡ some a)
          × (slot u n ≡ some b)
          × (slot u n ≢ some a))
get_race stat nonblock a b n s v h e d =
    let t = created stat nonblock a n s in
    let w = created-IsValid stat nonblock a n s v h in
    let first : slot t n ≡ some a = slot-created stat nonblock a n n s v h ∙ ground arith in
    let second : slot (created stat nonblock b n t) n ≡ some b =
      slot-created stat nonblock b n n t w h ∙ ground arith in
    (
      look_lem n true s v ∙ rw e refl,
      (
        t,
        created stat nonblock b n t,
        create_lem stat nonblock a n s v h,
        create_lem stat nonblock b n t w h,
        first,
        second,
        λ k. d cc,
      ),
    )
