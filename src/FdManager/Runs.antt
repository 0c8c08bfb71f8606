-- ===== src/FdManager/Runs.antt =====
-- skt/fd_manager: the table at concrete descriptors.
use learn_web.Common.{ℕ, ◌≡◌, ◌≢◌, refl, arith, Bool, true, false, not, ◌||◌, Option, some}
use learn_web.Common.Integers.{ℤ, pos}
use learn_web.Common.Outcome.{ok}
use learn_web.FdManager.Defs.{
  FdCtx, fd_ctx, FdManager, fd_manager, is_some, goes_on, look, create, get,
}
use learn_web.FdManager.Table.{IsValid, fd_manager-IsValid, slot, get_lem}
use learn_web.FdManager.Race.{get_race}

-- A system where every descriptor is a socket without O_NONBLOCK.
abbrev sockets : ℤ → Option Bool
sockets fd = some true

abbrev blocking : ℤ → Bool
blocking fd = false

abbrev fresh : FdCtx
fresh = record {
  is_init = false;
  is_socket = false;
  sys_nonblock = false;
  user_nonblock = true;
  is_closed = false;
  fd = pos 70;
  recv_timeout = 5;
  send_timeout = 6;
}

abbrev new_table : FdManager
new_table = fd_manager (λ a. fresh)

get_example :
    (t : FdManager) × (get sockets blocking 3 (pos 70) true new_table ≡ ok (slot t 70, t))
    × IsValid t
    × ((m : ℕ) → m ≢ 70 → slot t m ≡ slot new_table m)
    × ((is_some (slot new_table 70) || not true) ≡ true → t ≡ new_table)
    × ((is_some (slot new_table 70) || not true) ≡ false
        → (slot t 70 ≡ some 3)
          × (t.ctx 3 ≡ (fd_ctx sockets blocking (pos 70)).0)
          × ((b : ℕ) → b ≢ 3 → t.ctx b ≡ new_table.ctx b))
get_example =
    get_lem sockets blocking 3 70 true new_table (fd_manager-IsValid (λ a. fresh)) (omega arith)

get_race_example :
    (look (pos 5) true new_table ≡ ok goes_on)
    × ((t u : FdManager) × (create sockets blocking 3 (pos 5) new_table ≡ ok (3, t))
        × (create sockets blocking 4 (pos 5) t ≡ ok (4, u))
        × (slot t 5 ≡ some 3)
        × (slot u 5 ≡ some 4)
        × (slot u 5 ≢ some 3))
unfolding fd_manager
get_race_example =
    get_race sockets blocking 3 4 5 new_table (fd_manager-IsValid (λ a. fresh)) (omega arith) refl
      (λ e. cc)
