-- ===== src/FdManager/Defs.antt =====
-- skt/fd_manager/fd_manager.h and fd_manager.cpp: FdCtx and FdManager. A context is an object at an
-- address that `new` gives; the table holds addresses, none for a null pointer. The system calls
-- are arguments: `stat fd` is what fstat says, none when it fails, else whether it is a socket, and
-- `nonblock fd` says whether O_NONBLOCK is among the flags that fcntl returns.
use learn_web.Common.{
  ℕ, ◌*◌, ◌/◌, ◌^◌, ◌-◌, Bool, true, false, not, ◌&&◌, ◌||◌, Option, none, some, List, [], length,
  get_or, if◌then◌else◌, ◌==◌, leb,
}
use learn_web.Common.Integers.{ℤ, pos, negsuc, ◌≤?◌, signed32}
use learn_web.Common.Slots.{set_at, resize}
use learn_web.Common.Outcome.{Outcome, ok, err, out_of_range, ◌>>=◌}

pub record FdCtx : Type 0 where
  pub is_init : Bool
  pub is_socket : Bool
  pub sys_nonblock : Bool
  pub user_nonblock : Bool
  pub is_closed : Bool
  pub fd : ℤ
  pub recv_timeout : ℕ
  pub send_timeout : ℕ

-- What `init` makes of a context that is not initialised, and whether it sets O_NONBLOCK.
unfoldable pub init_stat : Option Bool → Bool → FdCtx → FdCtx × Bool
init_stat stat nonblock c = elim stat [
  | none ↦ (
    record c {
      is_init = false;
      is_socket = false;
      sys_nonblock = false;
      user_nonblock = false;
      is_closed = false;
      recv_timeout = 2 ^ 64 - 1;
      send_timeout = 2 ^ 64 - 1;
    },
    false,
  )
  | some is_socket ↦ (
    record c {
      is_init = true;
      is_socket = is_socket;
      sys_nonblock = is_socket;
      user_nonblock = false;
      is_closed = false;
      recv_timeout = 2 ^ 64 - 1;
      send_timeout = 2 ^ 64 - 1;
    },
    is_socket && not nonblock,
  )
]

-- FdCtx::init; its result is m_isInit of the context behind it. The last component says whether it
-- calls fcntl to set O_NONBLOCK.
unfoldable pub init : (ℤ → Option Bool) → (ℤ → Bool) → FdCtx → FdCtx × Bool
unfolding init_stat
init stat nonblock c = if c.is_init then (c, false) else init_stat (stat c.fd) (nonblock c.fd) c

-- FdCtx::FdCtx
unfoldable pub fd_ctx : (ℤ → Option Bool) → (ℤ → Bool) → ℤ → FdCtx × Bool
unfolding init
fd_ctx stat nonblock fd = init stat nonblock (record {
  is_init = false;
  is_socket = false;
  sys_nonblock = false;
  user_nonblock = false;
  is_closed = false;
  fd = fd;
  recv_timeout = 2 ^ 64 - 1;
  send_timeout = 2 ^ 64 - 1;
})

-- FdCtx::setTimeout and getTimeout; `rcvtimeo` is the value of SO_RCVTIMEO.
unfoldable pub set_timeout : ℕ → ℕ → ℕ → FdCtx → FdCtx
set_timeout rcvtimeo type v c =
    if type == rcvtimeo then record c { recv_timeout = v } else record c { send_timeout = v }

unfoldable pub get_timeout : ℕ → ℕ → FdCtx → ℕ
get_timeout rcvtimeo type c = if type == rcvtimeo then c.recv_timeout else c.send_timeout

pub record FdManager : Type 0 where
  pub ctx : ℕ → FdCtx
  pub datas : List (Option ℕ)

abbrev pub is_some : Option ℕ → Bool
is_some none = false
is_some (some a) = true

-- FdManager::FdManager; no address in the table is read before a context is made there.
unfoldable pub fd_manager : (ℕ → FdCtx) → FdManager
fd_manager ctx = record { ctx = ctx; datas = resize 64 [] }

abbrev pub minus_one : ℤ → Bool
minus_one (pos n) = false
minus_one (negsuc n) = n == 0

-- `m_datas[fd]`; a position that is negative or past the end is undefined.
abbrev pub data_at : FdManager → ℤ → Outcome (Option ℕ)
data_at s (pos n) = if leb (length s.datas) n then err out_of_range else ok (get_or s.datas n none)
data_at s (negsuc n) = err out_of_range

-- What the part of FdManager::get under the read lock comes to.
pub data Look : Type 0 where
  returns : Option ℕ → Look
  goes_on : Look

unfoldable pub look : ℤ → Bool → FdManager → Outcome Look
look fd auto_create s =
    if minus_one fd
    then ok (returns none)
    else if signed32 (length s.datas) ≤? fd
    then (if auto_create then ok goes_on else ok (returns none))
    else data_at s fd >>= λ p. if is_some p || not auto_create then ok (returns p) else ok goes_on

-- The part under the write lock, with a context at the address `a`.
unfoldable pub create : (ℤ → Option Bool) → (ℤ → Bool) → ℕ → ℤ → FdManager → Outcome (ℕ × FdManager)
unfolding fd_ctx
create stat nonblock a fd s = elim fd [
  | negsuc n ↦ err out_of_range
  | pos n ↦
      let grown =
        if signed32 (length s.datas) ≤? pos n then resize (n * 3 / 2) s.datas else s.datas in
      if leb (length grown) n
      then err out_of_range
      else ok (
        a,
        record {
          ctx = λ b. if b == a then (fd_ctx stat nonblock (pos n)).0 else s.ctx b;
          datas = set_at grown n (some a);
        },
      )
]

-- FdManager::get of one thread alone.
unfoldable pub get :
    (ℤ → Option Bool) → (ℤ → Bool) → ℕ → ℤ → Bool → FdManager → Outcome (Option ℕ × FdManager)
unfolding look create
get stat nonblock a fd auto_create s = look fd auto_create s >>= λ l. elim l [
  | returns p ↦ ok (p, s)
  | goes_on ↦ create stat nonblock a fd s >>= λ r. ok (some r.0, r.1)
]

-- FdManager::del
unfoldable pub del : ℤ → FdManager → Outcome FdManager
del fd s = if signed32 (length s.datas) ≤? fd then ok s else elim fd [
  | negsuc n ↦ err out_of_range
  | pos n ↦
      if leb (length s.datas) n
      then err out_of_range
      else ok (record s { datas = set_at s.datas n none })
]
