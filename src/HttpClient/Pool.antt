-- ===== src/HttpClient/Pool.antt =====
-- skt/http/http_connection.h and http_connection.cpp: HttpConnectionPool. Whether a connection is
-- connected is asked of it at the time of the call, by the argument `is_connected`; the connections
-- are told apart by their numbers.
use learn_web.Common.{
  ℕ, ◌+◌, ◌-◌, ◌%◌, ◌^◌, Bool, not, ◌||◌, Option, none, some, List, [], ◌∷◌, ◌++◌, if◌then◌else◌,
  ltb, leb, length,
}

pub record HttpConnection : Type 0 where
  pub number : ℕ
  pub create_time : ℕ
  pub requests : ℕ

-- HttpConnectionPool, without host and port; m_total is an int32_t, modulo 2^32.
pub record HttpConnectionPool : Type 0 where
  pub max_alive_time : ℕ
  pub max_request : ℕ
  pub conns : List HttpConnection
  pub total : ℕ

-- `m_createTime + m_maxAliveTime` as a uint64_t
abbrev pub end_time : ℕ → HttpConnection → ℕ
end_time alive c = (c.create_time + alive) % 2 ^ 64

-- The end of getConnection: the connection that was taken, or a new one; `fresh` is its number, none
-- when the address, the socket or connect failed.
unfoldable pub hand_out :
    Option HttpConnection
    → Option ℕ
    → HttpConnectionPool
    → Option HttpConnection × HttpConnectionPool
hand_out (some conn) fresh p = (some conn, p)
hand_out none none p = (none, p)
hand_out none (some n) p = (
  some (record { number = n; create_time = 0; requests = 0 }),
  record p { total = (p.total + 1) % 2 ^ 32 },
)

module _ (is_connected : ℕ → Bool) where
  -- The loop of getConnection: the connections that are deleted, the one that is taken, the others.
  unfoldable pub take_connection :
      ℕ
      → ℕ
      → List HttpConnection
      → List HttpConnection × Option HttpConnection × List HttpConnection
  take_connection alive now [] = ([], none, [])
  take_connection alive now (conn ∷ conns) =
      let rest = take_connection alive now conns in
      if not (is_connected conn.number) || ltb now (end_time alive conn)
      then (conn ∷ rest.0, rest.1, rest.2)
      else ([], some conn, conns)

  -- HttpConnectionPool::getConnection
  unfoldable pub get_connection :
      ℕ → Option ℕ → HttpConnectionPool → Option HttpConnection × HttpConnectionPool
  get_connection now fresh p =
      let (invalid, found, others) = take_connection p.max_alive_time now p.conns in
      let total = (p.total + 2 ^ 32 - length invalid % 2 ^ 32) % 2 ^ 32 in
      hand_out found fresh (record p { conns = others; total = total })

  -- HttpConnectionPool::ReleasePtr
  unfoldable pub release_ptr : ℕ → HttpConnection → HttpConnectionPool → HttpConnectionPool
  release_ptr now conn p =
      let used = record conn { requests = (conn.requests + 1) % 2 ^ 64 } in
      if not (is_connected conn.number)
        || (leb now (end_time p.max_alive_time conn) || ltb p.max_request used.requests)
      then record p { total = (p.total + 2 ^ 32 - 1) % 2 ^ 32 }
      else record p { conns = p.conns ++ (used ∷ []) }
