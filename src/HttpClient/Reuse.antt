-- ===== src/HttpClient/Reuse.antt =====
-- skt/http/http_connection.cpp: which connections the pool hands out again.
use learn_web.Common.{
  ℕ, ◌+◌, ◌%◌, ◌^◌, ◌≤◌, ◌<◌, ◌≡◌, refl, sym, ap, ◌∙◌, arith, Bool, true, false, not, ◌||◌, Option,
  none, some, List, [], ◌∷◌, ◌++◌, All, ltb, leb, length, ◌-◌, Bool-cases, inl, inr,
}
use learn_web.HttpClient.Pool.{
  HttpConnection, HttpConnectionPool, end_time, take_connection, hand_out, get_connection,
  release_ptr,
}

-- No connection of the pool has had more requests than it may have.
abbrev pub IsWithin : HttpConnectionPool → Type 0
IsWithin p = All (λ c. c.requests ≤ p.max_request) p.conns

abbrev pub FoundWithin : ℕ → Option HttpConnection → Type 0
FoundWithin limit none = Unit
FoundWithin limit (some c) = c.requests ≤ limit

All-append :
    (n : ℕ) (xs ys : List HttpConnection)
    → All (λ c. c.requests ≤ n) xs
    → All (λ c. c.requests ≤ n) ys
    → All (λ c. c.requests ≤ n) (xs ++ ys)
All-append n [] ys h k = k
All-append n (x ∷ xs) ys (h, hs) k = (h, All-append n xs ys hs k)

hand_out-IsWithin :
    (found : Option HttpConnection) (fresh : Option ℕ) (p : HttpConnectionPool)
    → FoundWithin p.max_request found
    → IsWithin p
    → FoundWithin p.max_request (hand_out found fresh p).0 × IsWithin (hand_out found fresh p).1
unfolding hand_out
hand_out-IsWithin (some conn) fresh p f h = (f, h)
hand_out-IsWithin none none p f h = (f, h)
hand_out-IsWithin none (some n) p f h = (omega arith, h)

module _ (is_connected : ℕ → Bool) where
  take_connection-IsWithin :
      (alive now limit : ℕ) (conns : List HttpConnection)
      → All (λ c. c.requests ≤ limit) conns
      → FoundWithin limit (take_connection is_connected alive now conns).1
        × All (λ c. c.requests ≤ limit) (take_connection is_connected alive now conns).2
  unfolding take_connection
  take_connection-IsWithin alive now limit [] h = (tt, tt)
  take_connection-IsWithin alive now limit (c ∷ cs) (h, hs) =
      elim (Bool-cases (not (is_connected c.number) || ltb now (end_time alive c))) [
        | inl e ↦ rw e (take_connection-IsWithin alive now limit cs hs)
        | inr e ↦ rw e (h, hs)
      ]

  release_ptr-IsWithin :
      (now : ℕ) (conn : HttpConnection) (p : HttpConnectionPool)
      → IsWithin p
      → IsWithin (release_ptr is_connected now conn p)
  unfolding release_ptr
  release_ptr-IsWithin now conn p h =
      elim (Bool-cases (
        not (is_connected conn.number)
        || (leb now (end_time p.max_alive_time conn)
            || ltb p.max_request ((conn.requests + 1) % 2 ^ 64)))) [
              | inl e ↦ rw e h
              | inr e ↦ rw e (All-append p.max_request p.conns _ h (ground (arith, e), tt))
            ]

  -- While no connection in the pool has had more requests than the pool allows, getConnection hands
  -- out none that has, and getConnection and ReleasePtr of any connection keep the pool so.
  pub get_connection-IsWithin :
      (now : ℕ) (fresh : Option ℕ) (conn : HttpConnection) (p : HttpConnectionPool)
      → IsWithin p
      → FoundWithin p.max_request (get_connection is_connected now fresh p).0
        × IsWithin (get_connection is_connected now fresh p).1
        × IsWithin (release_ptr is_connected now conn p)
  unfolding get_connection release_ptr
  get_connection-IsWithin now fresh conn p h =
      let (t, o) = take_connection-IsWithin p.max_alive_time now p.max_request p.conns h in
      let (f, k) =
        hand_out-IsWithin (take_connection is_connected p.max_alive_time now p.conns).1 fresh
          (record p {
            conns = (take_connection is_connected p.max_alive_time now p.conns).2;
            total =
                (p.total
                  + 2 ^ 32
                  - length (take_connection is_connected p.max_alive_time now p.conns).0 % 2 ^ 32)
                % 2 ^ 32;
          })
          t o in
      (f, k, release_ptr-IsWithin now conn p h)

  -- A connection that is still connected, was released within its number of requests and asked for
  -- when its time is over, is the next that an empty pool hands out, with one request more.
  pub get_connection-release_ptr :
      (now later : ℕ) (fresh : Option ℕ) (conn : HttpConnection) (p : HttpConnectionPool)
      → p.conns ≡ []
      → p.total < 2 ^ 32
      → is_connected conn.number ≡ true
      → conn.requests + 1 ≤ p.max_request
      → p.max_request < 2 ^ 32
      → end_time p.max_alive_time conn < now
      → end_time p.max_alive_time conn ≤ later
      → get_connection is_connected later fresh (release_ptr is_connected now conn p)
        ≡ (some (record conn { requests = conn.requests + 1 }), p)
  unfolding get_connection release_ptr take_connection hand_out
  get_connection-release_ptr now later fresh conn p e t c r m a l =
      let n : (conn.requests + 1) % 2 ^ 64 ≡ conn.requests + 1 = omega (arith, r, m) in
      let over : leb now (end_time p.max_alive_time conn) ≡ false = ground (arith, a) in
      let few : ltb p.max_request (conn.requests + 1) ≡ false = ground (arith, r) in
      let over_then : ltb later (end_time p.max_alive_time conn) ≡ false = ground (arith, l) in
      let total : (p.total + 2 ^ 32 - 0) % 2 ^ 32 ≡ p.total = omega (arith, t) in
      let used : HttpConnection = record conn { requests = conn.requests + 1 } in
      let released : release_ptr is_connected now conn p ≡ record p { conns = used ∷ [] } =
        rw (c, over, n, few, e) refl in
      ap (get_connection is_connected later fresh) released
      ∙ rw (c, over_then, total) (ap (λ cs. (some used, record p { conns = cs })) (sym e))

  -- As the time of its creation is never set, a connection that is connected is handed out again
  -- however old it is, once the clock is past the lifetime that the pool can be given: no lifetime
  -- limits it.
  pub take_connection_ageless :
      (alive now : ℕ) (conn : HttpConnection) (conns : List HttpConnection)
      → conn.create_time ≡ 0
      → alive < 2 ^ 32
      → 2 ^ 32 ≤ now
      → is_connected conn.number ≡ true
      → take_connection is_connected alive now (conn ∷ conns) ≡ ([], some conn, conns)
  unfolding take_connection
  take_connection_ageless alive now conn conns z a n c =
      let young : ltb now (end_time alive conn) ≡ false = ground (arith, z, a, n) in
      rw (c, young) refl
