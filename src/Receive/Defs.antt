-- ===== src/Receive/Defs.antt =====
-- skt/http/http_session.cpp and http_connection.cpp: HttpSession::recvRequest and
-- HttpConnection::recvResponse. The buffer is the text of its valid bytes, from `data` on.
use learn_web.Common.{
  ℕ, zero, suc, ◌-◌, ◌^◌, Bool, true, not, ◌&&◌, ◌||◌, Option, none, some, [], ◌++◌, if◌then◌else◌,
  ltb, length, ◌==◌,
}
use learn_web.Common.Integers.{ℤ, pos, negsuc}
use learn_web.Common.Outcome.{Outcome, ok, err, ◌>>=◌, out_of_fuel}
use learn_web.Stream.Defs.{fix_size_buffer}
use learn_web.Http.Texts.{Text}
use learn_web.Http.Messages.{HttpRequest}
use learn_web.Receive.Parsers.{
  take, Machine, request_parser, request_excute, request_is_finished, request_has_error,
  request_content_length,
}
use learn_web.Receive.Source.{SocketStream, stream_read, close, store, load}

-- `close(); return nullptr;`
abbrev pub give_up {ℓ} : {A : Type ℓ} → SocketStream → Outcome (Option A × SocketStream)
give_up s = ok (none, close s)

-- A result that was not given up goes on.
abbrev pub on_some {ℓ κ} :
    {A : Type ℓ} {B : Type κ}
    → Outcome (Option A × SocketStream)
    → (A → SocketStream → Outcome (Option B × SocketStream))
    → Outcome (Option B × SocketStream)
on_some (err e) k = err e
on_some (ok (none, s)) k = ok (none, s)
on_some (ok (some a, s)) k = k a s

-- What follows on the answer of the read; `rest` is the loop from there on.
unfoldable pub answered :
    {P : Type 0}
    → ℤ
    → Option (Option (Text × P))
    → SocketStream
    → Outcome (Option (Text × P) × SocketStream)
    → Outcome (Option (Text × P) × SocketStream)
answered (negsuc k) decided t rest = give_up t
answered (pos n) decided t rest =
    if n == 0
    then give_up t
    else elim decided [ none ↦ rest | some none ↦ give_up t | some (some x) ↦ ok (some x, t) ]

module _ {P : Type 0} (excute : Text → P → ℕ × Text × P) (has_error is_finished : P → Bool) where
  -- A round of the loop that reads the head, behind its read; none goes on.
  unfoldable pub after_read : ℕ → Text → P → SocketStream → Option (Option (Text × P)) × Text × P
  after_read buff_size text p s =
      let (nparse, left, q) = excute text p in
      if has_error q || length text - nparse == buff_size
      then (some none, left, q)
      else if is_finished q
      then (some (some (left, q)), left, q)
      else (none, left, q)

  -- The loop that reads the head, with the bytes kept in the buffer.
  unfoldable pub read_head :
      ℕ → ℕ → Text → P → SocketStream → Outcome (Option (Text × P) × SocketStream)
  read_head buff_size zero kept p s = err out_of_fuel
  read_head buff_size (suc fuel) kept p s =
      let (r, bytes, t) = stream_read (buff_size - length kept) s in
      let (decided, left, q) = after_read buff_size (kept ++ bytes) p t in
      let rest = read_head buff_size fuel left q t in answered r decided t rest

-- `read(&body[offset], left)` on the part of the body that is still to come.
unfoldable pub read_into : ℕ → ℕ → SocketStream × (ℕ → ℕ) → ℤ × (SocketStream × (ℕ → ℕ))
read_into offset left (s, memory) =
    let (r, bytes, t) = stream_read left s in (r, (t, store offset bytes memory))

-- `0 < length` of an int64_t that was a uint64_t.
abbrev pub positive64 : ℕ → Bool
positive64 n = not (n == 0) && ltb n (2 ^ 63)

-- `readFixSize(&body[len], left) <= 0`
abbrev pub failed : ℤ → Bool
failed (negsuc k) = true
failed (pos n) = n == 0

-- The body of `size` bytes: those kept in the buffer, and those read behind them.
unfoldable pub read_body : ℕ → ℕ → Text → SocketStream → Outcome (Option Text × SocketStream)
read_body fuel size kept s =
    let left = size - length kept in
    if left == 0
    then ok (some (take size kept), s)
    else (fix_size_buffer fuel read_into left (s, λ i. 0) >>= λ r.
        if failed r.0 then give_up (r.1).0 else ok (some (kept ++ load 0 left (r.1).1), (r.1).0))

-- HttpSession::recvRequest; `memory` is what the new request's m_status has, and `fuel` bounds the
-- rounds of each loop.
unfoldable pub recv_request :
    {M : Type 0}
    → Machine M
    → (Text → Option ℕ)
    → ℕ
    → ℕ
    → ℕ
    → SocketStream
    → Outcome (Option HttpRequest × SocketStream)
recv_request g cast memory buff_size fuel s =
    on_some
      (read_head (request_excute g) (request_has_error g) (request_is_finished g) buff_size fuel []
        (request_parser g memory) s)
      (λ x t.
        let size = request_content_length cast x.1 in
        if positive64 size
        then on_some (read_body fuel size x.0 t)
            (λ body u. ok (some (record x.1.request { body = body }), u))
        else ok (some x.1.request, t))
