-- ===== src/Receive/Response.antt =====
-- skt/http/http_connection.cpp: HttpConnection::recvResponse, with the body of a known length and the
-- body that comes in chunks.
use learn_web.Common.{
  ℕ, zero, suc, ◌-◌, Bool, true, false, Option, some, [], ◌++◌, if◌then◌else◌, ltb, leb, length,
  ◌==◌,
}
use learn_web.Common.Integers.{pos, negsuc}
use learn_web.Common.Outcome.{Outcome, ok, err, out_of_fuel, out_of_range}
use learn_web.Http.Texts.{Text}
use learn_web.Http.Messages.{HttpResponse}
use learn_web.Receive.Parsers.{
  take, drop, Machine, ResponseParser, response_parser, response_excute, response_is_finished,
  response_has_error, response_content_length,
}
use learn_web.Receive.Source.{SocketStream, stream_read}
use learn_web.Receive.Defs.{give_up, on_some, read_head, read_body, positive64}

-- The fields of httpclient_parser that recvResponse reads.
pub record ClientFields (M : Type 0) : Type 0 where
  pub chunked : M → Bool
  pub content_len : M → ℕ
  pub chunks_done : M → Bool

-- The loop that reads the `left` bytes of a chunk that the buffer does not have.
unfoldable pub read_rest : ℕ → ℕ → ℕ → Text → SocketStream → Outcome (Option Text × SocketStream)
read_rest buff_size zero left body s = err out_of_fuel
read_rest buff_size (suc fuel) left body s =
    let (r, bytes, t) = stream_read (if ltb buff_size left then buff_size else left) s in
    let rest = read_rest buff_size fuel (left - length bytes) (body ++ bytes) t in
    if left == 0
    then ok (some body, s)
    else elim r [ negsuc k ↦ give_up t | pos n ↦ if n == 0 then give_up t else rest ]

-- A chunk, behind its head: `left` is what the buffer has, two bytes of which are no data. The
-- result is the body so far, and what stays in the buffer.
unfoldable pub read_chunk :
    ℕ → ℕ → ℕ → Text → Text → SocketStream → Outcome (Option (Text × Text) × SocketStream)
read_chunk buff_size fuel content_len body left s =
    let len = length left - 2 in
    if ltb (length left) 2
    then err out_of_range
    else if leb content_len len
    then ok
        (some (body ++ take content_len left, take (len - content_len) (drop content_len left)), s)
    else on_some (read_rest buff_size fuel (content_len - len) (body ++ take len left) s)
        (λ whole t. ok (some (whole, []), t))

module _ {M : Type 0} (g : Machine M) (c : ClientFields M) (atoi : Text → ℕ) where
  -- The loop over the chunks; the parser starts anew at each.
  unfoldable pub read_chunks :
      ℕ
      → ℕ
      → Text
      → Text
      → ResponseParser M
      → SocketStream
      → Outcome (Option (Text × ResponseParser M) × SocketStream)
  read_chunks buff_size zero body kept p s = err out_of_fuel
  read_chunks buff_size (suc fuel) body kept p s =
      on_some
        (read_head (λ text q. response_excute g atoi text true q) (response_has_error g)
          (response_is_finished g) buff_size fuel kept p s)
        (λ x t. on_some (read_chunk buff_size fuel (c.content_len x.1.machine) body x.0 t) (λ y u.
          let rest = read_chunks buff_size fuel y.0 y.1 x.1 u in
          if c.chunks_done x.1.machine then ok (some (y.0, x.1), u) else rest))

  -- HttpConnection::recvResponse; `fuel` bounds the rounds of each loop.
  unfoldable pub recv_response :
      (Text → Option ℕ) → ℕ → ℕ → SocketStream → Outcome (Option HttpResponse × SocketStream)
  recv_response cast buff_size fuel s =
      on_some
        (read_head (λ text q. response_excute g atoi text false q) (response_has_error g)
          (response_is_finished g) buff_size fuel [] (response_parser g) s)
        (λ x t.
          let size = response_content_length cast x.1 in
          if c.chunked x.1.machine
          then on_some (read_chunks buff_size fuel [] x.0 x.1 t)
              (λ y u. ok (some (record y.1.response { body = y.0 }), u))
          else if positive64 size
          then on_some (read_body fuel size x.0 t)
              (λ body u. ok (some (record x.1.response { body = body }), u))
          else ok (some x.1.response, t))
