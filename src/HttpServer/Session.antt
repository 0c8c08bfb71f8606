-- ===== src/HttpServer/Session.antt =====
-- skt/http/http_session.cpp: HttpSession::sendResponse, over writeFixSize and SocketStream::write.
-- What send of the system answers is a parameter, `send`: from the bytes that were sent so far and
-- those that it is given, the number of those that it takes, or an error.
use learn_web.Common.{ℕ, not, [], ◌++◌, if◌then◌else◌, length}
use learn_web.Common.Integers.{ℤ, pos, negsuc}
use learn_web.Common.Outcome.{Outcome}
use learn_web.Http.Texts.{Text}
use learn_web.Http.Messages.{HttpResponse, dump_response}
use learn_web.Stream.Defs.{fix_size_buffer}
use learn_web.Receive.Parsers.{take, drop}
use learn_web.Receive.Source.{SocketStream}

-- The socket of a session, and the bytes that were sent.
pub record Session : Type 0 where
  pub socket : SocketStream
  pub sent : Text

-- The bytes that are sent, by what send has answered.
abbrev pub passed : ℤ → Text → Text
passed (pos n) bytes = take n bytes
passed (negsuc k) bytes = []

module _ (send : Text → Text → ℤ) where
  -- SocketStream::write of the bytes `bytes`
  unfoldable pub stream_write : Text → Session → ℤ × Session
  stream_write bytes s =
      if not s.socket.connected
      then (negsuc 0, s)
      else (send s.sent bytes, record s { sent = s.sent ++ passed (send s.sent bytes) bytes })

  -- HttpSession::sendResponse, with a bound on the rounds of writeFixSize
  unfoldable pub send_response : ℕ → HttpResponse → Session → Outcome (ℤ × Session)
  send_response fuel rsp s =
      let content = dump_response rsp in
      fix_size_buffer fuel (λ offset left u. stream_write (take left (drop offset content)) u)
        (length content) s
