-- ===== src/HttpServer/Defs.antt =====
-- skt/http/http_server.cpp: HttpServer::handleClient. ServletDispatch::handle is the argument
-- `handle`, which gives the request and the response behind the servlet that it chose, where that
-- does not write to the session itself. recvRequest is the argument `receive`, and `send` is what
-- send of the system answers, with `sends` as a bound on its calls for one response.
use learn_web.Common.{ℕ, zero, suc, Bool, not, ◌||◌, Option, none, some, if◌then◌else◌}
use learn_web.Common.Outcome.{Outcome, ok, err, ◌>>=◌, out_of_fuel}
use learn_web.Http.Texts.{Text, codes}
use learn_web.Http.Messages.{HttpRequest, HttpResponse, http_response, set_response_header}
use learn_web.Common.Integers.{ℤ}
use learn_web.HttpServer.Session.{Session, send_response}
use learn_web.Receive.Source.{SocketStream, close}

-- The response that the servlet gets.
unfoldable pub fresh_response : Bool → Text → HttpRequest → HttpResponse
fresh_response keepalive name req =
    set_response_header (codes "Server") name
      (http_response req.version (req.close || not keepalive))

module _ (receive : SocketStream → Outcome (Option HttpRequest × SocketStream))
    (handle : HttpRequest → HttpResponse → HttpRequest × HttpResponse) (send : Text → Text → ℤ)
    (sends : ℕ) (keepalive : Bool) (name : Text) where
  -- HttpServer::handleClient, with the session that it ends with.
  unfoldable pub handle_client : ℕ → Session → Outcome Session
  handle_client zero s = err out_of_fuel
  handle_client (suc fuel) s = receive s.socket >>= λ r. elim r.0 [
    | none ↦ ok (record s { socket = close r.1 })
    | some req ↦
        let (after, rsp) = handle req (fresh_response keepalive name req) in
        send_response send sends rsp (record s { socket = r.1 }) >>= λ q.
        let rest = handle_client fuel q.1 in
        if not keepalive || after.close then ok (record q.1 { socket = close q.1.socket }) else rest
  ]
