-- ===== src/HttpServer/Serve.antt =====
-- skt/http/http_server.cpp and http_session.cpp: what a client is answered.
use learn_web.Common.{
  ℕ, suc, ◌≤◌, ◌<◌, ◌≡◌, ◌^◌, refl, ◌∙◌, arith, Bool, true, false, Option, none, some, List, [],
  ◌∷◌, ◌++◌, length,
}
use learn_web.Common.Outcome.{Outcome, ok, bind_ok}
use learn_web.Http.Texts.{Text}
use learn_web.Http.Messages.{HttpRequest, HttpResponse, http_request, dump_response}
use learn_web.Receive.Parsers.{take, Callback, Machine, request_content_length, request_parser}
use learn_web.Receive.Source.{SocketStream, close, flat}
use learn_web.Receive.Defs.{recv_request}
use learn_web.Receive.Body.{Sound, open_stream}
use learn_web.Receive.Request.{on_requests-Kept, IsHead, told, recv_request_lem}
use learn_web.Common.Integers.{ℤ}
use learn_web.HttpServer.Session.{Session, send_response}
use learn_web.HttpServer.Sending.{Sends, send_response_lem}
use learn_web.HttpServer.Defs.{fresh_response, handle_client}

module _ (receive : SocketStream → Outcome (Option HttpRequest × SocketStream))
    (handle : HttpRequest → HttpResponse → HttpRequest × HttpResponse) (send : Text → Text → ℤ)
    (sends : ℕ) (keepalive : Bool) (name : Text) (fuel : ℕ) (s : Session) (t : SocketStream) where
  -- Nothing was received.
  pub handle_client-none :
      receive s.socket ≡ ok (none, t)
      → handle_client receive handle send sends keepalive name (suc fuel) s
        ≡ ok (record s { socket = close t })
  unfolding handle_client
  handle_client-none e = bind_ok _ _ _ e refl

  -- A request after which the loop ends.
  handle_client-last :
      (req : HttpRequest) (q : ℤ × Session)
      → receive s.socket ≡ ok (some req, t)
      → send_response send sends
          (handle req (fresh_response keepalive name req)).1
          (record s { socket = t })
        ≡ ok q
      → (handle req (fresh_response keepalive name req)).0.close ≡ true
      → handle_client receive handle send sends keepalive name (suc fuel) s
        ≡ ok (record q.1 { socket = close q.1.socket })
  unfolding handle_client
  handle_client-last req q e d c = bind_ok _ _ _ e (bind_ok _ _ _ d (ground (arith, c)))

module _ {M : Type 0} (g : Machine M) (buff_size memory : ℕ) where
  told-close : (es : List Callback) (m : M) → (told g buff_size memory es m).request.close ≡ true
  unfolding request_parser http_request
  told-close es m = (on_requests-Kept es (record (request_parser g memory) { machine = m })).close

  -- The request that a head and the bytes behind it make.
  abbrev pub whole : (Text → Option ℕ) → List Callback → M → Text → HttpRequest
  whole cast es m text = record (told g buff_size memory es m).request {
    body = take (request_content_length cast (told g buff_size memory es m)) text;
  }

  -- The text of the response to it.
  abbrev pub answer :
      (Text → Option ℕ)
      → List Callback
      → M
      → (HttpRequest → HttpResponse → HttpRequest × HttpResponse)
      → Bool
      → Text
      → Text
      → Text
  answer cast es m handle keepalive name text =
      let req = whole cast es m text in
      dump_response (handle req (fresh_response keepalive name req)).1

  -- A client whose request is received is sent one response, the text of what the dispatch has made,
  -- and the connection is closed then: also when the server was made to keep connections alive and
  -- whatever headers the request has, as the parser leaves a request at its default, to close. This
  -- is so where the dispatch leaves that mark of the request alone, the head comes with the first
  -- recv, the later ones answer bytes that suffice for a body of less than 2^31 bytes, the buffer holds
  -- what came with the head, and each send takes a byte at least.
  pub handle_client-once :
      (cast : Text → Option ℕ) (head tail : Text) (later : List (Option Text)) (es : List Callback)
      (m : M) (fuel rounds : ℕ) (handle : HttpRequest → HttpResponse → HttpRequest × HttpResponse)
      (send : Text → Text → ℤ) (sends : ℕ) (keepalive : Bool) (name : Text)
      → IsHead g buff_size memory head tail es m
      → 1 ≤ length head
      → length (head ++ tail) ≤ buff_size
      → Sound later
      → request_content_length cast (told g buff_size memory es m) ≤ length (tail ++ flat later)
      → request_content_length cast (told g buff_size memory es m) < 2 ^ 31
      → request_content_length cast (told g buff_size memory es m) < fuel
      → ((req : HttpRequest) (rsp : HttpResponse) → (handle req rsp).0.close ≡ req.close)
      → Sends send
      → length (answer cast es m handle keepalive name (tail ++ flat later)) < 2 ^ 64
      → length (answer cast es m handle keepalive name (tail ++ flat later)) < sends
      → (after : Session) × (handle_client
            (recv_request g cast memory buff_size fuel)
            handle
            send
            sends
            keepalive
            name
            (suc rounds)
            (record { socket = open_stream (some (head ++ tail) ∷ later); sent = [] })
          ≡ ok after)
        × (after.sent ≡ answer cast es m handle keepalive name (tail ++ flat later))
        × (after.socket.connected ≡ false)
  unfolding close
  handle_client-once cast head tail later es m fuel rounds handle send sends keepalive name h k b s
        enough small f keep sound big bound =
      let (left, e, x) =
        recv_request_lem g buff_size memory cast head tail later es m fuel h k b s enough small f in
      let req = whole cast es m (tail ++ flat later) in
      let rsp = (handle req (fresh_response keepalive name req)).1 in
      (
        _,
        handle_client-last (recv_request g cast memory buff_size fuel) handle send sends keepalive
            name rounds (record { socket = open_stream (some (head ++ tail) ∷ later); sent = [] })
            (open_stream left) req _ e
            (send_response_lem send sends rsp (record { socket = open_stream left; sent = [] })
              sound refl big bound)
            (keep _ _ ∙ told-close es m),
        refl,
        refl,
      )
