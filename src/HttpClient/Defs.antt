-- ===== src/HttpClient/Defs.antt =====
-- skt/http/http_connection.h and http_connection.cpp: HttpConnection::DoRequest and
-- HttpConnectionPool::doRequest. Addresses, sockets and the two directions of a connection are the
-- arguments `Net`. The text of an error is not modelled.
use learn_web.Common.{
  ℕ, Bool, true, false, not, ◌&&◌, Option, none, some, List, [], ◌∷◌, ◌++◌, if◌then◌else◌, ◌==◌,
}
use learn_web.Common.Integers.{ℤ, pos, negsuc}
use learn_web.Http.Texts.{Text, codes}
use learn_web.Http.Fields.{same_key}
use learn_web.Http.Messages.{HttpRequest, HttpResponse, http_request, set_header, connection}
use learn_web.Uri.Defs.{Uri, get_path, no_text, marked}

-- HttpResult::Error
pub data Error : Type 0 where
  fine invalid_url invalid_host connect_fail send_close_by_peer send_socket_error timeout
        create_socket_error pool_get_connection pool_invalid_connection :
      Error

pub record HttpResult : Type 0 where
  pub result : Error
  pub response : Option HttpResponse

abbrev pub refusal : Error → HttpResult
refusal e = record { result = e; response = none }

-- The loop over the headers: has_host, and the request.
unfoldable pub fill_headers : List (Text × Text) → Bool → HttpRequest → Bool × HttpRequest
fill_headers [] has_host req = (has_host, req)
fill_headers ((name, value) ∷ headers) has_host req =
    let skipped = same_key name connection in
    let host =
      if not has_host && same_key name (codes "host") then not (no_text value) else has_host in
    fill_headers headers (if skipped then has_host else host) (
      if skipped
      then (if same_key value (codes "keep-alive") then record req { close = false } else req)
      else set_header name value req)

-- The request that DoRequest and doRequest make, from one with its path and method.
unfoldable pub fill_request : List (Text × Text) → Text → Text → HttpRequest → HttpRequest
fill_request headers host body start =
    let (has_host, req) = fill_headers headers false start in
    record (if has_host then req else set_header (codes "Host") host req) { body = body }

-- The request of HttpConnection::DoRequest; `memory` is what m_status has.
unfoldable pub client_request : ℕ → ℕ → Uri → List (Text × Text) → Text → HttpRequest
client_request memory method uri headers body =
    fill_request headers uri.host body
      (record (http_request memory 17 true) { path = get_path uri; method = method })

-- The request of HttpConnectionPool::doRequest of a url.
unfoldable pub pool_request : ℕ → Text → Text → ℕ → Text → List (Text × Text) → Text → HttpRequest
pool_request memory host vhost method url headers body =
    fill_request headers (if no_text vhost then host else vhost) body
      (record (http_request memory 17 true) { path = url; method = method; close = false })

-- The url that the pool's doGet, doPost and doRequest make of a Uri.
unfoldable pub pool_url : Uri → Text
pool_url uri = get_path uri ++ (marked (codes "?") uri.query ++ marked (codes "#") uri.fragment)

-- Addresses `A` and connections `S`: look-up, socket, connect, the answer of sendRequest, and the
-- response of recvResponse.
pub record Net (A S : Type 0) : Type 0 where
  pub address : Uri → Option A
  pub create_tcp : A → Option S
  pub connect : A → S → Bool
  pub send : HttpRequest → S → ℤ
  pub receive : HttpRequest → S → Option HttpResponse

abbrev pub below_zero : ℤ → Bool
below_zero (pos n) = false
below_zero (negsuc n) = true

abbrev pub is_zero : ℤ → Bool
is_zero (pos n) = n == 0
is_zero (negsuc n) = false

-- `rsp ? OK : TIMEOUT`
abbrev pub received : Option HttpResponse → HttpResult
received none = refusal timeout
received (some rsp) = record { result = fine; response = some rsp }

module _ {A S : Type 0} (net : Net A S) where
  -- HttpConnection::DoRequest of a request. It tests `req == 0` where the answer of sendRequest is
  -- meant; the request is not null here.
  unfoldable pub do_request : HttpRequest → Uri → HttpResult
  do_request req uri = elim (net.address uri) [
    | none ↦ refusal invalid_host
    | some addr ↦ elim (net.create_tcp addr) [
      | none ↦ refusal create_socket_error
      | some sock ↦
          if not (net.connect addr sock)
          then refusal connect_fail
          else if below_zero (net.send req sock)
          then refusal send_socket_error
          else received (net.receive req sock)
    ]
  ]

  -- HttpConnection::DoRequest, DoGet and DoPost of a url; `create` is Uri::Create.
  unfoldable pub do_request_url :
      (Text → Option Uri) → ℕ → ℕ → Text → List (Text × Text) → Text → HttpResult
  do_request_url create memory method url headers body = elim (create url) [
    | none ↦ refusal invalid_url
    | some uri ↦ do_request (client_request memory method uri headers body) uri
  ]

  -- HttpConnectionPool::doRequest of a request, on the connection that getConnection gave; a
  -- connection has a socket, or none.
  unfoldable pub pool_do_request : HttpRequest → Option (Option S) → HttpResult
  pool_do_request req none = refusal pool_get_connection
  pool_do_request req (some none) = refusal pool_invalid_connection
  pool_do_request req (some (some sock)) =
      if is_zero (net.send req sock)
      then refusal send_close_by_peer
      else if below_zero (net.send req sock)
      then refusal send_socket_error
      else received (net.receive req sock)
