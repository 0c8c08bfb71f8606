-- ===== src/HttpClient/Runs.antt =====
-- skt/http/http_connection.cpp at a concrete header list, and at a pool.
use learn_web.Common.{
  ℕ, ◌≡◌, refl, arith, Bool, true, false, not, ◌&&◌, none, some, List, [], ◌∷◌, if◌then◌else◌,
}
use learn_web.Common.Integers.{pos}
use learn_web.Http.Texts.{Text, codes}
use learn_web.Http.Fields.{same_key, find}
use learn_web.Http.Messages.{HttpRequest, http_request}
use learn_web.Uri.Defs.{Uri}
use learn_web.HttpClient.Defs.{fill_request, Net}
use learn_web.HttpClient.Requests.{any_keeps, names_host, value_of, fill_request_lem}
use learn_web.HttpClient.Pool.{HttpConnection, HttpConnectionPool, get_connection, release_ptr}
use learn_web.HttpClient.Reuse.{
  IsWithin, FoundWithin, get_connection-IsWithin, get_connection-release_ptr,
}

abbrev some_headers : List (Text × Text)
some_headers = (codes "Accept", codes "text/html") ∷ (codes "Connection", codes "keep-alive") ∷ []

abbrev a_start : HttpRequest
a_start = http_request 0 17 true

fill_request_example :
    ((fill_request some_headers (codes "example.org") (codes "x") a_start).body ≡ codes "x")
    × ((fill_request some_headers (codes "example.org") (codes "x") a_start).close
        ≡ (if any_keeps some_headers then false else a_start.close))
    × (find
          (codes "HOST")
          (fill_request some_headers (codes "example.org") (codes "x") a_start).headers
        ≡ (if not (names_host some_headers) && same_key (codes "HOST") (codes "Host")
            then some (codes "example.org")
            else value_of (codes "HOST") some_headers (find (codes "HOST") a_start.headers)))
fill_request_example =
    fill_request_lem some_headers (codes "example.org") (codes "x") a_start (codes "HOST")

-- A connection whose peer has closed it.
abbrev closed_net : Net ℕ ℕ
closed_net = record {
  address = λ u. some 0;
  create_tcp = λ a. some 0;
  connect = λ a s. true;
  send = λ r s. pos 0;
  receive = λ r s. none;
}

abbrev a_pool : HttpConnectionPool
a_pool = record { max_alive_time = 30000; max_request = 5; conns = []; total = 1 }

abbrev a_connection : HttpConnection
a_connection = record { number = 1; create_time = 0; requests = 2 }

abbrev all_connected : ℕ → Bool
all_connected n = true

get_connection-IsWithin_example :
    FoundWithin 5 (get_connection all_connected 40000 (some 2) a_pool).0
    × IsWithin (get_connection all_connected 40000 (some 2) a_pool).1
    × IsWithin (release_ptr all_connected 40000 a_connection a_pool)
get_connection-IsWithin_example =
    get_connection-IsWithin all_connected 40000 (some 2) a_connection a_pool tt

get_connection-release_ptr_example :
    get_connection all_connected 50000 none (release_ptr all_connected 40000 a_connection a_pool)
    ≡ (some (record a_connection { requests = 3 }), a_pool)
get_connection-release_ptr_example =
    get_connection-release_ptr all_connected 40000 50000 none a_connection a_pool refl (omega arith)
      refl (omega arith) (omega arith) (omega arith) (omega arith)

abbrev a_uri : Uri
a_uri = record {
  scheme = codes "http";
  userinfo = [];
  host = codes "example.org";
  path = [];
  query = [];
  fragment = [];
  port = 8080;
}
