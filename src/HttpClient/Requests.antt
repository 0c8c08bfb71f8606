-- ===== src/HttpClient/Requests.antt =====
-- skt/http/http_connection.cpp: the request that a client sends, and the errors that it is told.
use learn_web.Common.{
  ◌≡◌, ◌≢◌, refl, ap, ◌∙◌, arith, Bool, true, false, not, ◌&&◌, ◌||◌, Option, none, some, List, [],
  ◌∷◌, if◌then◌else◌, Bool-cases, Option-cases, inl, inr,
}
use learn_web.Common.Integers.{pos}
use learn_web.Http.Texts.{Text, codes}
use learn_web.Http.Fields.{same_key, find, find-set_same}
use learn_web.Http.Messages.{HttpRequest, HttpResponse, set_header, connection}
use learn_web.Uri.Defs.{Uri, no_text}
use learn_web.HttpClient.Defs.{
  Error, send_close_by_peer, refusal, fill_headers, fill_request, Net, below_zero, received,
  do_request, pool_do_request,
}

-- A header that asks to keep the connection.
abbrev pub keeps_alive : Text × Text → Bool
keeps_alive h = same_key h.0 connection && same_key h.1 (codes "keep-alive")

abbrev pub any_keeps : List (Text × Text) → Bool
any_keeps [] = false
any_keeps (h ∷ hs) = keeps_alive h || any_keeps hs

-- The value that the headers give a name; a later header goes before an earlier one, and the header
-- connection is not among them.
abbrev pub value_of : Text → List (Text × Text) → Option Text → Option Text
value_of name [] old = old
value_of name (h ∷ hs) old =
    value_of name hs (if not (same_key h.0 connection) && same_key name h.0 then some h.1 else old)

fill_headers-close :
    (hs : List (Text × Text)) (b : Bool) (req : HttpRequest)
    → (fill_headers hs b req).1.close ≡ (if any_keeps hs then false else req.close)
unfolding fill_headers set_header
fill_headers-close [] b req = refl
fill_headers-close (h ∷ hs) b req =
    fill_headers-close hs _ _ ∙ elim (Bool-cases (same_key h.0 connection)) [
      | inl e ↦ elim (Bool-cases (same_key h.1 (codes "keep-alive"))) [
        | inl k ↦ rw (e, k) (ground arith)
        | inr k ↦ rw (e, k) refl
      ]
      | inr e ↦ rw e refl
    ]

fill_headers-find :
    (name : Text) (hs : List (Text × Text)) (b : Bool) (req : HttpRequest)
    → find name (fill_headers hs b req).1.headers ≡ value_of name hs (find name req.headers)
unfolding fill_headers set_header
fill_headers-find name [] b req = refl
fill_headers-find name (h ∷ hs) b req =
    fill_headers-find name hs _ _
    ∙ ap (value_of name hs) (elim (Bool-cases (same_key h.0 connection)) [
      | inl e ↦ elim (Bool-cases (same_key h.1 (codes "keep-alive"))) [
        | inl k ↦ rw (e, k) refl
        | inr k ↦ rw (e, k) refl
      ]
      | inr e ↦ rw e (find-set_same name h.0 h.1 req.headers)
    ])

-- A header names the host.
abbrev pub names_host : List (Text × Text) → Bool
names_host [] = false
names_host (h ∷ hs) =
    (not (same_key h.0 connection) && (same_key h.0 (codes "host") && not (no_text h.1)))
    || names_host hs

fill_headers-host :
    (hs : List (Text × Text)) (b : Bool) (req : HttpRequest)
    → (fill_headers hs b req).0 ≡ (b || names_host hs)
unfolding fill_headers
fill_headers-host [] b req = ground arith
fill_headers-host (h ∷ hs) b req =
    fill_headers-host hs _ _ ∙ elim (Bool-cases (same_key h.0 connection)) [
      | inl e ↦ rw e refl
      | inr e ↦ elim (Bool-cases (same_key h.0 (codes "host"))) [
        | inl k ↦ rw (e, k) (ground arith)
        | inr k ↦ rw (e, k) (ground arith)
      ]
    ]

-- The request that DoRequest and the pool's doRequest make of a header list: it has the body given;
-- it asks to close as the request that it starts from, unless a header connection says keep-alive;
-- the header connection is left out, and each other name has the last value that the list gives it.
-- Only when no header names the host with a value, Host is set to the host given.
pub fill_request_lem :
    (hs : List (Text × Text)) (host body : Text) (start : HttpRequest) (name : Text)
    → ((fill_request hs host body start).body ≡ body)
      × ((fill_request hs host body start).close ≡ (if any_keeps hs then false else start.close))
      × (find name (fill_request hs host body start).headers ≡ (
          if not (names_host hs) && same_key name (codes "Host")
          then some host
          else value_of name hs (find name start.headers)))
unfolding fill_request set_header
fill_request_lem hs host body start name =
    let b = fill_headers-host hs false start in
    let c = fill_headers-close hs false start in
    let f = fill_headers-find name hs false start in
    elim (Bool-cases (names_host hs)) [
      | inl e ↦ rw (b, e) (refl, c, f)
      | inr e ↦
          rw (b, e)
            (
              refl,
              c,
              find-set_same name (codes "Host") host (fill_headers hs false start).1.headers
                  ∙ rw f refl,
            )
    ]

abbrev says_closed : Error → Bool
says_closed send_close_by_peer = true
says_closed _ = false

closed_apart : (e : Error) → says_closed e ≡ false → e ≢ send_close_by_peer
closed_apart e h k = let t : says_closed e ≡ true = ap says_closed k in cc

received-closed : (o : Option HttpResponse) → says_closed (received o).result ≡ false
received-closed none = refl
received-closed (some r) = refl

do_request-closed :
    {A S : Type 0} (net : Net A S) (req : HttpRequest) (uri : Uri)
    → says_closed (do_request net req uri).result ≡ false
unfolding do_request
do_request-closed net req uri = elim (Option-cases (net.address uri)) [
  | inl e ↦ rw (e, do_request) refl
  | inr (addr, e) ↦ elim (Option-cases (net.create_tcp addr)) [
    | inl k ↦ rw (e, k, do_request) refl
    | inr (sock, k) ↦ elim (Bool-cases (net.connect addr sock)) [
      | inl c ↦ elim (Bool-cases (below_zero (net.send req sock))) [
        | inl z ↦ rw (e, k, c, z, do_request) refl
        | inr z ↦ rw (e, k, c, z, do_request) (received-closed (net.receive req sock))
      ]
      | inr c ↦ rw (e, k, c, do_request) refl
    ]
  ]
]

-- When sendRequest answers zero, as the peer has closed the connection, the pool's doRequest says
-- so. DoRequest of a single connection never does, whatever sendRequest answers.
pub send_close_lem :
    {A S : Type 0} (net : Net A S) (req : HttpRequest) (sock : S)
    → net.send req sock ≡ pos 0
    → (pool_do_request net req (some (some sock)) ≡ refusal send_close_by_peer)
      × ((uri : Uri) → (do_request net req uri).result ≢ send_close_by_peer)
unfolding pool_do_request do_request
send_close_lem net req sock z =
    (rw z refl, λ uri h. closed_apart _ (do_request-closed net req uri) h)
