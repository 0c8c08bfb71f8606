-- ===== src/Http/Messages.antt =====
-- skt/http/http.h and http.cpp: HttpRequest and HttpResponse, and the text of each. HttpMethod and
-- HttpStatus are numbers; `dump` gives what the code writes to its stream.
use learn_web.Common.{
  ℕ, ◌/◌, ◌%◌, ◌≡◌, refl, arith, Bool, true, false, [], ◌∷◌, ◌++◌, length, if◌then◌else◌,
  Bool-cases, inl, inr,
}
use learn_web.Http.Texts.{Text, codes, decimal}
use learn_web.Http.Fields.{MapType, key_less, same_key, set, erase, less_left, less_right}
use learn_web.Http.Methods.{http_method_to_string, http_status_to_string}

pub record HttpRequest : Type 0 where
  pub method : ℕ
  pub status : ℕ
  pub version : ℕ
  pub close : Bool
  pub path : Text
  pub query : Text
  pub fragment : Text
  pub body : Text
  pub headers : MapType
  pub params : MapType
  pub cookies : MapType

pub record HttpResponse : Type 0 where
  pub status : ℕ
  pub version : ℕ
  pub close : Bool
  pub body : Text
  pub reason : Text
  pub headers : MapType

-- HttpRequest::HttpRequest, which leaves m_status as memory has it.
unfoldable pub http_request : ℕ → ℕ → Bool → HttpRequest
http_request status version close = record {
  method = 1;
  status = status;
  version = version;
  close = close;
  path = codes "/";
  query = [];
  fragment = [];
  body = [];
  headers = [];
  params = [];
  cookies = [];
}

-- HttpResponse::HttpResponse
unfoldable pub http_response : ℕ → Bool → HttpResponse
http_response version close = record {
  status = 200;
  version = version;
  close = close;
  body = [];
  reason = [];
  headers = [];
}

-- HttpRequest::setHeader, setParam and setCookie, delHeader, delParam and delCookie
unfoldable pub set_header : Text → Text → HttpRequest → HttpRequest
set_header key v r = record r { headers = set key v r.headers }

unfoldable pub set_param : Text → Text → HttpRequest → HttpRequest
set_param key v r = record r { params = set key v r.params }

unfoldable pub set_cookie : Text → Text → HttpRequest → HttpRequest
set_cookie key v r = record r { cookies = set key v r.cookies }

unfoldable pub del_header : Text → HttpRequest → HttpRequest
del_header key r = record r { headers = erase key r.headers }

unfoldable pub del_param : Text → HttpRequest → HttpRequest
del_param key r = record r { params = erase key r.params }

unfoldable pub del_cookie : Text → HttpRequest → HttpRequest
del_cookie key r = record r { cookies = erase key r.cookies }

-- HttpResponse::setHeader and delHeader
unfoldable pub set_response_header : Text → Text → HttpResponse → HttpResponse
set_response_header key val r = record r { headers = set key val r.headers }

unfoldable pub del_response_header : Text → HttpResponse → HttpResponse
del_response_header key r = record r { headers = erase key r.headers }

abbrev crlf : Text
crlf = 13 ∷ 10 ∷ []

abbrev pub connection : Text
connection = codes "connection"

abbrev is_nil : Text → Bool
is_nil [] = true
is_nil (c ∷ cs) = false

-- The loop over the headers, which passes over `connection`; `colon` stands between key and value.
unfoldable pub header_lines : Text → MapType → Text
header_lines colon [] = []
header_lines colon ((k, v) ∷ m) =
    let rest = header_lines colon m in
    if same_key k connection then rest else k ++ colon ++ v ++ crlf ++ rest

-- The end of a message: its length and its body, or an empty line.
unfoldable pub body_part : Text → Text
body_part body =
    if is_nil body
    then crlf
    else codes "content-length: " ++ decimal (length body) ++ crlf ++ crlf ++ body

abbrev version_text : ℕ → Text
version_text version =
    codes "HTTP/" ++ decimal (version / 16) ++ codes "." ++ decimal (version % 16)

-- HttpRequest::dump
unfoldable pub dump_request : HttpRequest → Text
unfolding http_method_to_string
dump_request r =
    http_method_to_string r.method
    ++ codes " "
    ++ r.path
    ++ (if is_nil r.query then [] else codes "?")
    ++ r.query
    ++ (if is_nil r.fragment then [] else codes "#")
    ++ r.fragment
    ++ codes " "
    ++ version_text r.version
    ++ crlf
    ++ codes "connection: "
    ++ (if r.close then codes "close" else codes "keep=alive")
    ++ crlf
    ++ header_lines (codes ":") r.headers
    ++ body_part r.body

-- HttpResponse::dump
unfoldable pub dump_response : HttpResponse → Text
unfolding http_status_to_string
dump_response r =
    version_text r.version
    ++ codes " "
    ++ decimal r.status
    ++ codes " "
    ++ (if is_nil r.reason then http_status_to_string r.status else r.reason)
    ++ crlf
    ++ header_lines (codes ": ") r.headers
    ++ codes "connection: "
    ++ (if r.close then codes "close" else codes "keep-alive")
    ++ crlf
    ++ body_part r.body

header_lines-set :
    (colon key v : Text) (m : MapType)
    → same_key key connection ≡ true
    → header_lines colon (set key v m) ≡ header_lines colon m
unfolding header_lines set
header_lines-set colon key v [] h = rw h refl
header_lines-set colon key v ((k, w) ∷ m) h = elim (Bool-cases (key_less k key)) [
  | inl lower ↦ rw (lower, header_lines-set colon key v m h) refl
  | inr upper ↦ elim (Bool-cases (key_less key k)) [
    | inl under ↦ rw (upper, under, h) refl
    | inr same ↦
        let also : same_key k connection ≡ true = ground (
          arith,
          h,
          less_left k key connection upper same,
          less_right k key connection upper same,
        ) in
        rw (upper, same, also) refl
  ]
]

-- A `connection` field that is set, however its key is written, is not printed: a message with it
-- has the text of the message without it, a request and a response alike.
pub dump-set_header :
    (key v : Text) (r : HttpRequest) (s : HttpResponse)
    → same_key key connection ≡ true
    → (dump_request (set_header key v r) ≡ dump_request r)
      × (dump_response (set_response_header key v s) ≡ dump_response s)
unfolding dump_request dump_response set_header set_response_header
dump-set_header key v r s h = (
  rw (header_lines-set (codes ":") key v r.headers h) refl,
  rw (header_lines-set (codes ": ") key v s.headers h) refl,
)
