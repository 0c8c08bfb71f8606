-- ===== src/Receive/Parsers.antt =====
-- skt/http/http_parser.h and http_parser.cpp: HttpRequestParser and HttpResponseParser, the callbacks
-- that fill the message, around the parsers that ragel generates. Those are the parameter `Machine`:
-- a call of http_parser_execute gives the bytes that it went over and the callbacks that it made.
use learn_web.Common.{
  ℕ, zero, suc, Bool, true, not, ◌&&◌, ◌||◌, Option, none, some, List, [], ◌∷◌, if◌then◌else◌, ◌==◌,
  length,
}
use learn_web.Common.Integers.{ℤ, pos, negsuc}
use learn_web.Http.Texts.{Text, codes}
use learn_web.Http.Fields.{get_as}
use learn_web.Http.Methods.{chars_to_http_method, invalid_method}
use learn_web.Http.Messages.{
  HttpRequest, HttpResponse, http_request, http_response, set_header, set_response_header,
}

abbrev pub drop : ℕ → Text → Text
drop zero xs = xs
drop (suc n) [] = []
drop (suc n) (x ∷ xs) = drop n xs

abbrev pub take : ℕ → Text → Text
take zero xs = []
take (suc n) [] = []
take (suc n) (x ∷ xs) = x ∷ take n xs

-- A callback: the method has what follows it in the buffer too, the others the text that they are
-- given.
pub data Callback : Type 0 where
  method uri fragment path query version reason status : Text → Callback
  field : Text → Text → Callback
  header_done chunk last_chunk : Callback

-- A generated parser: its state, what a call of execute on a buffer does, and the two tests of its
-- state.
pub record Machine (M : Type 0) : Type 0 where
  pub init : M
  pub execute : M → Text → ℕ × List Callback × M
  pub has_error : M → Bool
  pub is_finished : M → Bool

-- http_parser_finish and httpclient_parser_finish
unfoldable pub parser_finish : {M : Type 0} → Machine M → M → ℤ
parser_finish g m = if g.has_error m then negsuc 0 else if g.is_finished m then pos 1 else pos 0

-- An int as a condition.
abbrev pub truth : ℤ → Bool
truth (pos n) = not (n == 0)
truth (negsuc n) = true

abbrev head_or_zero : Text → ℕ
head_or_zero [] = 0
head_or_zero (c ∷ cs) = c

abbrev tail : Text → Text
tail [] = []
tail (c ∷ cs) = cs

-- `strncmp(a, b, n) == 0`; a text has a zero byte behind it.
unfoldable pub strncmp_eq : ℕ → Text → Text → Bool
strncmp_eq zero a b = true
strncmp_eq (suc n) a b =
    let rest = strncmp_eq n (tail a) (tail b) in
    head_or_zero a == head_or_zero b && (head_or_zero a == 0 || rest)

-- The version that on_request_version and on_response_version set.
unfoldable pub version_of : Text → Option ℕ
version_of at =
    if strncmp_eq (length at) at (codes "HTTP/1.1")
    then some 17
    else if strncmp_eq (length at) at (codes "HTTP/1.0")
    then some 16
    else none

-- HttpRequestParser
pub record RequestParser (M : Type 0) : Type 0 where
  pub machine : M
  pub error : ℕ
  pub request : HttpRequest

-- The callbacks of HttpRequestParser.
unfoldable pub on_request : {M : Type 0} → Callback → RequestParser M → RequestParser M
on_request (method at) p =
    let m = chars_to_http_method at in
    if m == invalid_method
    then record p { error = 1000 }
    else record p { request = record p.request { method = m } }
on_request (fragment at) p = record p { request = record p.request { fragment = at } }
on_request (path at) p = record p { request = record p.request { path = at } }
on_request (query at) p = record p { request = record p.request { query = at } }
on_request (version at) p = elim (version_of at) [
  | none ↦ record p { error = 1001 }
  | some v ↦ record p { request = record p.request { version = v } }
]
on_request (field name value) p =
    if length name == 0 then p else record p { request = set_header name value p.request }
on_request (uri at) p = p
on_request (reason at) p = p
on_request (status at) p = p
on_request header_done p = p
on_request chunk p = p
on_request last_chunk p = p

unfoldable pub on_requests : {M : Type 0} → List Callback → RequestParser M → RequestParser M
on_requests [] p = p
on_requests (e ∷ es) p = on_requests es (on_request e p)

-- HttpRequestParser::HttpRequestParser; m_status is as memory has it.
unfoldable pub request_parser : {M : Type 0} → Machine M → ℕ → RequestParser M
request_parser g memory = record {
  machine = g.init;
  error = 0;
  request = http_request memory 17 true;
}

-- HttpRequestParser::excute: the bytes gone over, the data that is left, and the parser.
unfoldable pub request_excute :
    {M : Type 0} → Machine M → Text → RequestParser M → ℕ × Text × RequestParser M
request_excute g text p =
    let (offset, events, m) = g.execute p.machine text in
    (offset, drop offset text, on_requests events (record p { machine = m }))

-- HttpRequestParser::isFinished and hasError
unfoldable pub request_is_finished : {M : Type 0} → Machine M → RequestParser M → Bool
request_is_finished g p = truth (parser_finish g p.machine)

unfoldable pub request_has_error : {M : Type 0} → Machine M → RequestParser M → Bool
request_has_error g p = not (p.error == 0) && g.has_error p.machine

-- HttpRequestParser::getContentLength; `cast` is boost::lexical_cast to uint64_t.
unfoldable pub request_content_length : {M : Type 0} → (Text → Option ℕ) → RequestParser M → ℕ
request_content_length cast p = get_as cast (codes "content-length") 0 p.request.headers

-- HttpResponseParser
pub record ResponseParser (M : Type 0) : Type 0 where
  pub machine : M
  pub error : ℕ
  pub response : HttpResponse

-- The callbacks of HttpResponseParser; `atoi` of the text from the status code on.
unfoldable pub on_response :
    {M : Type 0} → (Text → ℕ) → Callback → ResponseParser M → ResponseParser M
on_response atoi (reason at) p = record p { response = record p.response { reason = at } }
on_response atoi (status at) p = record p { response = record p.response { status = atoi at } }
on_response atoi (version at) p = elim (version_of at) [
  | none ↦ record p { error = 1001 }
  | some v ↦ record p { response = record p.response { version = v } }
]
on_response atoi (field name value) p =
    if length name == 0
    then p
    else record p { response = set_response_header name value p.response }
on_response atoi (method at) p = p
on_response atoi (uri at) p = p
on_response atoi (fragment at) p = p
on_response atoi (path at) p = p
on_response atoi (query at) p = p
on_response atoi header_done p = p
on_response atoi chunk p = p
on_response atoi last_chunk p = p

unfoldable pub on_responses :
    {M : Type 0} → (Text → ℕ) → List Callback → ResponseParser M → ResponseParser M
on_responses atoi [] p = p
on_responses atoi (e ∷ es) p = on_responses atoi es (on_response atoi e p)

-- HttpResponseParser::HttpResponseParser
unfoldable pub response_parser : {M : Type 0} → Machine M → ResponseParser M
response_parser g = record { machine = g.init; error = 0; response = http_response 17 true }

-- HttpResponseParser::excute, which starts the machine anew at a chunk.
unfoldable pub response_excute :
    {M : Type 0}
    → Machine M
    → (Text → ℕ)
    → Text
    → Bool
    → ResponseParser M
    → ℕ × Text × ResponseParser M
response_excute g atoi text is_chunk p =
    let (offset, events, m) = g.execute (if is_chunk then g.init else p.machine) text in
    (offset, drop offset text, on_responses atoi events (record p { machine = m }))

-- HttpResponseParser::isFinished and hasError
unfoldable pub response_is_finished : {M : Type 0} → Machine M → ResponseParser M → Bool
response_is_finished g p = truth (parser_finish g p.machine)

unfoldable pub response_has_error : {M : Type 0} → Machine M → ResponseParser M → Bool
response_has_error g p = g.has_error p.machine || not (p.error == 0)

unfoldable pub response_content_length : {M : Type 0} → (Text → Option ℕ) → ResponseParser M → ℕ
response_content_length cast p = get_as cast (codes "content-length") 0 p.response.headers
