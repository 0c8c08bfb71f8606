-- ===== src/Http/Methods.antt =====
-- skt/http/http.h and http.cpp: the methods and statuses of HTTP and their texts. HttpMethod and
-- HttpStatus are the numbers of their enumerators.
use learn_web.Common.{
  ℕ, zero, suc, ◌+◌, ◌<◌, ◌≡◌, refl, ◌∙◌, arith, Bool, false, List, [], ◌∷◌, ◌++◌, length, get_or,
  if◌then◌else◌, leb, ◌==◌,
}
use mathlib.Core.Path.{subst}
use learn_web.Http.Texts.{Text, codes, c_str, text_eq, is_prefix}

-- HTTP_METHOD_MAP, whose numbers count from 0, and s_method_string
abbrev pub method_names : List Text
method_names =
    codes "DELETE"
    ∷ codes "GET"
    ∷ codes "HEAD"
    ∷ codes "POST"
    ∷ codes "PUT"
    ∷ codes "CONNECT"
    ∷ codes "OPTIONS"
    ∷ codes "TRACE"
    ∷ codes "COPY"
    ∷ codes "LOCK"
    ∷ codes "MKCOL"
    ∷ codes "MOVE"
    ∷ codes "PROPFIND"
    ∷ codes "PROPPATCH"
    ∷ codes "SEARCH"
    ∷ codes "UNLOCK"
    ∷ codes "BIND"
    ∷ codes "REBIND"
    ∷ codes "UNBIND"
    ∷ codes "ACL"
    ∷ codes "REPORT"
    ∷ codes "MKACTIVITY"
    ∷ codes "CHECKOUT"
    ∷ codes "MERGE"
    ∷ codes "M-SEARCH"
    ∷ codes "NOTIFY"
    ∷ codes "SUBSCRIBE"
    ∷ codes "UNSUBSCRIBE"
    ∷ codes "PATCH"
    ∷ codes "PURGE"
    ∷ codes "MKCALENDAR"
    ∷ codes "LINK"
    ∷ codes "UNLINK"
    ∷ codes "SOURCE"
    ∷ []

-- HttpMethod::INVALID_METHOD, the enumerator behind the last of them
abbrev pub invalid_method : ℕ
invalid_method = 34

-- The chain of tests that HTTP_METHOD_MAP expands to, from the method `i` on.
unfoldable pub first_method : (Text → Bool) → ℕ → List Text → ℕ
first_method test i [] = i
first_method test i (name ∷ names) = if test name then i else first_method test (suc i) names

-- StringToHttpMethod
unfoldable pub string_to_http_method : Text → ℕ
unfolding first_method
string_to_http_method m = first_method (λ name. text_eq name (c_str m)) 0 method_names

-- CharsToHttpMethod
unfoldable pub chars_to_http_method : Text → ℕ
unfolding first_method
chars_to_http_method m = first_method (λ name. is_prefix name m) 0 method_names

-- HttpMethodToString
unfoldable pub http_method_to_string : ℕ → Text
http_method_to_string idx =
    if leb (length method_names) idx then codes "<UNKONW>" else get_or method_names idx []

-- HTTP_STATUS_MAP
abbrev pub status_names : List (ℕ × Text)
status_names =
    (100, codes "Continue")
    ∷ (101, codes "Switching Protocols")
    ∷ (102, codes "Processing")
    ∷ (200, codes "OK")
    ∷ (201, codes "Created")
    ∷ (202, codes "Accepted")
    ∷ (203, codes "Non-Authoritative Information")
    ∷ (204, codes "No Content")
    ∷ (205, codes "Reset Content")
    ∷ (206, codes "Partial Content")
    ∷ (207, codes "Multi-Status")
    ∷ (208, codes "Already Reported")
    ∷ (226, codes "IM Used")
    ∷ (300, codes "Multiple Choices")
    ∷ (301, codes "Moved Permanently")
    ∷ (302, codes "Found")
    ∷ (303, codes "See Other")
    ∷ (304, codes "Not Modified")
    ∷ (305, codes "Use Proxy")
    ∷ (307, codes "Temporary Redirect")
    ∷ (308, codes "Permanent Redirect")
    ∷ (400, codes "Bad Request")
    ∷ (401, codes "Unauthorized")
    ∷ (402, codes "Payment Required")
    ∷ (403, codes "Forbidden")
    ∷ (404, codes "Not Found")
    ∷ (405, codes "Method Not Allowed")
    ∷ (406, codes "Not Acceptable")
    ∷ (407, codes "Proxy Authentication Required")
    ∷ (408, codes "Request Timeout")
    ∷ (409, codes "Conflict")
    ∷ (410, codes "Gone")
    ∷ (411, codes "Length Required")
    ∷ (412, codes "Precondition Failed")
    ∷ (413, codes "Payload Too Large")
    ∷ (414, codes "URI Too Long")
    ∷ (415, codes "Unsupported Media Type")
    ∷ (416, codes "Range Not Satisfiable")
    ∷ (417, codes "Expectation Failed")
    ∷ (421, codes "Misdirected Request")
    ∷ (422, codes "Unprocessable Entity")
    ∷ (423, codes "Locked")
    ∷ (424, codes "Failed Dependency")
    ∷ (426, codes "Upgrade Required")
    ∷ (428, codes "Precondition Required")
    ∷ (429, codes "Too Many Requests")
    ∷ (431, codes "Request Header Fields Too Large")
    ∷ (451, codes "Unavailable For Legal Reasons")
    ∷ (500, codes "Internal Server Error")
    ∷ (501, codes "Not Implemented")
    ∷ (502, codes "Bad Gateway")
    ∷ (503, codes "Service Unavailable")
    ∷ (504, codes "Gateway Timeout")
    ∷ (505, codes "HTTP Version Not Supported")
    ∷ (506, codes "Variant Also Negotiates")
    ∷ (507, codes "Insufficient Storage")
    ∷ (508, codes "Loop Detected")
    ∷ (510, codes "Not Extended")
    ∷ (511, codes "Network Authentication Required")
    ∷ []

unfoldable pub find_status : ℕ → List (ℕ × Text) → Text
find_status s [] = codes "<unkonw>"
find_status s ((code, desc) ∷ names) = if s == code then desc else find_status s names

-- HttpStatusToString
unfoldable pub http_status_to_string : ℕ → Text
unfolding find_status
http_status_to_string s = find_status s status_names

infixr 4 ◌▸◌
abbrev ◌▸◌ : {A B : Type 0} → A → B → A × B
a ▸ b = (a, b)

-- A test of each name and its number.
abbrev AllFrom : (ℕ → Text → Type 0) → ℕ → List Text → Type 0
AllFrom P i [] = Unit {0}
AllFrom P i (name ∷ names) = P i name × AllFrom P (suc i) names

AllFrom-get :
    (P : ℕ → Text → Type 0) (i n : ℕ) (names : List Text)
    → AllFrom P i names
    → n < length names
    → P (i + n) (get_or names n [])
AllFrom-get P i n [] all h = absurd (omega (arith, h))
AllFrom-get P i zero (name ∷ names) (first, rest) h = subst (λ k. P k name) (omega arith) first
AllFrom-get P i (suc n) (name ∷ names) (first, rest) h =
    subst (λ k. P k (get_or names n [])) (omega arith)
      (AllFrom-get P (suc i) n names rest (omega (arith, h)))

chars_of_names :
    (rest : Text) → AllFrom (λ i name. chars_to_http_method (name ++ rest) ≡ i) 0 method_names
unfolding chars_to_http_method is_prefix
chars_of_names rest =
    refl ▸ refl ▸ refl ▸ refl ▸ refl ▸ refl ▸ refl ▸ refl ▸ refl ▸ refl ▸ refl ▸ refl ▸ refl ▸ refl
    ▸ refl ▸ refl ▸ refl ▸ refl ▸ refl ▸ refl ▸ refl ▸ refl ▸ refl ▸ refl ▸ refl ▸ refl ▸ refl
    ▸ refl ▸ refl ▸ refl ▸ refl ▸ refl ▸ refl ▸ refl ▸ tt

strings_of_names : AllFrom (λ i name. string_to_http_method name ≡ i) 0 method_names
unfolding string_to_http_method text_eq c_str
strings_of_names =
    refl ▸ refl ▸ refl ▸ refl ▸ refl ▸ refl ▸ refl ▸ refl ▸ refl ▸ refl ▸ refl ▸ refl ▸ refl ▸ refl
    ▸ refl ▸ refl ▸ refl ▸ refl ▸ refl ▸ refl ▸ refl ▸ refl ▸ refl ▸ refl ▸ refl ▸ refl ▸ refl
    ▸ refl ▸ refl ▸ refl ▸ refl ▸ refl ▸ refl ▸ refl ▸ tt

method_in_range : (idx : ℕ) → idx < 34 → http_method_to_string idx ≡ get_or method_names idx []
unfolding http_method_to_string
method_in_range idx h = let inside : leb 34 idx ≡ false = ground arith in rw inside refl

-- The text of a method other than INVALID_METHOD reads back as that method, whatever follows it
-- for CharsToHttpMethod, as no name of a method is the start of another one.
pub chars_to_http_method-http_method_to_string :
    (idx : ℕ) (rest : Text)
    → idx < 34
    → (chars_to_http_method (http_method_to_string idx ++ rest) ≡ idx)
      × (string_to_http_method (http_method_to_string idx) ≡ idx)
chars_to_http_method-http_method_to_string idx rest h =
    let name = get_or method_names idx [] in
    let chars : chars_to_http_method (name ++ rest) ≡ 0 + idx =
      AllFrom-get (λ i t. chars_to_http_method (t ++ rest) ≡ i) 0 idx method_names
        (chars_of_names rest) (omega (arith, h)) in
    let strings : string_to_http_method name ≡ 0 + idx =
      AllFrom-get (λ i t. string_to_http_method t ≡ i) 0 idx method_names strings_of_names
        (omega (arith, h)) in
    rw (method_in_range idx h) (chars ∙ omega arith, strings ∙ omega arith)
