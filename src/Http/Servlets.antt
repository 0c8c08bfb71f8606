-- ===== src/Http/Servlets.antt =====
-- skt/http/servlet.h and servlet.cpp: the servlets, and how ServletDispatch finds one for a path. A
-- servlet pointer is none when it is null; a servlet or a callback of the program is a number, with
-- what its call does to the response as an argument. `fnmatch pattern path` says that the C
-- function of that name returns 0.
use learn_web.Common.{ℕ, Bool, Option, none, some, List, [], ◌∷◌, ◌++◌, if◌then◌else◌}
use learn_web.Http.Texts.{Text, codes, text_eq}
use learn_web.Http.Messages.{HttpRequest, HttpResponse, set_response_header}

-- A servlet of the program, a FunctionServlet with its callback, or a NotFoundServlet with its
-- content.
pub data Servlet : Type 0 where
  other function : ℕ → Servlet
  not_found : Text → Servlet

-- NotFoundServlet::NotFoundServlet
unfoldable pub not_found_servlet : Text → Servlet
not_found_servlet name = not_found (
    codes "<html><head><title>404 Not Found"
    ++ codes "</title></head><body><center><h1>404 Not Found</h1></center>"
    ++ codes "<hr><center>"
    ++ name
    ++ codes "</center></body></html>")

-- NotFoundServlet::handle
unfoldable pub handle_not_found : Text → HttpResponse → HttpResponse
handle_not_found content r =
    record (set_response_header (codes "Content-Type") (codes "text/html")
      (set_response_header (codes "Server") (codes "skt/1.0.0") (record r { status = 404 }))) {
        body = content;
      }

-- The map of exact paths and the sequence of patterns.
abbrev pub Table : Type 0
Table = List (Text × Option Servlet)

pub record ServletDispatch : Type 0 where
  pub datas : Table
  pub globs : Table
  pub default_servlet : Option Servlet

-- ServletDispatch::ServletDispatch
unfoldable pub servlet_dispatch : ServletDispatch
unfolding not_found_servlet
servlet_dispatch = record {
  datas = [];
  globs = [];
  default_servlet = some (not_found_servlet (codes "skt/1.0.0"));
}

-- The entry whose text is `uri`: std::unordered_map::find, and the loop over m_globs.
unfoldable pub lookup : Text → Table → Option (Option Servlet)
lookup uri [] = none
lookup uri ((k, s) ∷ t) = if text_eq k uri then some s else lookup uri t

-- `m_datas[uri] = slt`
unfoldable pub assign : Text → Option Servlet → Table → Table
assign uri slt [] = (uri, slt) ∷ []
assign uri slt ((k, s) ∷ t) =
    let rest = assign uri slt t in if text_eq k uri then (k, slt) ∷ t else (k, s) ∷ rest

-- The loop that erases the first entry of `uri`, and `m_datas.erase(uri)`, of which there is one.
unfoldable pub erase_first : Text → Table → Table
erase_first uri [] = []
erase_first uri ((k, s) ∷ t) =
    let rest = erase_first uri t in if text_eq k uri then t else (k, s) ∷ rest

-- ServletDispatch::addServlet of a servlet
unfoldable pub add_servlet : Text → Option Servlet → ServletDispatch → ServletDispatch
add_servlet uri slt d = record d { datas = assign uri slt d.datas }

-- ServletDispatch::addServlet of a callback
unfoldable pub add_function : Text → ℕ → ServletDispatch → ServletDispatch
unfolding add_servlet
add_function uri cb d = add_servlet uri (some (function cb)) d

-- ServletDispatch::addGlobServlet of a servlet
unfoldable pub add_glob_servlet : Text → Option Servlet → ServletDispatch → ServletDispatch
add_glob_servlet uri slt d = record d { globs = erase_first uri d.globs ++ ((uri, slt) ∷ []) }

-- ServletDispatch::addGlobServlet of a callback
unfoldable pub add_glob_function : Text → ℕ → ServletDispatch → ServletDispatch
unfolding add_glob_servlet
add_glob_function uri cb d = add_glob_servlet uri (some (function cb)) d

-- ServletDispatch::delServlet and delGlobServlet
unfoldable pub del_servlet : Text → ServletDispatch → ServletDispatch
del_servlet uri d = record d { datas = erase_first uri d.datas }

unfoldable pub del_glob_servlet : Text → ServletDispatch → ServletDispatch
del_glob_servlet uri d = record d { globs = erase_first uri d.globs }

abbrev pub or_null : Option (Option Servlet) → Option Servlet
or_null none = none
or_null (some s) = s

-- ServletDispatch::getServlet and getGlobServlet
unfoldable pub get_servlet : Text → ServletDispatch → Option Servlet
get_servlet uri d = or_null (lookup uri d.datas)

unfoldable pub get_glob_servlet : Text → ServletDispatch → Option Servlet
get_glob_servlet uri d = or_null (lookup uri d.globs)

module _ (fnmatch : Text → Text → Bool) where
  -- The loop over the patterns, in the order in which they were added.
  unfoldable pub first_glob : Text → Option Servlet → Table → Option Servlet
  first_glob uri def [] = def
  first_glob uri def ((k, s) ∷ t) = if fnmatch k uri then s else first_glob uri def t

  -- ServletDispatch::getMatchedServlet
  unfoldable pub get_matched_servlet : Text → ServletDispatch → Option Servlet
  get_matched_servlet uri d = elim (lookup uri d.datas) [
    | some s ↦ s
    | none ↦ first_glob uri d.default_servlet d.globs
  ]

  -- ServletDispatch::handle and the handle of the servlet it finds; `run` is what a servlet of the
  -- program does, and FunctionServlet::handle calls its callback, `call`.
  unfoldable pub handle :
      (ℕ → HttpRequest → HttpResponse → HttpResponse)
      → (ℕ → HttpRequest → HttpResponse → HttpResponse)
      → HttpRequest
      → HttpResponse
      → ServletDispatch
      → HttpResponse
  handle run call request response d = elim (get_matched_servlet request.path d) [
    | none ↦ response
    | some s ↦ elim s [
      | other n ↦ run n request response
      | function cb ↦ call cb request response
      | not_found content ↦ handle_not_found content response
    ]
  ]
