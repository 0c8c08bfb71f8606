-- ===== src/Http/Runs.antt =====
-- skt/http at concrete messages.
use learn_web.Common.{◌≡◌, refl, true, none, some, [], ◌∷◌, ◌++◌, if◌then◌else◌}
use learn_web.Http.Texts.{codes, text_eq, is_prefix, decimal, c_str, case_less}
use learn_web.Http.Fields.{MapType, find, set, spelled_alike, key_less, find-set}
use learn_web.Http.Messages.{http_request, set_header, dump_request, header_lines, body_part}
use learn_web.Http.Servlets.{
  other, ServletDispatch, servlet_dispatch, add_servlet, add_glob_servlet, get_matched_servlet,
}
use learn_web.Http.Dispatch.{get_matched_servlet-add_servlet}

request_run :
    dump_request (set_header (codes "Host") (codes "a.b") (http_request 0 17 true))
    ≡ codes "GET / HTTP/1.1"
      ++ (13 ∷ 10 ∷ codes "connection: close")
      ++ (13 ∷ 10 ∷ codes "Host:a.b")
      ++ (13 ∷ 10 ∷ 13 ∷ 10 ∷ [])
unfolding dump_request set_header http_request header_lines set key_less c_str case_less body_part
    decimal
request_run = refl

abbrev fields : MapType
fields = (codes "Accept", codes "text/html") ∷ (codes "Host", codes "a.b") ∷ []

find-set_example : find (codes "host") (set (codes "HOST") (codes "c.d") fields) ≡ (
    if spelled_alike (c_str (codes "host")) (c_str (codes "HOST"))
    then some (codes "c.d")
    else find (codes "host") fields)
find-set_example = find-set (codes "host") (codes "HOST") (codes "c.d") fields

get_matched_servlet-add_servlet_example :
    get_matched_servlet is_prefix (codes "/a/b") (
      add_servlet
        (codes "/a/b")
        (some (other 3))
        (add_glob_servlet (codes "/a") (some (other 4)) servlet_dispatch))
    ≡ (if text_eq (codes "/a/b") (codes "/a/b")
        then some (other 3)
        else get_matched_servlet is_prefix
            (codes "/a/b")
            (add_glob_servlet (codes "/a") (some (other 4)) servlet_dispatch))
get_matched_servlet-add_servlet_example =
    get_matched_servlet-add_servlet is_prefix (codes "/a/b") (codes "/a/b") (some (other 3))
      (add_glob_servlet (codes "/a") (some (other 4)) servlet_dispatch)

abbrev dispatch : ServletDispatch
dispatch = record {
  datas = [];
  globs = (codes "/a*", some (other 1)) ∷ (codes "/b*", some (other 2)) ∷ [];
  default_servlet = none;
}
