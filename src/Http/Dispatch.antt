-- ===== src/Http/Dispatch.antt =====
-- skt/http/servlet.cpp: what the calls of ServletDispatch promise.
use learn_web.Common.{
  ◌≡◌, refl, sym, ap, ◌∙◌, arith, Bool, true, false, Option, none, some, [], ◌∷◌, ◌++◌, All,
  if◌then◌else◌, Bool-cases, inl, inr,
}
use mathlib.Core.Path.{subst}
use learn_web.Http.Texts.{Text, codes, text_eq, text_eq_refl, eq-text_eq}
use learn_web.Http.Fields.{find, set, same_key, find-set_same}
use learn_web.Http.Messages.{HttpResponse, set_response_header}
use learn_web.Http.Servlets.{
  Servlet, Table, ServletDispatch, lookup, assign, erase_first, or_null, add_servlet,
  add_glob_servlet, del_glob_servlet, get_glob_servlet, get_matched_servlet, handle_not_found,
}

lookup-assign :
    (uri path : Text) (slt : Option Servlet) (t : Table)
    → lookup path (assign uri slt t) ≡ (if text_eq uri path then some slt else lookup path t)
unfolding lookup assign
lookup-assign uri path slt [] = refl
lookup-assign uri path slt ((k, s) ∷ t) = elim (Bool-cases (text_eq k uri)) [
  | inl e ↦ let same : k ≡ uri = eq-text_eq k uri e in rw (e, same) (ground arith)
  | inr n ↦ elim (Bool-cases (text_eq k path)) [
    | inl p ↦
        let same : k ≡ path = eq-text_eq k path p in
        elim (Bool-cases (text_eq uri path)) [
          | inr f ↦ rw (n, p, f) refl
          | inl g ↦
              let k_uri : k ≡ uri = same ∙ sym (eq-text_eq uri path g) in
              let is_uri : text_eq k uri ≡ true = rw k_uri (text_eq_refl uri) in
              absurd (ground (arith, n, is_uri))
        ]
    | inr q ↦ rw (n, q) (lookup-assign uri path slt t)
  ]
]

-- A servlet added for a path is the one for just that path, whatever patterns there are; for any
-- other path the choice is as before.
pub get_matched_servlet-add_servlet :
    (fnmatch : Text → Text → Bool) (uri path : Text) (slt : Option Servlet) (d : ServletDispatch)
    → get_matched_servlet fnmatch path (add_servlet uri slt d)
      ≡ (if text_eq uri path then slt else get_matched_servlet fnmatch path d)
unfolding get_matched_servlet add_servlet
get_matched_servlet-add_servlet fnmatch uri path slt d = elim (Bool-cases (text_eq uri path)) [
  | inl e ↦ rw (lookup-assign uri path slt d.datas, e, get_matched_servlet) refl
  | inr n ↦ rw (lookup-assign uri path slt d.datas, n, get_matched_servlet) refl
]

lookup_absent :
    (uri : Text) (t : Table) → All (λ e. text_eq e.0 uri ≡ false) t → lookup uri t ≡ none
unfolding lookup
lookup_absent uri [] h = refl
lookup_absent uri ((k, s) ∷ t) (h, hs) = rw (h, lookup_absent uri t hs) refl

-- No text occurs twice.
abbrev pub Unique : Table → Type 0
Unique [] = Unit {0}
Unique ((k, s) ∷ t) = All (λ e. text_eq e.0 k ≡ false) t × Unique t

All-erase_first :
    (k uri : Text) (t : Table)
    → All (λ e. text_eq e.0 k ≡ false) t
    → All (λ e. text_eq e.0 k ≡ false) (erase_first uri t)
unfolding erase_first
All-erase_first k uri [] h = tt
All-erase_first k uri ((j, s) ∷ t) (h, hs) = elim (Bool-cases (text_eq j uri)) [
  | inl e ↦ rw e hs
  | inr n ↦ rw n (h, All-erase_first k uri t hs)
]

All-append :
    (k : Text) (t : Table) (uri : Text) (s : Option Servlet)
    → All (λ e. text_eq e.0 k ≡ false) t
    → text_eq uri k ≡ false
    → All (λ e. text_eq e.0 k ≡ false) (t ++ ((uri, s) ∷ []))
All-append k [] uri s h n = (n, tt)
All-append k (e ∷ t) uri s (h, hs) n = (h, All-append k t uri s hs n)

text_eq_sym : (a b : Text) → text_eq a b ≡ text_eq b a
unfolding text_eq
text_eq_sym [] [] = refl
text_eq_sym [] (b ∷ ys) = refl
text_eq_sym (a ∷ xs) [] = refl
text_eq_sym (a ∷ xs) (b ∷ ys) = ground (arith, text_eq_sym xs ys)

last_found :
    (uri : Text) (slt : Option Servlet) (t : Table)
    → All (λ e. text_eq e.0 uri ≡ false) t
    → lookup uri (t ++ ((uri, slt) ∷ [])) ≡ some slt
unfolding lookup
last_found uri slt [] k = rw (text_eq_refl uri) refl
last_found uri slt ((j, s) ∷ t) (k, ks) = rw (k, last_found uri slt t ks) refl

absent-erase_first :
    (uri : Text) (t : Table) → Unique t → All (λ e. text_eq e.0 uri ≡ false) (erase_first uri t)
unfolding erase_first
absent-erase_first uri [] u = tt
absent-erase_first uri ((j, s) ∷ t) (u, us) = elim (Bool-cases (text_eq j uri)) [
  | inl e ↦ rw e (subst (λ k. All (λ e. text_eq e.0 k ≡ false) t) (eq-text_eq j uri e) u)
  | inr n ↦ rw n (n, absent-erase_first uri t us)
]

erase_first-Unique : (uri : Text) (t : Table) → Unique t → Unique (erase_first uri t)
unfolding erase_first
erase_first-Unique uri [] u = tt
erase_first-Unique uri ((j, s) ∷ t) (u, us) = elim (Bool-cases (text_eq j uri)) [
  | inl e ↦ rw e us
  | inr n ↦ rw n (All-erase_first j uri t u, erase_first-Unique uri t us)
]

append-Unique :
    (uri : Text) (slt : Option Servlet) (t : Table)
    → Unique t
    → All (λ e. text_eq e.0 uri ≡ false) t
    → Unique (t ++ ((uri, slt) ∷ []))
append-Unique uri slt [] u k = (tt, tt)
append-Unique uri slt ((j, s) ∷ t) (u, us) (k, ks) =
    (All-append j t uri slt u (text_eq_sym uri j ∙ k), append-Unique uri slt t us ks)

-- Where each pattern is there but once, `addGlobServlet` keeps it so, and the pattern added is
-- found with its servlet; `delGlobServlet` of it then leaves none.
pub add_glob_servlet-Unique :
    (uri : Text) (slt : Option Servlet) (d : ServletDispatch)
    → Unique d.globs
    → Unique (add_glob_servlet uri slt d).globs
      × (get_glob_servlet uri (add_glob_servlet uri slt d) ≡ slt)
      × (get_glob_servlet uri (del_glob_servlet uri (add_glob_servlet uri slt d)) ≡ none)
unfolding add_glob_servlet get_glob_servlet del_glob_servlet
add_glob_servlet-Unique uri slt d h =
    let t = erase_first uri d.globs in
    let gone = absent-erase_first uri d.globs h in
    let unique = append-Unique uri slt t (erase_first-Unique uri d.globs h) gone in
    (
      unique,
      ap or_null (last_found uri slt t gone),
      ap or_null (
          lookup_absent uri (erase_first uri (t ++ ((uri, slt) ∷ [])))
            (absent-erase_first uri (t ++ ((uri, slt) ∷ [])) unique)),
    )

-- The answer of NotFoundServlet has the status 404, its content as the body, and its server and its
-- type under any spelling of these keys; every other field is as it was before.
pub handle_not_found_lem :
    (content key : Text) (r : HttpResponse)
    → ((handle_not_found content r).status ≡ 404)
      × ((handle_not_found content r).body ≡ content)
      × (same_key key (codes "Content-Type") ≡ true
          → find key (handle_not_found content r).headers ≡ some (codes "text/html"))
      × (same_key key (codes "Server") ≡ true
          → same_key key (codes "Content-Type") ≡ false
          → find key (handle_not_found content r).headers ≡ some (codes "skt/1.0.0"))
      × (same_key key (codes "Server") ≡ false
          → same_key key (codes "Content-Type") ≡ false
          → find key (handle_not_found content r).headers ≡ find key r.headers)
unfolding handle_not_found set_response_header
handle_not_found_lem content key r =
    let first = set (codes "Server") (codes "skt/1.0.0") r.headers in
    let last = find-set_same key (codes "Content-Type") (codes "text/html") first in
    let inner = find-set_same key (codes "Server") (codes "skt/1.0.0") r.headers in
    (
      refl,
      refl,
      λ h. last ∙ rw h refl,
      λ h n. last ∙ rw (n, inner, h) refl,
      λ h n. last ∙ rw (n, inner, h) refl,
    )
