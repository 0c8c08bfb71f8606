-- ===== src/Uri/Defs.antt =====
-- skt/uri/uri.h and uri.rl: Uri, behind the parser. The port is a number, as Uri::Create makes it.
use learn_web.Common.{
  ℕ, Bool, true, false, ◌||◌, Option, none, some, [], ◌∷◌, ◌++◌, if◌then◌else◌, ◌==◌,
}
use learn_web.Http.Texts.{Text, codes, text_eq, decimal}

pub record Uri : Type 0 where
  pub scheme : Text
  pub userinfo : Text
  pub host : Text
  pub path : Text
  pub query : Text
  pub fragment : Text
  pub port : ℕ

abbrev pub no_text : Text → Bool
no_text [] = true
no_text (c ∷ cs) = false

-- Uri::isDefaultPort
unfoldable pub is_default_port : Uri → Bool
is_default_port u =
    if u.port == 0
    then true
    else if text_eq u.scheme (codes "http") || text_eq u.scheme (codes "ws")
    then u.port == 80
    else if text_eq u.scheme (codes "https") || text_eq u.scheme (codes "wss")
    then u.port == 443
    else false

-- Uri::getPath
unfoldable pub get_path : Uri → Text
get_path u = if no_text u.path then codes "/" else u.path

-- Uri::getPort
unfoldable pub get_port : Uri → ℕ
get_port u =
    if u.port == 0
    then (if text_eq u.scheme (codes "http") || text_eq u.scheme (codes "ws")
        then 80
        else if text_eq u.scheme (codes "https") || text_eq u.scheme (codes "wss")
        then 443
        else u.port)
    else u.port

-- A part of the text, with the mark before it, when it is not empty.
abbrev pub marked : Text → Text → Text
marked mark part = (if no_text part then [] else mark) ++ part

-- Uri::dump and toString
unfoldable pub dump : Uri → Text
dump u =
    u.scheme
    ++ (codes "://"
        ++ (u.userinfo
            ++ ((if no_text u.userinfo then [] else codes "@")
                ++ (u.host
                    ++ ((if is_default_port u then [] else codes ":" ++ decimal u.port)
                        ++ (get_path u
                            ++ (marked (codes "?") u.query ++ marked (codes "#") u.fragment)))))))

-- Uri::createAddress, over Address::LookupAnyIPAddress and IPAddress::setPort
unfoldable pub create_address : {A : Type 0} → (Text → Option A) → (ℕ → A → A) → Uri → Option A
create_address look_up set_port u = elim (look_up u.host) [
  | none ↦ none
  | some addr ↦ some (set_port (get_port u) addr)
]
