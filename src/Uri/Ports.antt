-- ===== src/Uri/Ports.antt =====
-- skt/uri/uri.rl: the port that the text of a Uri leaves out.
use learn_web.Common.{◌≡◌, arith, ◌||◌, ◌==◌, Bool-cases, inl, inr}
use learn_web.Http.Texts.{codes, text_eq}
use learn_web.Uri.Defs.{Uri, is_default_port, get_port}

-- dump leaves the port out just when that loses nothing: it does so when the port is zero, or the
-- same Uri with the port zero would connect to the same port; and otherwise that Uri would connect
-- to another port.
pub is_default_port_lem :
    (u : Uri) → is_default_port u ≡ (get_port (record u { port = 0 }) == get_port u)
unfolding is_default_port get_port
is_default_port_lem u = elim (Bool-cases (u.port == 0)) [
  | inl e ↦ ground (arith, e)
  | inr e ↦ elim (Bool-cases (text_eq u.scheme (codes "http") || text_eq u.scheme (codes "ws"))) [
    | inl h ↦ ground (arith, e, h)
    | inr h ↦
        elim (Bool-cases (text_eq u.scheme (codes "https") || text_eq u.scheme (codes "wss"))) [
          | inl s ↦ ground (arith, e, h, s)
          | inr s ↦ ground (arith, e, h, s)
        ]
  ]
]
