-- ===== src/Receive/Answer.antt =====
-- skt/http/http_connection.cpp: the response of a known length that recvResponse returns.
use learn_web.Common.{
  ℕ, suc, ◌≤◌, ◌≡◌, refl, ap, ◌∙◌, arith, true, false, not, ◌||◌, Option, none, some, List, [], ◌∷◌,
  ◌++◌, length, ◌==◌, Bool-cases, Option-cases, inl, inr,
}
use learn_web.Common.Outcome.{ok}
use learn_web.Http.Texts.{Text}
use learn_web.Http.Messages.{set_response_header}
use learn_web.Receive.Parsers.{
  drop, Callback, method, uri, fragment, path, query, version, reason, status, field, header_done,
  chunk, last_chunk, Machine, version_of, ResponseParser, on_response, on_responses,
  response_parser, response_excute, response_is_finished, response_has_error,
}
use learn_web.Receive.Source.{close}
use learn_web.Receive.Response.{ClientFields, recv_response}
use learn_web.Receive.Head.{read_head-refused}
use learn_web.Receive.Body.{open_stream}

module _ {M : Type 0} (atoi : Text → ℕ) where
  -- What the callbacks leave as it is.
  record Kept (p q : ResponseParser M) : Type 0 where
    machine : q.machine ≡ p.machine
    body : q.response.body ≡ p.response.body

  nothing_changed : (p : ResponseParser M) → Kept p p
  nothing_changed p = record { machine = refl; body = refl }

  on_response-Kept : (e : Callback) (p : ResponseParser M) → Kept p (on_response atoi e p)
  unfolding on_response set_response_header
  on_response-Kept (version at) p = elim (Option-cases (version_of at)) [
    | inl e ↦ rw (e, on_response) (record { machine = refl; body = refl })
    | inr (v, e) ↦ rw (e, on_response) (record { machine = refl; body = refl })
  ]
  on_response-Kept (field name value) p = elim (Bool-cases (length name == 0)) [
    | inl e ↦ rw e (nothing_changed p)
    | inr e ↦ rw e (record { machine = refl; body = refl })
  ]
  on_response-Kept (reason at) p = record { machine = refl; body = refl }
  on_response-Kept (status at) p = record { machine = refl; body = refl }
  on_response-Kept (method at) p = nothing_changed p
  on_response-Kept (uri at) p = nothing_changed p
  on_response-Kept (fragment at) p = nothing_changed p
  on_response-Kept (path at) p = nothing_changed p
  on_response-Kept (query at) p = nothing_changed p
  on_response-Kept header_done p = nothing_changed p
  on_response-Kept chunk p = nothing_changed p
  on_response-Kept last_chunk p = nothing_changed p

  on_responses-Kept : (es : List Callback) (p : ResponseParser M) → Kept p (on_responses atoi es p)
  unfolding on_responses
  on_responses-Kept [] p = nothing_changed p
  on_responses-Kept (e ∷ es) p =
      let one = on_response-Kept e p in
      let more = on_responses-Kept es (on_response atoi e p) in
      record { machine = more.machine ∙ one.machine; body = more.body ∙ one.body }

module _ {M : Type 0} (g : Machine M) (c : ClientFields M) (atoi : Text → ℕ) (buff_size : ℕ) where
  -- The text `head` is a whole head for the client's parser when `tail` stands behind it in the
  -- buffer, of a response that is not chunked.
  pub record IsResponseHead (head tail : Text) (es : List Callback) (m : M) : Type 0 where
    pub goes : g.execute g.init (head ++ tail) ≡ (length head, es, m)
    pub good : g.has_error m ≡ false
    pub finished : g.is_finished m ≡ true
    pub whole : c.chunked m ≡ false

  -- The parser behind the callbacks `es`.
  abbrev pub answered_by : List Callback → M → ResponseParser M
  answered_by es m = on_responses atoi es (record (response_parser g) { machine = m })

  by-machine : (es : List Callback) (m : M) → (answered_by es m).machine ≡ m
  by-machine es m = (on_responses-Kept atoi es (record (response_parser g) { machine = m })).machine

  excute_lem :
      (text : Text) (n : ℕ) (es : List Callback) (m : M)
      → g.execute g.init text ≡ (n, es, m)
      → response_excute g atoi text false (response_parser g) ≡ (n, drop n text, answered_by es m)
  unfolding response_excute response_parser
  excute_lem text n es m e = rw e refl

  -- A response that the generated parser reports as malformed, or one of whose callbacks sets an
  -- error, is not received, and the connection is closed. It comes with one recv.
  pub recv_response_refused :
      (cast : Text → Option ℕ) (text : Text) (later : List (Option Text)) (n : ℕ)
      (es : List Callback) (m : M) (fuel : ℕ)
      → 1 ≤ length text
      → length text ≤ buff_size
      → g.execute g.init text ≡ (n, es, m)
      → (g.has_error m || not ((answered_by es m).error == 0)) ≡ true
      → recv_response g c atoi cast buff_size (suc fuel) (open_stream (some text ∷ later))
        ≡ ok (none, close (open_stream later))
  unfolding recv_response response_has_error
  recv_response_refused cast text later n es m fuel k b e h =
      let bad : response_has_error g (answered_by es m) ≡ true =
        ground (arith, ap g.has_error (by-machine es m), h) in
      rw
        (read_head-refused (λ text q. response_excute g atoi text false q) (response_has_error g)
          (response_is_finished g) buff_size fuel text (drop n text) n (response_parser g)
          (answered_by es m) later k b (excute_lem text n es m e) bad)
        refl
