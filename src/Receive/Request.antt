-- ===== src/Receive/Request.antt =====
-- skt/http/http_session.cpp: the request that recvRequest returns, and the ones it does not refuse.
use learn_web.Common.{
  ℕ, zero, suc, ◌+◌, ◌-◌, ◌^◌, ◌≤◌, ◌<◌, ◌≡◌, refl, sym, ap, ◌∙◌, arith, true, false, Option, some,
  List, [], ◌∷◌, ◌++◌, length, ◌==◌, Bool-cases, Option-cases, inl, inr, length-append,
}
use learn_web.Common.Outcome.{ok}
use learn_web.Http.Texts.{Text}
use learn_web.Http.Methods.{chars_to_http_method, invalid_method}
use learn_web.Http.Messages.{http_request, set_header}
use learn_web.Receive.Parsers.{
  take, drop, Callback, method, uri, fragment, path, query, version, reason, status, field,
  header_done, chunk, last_chunk, Machine, parser_finish, RequestParser, on_request, on_requests,
  version_of, request_parser, request_excute, request_is_finished, request_has_error,
  request_content_length,
}
use learn_web.Receive.Source.{flat}
use learn_web.Receive.Bytes.{drop_front, drop_none}
use learn_web.Receive.Defs.{read_head, positive64, recv_request}
use learn_web.Receive.Head.{read_head-finished}
use learn_web.Receive.Body.{Sound, open_stream, read_body_lem}

module _ {M : Type 0} where
  -- What the callbacks leave as it is.
  pub record Kept (p q : RequestParser M) : Type 0 where
    pub machine : q.machine ≡ p.machine
    pub body : q.request.body ≡ p.request.body
    pub close : q.request.close ≡ p.request.close

  nothing_changed : (p : RequestParser M) → Kept p p
  nothing_changed p = record { machine = refl; body = refl; close = refl }

  on_request-Kept : (e : Callback) (p : RequestParser M) → Kept p (on_request e p)
  unfolding on_request set_header
  on_request-Kept (method at) p = elim (Bool-cases (chars_to_http_method at == invalid_method)) [
    | inl e ↦ rw e (record { machine = refl; body = refl; close = refl })
    | inr e ↦ rw e (record { machine = refl; body = refl; close = refl })
  ]
  on_request-Kept (version at) p = elim (Option-cases (version_of at)) [
    | inl e ↦ rw (e, on_request) (record { machine = refl; body = refl; close = refl })
    | inr (v, e) ↦ rw (e, on_request) (record { machine = refl; body = refl; close = refl })
  ]
  on_request-Kept (field name value) p = elim (Bool-cases (length name == 0)) [
    | inl e ↦ rw e (nothing_changed p)
    | inr e ↦ rw e (record { machine = refl; body = refl; close = refl })
  ]
  on_request-Kept (fragment at) p = record { machine = refl; body = refl; close = refl }
  on_request-Kept (path at) p = record { machine = refl; body = refl; close = refl }
  on_request-Kept (query at) p = record { machine = refl; body = refl; close = refl }
  on_request-Kept (uri at) p = nothing_changed p
  on_request-Kept (reason at) p = nothing_changed p
  on_request-Kept (status at) p = nothing_changed p
  on_request-Kept header_done p = nothing_changed p
  on_request-Kept chunk p = nothing_changed p
  on_request-Kept last_chunk p = nothing_changed p

  pub on_requests-Kept : (es : List Callback) (p : RequestParser M) → Kept p (on_requests es p)
  unfolding on_requests
  on_requests-Kept [] p = nothing_changed p
  on_requests-Kept (e ∷ es) p =
      let one = on_request-Kept e p in
      let more = on_requests-Kept es (on_request e p) in
      record {
        machine = more.machine ∙ one.machine;
        body = more.body ∙ one.body;
        close = more.close ∙ one.close;
      }

module _ {M : Type 0} (g : Machine M) (buff_size memory : ℕ) where
  -- The text `head` is a whole head for the parser when `tail` stands behind it in the buffer: the
  -- parser goes over just the head, makes the callbacks `es`, and is finished without an error. The
  -- callbacks may have what is in `tail` too, as the method's has.
  pub record IsHead (head tail : Text) (es : List Callback) (m : M) : Type 0 where
    pub goes : g.execute g.init (head ++ tail) ≡ (length head, es, m)
    pub good : g.has_error m ≡ false
    pub finished : g.is_finished m ≡ true

  -- The parser behind the callbacks `es`.
  abbrev pub told : List Callback → M → RequestParser M
  told es m = on_requests es (record (request_parser g memory) { machine = m })

  module _ (head tail : Text) (es : List Callback) (m : M) (h : IsHead head tail es m) where
    excute_lem :
        request_excute g (head ++ tail) (request_parser g memory) ≡ (length head, tail, told es m)
    unfolding request_excute request_parser
    excute_lem = rw (h.goes, drop_front head tail) refl

    told-machine : (told es m).machine ≡ m
    told-machine = (on_requests-Kept es (record (request_parser g memory) { machine = m })).machine

    no_error : request_has_error g (told es m) ≡ false
    unfolding request_has_error
    no_error =
        let e : g.has_error (told es m).machine ≡ false = ap g.has_error told-machine ∙ h.good in
        ground (arith, e)

    all_read : request_is_finished g (told es m) ≡ true
    unfolding request_is_finished parser_finish
    all_read =
        let e : g.has_error (told es m).machine ≡ false = ap g.has_error told-machine ∙ h.good in
        let f : g.is_finished (told es m).machine ≡ true =
          ap g.is_finished told-machine ∙ h.finished in
        rw (e, f) refl

    read_head_lem :
        (later : List (Option Text)) (fuel : ℕ)
        → 1 ≤ length head
        → length (head ++ tail) ≤ buff_size
        → read_head
            (request_excute g)
            (request_has_error g)
            (request_is_finished g)
            buff_size
            (suc fuel)
            []
            (request_parser g memory)
            (open_stream (some (head ++ tail) ∷ later))
          ≡ ok (some (tail, told es m), open_stream later)
    read_head_lem later fuel k b =
        let l : length (head ++ tail) ≡ length head + length tail = length-append head tail in
        read_head-finished (request_excute g) (request_has_error g) (request_is_finished g)
          buff_size fuel (head ++ tail) tail (length head) (request_parser g memory) (told es m)
          later (omega (arith, l, k)) b excute_lem no_error all_read (ground (arith, l, k, b))

  no_body : (es : List Callback) (m : M) → (told es m).request.body ≡ []
  unfolding request_parser http_request
  no_body es m = (on_requests-Kept es (record (request_parser g memory) { machine = m })).body

  -- A request whose head comes with the first recv, of as many bytes as the buffer holds at most, is
  -- received, when every later recv answers bytes, these suffice, and the length of the body is less
  -- than 2^31: its fields are those that the callbacks of the parser set, and its body is
  -- the bytes behind the head, as many as the header content-length says, however the connection
  -- cuts them into pieces. The connection stays open. Of the bytes behind the body, those that came
  -- with the head are lost.
  pub recv_request_lem :
      (cast : Text → Option ℕ) (head tail : Text) (later : List (Option Text)) (es : List Callback)
      (m : M) (fuel : ℕ)
      → IsHead head tail es m
      → 1 ≤ length head
      → length (head ++ tail) ≤ buff_size
      → Sound later
      → request_content_length cast (told es m) ≤ length (tail ++ flat later)
      → request_content_length cast (told es m) < 2 ^ 31
      → request_content_length cast (told es m) < fuel
      → (left : List (Option Text)) × (recv_request g cast memory buff_size fuel
            (open_stream (some (head ++ tail) ∷ later))
          ≡ ok (
            some (record (told es m).request {
              body = take (request_content_length cast (told es m)) (tail ++ flat later);
            }),
            open_stream left,
          ))
        × (flat left ≡ drop (request_content_length cast (told es m) - length tail) (flat later))
  unfolding recv_request
  recv_request_lem cast head tail later es m (suc fuel) h k b s enough small f =
      let size : ℕ = request_content_length cast (told es m) in
      let first = read_head_lem head tail es m h later fuel k b in
      elim (Bool-cases (positive64 size)) [
        | inl e ↦
            let (left, r, x) = read_body_lem (suc fuel) size tail later s enough f small in
            (left, rw (first, e, r) refl, x)
        | inr e ↦
            let z : size ≡ 0 = ground (arith, e, small) in
            (
              later,
              rw (first, e)
                  (ap
                    (λ xs. ok (some (record (told es m).request { body = xs }), open_stream later))
                    (no_body es m ∙ ap (λ n. take n (tail ++ flat later)) (sym z))),
              drop_none (size - length tail) (flat later) (omega (arith, z)),
            )
      ]
  recv_request_lem cast head tail later es m zero h k b s enough small f = absurd (omega (arith, f))

  -- A request that the generated parser reports as malformed is received all the same, unless a
  -- callback has set an error too: what the callbacks have told so far is the request. It comes with
  -- one recv that does not fill the buffer, and names no content-length.
  pub recv_request_malformed :
      (cast : Text → Option ℕ) (text : Text) (later : List (Option Text)) (n : ℕ)
      (es : List Callback) (m : M) (fuel : ℕ)
      → 1 ≤ length text
      → length text < buff_size
      → g.execute g.init text ≡ (n, es, m)
      → g.has_error m ≡ true
      → (told es m).error ≡ 0
      → request_content_length cast (told es m) ≡ 0
      → recv_request g cast memory buff_size (suc fuel) (open_stream (some text ∷ later))
        ≡ ok (some (told es m).request, open_stream later)
  unfolding recv_request request_excute request_parser request_has_error request_is_finished
      parser_finish
  recv_request_malformed cast text later n es m fuel k b e h z l =
      let machine : g.has_error (told es m).machine ≡ true =
        ap g.has_error
          (on_requests-Kept es (record (request_parser g memory) { machine = m })).machine
        ∙ h in
      let first =
        read_head-finished (request_excute g) (request_has_error g) (request_is_finished g)
          buff_size fuel text (drop n text) n (request_parser g memory) (told es m) later k
          (omega (arith, b)) (rw e refl) (rw z refl) (rw machine refl) (ground (arith, k, b)) in
      rw (first, l) refl
