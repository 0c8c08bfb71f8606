-- ===== src/HttpServer/Sending.antt =====
-- skt/http/http_session.cpp: what sendResponse sends.
use learn_web.Common.{
  ℕ, zero, suc, ◌+◌, ◌-◌, ◌%◌, ◌^◌, ◌≤◌, ◌<◌, ◌≡◌, refl, sym, ap, ◌∙◌, arith, true, false, none, [],
  ◌∷◌, ◌++◌, length, append_nil, ◌==◌, sub64, Bool-cases, inl, inr,
}
use learn_web.Common.Integers.{ℤ, pos, signed32}
use learn_web.Common.Outcome.{ok, bind_ok}
use learn_web.Http.Texts.{Text}
use learn_web.Http.Messages.{HttpResponse, dump_response}
use learn_web.Stream.Defs.{to_size, loop_buffer, fix_size_buffer}
use learn_web.Receive.Parsers.{take, drop}
use learn_web.Receive.Bytes.{take_all, length-drop}
use learn_web.HttpServer.Session.{Session, stream_write, send_response}

-- send of the system takes some of the bytes that it is given, one at least when there is one.
unfoldable pub Sends : (Text → Text → ℤ) → Type 0
Sends send =
    (sent bytes : Text)
    → 1 ≤ length bytes
    → (n : ℕ) × (send sent bytes ≡ pos n) × (1 ≤ n) × (n ≤ length bytes)

drop_end : (n : ℕ) (xs : Text) → length xs ≤ n → drop n xs ≡ []
drop_end zero [] h = refl
drop_end zero (x ∷ xs) h = absurd (omega (arith, h))
drop_end (suc n) [] h = refl
drop_end (suc n) (x ∷ xs) h = drop_end n xs (omega (arith, h))

drop_nil : (k : ℕ) → drop k [] ≡ []
drop_nil zero = refl
drop_nil (suc k) = refl

drop_more : (n k : ℕ) (xs : Text) → drop (n + k) xs ≡ drop k (drop n xs)
drop_more zero k xs = let e : 0 + k ≡ k = omega arith in rw e refl
drop_more (suc n) k [] = let e : suc n + k ≡ suc (n + k) = omega arith in rw e (sym (drop_nil k))
drop_more (suc n) k (x ∷ xs) =
    let e : suc n + k ≡ suc (n + k) = omega arith in rw e (drop_more n k xs)

whole_again : (n : ℕ) (xs : Text) → take n xs ++ drop n xs ≡ xs
whole_again zero xs = refl
whole_again (suc n) [] = refl
whole_again (suc n) (x ∷ xs) = ap (◌∷◌ x) (whole_again n xs)

append_assoc : (xs ys zs : Text) → (xs ++ ys) ++ zs ≡ xs ++ (ys ++ zs)
append_assoc [] ys zs = refl
append_assoc (x ∷ xs) ys zs = ap (◌∷◌ x) (append_assoc xs ys zs)

-- A round of the loop whose call has moved `n` bytes.
round :
    {S : Type 0} (call : ℕ → ℕ → S → ℤ × S) (fuel offset left n : ℕ) (s t : S)
    → call offset left s ≡ (pos n, t)
    → 1 ≤ n
    → n ≤ left
    → offset + left < 2 ^ 64
    → loop_buffer call (suc fuel) offset left s ≡ loop_buffer call fuel (offset + n) (left - n) t
unfolding loop_buffer to_size
round call fuel offset left n s t e more fits b =
    let go : (left == 0) ≡ false = ground (arith, more, fits) in
    let moved : (n == 0) ≡ false = ground (arith, more) in
    let far : (offset + n) % 2 ^ 64 ≡ offset + n = omega (arith, fits, b) in
    let less : sub64 left n ≡ left - n = ground (arith, fits, b) in
    rw (go, e, moved, far, less) refl

written :
    (send : Text → Text → ℤ) (bytes : Text) (s : Session) (n : ℕ)
    → s.socket.connected ≡ true
    → send s.sent bytes ≡ pos n
    → stream_write send bytes s ≡ (pos n, record s { sent = s.sent ++ take n bytes })
unfolding stream_write
written send bytes s n c e = simp (c, e) refl

module _ (send : Text → Text → ℤ) (content : Text) where
  -- The call of writeFixSize.
  abbrev writes : ℕ → ℕ → Session → ℤ × Session
  writes offset left u = stream_write send (take left (drop offset content)) u

  abbrev having_sent : ℕ → Session → Session
  having_sent offset s = record s { sent = s.sent ++ drop offset content }

  all_sent :
      (h : Sends send) (fuel offset left : ℕ) (s : Session)
      → s.socket.connected ≡ true
      → offset + left ≡ length content
      → length content < 2 ^ 64
      → left < fuel
      → loop_buffer writes fuel offset left s ≡ ok (none, having_sent offset s)
  unfolding loop_buffer Sends
  all_sent h zero offset left s c e b f = absurd (omega (arith, f))
  all_sent h (suc fuel) offset left s c e b f = elim (Bool-cases (left == 0)) [
    | inl z ↦ rw (z, drop_end offset content (ground (arith, e, z)), append_nil s.sent) refl
    | inr z ↦
        let bytes : Text = drop offset content in
        let l : length bytes ≡ left = omega (arith, length-drop offset content, e) in
        let (n, answer, more, fits) = h s.sent bytes (ground (arith, l, z)) in
        let given : take left bytes ≡ bytes = take_all left bytes (omega (arith, l)) in
        let step : writes offset left s ≡ (pos n, record s { sent = s.sent ++ take n bytes }) =
          ap (λ x. stream_write send x s) given ∙ written send bytes s n c answer in
        let rest =
          all_sent h fuel (offset + n) (left - n) (record s { sent = s.sent ++ take n bytes }) c
            (omega (arith, e, fits, l)) b (omega (arith, f, more, z)) in
        let whole : (s.sent ++ take n bytes) ++ drop (offset + n) content ≡ s.sent ++ bytes =
          append_assoc s.sent (take n bytes) (drop (offset + n) content)
          ∙ ap (λ x. s.sent ++ x)
              (ap (λ x. take n bytes ++ x) (drop_more offset n content) ∙ whole_again n bytes) in
        round writes fuel offset left n s (record s { sent = s.sent ++ take n bytes }) step more
          (omega (arith, fits, l)) (omega (arith, e, b))
        ∙ rest
        ∙ ap (λ x. ok (none, record s { sent = x })) whole
  ]

-- sendResponse sends the text of the response, whole and once, and answers its length as an int, on
-- an open connection.
pub send_response_lem :
    (send : Text → Text → ℤ) (fuel : ℕ) (rsp : HttpResponse) (s : Session)
    → Sends send
    → s.socket.connected ≡ true
    → length (dump_response rsp) < 2 ^ 64
    → length (dump_response rsp) < fuel
    → send_response send fuel rsp s
      ≡ ok (signed32 (length (dump_response rsp)), record s { sent = s.sent ++ dump_response rsp })
unfolding send_response fix_size_buffer
send_response_lem send fuel rsp s h c b f =
    bind_ok _ _ _
      (all_sent send (dump_response rsp) h fuel 0 (length (dump_response rsp)) s c (omega arith) b
        f)
      refl
