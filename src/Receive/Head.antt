-- ===== src/Receive/Head.antt =====
-- skt/http/http_session.cpp and http_connection.cpp: a head that comes with one recv.
use learn_web.Common.{
  ℕ, suc, ◌-◌, ◌≤◌, ◌≡◌, refl, arith, Bool, true, false, Option, none, some, List, [], ◌∷◌, leb,
  length, ◌==◌, ◌∙◌,
}
use learn_web.Common.Integers.{pos}
use learn_web.Common.Outcome.{Outcome, ok}
use learn_web.Http.Texts.{Text}
use learn_web.Receive.Source.{SocketStream, recv, stream_read, close}
use learn_web.Receive.Defs.{after_read, answered, read_head}
use learn_web.Receive.Body.{open_stream}

one_read :
    (buff_size : ℕ) (text : Text) (later : List (Option Text))
    → length text ≤ buff_size
    → stream_read (buff_size - 0) (open_stream (some text ∷ later))
      ≡ (pos (length text), text, open_stream later)
unfolding stream_read recv
one_read buff_size text later b =
    let e : leb (length text) (buff_size - 0) ≡ true = ground (arith, b) in rw e refl

module _ {P : Type 0} (excute : Text → P → ℕ × Text × P) (has_error is_finished : P → Bool)
    (buff_size fuel : ℕ) (text left : Text) (n : ℕ) (p q : P) (later : List (Option Text)) where
  after_one : Option (Option (Text × P)) → SocketStream → Outcome (Option (Text × P) × SocketStream)
  after_one decided t =
      answered (pos (length text)) decided t
        (read_head excute has_error is_finished buff_size fuel left q t)

  -- The loop goes on by what it makes of the bytes of its first read.
  read_head-after_one :
      (decided : Option (Option (Text × P)))
      → 1 ≤ length text
      → length text ≤ buff_size
      → ((t : SocketStream)
          → after_read excute has_error is_finished buff_size text p t ≡ (decided, left, q))
      → read_head excute has_error is_finished buff_size
          (suc fuel)
          []
          p
          (open_stream (some text ∷ later))
        ≡ after_one decided (open_stream later)
  unfolding read_head after_one
  read_head-after_one decided k b e =
      rw (one_read buff_size text later b, e (open_stream later)) refl

  -- The head is finished.
  pub read_head-finished :
      1 ≤ length text
      → length text ≤ buff_size
      → excute text p ≡ (n, left, q)
      → has_error q ≡ false
      → is_finished q ≡ true
      → (length text - n == buff_size) ≡ false
      → read_head excute has_error is_finished buff_size
          (suc fuel)
          []
          p
          (open_stream (some text ∷ later))
        ≡ ok (some (left, q), open_stream later)
  unfolding after_one answered after_read
  read_head-finished k b e h f room =
      let some_text : (length text == 0) ≡ false = ground (arith, k) in
      read_head-after_one (some (some (left, q))) k b (λ t. rw (e, h, room, f) refl)
      ∙ rw some_text refl

  -- The parser reports an error: nothing is received, and the connection is closed.
  pub read_head-refused :
      1 ≤ length text
      → length text ≤ buff_size
      → excute text p ≡ (n, left, q)
      → has_error q ≡ true
      → read_head excute has_error is_finished buff_size
          (suc fuel)
          []
          p
          (open_stream (some text ∷ later))
        ≡ ok (none, close (open_stream later))
  unfolding after_one answered after_read
  read_head-refused k b e h =
      let some_text : (length text == 0) ≡ false = ground (arith, k) in
      read_head-after_one (some none) k b (λ t. rw (e, h) refl) ∙ rw some_text refl
