-- ===== src/Receive/Chunk.antt =====
-- skt/http/http_connection.cpp: a chunk of a response, as recvResponse puts it together.
use learn_web.Common.{
  ℕ, zero, suc, ◌+◌, ◌-◌, ◌≤◌, ◌<◌, ◌≡◌, refl, sym, ap, ◌∙◌, arith, true, false, Option, some, List,
  [], ◌∷◌, ◌++◌, if◌then◌else◌, ltb, leb, length, ◌==◌, Bool-cases, inl, inr, length-append,
}
use learn_web.Common.Outcome.{Outcome, ok}
use learn_web.Http.Texts.{Text}
use learn_web.Receive.Parsers.{take, drop}
use learn_web.Receive.Source.{SocketStream, flat}
use learn_web.Receive.Response.{read_rest, read_chunk}
use learn_web.Receive.Bytes.{take_front, take-append, drop-append}
use learn_web.Receive.Body.{Sound, open_stream, Got, read_lem}

append_assoc : (xs ys zs : Text) → (xs ++ ys) ++ zs ≡ xs ++ (ys ++ zs)
append_assoc [] ys zs = refl
append_assoc (x ∷ xs) ys zs = ap (◌∷◌ x) (append_assoc xs ys zs)

append_nothing : (xs : Text) → xs ≡ xs ++ []
append_nothing [] = refl
append_nothing (x ∷ xs) = ap (◌∷◌ x) (append_nothing xs)

-- What the loop for the rest of a chunk comes to.
abbrev Rest : ℕ → Text → List (Option Text) → Outcome (Option Text × SocketStream) → Type 0
Rest left body incoming o =
    (later : List (Option Text)) × (o
      ≡ ok (some (body ++ take left (flat incoming)), open_stream later))
    × (flat later ≡ drop left (flat incoming))

module _ (buff_size : ℕ) (room : 1 ≤ buff_size) where
  -- The bytes that a round of the loop asks for.
  abbrev least : ℕ → ℕ
  least left = if ltb buff_size left then buff_size else left

  module _ (left : ℕ) (body : Text) (incoming : List (Option Text))
      (g : Got (least left) incoming) where
    rest_step :
        (fuel : ℕ)
        → (left == 0) ≡ false
        → read_rest buff_size (suc fuel) left body (open_stream incoming)
          ≡ read_rest buff_size fuel (left - length g.bytes) (body ++ g.bytes) (open_stream g.later)
    unfolding read_rest
    rest_step fuel e =
        let z : (length g.bytes == 0) ≡ false = ground (arith, g.some_bytes) in
        rw (e, g.answer, z, g.answer) refl

    Rest-round :
        {r r' : Outcome (Option Text × SocketStream)}
        → length g.bytes ≤ left
        → r ≡ r'
        → Rest (left - length g.bytes) (body ++ g.bytes) g.later r'
        → Rest left body incoming r
    Rest-round fits e (later, o, x) =
        let joined : (body ++ g.bytes) ++ take (left - length g.bytes) (flat g.later)
            ≡ body ++ take left (flat incoming) =
          append_assoc body g.bytes (take (left - length g.bytes) (flat g.later))
          ∙ ap (λ xs. body ++ xs)
              (sym (take-append left g.bytes (flat g.later) fits) ∙ ap (take left) (sym g.next)) in
        (
          later,
          e ∙ o ∙ ap (λ xs. ok (some xs, open_stream later)) joined,
          x ∙ sym (drop-append left g.bytes (flat g.later) fits) ∙ ap (drop left) (sym g.next),
        )

  pub read_rest_lem :
      (fuel left : ℕ) (body : Text) (incoming : List (Option Text))
      → Sound incoming
      → left ≤ length (flat incoming)
      → left < fuel
      → Rest left body incoming (read_rest buff_size fuel left body (open_stream incoming))
  unfolding read_rest
  read_rest_lem zero left body incoming s h k = absurd (omega (arith, k))
  read_rest_lem (suc fuel) left body incoming s h k = elim (Bool-cases (left == 0)) [
    | inl e ↦
        let z : left ≡ 0 = ground (arith, e) in
        (
          incoming,
          rw (e, z) (ap (λ xs. ok (some xs, open_stream incoming)) (append_nothing body)),
          rw z refl,
        )
    | inr e ↦
        let g = read_lem (least left) incoming s (ground (arith, e, room)) (ground (arith, e, h)) in
        let fits : length g.bytes ≤ left = ground (arith, g.at_most) in
        let l : length (flat incoming) ≡ length g.bytes + length (flat g.later) =
          ap length g.next ∙ length-append g.bytes (flat g.later) in
        Rest-round left body incoming g fits (rest_step left body incoming g fuel e) (
          read_rest_lem fuel (left - length g.bytes) (body ++ g.bytes) g.later g.sound
            (omega (arith, l, h)) (omega (arith, g.some_bytes, fits, k)))
  ]

  -- A chunk that the buffer has whole, with the two bytes of its end behind it, is added to the body
  -- as it is; the buffer is empty then, and nothing is read.
  pub read_chunk_whole :
      (fuel : ℕ) (body chunk end : Text) (s : SocketStream)
      → length end ≡ 2
      → read_chunk buff_size fuel (length chunk) body (chunk ++ end) s
        ≡ ok (some (body ++ chunk, []), s)
  unfolding read_chunk
  read_chunk_whole fuel body chunk end s h =
      let n : length (chunk ++ end) - 2 ≡ length chunk =
        omega (arith, length-append chunk end, h) in
      let big : ltb (length (chunk ++ end)) 2 ≡ false =
        ground (arith, length-append chunk end, h) in
      let fits : leb (length chunk) (length chunk) ≡ true = ground arith in
      let none_left : length chunk - length chunk ≡ 0 = omega arith in
      rw (big, n, fits, none_left, take_front chunk end) refl

  -- A chunk of which the buffer has the part `front`, of two bytes at least, and not the rest `back`,
  -- is added without the last two bytes of `front`, and with two bytes too many behind `back`: those
  -- that follow it in the connection. The loop for the rest has rounds enough, and every recv
  -- answers bytes.
  pub read_chunk_cut :
      (fuel : ℕ) (body front back : Text) (incoming : List (Option Text))
      → 2 ≤ length front
      → Sound incoming
      → length back + 2 ≤ length (flat incoming)
      → length back + 2 < fuel
      → (later : List (Option Text)) × (read_chunk buff_size fuel
            (length front + length back)
            body
            front
            (open_stream incoming)
          ≡ ok (
            some (
              (body ++ take (length front - 2) front) ++ take (length back + 2) (flat incoming),
              [],
            ),
            open_stream later,
          ))
  unfolding read_chunk
  read_chunk_cut fuel body front back incoming h s k f =
      let big : ltb (length front) 2 ≡ false = ground (arith, h) in
      let more : leb (length front + length back) (length front - 2) ≡ false = ground (arith, h) in
      let n : length front + length back - (length front - 2) ≡ length back + 2 =
        omega (arith, h) in
      let (later, o, x) =
        read_rest_lem fuel (length back + 2) (body ++ take (length front - 2) front) incoming s k
          f in
      (later, rw (big, more, n, o) refl)
