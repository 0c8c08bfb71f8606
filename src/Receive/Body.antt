-- ===== src/Receive/Body.antt =====
-- skt/http/http_session.cpp and http_connection.cpp: the body of a message of a known length.
use learn_web.Common.{
  ℕ, zero, suc, ◌+◌, ◌-◌, ◌^◌, ◌%◌, ◌≤◌, ◌<◌, ◌≡◌, refl, sym, ap, ◌∙◌, arith, true, false, Option,
  none, some, List, [], ◌∷◌, ◌++◌, ltb, leb, length, ◌==◌, sub64, Bool-cases, inl, inr,
  length-append,
}
use learn_web.Common.Integers.{ℤ, pos, signed32}
use learn_web.Common.Outcome.{Outcome, ok, bind_ok}
use learn_web.Stream.Defs.{to_size, loop_buffer, fix_size_buffer}
use learn_web.Http.Texts.{Text}
use learn_web.Receive.Parsers.{take, drop}
use learn_web.Receive.Source.{SocketStream, recv, stream_read, flat, store, load}
use learn_web.Receive.Bytes.{
  take-append_left, take-append, drop-append, length-take, length-drop, take-drop, store_below,
  load-store, load_split, drop_none,
}
use learn_web.Receive.Defs.{read_into, read_body}

-- Every recv that is to come has a byte at least, and none fails.
abbrev pub Sound : List (Option Text) → Type 0
Sound [] = Unit
Sound (none ∷ later) = ⊥
Sound (some bytes ∷ later) = (1 ≤ length bytes) × Sound later

abbrev pub open_stream : List (Option Text) → SocketStream
open_stream incoming = record { connected = true; incoming = incoming }

-- A read of a sound stream with bytes to come: it answers as many as it has, and they are the next.
pub record Got (n : ℕ) (incoming : List (Option Text)) : Type 0 where
  pub bytes : Text
  pub later : List (Option Text)
  pub answer : stream_read n (open_stream incoming) ≡ (pos (length bytes), bytes, open_stream later)
  pub some_bytes : 1 ≤ length bytes
  pub at_most : length bytes ≤ n
  pub next : flat incoming ≡ bytes ++ flat later
  pub sound : Sound later

pub read_lem :
    (n : ℕ) (incoming : List (Option Text))
    → Sound incoming
    → 1 ≤ n
    → 1 ≤ length (flat incoming)
    → Got n incoming
unfolding stream_read recv flat
read_lem n [] s h k = absurd (omega arith)
read_lem n (none ∷ later) s h k = absurd s
read_lem n (some bytes ∷ later) (b, s) h k = elim (Bool-cases (leb (length bytes) n)) [
  | inl e ↦ record {
    bytes = bytes;
    later = later;
    answer = rw e refl;
    some_bytes = b;
    at_most = ground (arith, e);
    next = refl;
    sound = s;
  }
  | inr e ↦
      let l : length (take n bytes) ≡ n = length-take n bytes (ground (arith, e)) in
      record {
        bytes = take n bytes;
        later = some (drop n bytes) ∷ later;
        answer = rw (e, l) refl;
        some_bytes = omega (arith, l, h);
        at_most = omega (arith, l);
        next = sym (take-drop n bytes (flat later));
        sound = (ground (arith, length-drop n bytes, e), s);
      }
]

-- The end of the loop of readFixSize that copied `left` bytes.
pub record Filled (offset left : ℕ) (incoming : List (Option Text)) (memory : ℕ → ℕ)
    (o : Outcome (Option ℤ × (SocketStream × (ℕ → ℕ)))) : Type 0 where
  pub later : List (Option Text)
  pub after : ℕ → ℕ
  pub ends : o ≡ ok (none, (open_stream later, after))
  pub below : (i : ℕ) → i < offset → after i ≡ memory i
  pub copied : load offset left after ≡ take left (flat incoming)
  pub rest : flat later ≡ drop left (flat incoming)

module _ (offset left : ℕ) (incoming : List (Option Text)) (memory : ℕ → ℕ)
    (g : Got left incoming) where
  abbrev more : ℕ
  more = length g.bytes

  -- A round of the loop that goes on.
  loop_step :
      (fuel : ℕ)
      → (left == 0) ≡ false
      → offset + left < 2 ^ 63
      → loop_buffer read_into (suc fuel) offset left (open_stream incoming, memory)
        ≡ loop_buffer read_into fuel
            (offset + more)
            (left - more)
            (open_stream g.later, store offset g.bytes memory)
  unfolding loop_buffer to_size read_into
  loop_step fuel e b =
      let z : (more == 0) ≡ false = ground (arith, g.some_bytes) in
      let l : sub64 left more ≡ left - more = ground (arith, g.at_most) in
      let o : (offset + more) % 2 ^ 64 ≡ offset + more = omega (arith, g.at_most, b) in
      rw (e, g.answer, z, l, o) refl

  Filled-round :
      {r r' : Outcome (Option ℤ × (SocketStream × (ℕ → ℕ)))}
      → r ≡ r'
      → Filled (offset + more) (left - more) g.later (store offset g.bytes memory) r'
      → Filled offset left incoming memory r
  Filled-round e f =
      let parts : more + (left - more) ≡ left = omega (arith, g.at_most) in
      let mine : load offset more f.after ≡ g.bytes =
        load-store offset g.bytes memory f.after (λ i h. f.below i h) in
      record {
        later = f.later;
        after = f.after;
        ends = e ∙ f.ends;
        below = λ i h. f.below i (omega (arith, h)) ∙ store_below offset g.bytes memory i h;
        copied =
            ap (λ n. load offset n f.after) (sym parts)
            ∙ load_split offset more (left - more) f.after
            ∙ ap (λ xs. xs ++ load (offset + more) (left - more) f.after) mine
            ∙ ap (λ ys. g.bytes ++ ys) f.copied
            ∙ sym (take-append left g.bytes (flat g.later) g.at_most)
            ∙ ap (take left) (sym g.next);
        rest =
            f.rest
            ∙ sym (drop-append left g.bytes (flat g.later) g.at_most)
            ∙ ap (drop left) (sym g.next);
      }

loop-Filled :
    (fuel offset left : ℕ) (incoming : List (Option Text)) (memory : ℕ → ℕ)
    → Sound incoming
    → left ≤ length (flat incoming)
    → left < fuel
    → offset + left < 2 ^ 63
    → Filled offset left incoming memory
        (loop_buffer read_into fuel offset left (open_stream incoming, memory))
unfolding loop_buffer load
loop-Filled zero offset left incoming memory s h k b = absurd (omega (arith, k))
loop-Filled (suc fuel) offset left incoming memory s h k b = elim (Bool-cases (left == 0)) [
  | inl e ↦
      let z : left ≡ 0 = ground (arith, e) in
      record {
        later = incoming;
        after = memory;
        ends = rw e refl;
        below = λ i j. refl;
        copied = rw z refl;
        rest = rw z refl;
      }
  | inr e ↦
      let g = read_lem left incoming s (ground (arith, e)) (ground (arith, e, h)) in
      let l : length (flat incoming) ≡ length g.bytes + length (flat g.later) =
        ap length g.next ∙ length-append g.bytes (flat g.later) in
      Filled-round offset left incoming memory g (loop_step offset left incoming memory g fuel e b)
        (loop-Filled fuel (offset + length g.bytes) (left - length g.bytes) g.later
          (store offset g.bytes memory) g.sound (omega (arith, l, h))
          (omega (arith, g.some_bytes, g.at_most, k)) (omega (arith, g.at_most, b)))
]

signed32_small : (n : ℕ) → n < 2 ^ 31 → signed32 n ≡ pos n
signed32_small n h =
    let m : n % 2 ^ 32 ≡ n = omega (arith, h) in
    let l : ltb n (2 ^ 31) ≡ true = ground (arith, h) in rw (m, l) refl

-- The body, from what the buffer keeps and what is still to come.
pub read_body_lem :
    (fuel size : ℕ) (kept : Text) (incoming : List (Option Text))
    → Sound incoming
    → size ≤ length (kept ++ flat incoming)
    → size < fuel
    → size < 2 ^ 31
    → (later : List (Option Text)) × (read_body fuel size kept (open_stream incoming)
        ≡ ok (some (take size (kept ++ flat incoming)), open_stream later))
      × (flat later ≡ drop (size - length kept) (flat incoming))
unfolding read_body fix_size_buffer
read_body_lem fuel size kept incoming s h k b = elim (Bool-cases (size - length kept == 0)) [
  | inl e ↦ (
    incoming,
    rw (e, take-append_left size kept (flat incoming) (ground (arith, e))) refl,
    drop_none (size - length kept) (flat incoming) (ground (arith, e)),
  )
  | inr e ↦
      let left : ℕ = size - length kept in
      let f =
        loop-Filled fuel 0 left incoming (λ i. 0) s
          (omega (arith, h, length-append kept (flat incoming))) (omega arith) (omega arith) in
      let filled : fix_size_buffer fuel read_into left (open_stream incoming, λ i. 0)
          ≡ ok (pos left, (open_stream f.later, f.after)) =
        bind_ok _ _ _ f.ends (rw (signed32_small left (omega arith)) refl) in
      let whole : kept ++ load 0 left f.after ≡ take size (kept ++ flat incoming) =
        ap (λ xs. kept ++ xs) f.copied
        ∙ sym (take-append size kept (flat incoming) (ground (arith, e))) in
      (f.later, rw e (bind_ok _ _ _ filled (rw (e, whole) refl)), f.rest)
]
