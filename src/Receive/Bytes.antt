-- ===== src/Receive/Bytes.antt =====
-- skt/http and skt/streams: pieces of a text, and a text that is copied to memory piece by piece.
use learn_web.Common.{
  ℕ, zero, suc, ◌+◌, ◌-◌, ◌≤◌, ◌<◌, ◌≡◌, refl, ap, ◌∙◌, arith, [], ◌∷◌, ◌++◌, length, if◌then◌else◌,
  ◌==◌,
}
use learn_web.Http.Texts.{Text}
use learn_web.Receive.Parsers.{take, drop}
use learn_web.Receive.Source.{store, load}

zero_less : (n : ℕ) → n ≡ n - 0
zero_less n = omega arith

one_less_suc : (n m : ℕ) → n - m ≡ suc n - suc m
one_less_suc n m = omega arith

pub take_all : (n : ℕ) (xs : Text) → length xs ≤ n → take n xs ≡ xs
take_all zero [] h = refl
take_all zero (x ∷ xs) h = absurd (omega arith)
take_all (suc n) [] h = refl
take_all (suc n) (x ∷ xs) h = ap (◌∷◌ x) (take_all n xs (omega (arith, h)))

-- A piece that lies in the first part, and one that goes on into the second.
pub take-append_left : (n : ℕ) (xs ys : Text) → n ≤ length xs → take n (xs ++ ys) ≡ take n xs
take-append_left zero xs ys h = refl
take-append_left (suc n) [] ys h = absurd (omega arith)
take-append_left (suc n) (x ∷ xs) ys h = ap (◌∷◌ x) (take-append_left n xs ys (omega (arith, h)))

pub take-append :
    (n : ℕ) (xs ys : Text) → length xs ≤ n → take n (xs ++ ys) ≡ xs ++ take (n - length xs) ys
take-append n [] ys h = ap (λ k. take k ys) (zero_less n)
take-append zero (x ∷ xs) ys h = absurd (omega arith)
take-append (suc n) (x ∷ xs) ys h = ap (◌∷◌ x) (
    take-append n xs ys (omega (arith, h)) ∙ ap (λ k. xs ++ take k ys) (one_less_suc n (length xs)))

pub drop-append_left : (n : ℕ) (xs ys : Text) → n ≤ length xs → drop n (xs ++ ys) ≡ drop n xs ++ ys
drop-append_left zero xs ys h = refl
drop-append_left (suc n) [] ys h = absurd (omega arith)
drop-append_left (suc n) (x ∷ xs) ys h = drop-append_left n xs ys (omega (arith, h))

pub drop-append :
    (n : ℕ) (xs ys : Text) → length xs ≤ n → drop n (xs ++ ys) ≡ drop (n - length xs) ys
drop-append n [] ys h = ap (λ k. drop k ys) (zero_less n)
drop-append zero (x ∷ xs) ys h = absurd (omega arith)
drop-append (suc n) (x ∷ xs) ys h =
    drop-append n xs ys (omega (arith, h)) ∙ ap (λ k. drop k ys) (one_less_suc n (length xs))

pub length-take : (n : ℕ) (xs : Text) → n ≤ length xs → length (take n xs) ≡ n
length-take zero xs h = refl
length-take (suc n) [] h = absurd (omega arith)
length-take (suc n) (x ∷ xs) h = ap suc (length-take n xs (omega (arith, h)))

pub length-drop : (n : ℕ) (xs : Text) → length (drop n xs) ≡ length xs - n
length-drop zero xs = omega arith
length-drop (suc n) [] = omega arith
length-drop (suc n) (x ∷ xs) = omega (arith, length-drop n xs)

pub take-drop : (n : ℕ) (xs ys : Text) → take n xs ++ (drop n xs ++ ys) ≡ xs ++ ys
take-drop zero xs ys = refl
take-drop (suc n) [] ys = refl
take-drop (suc n) (x ∷ xs) ys = ap (◌∷◌ x) (take-drop n xs ys)

pub store_below :
    (at : ℕ) (bytes : Text) (memory : ℕ → ℕ) (i : ℕ) → i < at → store at bytes memory i ≡ memory i
unfolding store
store_below at [] memory i h = refl
store_below at (b ∷ bytes) memory i h =
    store_below (suc at) bytes (λ j. if j == at then b else memory j) i (omega (arith, h))
    ∙ ground (arith, h)

-- What was copied is there, also when the memory behind it has changed.
pub load-store :
    (at : ℕ) (bytes : Text) (memory memory' : ℕ → ℕ)
    → ((i : ℕ) → i < at + length bytes → memory' i ≡ store at bytes memory i)
    → load at (length bytes) memory' ≡ bytes
unfolding load store
load-store at [] memory memory' same = refl
load-store at (b ∷ bytes) memory memory' same =
    let stored = λ (j : ℕ). if j == at then b else memory j in
    let byte : memory' at ≡ b =
      same at (omega arith) ∙ store_below (suc at) bytes stored at (omega arith) ∙ ground arith in
    rw byte
      (ap (◌∷◌ b) (load-store (suc at) bytes stored memory' (λ i h. same i (omega (arith, h)))))

pub load_split :
    (at n m : ℕ) (memory : ℕ → ℕ)
    → load at (n + m) memory ≡ load at n memory ++ load (at + n) m memory
unfolding load
load_split at zero m memory =
    let e : 0 + m ≡ m = omega arith in let f : at + 0 ≡ at = omega arith in rw (e, f) refl
load_split at (suc n) m memory =
    let e : suc n + m ≡ suc (n + m) = omega arith in
    let f : at + suc n ≡ suc at + n = omega arith in
    rw (e, f) (ap (◌∷◌ (memory at)) (load_split (suc at) n m memory))

pub drop_none : (n : ℕ) (xs : Text) → n ≡ 0 → xs ≡ drop n xs
drop_none n xs e = rw e refl

pub take_front : (xs ys : Text) → take (length xs) (xs ++ ys) ≡ xs
take_front [] ys = refl
take_front (x ∷ xs) ys = ap (◌∷◌ x) (take_front xs ys)

pub drop_front : (xs ys : Text) → drop (length xs) (xs ++ ys) ≡ ys
drop_front [] ys = refl
drop_front (x ∷ xs) ys = drop_front xs ys
