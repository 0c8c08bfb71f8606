-- ===== src/Address/Bits.antt =====
-- skt/address/address.cpp: the bitwise operations on words of bytes that are swapped, and on masks.
use learn_web.Common.{ℕ, zero, suc, ◌+◌, ◌-◌, ◌*◌, ◌/◌, ◌%◌, ◌<◌, ◌≡◌, refl, sym, ap, ◌∙◌, arith}
use learn_web.Endian.{byte_of, byte_of-lt, byteswap, word_of, word_of_ext}

-- An operation takes its operands apart at the digit of the weight `m`, and stays below it.
pub record Splits (op : ℕ → ℕ → ℕ) (m : ℕ) : Type 0 where
  pub apart : (a b : ℕ) → op a b ≡ op (a / m) (b / m) * m + op (a % m) (b % m)
  pub below : (a b : ℕ) → a < m → b < m → op a b < m

-- A digit of the weight `n` is two digits of the weight `m`.
record Twice (m n : ℕ) : Type 0 where
  high : (a : ℕ) → a / m / m ≡ a / n
  middle : (a : ℕ) → a % n / m ≡ a / m % m
  low : (a : ℕ) → a % n % m ≡ a % m
  weight : (x y z : ℕ) → (x * m + y) * m + z ≡ x * n + (y * m + z)
  room : (a : ℕ) → a < n → a / m < m
  rest : (a : ℕ) → a % m < m
  fits : (x y : ℕ) → x < m → y < m → x * m + y < n

module _ (op : ℕ → ℕ → ℕ) where
  twice : (m n : ℕ) → Twice m n → Splits op m → Splits op n
  twice m n t s = record {
    apart = λ a b.
        let front : op (a / m) (b / m) ≡ op (a / n) (b / n) * m + op (a / m % m) (b / m % m) =
          rw (sym (t.high a), sym (t.high b)) (s.apart (a / m) (b / m)) in
        let back : op (a % n) (b % n) ≡ op (a / m % m) (b / m % m) * m + op (a % m) (b % m) =
          rw (sym (t.middle a), sym (t.middle b), sym (t.low a), sym (t.low b))
            (s.apart (a % n) (b % n)) in
        s.apart a b
        ∙ ap (λ (x : ℕ). x * m + op (a % m) (b % m)) front
        ∙ t.weight (op (a / n) (b / n)) (op (a / m % m) (b / m % m)) (op (a % m) (b % m))
        ∙ ap (λ (x : ℕ). op (a / n) (b / n) * n + x) (sym back);
    below = λ a b h k. rw (s.apart a b) (
        t.fits _ _ (s.below (a / m) (b / m) (t.room a h) (t.room b k))
          (s.below (a % m) (b % m) (t.rest a) (t.rest b)));
  }

  pub Splits-byte : Splits op 2 → Splits op 256
  Splits-byte s = twice 16 256 sixteen (twice 4 16 four (twice 2 4 two s))
    where
      two : Twice 2 4
      two = record {
        high = λ a. omega arith;
        middle = λ a. omega arith;
        low = λ a. omega arith;
        weight = λ x y z. omega arith;
        room = λ a h. omega arith;
        rest = λ a. omega arith;
        fits = λ x y h k. omega arith;
      }

      four : Twice 4 16
      four = record {
        high = λ a. omega arith;
        middle = λ a. omega arith;
        low = λ a. omega arith;
        weight = λ x y z. omega arith;
        room = λ a h. omega arith;
        rest = λ a. omega arith;
        fits = λ x y h k. omega arith;
      }

      sixteen : Twice 16 256
      sixteen = record {
        high = λ a. omega arith;
        middle = λ a. omega arith;
        low = λ a. omega arith;
        weight = λ x y z. omega arith;
        room = λ a h. omega arith;
        rest = λ a. omega arith;
        fits = λ x y h k. omega arith;
      }

  module _ (s : Splits op 256) where
    byte_of-op : (i a b : ℕ) → byte_of (op a b) i ≡ op (byte_of a i) (byte_of b i)
    byte_of-op zero a b =
        omega (arith, s.apart a b, s.below (a % 256) (b % 256) (omega arith) (omega arith))
    byte_of-op (suc i) a b =
        let q : op a b / 256 ≡ op (a / 256) (b / 256) =
          omega (arith, s.apart a b, s.below (a % 256) (b % 256) (omega arith) (omega arith)) in
        ap (λ v. byte_of v i) q ∙ byte_of-op i (a / 256) (b / 256)

    word_of-op :
        (n : ℕ) (f g : ℕ → ℕ)
        → ((i : ℕ) → f i < 256)
        → ((i : ℕ) → g i < 256)
        → op 0 0 ≡ 0
        → word_of n (λ i. op (f i) (g i)) ≡ op (word_of n f) (word_of n g)
    unfolding word_of
    word_of-op zero f g h k z = sym z
    word_of-op (suc n) f g h k z =
        let v = word_of n (λ i. f (suc i)) in
        let w = word_of n (λ i. g (suc i)) in
        let x : (f 0 + 256 * v) / 256 ≡ v = omega (arith, h 0) in
        let y : (g 0 + 256 * w) / 256 ≡ w = omega (arith, k 0) in
        let x' : (f 0 + 256 * v) % 256 ≡ f 0 = omega (arith, h 0) in
        let y' : (g 0 + 256 * w) % 256 ≡ g 0 = omega (arith, k 0) in
        let both : op (f 0 + 256 * v) (g 0 + 256 * w) ≡ op v w * 256 + op (f 0) (g 0) =
          s.apart (f 0 + 256 * v) (g 0 + 256 * w) ∙ rw (x, y, x', y') refl in
        omega (
          arith,
          both,
          word_of-op n (λ i. f (suc i)) (λ i. g (suc i)) (λ i. h (suc i)) (λ i. k (suc i)) z,
        )

    pub byteswap-op :
        (n a b : ℕ) → op 0 0 ≡ 0 → byteswap n (op a b) ≡ op (byteswap n a) (byteswap n b)
    unfolding byteswap
    byteswap-op n a b z =
        word_of_ext n _ _ (λ i h. byte_of-op (n - 1 - i) a b)
        ∙ word_of-op n (λ i. byte_of a (n - 1 - i)) (λ i. byte_of b (n - 1 - i))
            (λ i. byte_of-lt a (n - 1 - i)) (λ i. byte_of-lt b (n - 1 - i)) z
