-- ===== src/Endian/Bytes.antt =====
-- skt/endian/endian.h. A word of `n` bytes is a number below `256 ^ n`; in memory it is a function
-- from offsets to bytes, laid out by the host's byte order, which is a parameter (SKT_BYTE_ORDER).
use learn_web.Common.{
  ℕ, zero, suc, ◌+◌, ◌-◌, ◌*◌, ◌/◌, ◌%◌, ◌^◌, ◌<◌, ◌≡◌, refl, ap, ◌∙◌, arith, Bool, true, false,
}
use native.Mathlib.Nat.{pow-suc}

pub data ByteOrder : Type 0 where
  little big : ByteOrder

abbrev pub same_order : ByteOrder → ByteOrder → Bool
same_order little little = true
same_order big big = true
same_order little big = false
same_order big little = false

-- Byte `i` of a word, the lowest first.
abbrev pub byte_of : ℕ → ℕ → ℕ
byte_of v zero = v % 256
byte_of v (suc i) = byte_of (v / 256) i

-- The word whose byte `i`, the lowest first, is `f i`.
unfoldable pub word_of : ℕ → (ℕ → ℕ) → ℕ
word_of zero f = 0
word_of (suc n) f = f 0 + 256 * word_of n (λ i. f (suc i))

-- bswap_16, bswap_32, bswap_64: the bytes of the word in the opposite order.
unfoldable pub byteswap : ℕ → ℕ → ℕ
byteswap n v = word_of n (λ i. byte_of v (n - 1 - i))

-- The bytes of an object of `n` bytes in the host's memory, as `memcpy` and `write` see them.
unfoldable pub to_memory : ByteOrder → ℕ → ℕ → ℕ → ℕ
to_memory little n v i = byte_of v i
to_memory big n v i = byte_of v (n - 1 - i)

-- The object that these bytes of memory are.
unfoldable pub from_memory : ByteOrder → ℕ → (ℕ → ℕ) → ℕ
from_memory little n f = word_of n f
from_memory big n f = word_of n (λ i. f (n - 1 - i))

-- byteswapOnLittleEndian and byteswapOnBigEndian: which one swaps depends on SKT_BYTE_ORDER.
unfoldable pub byteswap_on_little_endian : ByteOrder → ℕ → ℕ → ℕ
byteswap_on_little_endian big n t = t
byteswap_on_little_endian little n t = byteswap n t

unfoldable pub byteswap_on_big_endian : ByteOrder → ℕ → ℕ → ℕ
byteswap_on_big_endian big n t = byteswap n t
byteswap_on_big_endian little n t = t

-- Equal bytes below `n` make equal words.
pub word_of_ext : (n : ℕ) (f g : ℕ → ℕ) → ((i : ℕ) → i < n → f i ≡ g i) → word_of n f ≡ word_of n g
unfolding word_of
word_of_ext zero f g h = refl
word_of_ext (suc n) f g h = omega (
  arith,
  h 0 (omega arith),
  word_of_ext n (λ i. f (suc i)) (λ i. g (suc i)) (λ i p. h (suc i) (omega arith)),
)

-- A word is the sum of its bytes.
pub word_of-byte_of : (n v : ℕ) → v < 256 ^ n → word_of n (byte_of v) ≡ v
unfolding word_of
word_of-byte_of zero v h = omega arith
word_of-byte_of (suc n) v h =
    omega (arith, word_of-byte_of n (v / 256) (omega (arith, pow-suc 256 n)))

-- Byte `i` of the word that `n` bytes make is byte `i`.
pub byte_of-word_of :
    (n i : ℕ) (f : ℕ → ℕ) → ((j : ℕ) → f j < 256) → i < n → byte_of (word_of n f) i ≡ f i
unfolding word_of
byte_of-word_of zero i f b h = absurd (omega arith)
byte_of-word_of (suc n) zero f b h = omega (arith, b 0)
byte_of-word_of (suc n) (suc i) f b h =
    ap (λ (t : ℕ). byte_of t i) rest
    ∙ byte_of-word_of n i (λ j. f (suc j)) (λ j. b (suc j)) (omega arith)
  where
    rest : (f 0 + 256 * word_of n (λ j. f (suc j))) / 256 ≡ word_of n (λ j. f (suc j))
    rest = omega (arith, b 0)

pub byte_of-lt : (v i : ℕ) → byte_of v i < 256
byte_of-lt v zero = omega arith
byte_of-lt v (suc i) = byte_of-lt (v / 256) i

pub word_of-lt : (n : ℕ) (f : ℕ → ℕ) → ((j : ℕ) → f j < 256) → word_of n f < 256 ^ n
unfolding word_of
word_of-lt zero f b = omega arith
word_of-lt (suc n) f b =
    omega (arith, b 0, word_of-lt n (λ j. f (suc j)) (λ j. b (suc j)), pow-suc 256 n)

-- Byte `i` of the swapped word is byte `n - 1 - i`.
pub byte_of-byteswap : (n v i : ℕ) → i < n → byte_of (byteswap n v) i ≡ byte_of v (n - 1 - i)
unfolding byteswap
byte_of-byteswap n v i h =
    byte_of-word_of n i (λ j. byte_of v (n - 1 - j)) (λ j. byte_of-lt v (n - 1 - j)) h

mirror : (n i : ℕ) → i < n → n - 1 - (n - 1 - i) ≡ i
mirror n i h = omega arith

-- Swapping a word of `n` bytes twice gives the word back.
pub byteswap-byteswap : (n v : ℕ) → v < 256 ^ n → byteswap n (byteswap n v) ≡ v
byteswap-byteswap n v h =
    unfold byteswap in
    (word_of_ext n (λ i. byte_of (byteswap n v) (n - 1 - i)) (byte_of v)
      (λ i p. byte_of-byteswap n v (n - 1 - i) (omega arith) ∙ ap (byte_of v) (mirror n i p)))
    ∙ word_of-byte_of n v h

-- Reading back the memory of a word gives the word, on either host.
pub from_memory-to_memory :
    (host : ByteOrder) (n v : ℕ) → v < 256 ^ n → from_memory host n (to_memory host n v) ≡ v
unfolding from_memory to_memory
from_memory-to_memory little n v h = word_of-byte_of n v h
from_memory-to_memory big n v h =
    word_of_ext n (λ i. byte_of v (n - 1 - (n - 1 - i))) (byte_of v)
      (λ i p. ap (byte_of v) (mirror n i p))
    ∙ word_of-byte_of n v h

-- A host that swaps before it stores lays the word out in the other order.
pub to_memory-byteswap :
    (host order : ByteOrder) (n v i : ℕ)
    → same_order order host ≡ false
    → i < n
    → to_memory host n (byteswap n v) i ≡ to_memory order n v i
unfolding to_memory
to_memory-byteswap little little n v i e h = cc
to_memory-byteswap little big n v i e h = byte_of-byteswap n v i h
to_memory-byteswap big little n v i e h =
    byte_of-byteswap n v (n - 1 - i) (omega arith) ∙ ap (byte_of v) (mirror n i h)
to_memory-byteswap big big n v i e h = cc

pub from_memory_ext :
    (host : ByteOrder) (n : ℕ) (f g : ℕ → ℕ)
    → ((i : ℕ) → i < n → f i ≡ g i)
    → from_memory host n f ≡ from_memory host n g
unfolding from_memory
from_memory_ext little n f g h = word_of_ext n f g h
from_memory_ext big n f g h =
    word_of_ext n (λ i. f (n - 1 - i)) (λ i. g (n - 1 - i)) (λ i p. h (n - 1 - i) (omega arith))

pub byteswap-lt : (n v : ℕ) → byteswap n v < 256 ^ n
unfolding byteswap
byteswap-lt n v = word_of-lt n (λ i. byte_of v (n - 1 - i)) (λ j. byte_of-lt v (n - 1 - j))

pub same_order_iff : (a b : ByteOrder) → same_order a b ≡ true → a ≡ b
same_order_iff little little h = refl
same_order_iff big big h = refl
same_order_iff little big h = cc
same_order_iff big little h = cc

-- A word of one byte is that byte.
pub from_memory_one : (host : ByteOrder) (f : ℕ → ℕ) → from_memory host 1 f ≡ f 0
unfolding from_memory word_of
from_memory_one little f = omega arith
from_memory_one big f = omega arith
