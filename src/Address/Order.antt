-- ===== src/Address/Order.antt =====
-- skt/address/address.cpp: the order of addresses.
use Prim.Native.Nat.{min}
use learn_web.Common.{
  ℕ, zero, suc, ◌≡◌, refl, arith, Bool, true, false, [], ◌∷◌, length, if◌then◌else◌, ltb, leb, ◌==◌,
  Bool-cases, inl, inr,
}
use learn_web.Http.Texts.{Text}
use learn_web.Address.Defs.{memcmp_less, address_less}

-- The order of a dictionary: the first byte that differs settles it, and a text comes before the
-- longer ones that it begins.
abbrev pub lex_less : Text → Text → Bool
lex_less [] [] = false
lex_less [] (y ∷ b) = true
lex_less (x ∷ a) [] = false
lex_less (x ∷ a) (y ∷ b) = let rest = lex_less a b in if x == y then rest else ltb x y

upto :
    (n : ℕ) (a b : Text)
    → n ≡ min (length a) (length b)
    → (if memcmp_less n a b
        then true
        else if memcmp_less n b a
        then false
        else ltb (length a) (length b))
      ≡ lex_less a b
unfolding memcmp_less
upto zero [] [] h = refl
upto zero [] (y ∷ b) h = ground arith
upto zero (x ∷ a) [] h = ground arith
upto zero (x ∷ a) (y ∷ b) h = absurd (omega (arith, h))
upto (suc n) [] b h = absurd (omega (arith, h))
upto (suc n) (x ∷ a) [] h = absurd (omega (arith, h))
upto (suc n) (x ∷ a) (y ∷ b) h = elim (Bool-cases (x == y)) [
  | inl e ↦
      let f : (y == x) ≡ true = ground (arith, e) in
      let l : ltb (length (x ∷ a)) (length (y ∷ b)) ≡ ltb (length a) (length b) = ground arith in
      rw (e, f, l) (upto n a b (omega (arith, h)))
  | inr e ↦ let f : (y == x) ≡ false = ground (arith, e) in rw (e, f) (ground (arith, e))
]

-- operator< is the order of a dictionary on the bytes of the addresses.
pub address_less_lem : (a b : Text) → address_less a b ≡ lex_less a b
unfolding address_less
address_less_lem a b =
    upto (if leb (length a) (length b) then length a else length b) a b (ground arith)
