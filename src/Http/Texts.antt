-- ===== src/Http/Texts.antt =====
-- Texts as lists of bytes: the comparisons of the C library that skt/http calls, and numbers in
-- decimal as a stream prints them.
use learn_web.Common.{
  ℕ, zero, suc, ◌+◌, ◌/◌, ◌%◌, ◌≡◌, refl, arith, Bool, true, false, ◌&&◌, List, [], ◌∷◌, ◌++◌,
  if◌then◌else◌, ltb, leb, ◌==◌,
}
use Prim.Native.Char.{code}
use Prim.Native.String.{String}

abbrev pub Text : Type 0
Text = List ℕ

abbrev pub codes : String → Text
codes String.[] = []
codes (String.◌∷◌ c s) = code c ∷ codes s

-- `c_str()`: a zero byte ends the text.
unfoldable pub c_str : Text → Text
c_str [] = []
c_str (c ∷ cs) = let rest = c_str cs in if c == 0 then [] else c ∷ rest

-- tolower in the C locale.
abbrev pub to_lower : ℕ → ℕ
to_lower c = if leb 65 c && leb c 90 then c + 32 else c

-- Whether two texts are the same, as strcmp of two texts without zero bytes.
unfoldable pub text_eq : Text → Text → Bool
text_eq [] [] = true
text_eq [] (d ∷ ds) = false
text_eq (c ∷ cs) [] = false
text_eq (c ∷ cs) (d ∷ ds) = c == d && text_eq cs ds

-- `strncmp(p, t, strlen(p)) == 0`
unfoldable pub is_prefix : Text → Text → Bool
is_prefix [] ds = true
is_prefix (c ∷ cs) [] = false
is_prefix (c ∷ cs) (d ∷ ds) = c == d && is_prefix cs ds

-- `strcasecmp(a, b) < 0` on texts that are cut at their zero bytes.
unfoldable pub case_less : Text → Text → Bool
case_less [] [] = false
case_less [] (d ∷ ds) = true
case_less (c ∷ cs) [] = false
case_less (c ∷ cs) (d ∷ ds) =
    if ltb (to_lower c) (to_lower d)
    then true
    else if ltb (to_lower d) (to_lower c)
    then false
    else case_less cs ds

pub case_less_trans :
    (a b c : Text) → case_less a b ≡ true → case_less b c ≡ true → case_less a c ≡ true
unfolding case_less
case_less_trans [] [] c h k = cc
case_less_trans [] (b ∷ ys) [] h k = cc
case_less_trans [] (b ∷ ys) (c ∷ cs) h k = refl
case_less_trans (a ∷ xs) [] c h k = cc
case_less_trans (a ∷ xs) (b ∷ ys) [] h k = cc
case_less_trans (a ∷ xs) (b ∷ ys) (c ∷ cs) h k = ground (arith, case_less_trans xs ys cs)

pub case_less_irrefl : (a : Text) → case_less a a ≡ false
unfolding case_less
case_less_irrefl [] = refl
case_less_irrefl (a ∷ xs) = ground (arith, case_less_irrefl xs)

-- Two texts of which neither comes first compare alike with any other.
pub case_less_left :
    (a b c : Text) → case_less a b ≡ false → case_less b a ≡ false → case_less a c ≡ case_less b c
unfolding case_less
case_less_left [] [] c h k = refl
case_less_left [] (b ∷ ys) c h k = cc
case_less_left (a ∷ xs) [] c h k = cc
case_less_left (a ∷ xs) (b ∷ ys) [] h k = refl
case_less_left (a ∷ xs) (b ∷ ys) (c ∷ cs) h k = ground (arith, case_less_left xs ys cs)

pub case_less_right :
    (a b c : Text) → case_less a b ≡ false → case_less b a ≡ false → case_less c a ≡ case_less c b
unfolding case_less
case_less_right [] [] c h k = refl
case_less_right [] (b ∷ ys) c h k = cc
case_less_right (a ∷ xs) [] c h k = cc
case_less_right (a ∷ xs) (b ∷ ys) [] h k = refl
case_less_right (a ∷ xs) (b ∷ ys) (c ∷ cs) h k = ground (arith, case_less_right xs ys cs)

pub text_eq_refl : (a : Text) → text_eq a a ≡ true
unfolding text_eq
text_eq_refl [] = refl
text_eq_refl (a ∷ xs) = ground (arith, text_eq_refl xs)

pub eq-text_eq : (a b : Text) → text_eq a b ≡ true → a ≡ b
unfolding text_eq
eq-text_eq [] [] h = refl
eq-text_eq [] (b ∷ ys) h = cc
eq-text_eq (a ∷ xs) [] h = cc
eq-text_eq (a ∷ xs) (b ∷ ys) h =
    let head : a ≡ b = ground arith in rw (head, eq-text_eq xs ys (ground arith)) refl

-- The decimal digits of a number; the fuel is the number and one more.
decimal_upto : ℕ → ℕ → Text
decimal_upto zero n = []
decimal_upto (suc fuel) n =
    let rest = decimal_upto fuel (n / 10) in
    if ltb n 10 then (48 + n) ∷ [] else rest ++ ((48 + n % 10) ∷ [])

unfoldable pub decimal : ℕ → Text
unfolding decimal_upto
decimal n = decimal_upto (suc n) n
