-- ===== src/Address/Paths.antt =====
-- skt/address/address.cpp: the paths of UnixAddress.
use learn_web.Common.{
  ℕ, suc, ◌+◌, ◌-◌, ◌≡◌, refl, ap, arith, true, false, Option, none, some, [], ◌∷◌, ◌++◌, length,
  if◌then◌else◌, ltb, leb, ◌==◌, mem, length-append, Bool-cases, inl, inr,
}
use learn_web.Http.Texts.{Text, codes}
use learn_web.Address.Defs.{UnixAddress, unix_address, insert_unix, c_text, leading}

c_text_lem : (cs : Text) → mem 0 cs ≡ false → c_text (cs ++ (0 ∷ [])) ≡ cs
c_text_lem [] h = refl
c_text_lem (c ∷ cs) h =
    let e : (c == 0) ≡ false = ground (arith, h) in
    rw e (ap (◌∷◌ c) (c_text_lem cs (ground (arith, h))))

leading_all : (cs : Text) → leading (length cs) cs ≡ cs
leading_all [] = refl
leading_all (c ∷ cs) = ap (◌∷◌ c) (leading_all cs)

-- What toString answers for the address of a path: nothing when the constructor has thrown.
abbrev pub shown : Option UnixAddress → Option Text
shown none = none
shown (some a) = some (insert_unix a)

plain_path :
    (c : ℕ) (cs : Text)
    → mem 0 (c ∷ cs) ≡ false
    → shown (unix_address (c ∷ cs)) ≡ (if leb (length cs) 106 then some (c ∷ cs) else none)
unfolding unix_address insert_unix
plain_path c cs h =
    let z : (c == 0) ≡ false = ground (arith, h) in
    let l : length (cs ++ (0 ∷ [])) ≡ length cs + 1 = length-append cs (0 ∷ []) in
    let t : c_text (cs ++ (0 ∷ [])) ≡ cs = c_text_lem cs (ground (arith, h)) in
    elim (Bool-cases (leb (length cs) 106)) [
      | inl e ↦
          let f : ltb 108 (suc (length cs + 1)) ≡ false = ground (arith, e) in
          let g : ltb 2 (suc (length cs + 1) + 2) ≡ true = ground arith in
          rw (z, l, f, g, z, t, e) refl
      | inr e ↦
          let f : ltb 108 (suc (length cs + 1)) ≡ true = ground (arith, e) in rw (z, l, f, e) refl
    ]

abstract_path :
    (cs : Text)
    → shown (unix_address (0 ∷ cs))
      ≡ (if leb (length cs) 107 then some (codes "\\0" ++ cs) else none)
unfolding unix_address insert_unix
abstract_path cs = elim (Bool-cases (leb (length cs) 107)) [
  | inl e ↦
      let f : ltb 108 (suc (length cs)) ≡ false = ground (arith, e) in
      let g : ltb 2 (suc (length cs) + 2) ≡ true = ground arith in
      let l : suc (length cs) + 2 - 3 ≡ length cs = omega arith in
      rw (f, g, l, leading_all cs, e) refl
  | inr e ↦ let f : ltb 108 (suc (length cs)) ≡ true = ground (arith, e) in rw (f, e) refl
]

-- The constructor of UnixAddress takes a path without zero bytes of up to 107 bytes, and insert
-- prints it; and an abstract name, a zero byte and up to 107 bytes, which is printed behind the two
-- characters of an escaped zero. Longer ones are refused, in both cases.
pub insert_unix-unix_address :
    (c : ℕ) (cs : Text)
    → mem 0 (c ∷ cs) ≡ false
    → (shown (unix_address (c ∷ cs)) ≡ (if leb (length cs) 106 then some (c ∷ cs) else none))
      × (shown (unix_address (0 ∷ cs))
          ≡ (if leb (length cs) 107 then some (codes "\\0" ++ cs) else none))
insert_unix-unix_address c cs h = (plain_path c cs h, abstract_path cs)
