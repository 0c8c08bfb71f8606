-- ===== src/Address/Hosts.antt =====
-- skt/address/address.cpp: what Address::Lookup takes for the node and for the service.
use learn_web.Common.{
  ℕ, ◌≡◌, refl, ap, ◌∙◌, arith, true, false, Option, none, some, [], ◌∷◌, ◌++◌, if◌then◌else◌, ◌==◌,
  mem, Bool-cases, inl, inr,
}
use learn_web.Http.Texts.{Text}
use learn_web.Address.Defs.{break_at, bracketed_or, or_whole, in_brackets, at_colon, split_host}

break_at_lem :
    (c : ℕ) (xs ys : Text) → mem c xs ≡ false → break_at c (xs ++ (c ∷ ys)) ≡ some (xs, ys)
unfolding break_at
break_at_lem c [] ys h = let t : (c == c) ≡ true = ground arith in rw t refl
break_at_lem c (x ∷ xs) ys h = elim (Bool-cases (x == c)) [
  | inl e ↦ let f : (c == x) ≡ true = ground (arith, e) in absurd (ground (arith, h, f))
  | inr e ↦ let k : mem c xs ≡ false = ground (arith, h) in rw (e, break_at_lem c xs ys k) refl
]

-- The two ways to take a host apart settle what becomes of it.
split_from :
    (host : Text) (b c : Text × Option Text)
    → in_brackets host ≡ b
    → at_colon host ≡ c
    → split_host host ≡ or_whole host (bracketed_or b c)
unfolding split_host
split_from host b c e f =
    ap (λ s. or_whole host (bracketed_or s (at_colon host))) e
    ∙ ap (λ s. or_whole host (bracketed_or b s)) f

bracketed :
    (node service : Text)
    → mem 93 node ≡ false
    → in_brackets (91 ∷ (node ++ (93 ∷ (58 ∷ service)))) ≡ (node, some service)
unfolding in_brackets
bracketed node service h = rw (break_at_lem 93 node (58 ∷ service) h) refl

one_colon :
    (xs ys : Text)
    → mem 58 xs ≡ false
    → at_colon (xs ++ (58 ∷ ys)) ≡ (if mem 58 ys then ([], some (58 ∷ ys)) else (xs, some ys))
unfolding at_colon
one_colon xs ys h = rw (at_colon, break_at_lem 58 xs ys h) refl

-- A host with its service, as it is written: a node with colons stands in brackets.
abbrev pub host_text : Text → Text → Text
host_text node service =
    if mem 58 node then 91 ∷ (node ++ (93 ∷ (58 ∷ service))) else node ++ (58 ∷ service)

-- Lookup takes apart what host_text puts together, for a node of one character at least that holds
-- no closing bracket and does not start with an opening one, and a service without a colon.
pub split_host-host_text :
    (n : ℕ) (ns service : Text)
    → (n == 91) ≡ false
    → mem 93 (n ∷ ns) ≡ false
    → mem 58 service ≡ false
    → split_host (host_text (n ∷ ns) service) ≡ (n ∷ ns, some service)
unfolding in_brackets
split_host-host_text n ns service h k f = elim (Bool-cases (mem 58 (n ∷ ns))) [
  | inl e ↦ rw e (
      split_from (91 ∷ (n ∷ ns ++ (93 ∷ (58 ∷ service)))) (n ∷ ns, some service)
        (at_colon (91 ∷ (n ∷ ns ++ (93 ∷ (58 ∷ service))))) (bracketed (n ∷ ns) service k) refl)
  | inr e ↦
      let plain : in_brackets (n ∷ ns ++ (58 ∷ service)) ≡ ([], none) = rw h refl in
      let colon : at_colon (n ∷ ns ++ (58 ∷ service)) ≡ (n ∷ ns, some service) =
        one_colon (n ∷ ns) service e ∙ rw f refl in
      rw e (split_from (n ∷ ns ++ (58 ∷ service)) ([], none) (n ∷ ns, some service) plain colon)
]

-- A host with two colons at least that does not start with a bracket, such as an IPv6 address, is
-- taken for a node as a whole; yet the service is the text from its first colon on.
pub split_host_colons :
    (xs ys : Text)
    → in_brackets (xs ++ (58 ∷ ys)) ≡ ([], none)
    → mem 58 xs ≡ false
    → mem 58 ys ≡ true
    → split_host (xs ++ (58 ∷ ys)) ≡ (xs ++ (58 ∷ ys), some (58 ∷ ys))
split_host_colons xs ys b h k =
    split_from (xs ++ (58 ∷ ys)) ([], none) ([], some (58 ∷ ys)) b (one_colon xs ys h ∙ rw k refl)
