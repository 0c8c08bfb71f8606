-- ===== src/Http/Fields.antt =====
-- skt/http/http.h and http.cpp: MapType, the std::map of header fields, parameters and cookies, whose
-- keys compare without case. It is the sequence of its entries in the order of the keys.
use learn_web.Common.{
  ℕ, ◌+◌, ◌≡◌, refl, ap, ◌∙◌, arith, ◌||◌, ◌==◌, leb, ltb, Bool, true, false, not, ◌&&◌, Option,
  none, some, List, [], ◌∷◌, if◌then◌else◌, Bool-cases, inl, inr,
}
use learn_web.Http.Texts.{
  Text, c_str, to_lower, case_less, case_less_trans, case_less_irrefl, case_less_left,
  case_less_right,
}

-- CaseInsensitiveLess
unfoldable pub key_less : Text → Text → Bool
key_less lhs rhs = case_less (c_str lhs) (c_str rhs)

abbrev pub MapType : Type 0
MapType = List (Text × Text)

-- Two keys that the map takes for one.
abbrev pub same_key : Text → Text → Bool
same_key j k = not (key_less j k) && not (key_less k j)

-- The same letter, small or capital, or the same byte.
abbrev pub same_letter : ℕ → ℕ → Bool
same_letter c d =
    c == d || (leb 65 c && leb c 90 && d == c + 32) || (leb 65 d && leb d 90 && c == d + 32)

-- Two spellings of a text: they differ in capitals alone.
abbrev pub spelled_alike : Text → Text → Bool
spelled_alike [] [] = true
spelled_alike [] (d ∷ ds) = false
spelled_alike (c ∷ cs) [] = false
spelled_alike (c ∷ cs) (d ∷ ds) = same_letter c d && spelled_alike cs ds

-- std::map::find
unfoldable pub find : Text → MapType → Option Text
find key [] = none
find key ((k, v) ∷ m) =
    if key_less k key then find key m else if key_less key k then none else some v

-- `m[key] = v`; a key that is there stays as it was written first.
unfoldable pub set : Text → Text → MapType → MapType
set key v [] = (key, v) ∷ []
set key v ((k, w) ∷ m) =
    if key_less k key
    then (k, w) ∷ set key v m
    else if key_less key k
    then (key, v) ∷ (k, w) ∷ m
    else (k, v) ∷ m

-- std::map::erase
unfoldable pub erase : Text → MapType → MapType
erase key [] = []
erase key ((k, w) ∷ m) =
    if key_less k key then (k, w) ∷ erase key m else if key_less key k then (k, w) ∷ m else m

-- HttpRequest::getHeader, getParam, getCookie and HttpResponse::getHeader
unfoldable pub get_field : Text → Text → MapType → Text
get_field key def m = elim (find key m) [ none ↦ def | some v ↦ v ]

-- HttpRequest::hasHeader, hasParam and hasCookie; the result has the value of `*val` behind the call.
unfoldable pub has_field : Text → Text → MapType → Bool × Text
has_field key val m = elim (find key m) [ none ↦ (false, val) | some v ↦ (true, v) ]

-- checkGetAs and getAs; `cast` is boost::lexical_cast, none when it throws.
unfoldable pub check_get_as {ℓ} : {A : Type ℓ} → (Text → Option A) → Text → A → MapType → Bool × A
check_get_as cast key def m = elim (find key m) [
  | none ↦ (false, def)
  | some v ↦ elim (cast v) [ none ↦ (false, def) | some a ↦ (true, a) ]
]

unfoldable pub get_as {ℓ} : {A : Type ℓ} → (Text → Option A) → Text → A → MapType → A
get_as cast key def m = elim (find key m) [
  | none ↦ def
  | some v ↦ elim (cast v) [ none ↦ def | some a ↦ a ]
]

pub less_trans : (a b c : Text) → key_less a b ≡ true → key_less b c ≡ true → key_less a c ≡ true
unfolding key_less
less_trans a b c h k = case_less_trans (c_str a) (c_str b) (c_str c) h k

pub less_irrefl : (a : Text) → key_less a a ≡ false
unfolding key_less
less_irrefl a = case_less_irrefl (c_str a)

pub less_left :
    (a b c : Text) → key_less a b ≡ false → key_less b a ≡ false → key_less a c ≡ key_less b c
unfolding key_less
less_left a b c h k = case_less_left (c_str a) (c_str b) (c_str c) h k

pub less_right :
    (a b c : Text) → key_less a b ≡ false → key_less b a ≡ false → key_less c a ≡ key_less c b
unfolding key_less
less_right a b c h k = case_less_right (c_str a) (c_str b) (c_str c) h k

pub less_asym : (a b : Text) → key_less a b ≡ true → key_less b a ≡ false
less_asym a b h = ground (arith, less_trans a b a, less_irrefl a)

pub find-set_same :
    (j key v : Text) (m : MapType)
    → find j (set key v m) ≡ (if same_key j key then some v else find j m)
unfolding find set
find-set_same j key v [] = ground arith
find-set_same j key v ((k, w) ∷ m) = elim (Bool-cases (key_less k key)) [
  | inl lower ↦
      ground
        (arith, find-set_same j key v m, less_trans j k key, less_left j k key, less_asym k key)
  | inr upper ↦ elim (Bool-cases (key_less key k)) [
    | inl under ↦ ground (
      arith,
      less_trans j key k,
      less_asym j k,
      less_left j key k,
      less_trans key j k,
      less_asym j key,
      less_asym key j,
    )
    | inr same ↦ ground (arith, less_left k key j, less_right k key j)
  ]
]

both_ways :
    (x y : ℕ) (r s : Bool)
    → (not (if ltb x y then true else if ltb y x then false else r)
        && not (if ltb y x then true else if ltb x y then false else s))
      ≡ ((x == y) && (not r && not s))
both_ways x y r s = ground arith

lower_letters : (c d : ℕ) → (to_lower c == to_lower d) ≡ same_letter c d
lower_letters c d = elim (Bool-cases (leb 65 c && leb c 90)) [
  | inl e ↦ elim (Bool-cases (leb 65 d && leb d 90)) [
    | inl f ↦ rw (e, f) (ground (arith, e, f))
    | inr f ↦ rw (e, f) (ground (arith, e, f))
  ]
  | inr e ↦ elim (Bool-cases (leb 65 d && leb d 90)) [
    | inl f ↦ rw (e, f) (ground (arith, e, f))
    | inr f ↦ rw (e, f) (ground (arith, e, f))
  ]
]

case_less-spelled_alike :
    (a b : Text) → (not (case_less a b) && not (case_less b a)) ≡ spelled_alike a b
unfolding case_less
case_less-spelled_alike [] [] = refl
case_less-spelled_alike [] (d ∷ ds) = refl
case_less-spelled_alike (c ∷ cs) [] = refl
case_less-spelled_alike (c ∷ cs) (d ∷ ds) =
    both_ways (to_lower c) (to_lower d) (case_less cs ds) (case_less ds cs)
    ∙ ap (λ b. b && (not (case_less cs ds) && not (case_less ds cs))) (lower_letters c d)
    ∙ ap (λ b. same_letter c d && b) (case_less-spelled_alike cs ds)

-- A field that was set is found under any spelling of its key, with small letters and capitals, and
-- no other field changes. Keys are read up to a zero byte.
pub find-set :
    (j key v : Text) (m : MapType)
    → find j (set key v m) ≡ (if spelled_alike (c_str j) (c_str key) then some v else find j m)
unfolding key_less
find-set j key v m =
    find-set_same j key v m
    ∙ ap (λ b. if b then some v else find j m) (case_less-spelled_alike (c_str j) (c_str key))
