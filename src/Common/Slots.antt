-- ===== src/Common/Slots.antt =====
-- A std::vector of pointers: its elements by position, and `resize`.
use Prim.Native.Nat.{ℕ, zero, suc, ◌<◌, ◌≤◌}
use mathlib.Core.Path.{◌≡◌, refl, ap}
use mathlib.Core.Option.{Option, none}
use mathlib.Core.List.{List, [], ◌∷◌}
use learn_web.Common.Tests.{if◌then◌else◌, ◌==◌}
use learn_web.Common.Lists.{length, get_or}
use native.Mathlib.Omega.{arith}

module _ {ℓ} {A : Type ℓ} where
  -- The element at `i` changed; nothing when there is none.
  abbrev pub set_at : List A → ℕ → A → List A
  set_at [] i a = []
  set_at (x ∷ xs) zero a = a ∷ xs
  set_at (x ∷ xs) (suc i) a = x ∷ set_at xs i a

  -- The first `n` elements, and null pointers when there are fewer.
  abbrev pub resize : ℕ → List (Option A) → List (Option A)
  resize zero xs = []
  resize (suc n) [] = none ∷ resize n []
  resize (suc n) (x ∷ xs) = x ∷ resize n xs

  pub length-set_at : (xs : List A) (i : ℕ) (a : A) → length (set_at xs i a) ≡ length xs
  length-set_at [] i a = refl
  length-set_at (x ∷ xs) zero a = refl
  length-set_at (x ∷ xs) (suc i) a = ap suc (length-set_at xs i a)

  pub get_or-set_at :
      (xs : List A) (i j : ℕ) (a d : A)
      → i < length xs
      → get_or (set_at xs i a) j d ≡ (if j == i then a else get_or xs j d)
  get_or-set_at [] i j a d h = absurd (omega (arith, h))
  get_or-set_at (x ∷ xs) zero zero a d h = refl
  get_or-set_at (x ∷ xs) zero (suc j) a d h = ground arith
  get_or-set_at (x ∷ xs) (suc i) zero a d h = ground arith
  get_or-set_at (x ∷ xs) (suc i) (suc j) a d h =
      ground (arith, get_or-set_at xs i j a d (omega (arith, h)))

  pub length-resize : (n : ℕ) (xs : List (Option A)) → length (resize n xs) ≡ n
  length-resize zero xs = refl
  length-resize (suc n) [] = ap suc (length-resize n [])
  length-resize (suc n) (x ∷ xs) = ap suc (length-resize n xs)

  get_or-resize_nil : (n i : ℕ) → get_or (resize n []) i none ≡ none
  get_or-resize_nil zero i = refl
  get_or-resize_nil (suc n) zero = refl
  get_or-resize_nil (suc n) (suc i) = get_or-resize_nil n i

  -- To make the vector longer changes no element.
  pub get_or-resize :
      (n i : ℕ) (xs : List (Option A))
      → length xs ≤ n
      → get_or (resize n xs) i none ≡ get_or xs i none
  get_or-resize n i [] h = get_or-resize_nil n i
  get_or-resize zero i (x ∷ xs) h = absurd (omega (arith, h))
  get_or-resize (suc n) zero (x ∷ xs) h = refl
  get_or-resize (suc n) (suc i) (x ∷ xs) h = get_or-resize n i xs (omega (arith, h))

  -- Past the end nothing is found.
  pub get_or_past : (xs : List A) (i : ℕ) (d : A) → length xs ≤ i → get_or xs i d ≡ d
  get_or_past [] i d h = refl
  get_or_past (x ∷ xs) zero d h = absurd (omega (arith, h))
  get_or_past (x ∷ xs) (suc i) d h = get_or_past xs i d (omega (arith, h))
