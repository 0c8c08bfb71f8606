-- ===== src/Timer/Order.antt =====
-- skt/timer/timer.cpp: the order of the timers in the std::set of a TimerManager, and that set as the
-- sequence of its elements. A timer is its address; `next` gives the time of each.
use learn_web.Common.{
  ℕ, ◌≡◌, refl, sym, arith, Bool, true, false, not, ◌&&◌, ◌||◌, Option, none, some, List, [], ◌∷◌,
  All, mem, if◌then◌else◌, ltb, ◌==◌, Bool-cases, inl, inr,
}

-- The comparison of two timers that are there, by time and then by address.
unfoldable pub less_key : ℕ → ℕ → ℕ → ℕ → Bool
less_key next_l l next_r r =
    if ltb next_l next_r then true else if ltb next_r next_l then false else ltb l r

-- Timer::Comparator; a null pointer comes first.
unfoldable pub less : (ℕ → ℕ) → Option ℕ → Option ℕ → Bool
unfolding less_key
less next none none = false
less next none (some r) = true
less next (some l) none = false
less next (some l) (some r) = less_key (next l) l (next r) r

module _ (next : ℕ → ℕ) where
  abbrev pub before : ℕ → ℕ → Bool
  before a b = less next (some a) (some b)

  -- std::set::find, insert and erase by the order.
  unfoldable pub set_find : ℕ → List ℕ → Bool
  set_find a [] = false
  set_find a (x ∷ xs) = if before x a then set_find a xs else not (before a x)

  unfoldable pub set_insert : ℕ → List ℕ → List ℕ
  set_insert a [] = a ∷ []
  set_insert a (x ∷ xs) =
      if before x a then x ∷ set_insert a xs else if before a x then a ∷ x ∷ xs else x ∷ xs

  unfoldable pub set_erase : ℕ → List ℕ → List ℕ
  set_erase a [] = []
  set_erase a (x ∷ xs) =
      if before x a then x ∷ set_erase a xs else if before a x then x ∷ xs else xs

  -- Each element comes before all that follow.
  abbrev pub IsOrdered : List ℕ → Type 0
  IsOrdered [] = Unit {0}
  IsOrdered (x ∷ xs) = All (λ y. before x y ≡ true) xs × IsOrdered xs

  pub before_trans : (a b c : ℕ) → before a b ≡ true → before b c ≡ true → before a c ≡ true
  unfolding less
  before_trans a b c h k = ground arith

  pub before_total : (a b : ℕ) → before a b ≡ false → before b a ≡ false → a ≡ b
  unfolding less
  before_total a b h k = ground arith

  pub before_irrefl : (a : ℕ) → before a a ≡ false
  unfolding less
  before_irrefl a = ground arith

  All-before :
      (a b : ℕ) (xs : List ℕ)
      → before a b ≡ true
      → All (λ y. before b y ≡ true) xs
      → All (λ y. before a y ≡ true) xs
  All-before a b [] h k = tt
  All-before a b (x ∷ xs) h (k, ks) = (before_trans a b x h k, All-before a b xs h ks)

  insert-All :
      (x a : ℕ) (xs : List ℕ)
      → before x a ≡ true
      → All (λ y. before x y ≡ true) xs
      → All (λ y. before x y ≡ true) (set_insert a xs)
  unfolding set_insert
  insert-All x a [] h k = (h, tt)
  insert-All x a (y ∷ ys) h (k, ks) = ground (arith, insert-All x a ys h ks)

  pub insert-IsOrdered : (a : ℕ) (xs : List ℕ) → IsOrdered xs → IsOrdered (set_insert a xs)
  unfolding set_insert
  insert-IsOrdered a [] h = (tt, tt)
  insert-IsOrdered a (x ∷ xs) (h, hs) = elim (Bool-cases (before x a)) [
    | inl lower ↦ rw lower (insert-All x a xs lower h, insert-IsOrdered a xs hs)
    | inr upper ↦ elim (Bool-cases (before a x)) [
      | inl under ↦ rw upper (rw under ((under, All-before a x xs under h), (h, hs)))
      | inr same ↦ rw upper (rw same (h, hs))
    ]
  ]

  pub mem-insert : (b a : ℕ) (xs : List ℕ) → mem b (set_insert a xs) ≡ (b == a || mem b xs)
  unfolding set_insert
  mem-insert b a [] = refl
  mem-insert b a (x ∷ xs) = ground (arith, mem-insert b a xs, before_total x a)

  -- An element that something comes before is no member of what it comes before.
  pub not-mem-before :
      (x a : ℕ) (xs : List ℕ)
      → before a x ≡ true
      → All (λ y. before x y ≡ true) xs
      → mem a (x ∷ xs) ≡ false
  not-mem-before x a [] h k = ground (arith, before_irrefl a)
  not-mem-before x a (y ∷ ys) h (k, ks) = ground (
    arith,
    before_irrefl a,
    before_trans a x y h k,
    not-mem-before x a ys h ks,
    not-mem-before y a ys (before_trans a x y h k),
  )

  pub not-mem_self : (x : ℕ) (xs : List ℕ) → All (λ y. before x y ≡ true) xs → mem x xs ≡ false
  not-mem_self x [] h = refl
  not-mem_self x (y ∷ ys) (h, hs) = ground (arith, before_irrefl x, not-mem_self x ys hs)

  -- On an ordered set the search finds just the members.
  pub find-mem : (a : ℕ) (xs : List ℕ) → IsOrdered xs → set_find a xs ≡ mem a xs
  unfolding set_find
  find-mem a [] h = refl
  find-mem a (x ∷ xs) (h, hs) = elim (Bool-cases (before x a)) [
    | inl lower ↦ ground (arith, find-mem a xs hs, before_irrefl a)
    | inr upper ↦ elim (Bool-cases (before a x)) [
      | inl under ↦ rw upper (rw under (sym (not-mem-before x a xs under h)))
      | inr same ↦ ground (arith, before_total x a upper same)
    ]
  ]

  erase-All :
      (x a : ℕ) (xs : List ℕ)
      → All (λ y. before x y ≡ true) xs
      → All (λ y. before x y ≡ true) (set_erase a xs)
  unfolding set_erase
  erase-All x a [] h = tt
  erase-All x a (y ∷ ys) (h, hs) = ground (arith, erase-All x a ys hs)

  pub erase-IsOrdered : (a : ℕ) (xs : List ℕ) → IsOrdered xs → IsOrdered (set_erase a xs)
  unfolding set_erase
  erase-IsOrdered a [] h = tt
  erase-IsOrdered a (x ∷ xs) (h, hs) = ground (arith, erase-All x a xs h, erase-IsOrdered a xs hs)

  pub mem-erase :
      (b a : ℕ) (xs : List ℕ) → IsOrdered xs → mem b (set_erase a xs) ≡ (not (b == a) && mem b xs)
  unfolding set_erase
  mem-erase b a [] h = ground arith
  mem-erase b a (x ∷ xs) (h, hs) = elim (Bool-cases (before x a)) [
    | inl lower ↦ ground (arith, mem-erase b a xs hs, before_irrefl a)
    | inr upper ↦ elim (Bool-cases (before a x)) [
      | inl under ↦ ground (arith, not-mem-before x a xs under h)
      | inr same ↦ ground (arith, before_total x a upper same, not-mem_self x xs h)
    ]
  ]

-- A change of the time of a timer that is in no set leaves the order of the set.
module _ (next next' : ℕ → ℕ) where
  All-unchanged :
      (x : ℕ) (xs : List ℕ)
      → next' x ≡ next x
      → ((b : ℕ) → mem b xs ≡ true → next' b ≡ next b)
      → All (λ y. before next x y ≡ true) xs
      → All (λ y. before next' x y ≡ true) xs
  unfolding less
  All-unchanged x [] e same h = tt
  All-unchanged x (y ∷ ys) e same (h, hs) =
      (ground (arith, same y), All-unchanged x ys e (λ b m. same b (ground arith)) hs)

  pub IsOrdered-unchanged :
      (xs : List ℕ)
      → ((b : ℕ) → mem b xs ≡ true → next' b ≡ next b)
      → IsOrdered next xs
      → IsOrdered next' xs
  IsOrdered-unchanged [] same h = tt
  IsOrdered-unchanged (x ∷ xs) same (h, hs) = (
    All-unchanged x xs (same x (ground arith)) (λ b m. same b (ground arith)) h,
    IsOrdered-unchanged xs (λ b m. same b (ground arith)) hs,
  )
