-- ===== src/FdManager/Table.antt =====
-- skt/fd_manager/fd_manager.cpp: what FdManager::get and del do to the table.
use learn_web.Common.{
  ℕ, ◌*◌, ◌/◌, ◌^◌, ◌≤◌, ◌<◌, ◌≡◌, ◌≢◌, refl, ◌∙◌, arith, Bool, true, false, not, ◌||◌, Option,
  none, some, List, length, get_or, if◌then◌else◌, leb, ◌==◌, Bool-cases, inl, inr,
}
use learn_web.Common.Integers.{ℤ, pos, negsuc, signed32}
use learn_web.Common.Slots.{
  set_at, resize, length-set_at, get_or-set_at, length-resize, get_or-resize, get_or_past,
}
use learn_web.Common.Outcome.{ok, err, out_of_range}
use learn_web.FdManager.Defs.{
  FdCtx, fd_ctx, FdManager, fd_manager, is_some, returns, goes_on, look, create, get, del,
}

-- The table starts with 64 places and stays below what an int can count.
pub record IsValid (s : FdManager) : Type 0 where
  pub at_least : 64 ≤ length s.datas
  pub at_most : length s.datas < 2 ^ 31

pub fd_manager-IsValid : (ctx : ℕ → FdCtx) → IsValid (fd_manager ctx)
unfolding fd_manager
fd_manager-IsValid ctx = record { at_least = omega arith; at_most = omega arith }

abbrev pub slot : FdManager → ℕ → Option ℕ
slot s n = get_or s.datas n none

signed_small : (m : ℕ) → m < 2 ^ 31 → signed32 m ≡ pos m
signed_small m h = ground arith

pub look_lem :
    (n : ℕ) (auto_create : Bool) (s : FdManager)
    → IsValid s
    → look (pos n) auto_create s
      ≡ ok (if is_some (slot s n) || not auto_create then returns (slot s n) else goes_on)
unfolding look
look_lem n auto_create s v = elim (Bool-cases (leb (length s.datas) n)) [
  | inl past ↦
      let nothing : slot s n ≡ none = get_or_past s.datas n none (ground arith) in
      rw (signed_small (length s.datas) v.at_most, past, nothing) (ground arith)
  | inr within ↦ rw (signed_small (length s.datas) v.at_most, within) (ground arith)
]

abbrev pub grown : ℕ → FdManager → List (Option ℕ)
grown n s = if leb (length s.datas) n then resize (n * 3 / 2) s.datas else s.datas

-- Room is made for any descriptor, as there are 64 places at least.
grown_lem :
    (n : ℕ) (s : FdManager)
    → IsValid s
    → n < 2 ^ 30
    → (n < length (grown n s))
      × (64 ≤ length (grown n s))
      × (length (grown n s) < 2 ^ 31)
      × ((m : ℕ) → get_or (grown n s) m none ≡ slot s m)
grown_lem n s v h = elim (Bool-cases (leb (length s.datas) n)) [
  | inl past ↦
      let len : length (resize (n * 3 / 2) s.datas) ≡ n * 3 / 2 =
        length-resize (n * 3 / 2) s.datas in
      let many : length s.datas ≤ n * 3 / 2 = ground (arith, v.at_least) in
      rw past (
        ground (arith, len, v.at_least),
        ground (arith, len, v.at_least),
        ground (arith, len),
        λ m. get_or-resize (n * 3 / 2) m s.datas many,
      )
  | inr within ↦ rw within (ground arith, v.at_least, v.at_most, λ m. refl)
]

module _ (stat : ℤ → Option Bool) (nonblock : ℤ → Bool) where
  -- The manager with a context for `n` at the address `a`.
  abbrev pub created : ℕ → ℕ → FdManager → FdManager
  created a n s = record {
    ctx = λ b. if b == a then (fd_ctx stat nonblock (pos n)).0 else s.ctx b;
    datas = set_at (grown n s) n (some a);
  }

  pub create_lem :
      (a n : ℕ) (s : FdManager)
      → IsValid s
      → n < 2 ^ 30
      → create stat nonblock a (pos n) s ≡ ok (a, created a n s)
  unfolding create
  create_lem a n s v h =
      let (fits, _, _, _) = grown_lem n s v h in
      let inside : leb (length (grown n s)) n ≡ false = ground arith in
      rw (signed_small (length s.datas) v.at_most, inside) refl

  pub created-IsValid : (a n : ℕ) (s : FdManager) → IsValid s → n < 2 ^ 30 → IsValid (created a n s)
  created-IsValid a n s v h =
      let (_, low, high, _) = grown_lem n s v h in
      let len = length-set_at (grown n s) n (some a) in
      record { at_least = rw len low; at_most = rw len high }

  pub slot-created :
      (a n m : ℕ) (s : FdManager)
      → IsValid s
      → n < 2 ^ 30
      → slot (created a n s) m ≡ (if m == n then some a else slot s m)
  slot-created a n m s v h =
      let (fits, _, _, same) = grown_lem n s v h in
      get_or-set_at (grown n s) n m (some a) none fits ∙ rw (same m) refl

  get_found :
      (a n : ℕ) (auto_create : Bool) (s : FdManager)
      → IsValid s
      → (is_some (slot s n) || not auto_create) ≡ true
      → get stat nonblock a (pos n) auto_create s ≡ ok (slot s n, s)
  unfolding get
  get_found a n auto_create s v e = rw (look_lem n auto_create s v, e) refl

  get-created :
      (a n : ℕ) (auto_create : Bool) (s : FdManager)
      → IsValid s
      → n < 2 ^ 30
      → (is_some (slot s n) || not auto_create) ≡ false
      → get stat nonblock a (pos n) auto_create s ≡ ok (some a, created a n s)
  unfolding get
  get-created a n auto_create s v h e =
      rw (look_lem n auto_create s v, e, create_lem a n s v h) refl

  -- On a table of 64 to 2^31 places `get` of a descriptor that is no negative number and below
  -- 2^30 returns what the table then holds for it, never leaves the table, and keeps every other
  -- place. A context that is there is returned, and without `auto_create` nothing changes; else a
  -- new context for this descriptor is at the new address and in the table.
  pub get_lem :
      (a n : ℕ) (auto_create : Bool) (s : FdManager)
      → IsValid s
      → n < 2 ^ 30
      → (t : FdManager) × (get stat nonblock a (pos n) auto_create s ≡ ok (slot t n, t))
        × IsValid t
        × ((m : ℕ) → m ≢ n → slot t m ≡ slot s m)
        × ((is_some (slot s n) || not auto_create) ≡ true → t ≡ s)
        × ((is_some (slot s n) || not auto_create) ≡ false
            → (slot t n ≡ some a)
              × (t.ctx a ≡ (fd_ctx stat nonblock (pos n)).0)
              × ((b : ℕ) → b ≢ a → t.ctx b ≡ s.ctx b))
  get_lem a n auto_create s v h = elim (Bool-cases (is_some (slot s n) || not auto_create)) [
    | inl e ↦ (s, get_found a n auto_create s v e, v, λ m k. refl, λ _. refl, λ k. cc)
    | inr e ↦
        let here : slot (created a n s) n ≡ some a = slot-created a n n s v h ∙ ground arith in
        (
          created a n s,
          get-created a n auto_create s v h e ∙ rw here refl,
          created-IsValid a n s v h,
          λ m k. slot-created a n m s v h ∙ ground arith,
          λ k. cc,
          λ _. (here, ground arith, λ b k. ground arith),
        )
  ]

-- On a table of 64 to 2^31 places `del` of a descriptor that is no negative number removes its
-- context from the table and leaves the other places and the contexts themselves. Of any negative
-- one it leaves the table, -1 included, for which `get` returns a null pointer.
pub del_lem :
    (n : ℕ) (s : FdManager)
    → IsValid s
    → ((t : FdManager) × (del (pos n) s ≡ ok t)
        × IsValid t
        × (t.ctx ≡ s.ctx)
        × (slot t n ≡ none)
        × ((m : ℕ) → m ≢ n → slot t m ≡ slot s m))
      × (del (negsuc n) s ≡ err out_of_range)
      × ((auto_create : Bool) → look (negsuc 0) auto_create s ≡ ok (returns none))
unfolding del look
del_lem n s v = elim (Bool-cases (leb (length s.datas) n)) [
  | inl past ↦ (
    (
      s,
      rw (signed_small (length s.datas) v.at_most, past) refl,
      v,
      refl,
      get_or_past s.datas n none (ground arith),
      λ m k. refl,
    ),
    rw (signed_small (length s.datas) v.at_most) refl,
    λ auto_create. refl,
  )
  | inr within ↦
      let fits : n < length s.datas = ground arith in
      let len = length-set_at s.datas n none in
      (
        (
          record s { datas = set_at s.datas n none },
          rw (signed_small (length s.datas) v.at_most, within) refl,
          record { at_least = rw len v.at_least; at_most = rw len v.at_most },
          refl,
          get_or-set_at s.datas n n none none fits ∙ ground arith,
          λ m k. get_or-set_at s.datas n m none none fits ∙ ground arith,
        ),
        rw (signed_small (length s.datas) v.at_most) refl,
        λ auto_create. refl,
      )
]
