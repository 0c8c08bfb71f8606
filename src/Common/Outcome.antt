-- ===== src/Common/Outcome.antt =====
-- What a call of the source can come to: a value, a C++ exception, or a fault, which the source
-- leaves undefined. `out_of_fuel` is none of these: a loop of the model was cut short.

use mathlib.Core.Path.{◌≡◌, ap}

pub data Fault : Type 0 where
  out_of_range null_deref div_by_zero assert_failed out_of_fuel : Fault

pub data Outcome {ℓ} (A : Type ℓ) : Type ℓ where
  ok : A → Outcome A
  err : Fault → Outcome A

infixl 5 ◌>>=◌ ◌>>◌
abbrev pub ◌>>=◌ {ℓ κ} : {A : Type ℓ} {B : Type κ} → Outcome A → (A → Outcome B) → Outcome B
ok a >>= f = f a
err e >>= f = err e

abbrev pub ◌>>◌ {ℓ} : {B : Type ℓ} → Outcome (Unit {0}) → Outcome B → Outcome B
m >> k = m >>= λ _. k

-- One step more behind a run that ends well.
pub step_ok {ℓ} :
    {B : Type 0} {C : Type 0} {D : Type ℓ} (m : Outcome B) (c : B → Outcome C) (g : C → Outcome D)
    (x : C)
    → (m >>= c) ≡ ok x
    → (m >>= λ u. c u >>= g) ≡ g x
step_ok (ok u) c g x h = ap (λ r. r >>= g) h
step_ok (err e) c g x h = cc

pub then_ok {ℓ} :
    {A B C : Type 0} {D : Type ℓ} (a : Outcome A) (b : A → Outcome B) (c : B → Outcome C)
    (g : C → Outcome D) (x : C)
    → (a >>= λ t. b t >>= c) ≡ ok x
    → (a >>= λ t. b t >>= λ u. c u >>= g) ≡ g x
then_ok (ok t) b c g x h = step_ok (b t) c g x h
then_ok (err e) b c g x h = cc

-- A run whose first step ends well goes on from its value.
pub bind_ok {ℓ κ} :
    {A : Type ℓ} {B : Type κ} (a : Outcome A) (f : A → Outcome B) (x : A) {y : Outcome B}
    → a ≡ ok x
    → f x ≡ y
    → (a >>= f) ≡ y
bind_ok a f x p q = rw p q

pub err_first {ℓ κ} :
    {A : Type ℓ} {B : Type κ} (a : Outcome A) (f : A → Outcome B) {e : Fault}
    → a ≡ err e
    → (a >>= f) ≡ err e
err_first a f p = rw p
