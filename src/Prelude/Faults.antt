-- ===== src/Prelude/Faults.antt =====
-- Computations that may do what C leaves undefined. A fault stops the model where it happens:
-- nothing is said of what the compiled program does from there on.
use mathlib.Core.Path.{◌≡◌, refl}

pub data Fault : Type 0 where
  -- a read or write through NULL
  null_dereference : Fault
  -- a read or write outside an array or an allocated block
  out_of_bounds : Fault
  -- the value of a variable that nothing was stored in
  uninitialized : Fault

pub data Outcome {ℓ} (A : Type ℓ) : Type ℓ where
  ok : A → Outcome A
  fault : Fault → Outcome A

infixl 5 ◌>>=◌
abbrev pub ◌>>=◌ {ℓ κ} : {A : Type ℓ} {B : Type κ} → Outcome A → (A → Outcome B) → Outcome B
ok a >>= f = f a
fault e >>= f = fault e

pub bind-eq-ok {ℓ κ} :
    {A : Type ℓ} {B : Type κ} (m : Outcome A) (f : A → Outcome B) {b : B}
    → (m >>= f) ≡ ok b
    → (a : A) × (m ≡ ok a) × (f a ≡ ok b)
bind-eq-ok (ok a) f h = (a, refl, h)
bind-eq-ok (fault e) f h = cc

pub ok_injective {ℓ} : {A : Type ℓ} {a b : A} → ok a ≡ ok b → a ≡ b
ok_injective h = cc
