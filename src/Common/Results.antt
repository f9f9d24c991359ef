-- ===== src/Common/Results.antt =====
-- The outcome of code that may run into undefined behaviour of C++, or end the process.
use mathlib.Core.Path.{◌≡◌, refl}

-- `indeterminate`: a variable or buffer is read that nothing has been written to.
-- `overrun`: a write past the end of an array. `dangling`: use of an object after its release.
-- `exited`: the code has called exit.
pub data Fault : Type 0 where
  indeterminate overrun dangling exited : Fault

pub data Result {ℓ} (A : Type ℓ) : Type ℓ where
  ok : A → Result A
  fault : Fault → Result A

pub ok_value {ℓ} : {A : Type ℓ} {a b : A} → ok a ≡ ok b → a ≡ b
ok_value e = cc

module _ {ℓ κ} {A : Type ℓ} {B : Type κ} where
  abbrev pub bind : Result A → (A → Result B) → Result B
  bind (ok a) f = f a
  bind (fault e) f = fault e

  pub bind-eq-ok :
      (m : Result A) (f : A → Result B) {b : B}
      → bind m f ≡ ok b
      → (a : A) × (m ≡ ok a) × (f a ≡ ok b)
  bind-eq-ok (ok a) f h = (a, refl, h)
  bind-eq-ok (fault e) f h = cc
