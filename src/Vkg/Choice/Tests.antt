-- ===== src/Vkg/Choice/Tests.antt =====
-- Runs of the choices.
use kgl.Common.{ℕ, ◌≡◌, refl, true, false, ◌==◌, [], ◌∷◌}
use kgl.Vkg.Errors.{new_handlers}
use kgl.Vkg.Choice.{bit, find_type, mem_type, first_or, device, has_device}

-- Type 1 has the flag, and the filter leaves it out.
filtered : mem_type (◌==◌) 5 2 (1 ∷ 2 ∷ 2 ∷ []) ≡ 2
unfolding mem_type find_type bit
filtered = refl

-- No type has the flag: the answer is that of type 0.
nothing_fits : mem_type (◌==◌) 5 3 (1 ∷ 2 ∷ 2 ∷ []) ≡ 0
unfolding mem_type find_type bit
nothing_fits = refl

second_device : (device {D = ℕ} new_handlers 0 (7 ∷ 8 ∷ []) 1).1 ≡ 8
unfolding device
second_device = refl

-- A device that is not there is the first one, or the dummy.
missing_device : (device {D = ℕ} new_handlers 0 (7 ∷ 8 ∷ []) 2).1 ≡ 7
unfolding device first_or
missing_device = refl

no_device : (device {D = ℕ} new_handlers 0 [] 0).1 ≡ 0
unfolding device first_or
no_device = refl

has_no_device : has_device {D = ℕ} (λ d. true) (7 ∷ 8 ∷ []) 2 ≡ false
unfolding has_device
has_no_device = refl
