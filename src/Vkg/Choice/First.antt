-- ===== src/Vkg/Choice/First.antt =====
-- Which type of memory is chosen.
use kgl.Common.{ℕ, suc, ◌≡◌, ◌⊎◌, Bool, true, false, ◌&&◌, List, [], ◌∷◌}
use kgl.Vkg.Choice.{bit}

-- A type at an index fits a filter and a flag.
abbrev pub fits : (ℕ → ℕ → Bool) → ℕ → ℕ → ℕ → ℕ → Bool
fits contains filter flag index flags = bit filter index && contains flags flag

-- The choice is the first type from an index on that fits, or 0 when none does.
abbrev pub FirstFrom : (ℕ → ℕ → Bool) → ℕ → ℕ → ℕ → List ℕ → ℕ → Type 0
FirstFrom contains filter flag index [] chosen = chosen ≡ 0
FirstFrom contains filter flag index (flags ∷ types) chosen =
    ((fits contains filter flag index flags ≡ true) × (chosen ≡ index))
    ⊎ ((fits contains filter flag index flags ≡ false)
        × FirstFrom contains filter flag (suc index) types chosen)
