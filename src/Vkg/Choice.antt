-- ===== src/Vkg/Choice.antt =====
-- src/vkg/Vulkan.cpp: the choice of a type of memory and the lookup of a device. The flags of memory
-- are numbers; whether those of a type contain others is a parameter, as Vulkan's masks are.
pub mod First
mod Tests
use kgl.Common.{
  ℕ, zero, suc, ◌/◌, ◌%◌, ◌^◌, Bool, true, false, ◌&&◌, if◌then◌else◌, ◌==◌, ltb, List, [], ◌∷◌,
  length, get_elem?, Option, none, some, from_option,
}
use kgl.Vkg.Errors.{Handlers, Outcome, add}
use kgl.Vkg.Errors.Codes.{Error, error_number}

-- `filter & ( 1 << index )`
unfoldable pub bit : ℕ → ℕ → Bool
bit filter index = filter / 2 ^ index % 2 == 1

-- The loop of `memType` from an index, over the flags of the types that are left.
unfoldable pub find_type : (ℕ → ℕ → Bool) → ℕ → ℕ → ℕ → List ℕ → ℕ
find_type contains filter flag index [] = 0
find_type contains filter flag index (flags ∷ types) =
    let rest = find_type contains filter flag (suc index) types in
    if bit filter index && contains flags flag then index else rest

-- `memType`
unfoldable pub mem_type : (ℕ → ℕ → Bool) → ℕ → ℕ → List ℕ → ℕ
mem_type contains filter flag types = find_type contains filter flag 0 types

module _ {D : Type 0} where
  -- The first device of those that there are, or the dummy.
  unfoldable pub first_or : D → List D → D
  first_or dummy [] = dummy
  first_or dummy (d ∷ devices) = d

  -- `Vulkan::device`, where adding the error returns.
  unfoldable pub device : Handlers → D → List D → ℕ → Outcome × D
  device h dummy devices id =
      if ltb id (length devices)
      then (
        record { effects = []; exited = false },
        from_option (λ d. d) dummy (get_elem? devices id),
      )
      else (add h (error_number Error.device_not_found), first_or dummy devices)

  -- `Vulkan::hasDevice`, from whether a device is initialised.
  unfoldable pub has_device : (D → Bool) → List D → ℕ → Bool
  has_device initialized devices id =
      if ltb id (length devices)
      then from_option initialized false (get_elem? devices id)
      else false
