-- ===== src/Common/OrderedMap.antt =====
-- `std::map` with unsigned keys, as the list of its entries in the order of iteration.
use kgl.Common.Tests.{ltb, ◌==◌, if◌then◌else◌}
use Prim.Native.Nat.{ℕ, ◌<◌}
use mathlib.Core.Path.{◌≡◌, refl}
use mathlib.Core.List.{List, [], ◌∷◌}
use mathlib.Core.Option.{Option, none, some}
use native.Mathlib.Omega.{arith}

module _ {ℓ} {V : Type ℓ} where
  abbrev pub first_of_two : Option V → V → V
  first_of_two none v = v
  first_of_two (some w) v = w

  -- `find`
  unfoldable pub lookup : ℕ → List (ℕ × V) → Option V
  lookup k [] = none
  lookup k ((j, v) ∷ m) = if j == k then some v else lookup k m

  -- `insert`: an entry that is there already stays.
  unfoldable pub insert : ℕ → V → List (ℕ × V) → List (ℕ × V)
  insert k v [] = (k, v) ∷ []
  insert k v ((j, w) ∷ m) =
      if ltb k j then (k, v) ∷ (j, w) ∷ m else if j == k then (j, w) ∷ m else (j, w) ∷ insert k v m

  -- `m[ k ] = v`: an entry that is there already is overwritten.
  unfoldable pub assign : ℕ → V → List (ℕ × V) → List (ℕ × V)
  assign k v [] = (k, v) ∷ []
  assign k v ((j, w) ∷ m) =
      if ltb k j then (k, v) ∷ (j, w) ∷ m else if j == k then (j, v) ∷ m else (j, w) ∷ assign k v m

  -- Every key is above `k`, and the keys grow from entry to entry.
  abbrev pub IsAbove : ℕ → List (ℕ × V) → Type 0
  IsAbove k [] = Unit
  IsAbove k ((j, v) ∷ m) = (k < j) × IsAbove k m

  abbrev pub IsSorted : List (ℕ × V) → Type 0
  IsSorted [] = Unit
  IsSorted ((k, v) ∷ m) = IsAbove k m × IsSorted m

module _ {V : Type 0} where
  pub IsAbove-lt : (k j : ℕ) (m : List (ℕ × V)) → k < j → IsAbove j m → IsAbove k m
  IsAbove-lt k j [] h a = tt
  IsAbove-lt k j ((i, v) ∷ m) h a = (omega arith, IsAbove-lt k j m h a.1)

  lookup-above : (k : ℕ) (m : List (ℕ × V)) → IsAbove k m → lookup k m ≡ none
  unfolding lookup
  lookup-above k [] a = refl
  lookup-above k ((i, v) ∷ m) a = ground (arith, lookup-above k m a.1)

  pub insert-IsAbove :
      (i k : ℕ) (v : V) (m : List (ℕ × V)) → i < k → IsAbove i m → IsAbove i (insert k v m)
  unfolding insert
  insert-IsAbove i k v [] h a = (h, tt)
  insert-IsAbove i k v ((j, w) ∷ m) h a = ground (arith, insert-IsAbove i k v m h a.1)

  pub insert-IsSorted : (k : ℕ) (v : V) (m : List (ℕ × V)) → IsSorted m → IsSorted (insert k v m)
  unfolding insert
  insert-IsSorted k v [] s = (tt, tt)
  insert-IsSorted k v ((j, w) ∷ m) s =
      ground (arith, insert-IsSorted k v m s.1, insert-IsAbove j k v m, IsAbove-lt k j m)

  pub assign-IsAbove :
      (i k : ℕ) (v : V) (m : List (ℕ × V)) → i < k → IsAbove i m → IsAbove i (assign k v m)
  unfolding assign
  assign-IsAbove i k v [] h a = (h, tt)
  assign-IsAbove i k v ((j, w) ∷ m) h a = ground (arith, assign-IsAbove i k v m h a.1)

  pub assign-IsSorted : (k : ℕ) (v : V) (m : List (ℕ × V)) → IsSorted m → IsSorted (assign k v m)
  unfolding assign
  assign-IsSorted k v [] s = (tt, tt)
  assign-IsSorted k v ((j, w) ∷ m) s =
      ground (arith, assign-IsSorted k v m s.1, assign-IsAbove j k v m, IsAbove-lt k j m)

  pub lookup-insert :
      (i k : ℕ) (v : V) (m : List (ℕ × V))
      → IsSorted m
      → lookup i (insert k v m)
        ≡ (if k == i then some (first_of_two (lookup k m) v) else lookup i m)
  unfolding lookup insert
  lookup-insert i k v [] s = refl
  lookup-insert i k v ((j, w) ∷ m) s =
      ground (arith, lookup-insert i k v m s.1, lookup-above k m, IsAbove-lt k j m)

  pub lookup-assign :
      (i k : ℕ) (v : V) (m : List (ℕ × V))
      → lookup i (assign k v m) ≡ (if k == i then some v else lookup i m)
  unfolding lookup assign
  lookup-assign i k v [] = refl
  lookup-assign i k v ((j, w) ∷ m) = ground (arith, lookup-assign i k v m)
