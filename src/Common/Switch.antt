-- ===== src/Common/Switch.antt =====
-- A `switch` over the enumerators of an enumeration, on any number. The numbers of an enumeration
-- that the code takes from elsewhere are a parameter: no two labels have one number, since a
-- switch with such labels is refused by the compiler.
use kgl.Common.Tests.{◌==◌, ==_iff, if◌then◌else◌, Bool-cases}
use Prim.Native.Nat.{ℕ}
use mathlib.Core.Path.{◌≡◌, refl, ap}
use mathlib.Core.Logic.{inl, inr}
use mathlib.Core.List.{List, [], ◌∷◌}
use native.Mathlib.Omega.{arith}
use kgl.Common.Lists.{All}

pub record Enumeration (N : Type 0) : Type 0 where
  pub value : N → ℕ
  pub distinct : (a b : N) → value a ≡ value b → a ≡ b

module _ {N : Type 0} where
  -- Whether two labels are the same does not depend on their numbers.
  pub same_label :
      (e f : Enumeration N) (a b : N) → (e.value a == e.value b) ≡ (f.value a == f.value b)
  same_label e f a b = elim (Bool-cases (e.value a == e.value b)) [
    | inl same ↦ rw (same, e.distinct a b ((==_iff (e.value a) (e.value b)).0 same)) (ground arith)
    | inr other ↦ elim (Bool-cases (f.value a == f.value b)) [
      | inl same' ↦
          let eq = ap e.value (f.distinct a b ((==_iff (f.value a) (f.value b)).0 same')) in
          absurd (ground arith)
      | inr other' ↦ rw (other, other')
    ]
  ]

module _ {N V : Type 0} where
  unfoldable pub switch : Enumeration N → List (N × V) → V → ℕ → V
  switch e [] d x = d
  switch e ((n, v) ∷ cases) d x = if e.value n == x then v else switch e cases d x

  -- On the number of a label, the numbers do not matter.
  pub switch-switch :
      (e f : Enumeration N) (cases : List (N × V)) (d : V) (n : N)
      → switch e cases d (e.value n) ≡ switch f cases d (f.value n)
  unfolding switch
  switch-switch e f [] d n = refl
  switch-switch e f ((m, v) ∷ cases) d n = rw (same_label e f m n, switch-switch e f cases d n)

  -- The switch takes its default, or a case whose label has the number.
  pub data Taken (e : Enumeration N) (P : N → V → Type 0) (d : V) (x : ℕ) : V → Type 0 where
    default : Taken e P d x d
    label : (n : N) (v : V) → e.value n ≡ x → P n v → Taken e P d x v

  pub switch-Taken :
      (e : Enumeration N) (P : N → V → Type 0) (cases : List (N × V)) (d : V) (x : ℕ)
      → All (λ c. P c.0 c.1) cases
      → Taken e P d x (switch e cases d x)
  unfolding switch
  switch-Taken e P [] d x h = default
  switch-Taken e P ((n, v) ∷ cases) d x h = elim (Bool-cases (e.value n == x)) [
    | inl here ↦ rw here (label n v ((==_iff (e.value n) x).0 here) h.0)
    | inr later ↦ rw later (switch-Taken e P cases d x h.1)
  ]
