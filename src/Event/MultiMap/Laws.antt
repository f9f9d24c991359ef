-- ===== src/Event/MultiMap/Laws.antt =====
-- Laws of multimaps in which every key stands once.
use kgl.Common.{
  ◌≡◌, refl, sym, ◌∙◌, ap, true, false, List, [], ◌∷◌, if◌then◌else◌, arith, Bool-cases, inl, inr,
}
use mathlib.Core.Path.{subst}
use kgl.Event.Order.{Order, same, same→eq}
use kgl.Event.MultiMap.{Node, lower_bound, up_to, equal_range, found, insert}

module _ {K : Type 0} ⦃o : Order K⦄ where
  -- All nodes come after `k`, and each comes after the one before it.
  abbrev pub IsAbove : K → List (Node K) → Type 0
  IsAbove k [] = Unit
  IsAbove k (x ∷ m) = (o.lt k x.key ≡ true) × IsAbove k m

  abbrev pub IsSorted : List (Node K) → Type 0
  IsSorted [] = Unit
  IsSorted (x ∷ m) = IsAbove x.key m × IsSorted m

  -- The nodes with the key `k`, wherever they stand.
  unfoldable pub matching : K → List (Node K) → List (Node K)
  matching k [] = []
  matching k (x ∷ m) = if same x.key k then x ∷ matching k m else matching k m

  IsAbove-trans : (j k : K) (m : List (Node K)) → o.lt j k ≡ true → IsAbove k m → IsAbove j m
  IsAbove-trans j k [] h a = tt
  IsAbove-trans j k (x ∷ m) h a = (o.trans j k x.key h a.0, IsAbove-trans j k m h a.1)

  insert-IsAbove :
      (j : K) (n : Node K) (m : List (Node K))
      → o.lt j n.key ≡ true
      → IsAbove j m
      → IsAbove j (insert n m)
  unfolding insert
  insert-IsAbove j n [] h a = (h, tt)
  insert-IsAbove j n (x ∷ m) h a = ground (arith, insert-IsAbove j n m h a.1)

  -- A node whose key is not there keeps the order.
  pub insert-IsSorted :
      (n : Node K) (m : List (Node K)) → found n.key m ≡ false → IsSorted m → IsSorted (insert n m)
  unfolding insert found
  insert-IsSorted n [] f s = (tt, tt)
  insert-IsSorted n (x ∷ m) f s = elim (Bool-cases (o.lt n.key x.key)) [
    | inl before ↦ rw before ((before, IsAbove-trans n.key x.key m before s.0), s)
    | inr no_before ↦
        let after : o.lt x.key n.key ≡ true = ground arith in
        let tail : found n.key m ≡ false = ground arith in
        rw no_before (insert-IsAbove x.key n m after s.0, insert-IsSorted n m tail s.1)
  ]

  matching-above : (k : K) (m : List (Node K)) → IsAbove k m → matching k m ≡ []
  unfolding matching
  matching-above k [] a = refl
  matching-above k (x ∷ m) a = ground (arith, matching-above k m a.1)

  up_to-above : (k : K) (m : List (Node K)) → IsAbove k m → up_to k m ≡ []
  unfolding up_to
  up_to-above k [] a = refl
  up_to-above k (x ∷ m) a = rw a.0

  range_at :
      (k : K) (x : Node K) (m : List (Node K))
      → o.lt x.key k ≡ false
      → IsAbove x.key m
      → up_to k (x ∷ m) ≡ matching k (x ∷ m)
  unfolding up_to matching
  range_at k x m no_before a = elim (Bool-cases (o.lt k x.key)) [
    | inl after ↦ rw (after, no_before) (sym (matching-above k m (IsAbove-trans k x.key m after a)))
    | inr no_after ↦
        let here = o.connected x.key k no_before no_after in
        let above : IsAbove k m = subst (λ j. IsAbove j m) here a in
        rw (no_after, no_before)
          (ap (◌∷◌ x) (up_to-above k m above ∙ sym (matching-above k m above)))
  ]

  -- The range between the two bounds holds exactly the nodes with the key.
  pub equal_range-matching :
      (k : K) (m : List (Node K)) → IsSorted m → equal_range k m ≡ matching k m
  unfolding equal_range lower_bound
  equal_range-matching k [] s = unfold up_to matching in refl
  equal_range-matching k (x ∷ m) s = elim (Bool-cases (o.lt x.key k)) [
    | inl before ↦ rw before (equal_range-matching k m s.1 ∙ unfold matching in rw before)
    | inr no_before ↦ rw no_before (range_at k x m no_before s.0)
  ]

  pub found-matching : (k : K) (m : List (Node K)) → found k m ≡ false → matching k m ≡ []
  unfolding found matching
  found-matching k [] h = refl
  found-matching k (x ∷ m) h = ground (arith, found-matching k m)

  insert_away :
      (j : K) (n : Node K) (m : List (Node K))
      → same n.key j ≡ false
      → matching j (insert n m) ≡ matching j m
  unfolding insert matching
  insert_away j n [] h = rw h
  insert_away j n (x ∷ m) h = ground (arith, insert_away j n m h)

  insert_here :
      (j : K) (n : Node K) (m : List (Node K))
      → same n.key j ≡ true
      → matching j m ≡ []
      → matching j (insert n m) ≡ n ∷ []
  unfolding insert matching
  insert_here j n [] h e = rw h
  insert_here j n (x ∷ m) h e = ground (arith, insert_here j n m h)

  -- A node that no other has the key of is found by its key alone.
  pub matching-insert :
      (j : K) (n : Node K) (m : List (Node K))
      → found n.key m ≡ false
      → matching j (insert n m) ≡ (if same n.key j then n ∷ [] else matching j m)
  matching-insert j n m h = elim (Bool-cases (same n.key j)) [
    | inl here ↦ rw here (
        insert_here j n m here
          (found-matching j m (subst (λ k. found k m ≡ false) (same→eq n.key j here) h)))
    | inr away ↦ rw away (insert_away j n m away)
  ]
