-- ===== src/Event/MultiMap.antt =====
-- `std::multimap`, as the list of its nodes in order. A node has an identity, by which an iterator
-- names it: an iterator to a node that is gone is dangling.
pub mod Laws
pub mod Erase
use kgl.Common.{
  ℕ, Bool, true, false, not, List, [], ◌∷◌, Option, none, some, Result, ok, fault, dangling, bind,
  if◌then◌else◌, ◌==◌, map,
}
use kgl.Event.Order.{Order, same}

-- `subscriber` is the object on the heap; `name` is the string stored with it.
pub record Node (K : Type 0) : Type 0 where
  pub key : K
  pub name : List ℕ
  pub subscriber : ℕ
  pub id : ℕ

module _ {K : Type 0} ⦃o : Order K⦄ where
  -- The nodes from the first that does not come before `k`.
  unfoldable pub lower_bound : K → List (Node K) → List (Node K)
  lower_bound k [] = []
  lower_bound k (x ∷ m) = if o.lt x.key k then lower_bound k m else x ∷ m

  -- The nodes before the first that comes after `k`.
  unfoldable pub up_to : K → List (Node K) → List (Node K)
  up_to k [] = []
  up_to k (x ∷ m) = if o.lt k x.key then [] else x ∷ up_to k m

  -- What the iterators from `lower_bound( k )` up to `upper_bound( k )` pass.
  unfoldable pub equal_range : K → List (Node K) → List (Node K)
  equal_range k m = up_to k (lower_bound k m)

  -- Whether `find( k )` is not `end()`.
  unfoldable pub found : K → List (Node K) → Bool
  found k [] = false
  found k (x ∷ m) = if same x.key k then true else found k m

  -- `insert`: in front of the first node that comes after the new one.
  unfoldable pub insert : Node K → List (Node K) → List (Node K)
  insert n [] = n ∷ []
  insert n (x ∷ m) = if o.lt n.key x.key then n ∷ x ∷ m else x ∷ insert n m

-- `erase( iterator )`, after a use of the iterator.
unfoldable pub erase : {K : Type 0} → ℕ → List (Node K) → Result (List (Node K))
erase i [] = fault dangling
erase i (x ∷ m) = if x.id == i then ok m else bind (erase i m) (λ r. ok (x ∷ r))

-- The iterators of a list, each erased in turn.
unfoldable pub erase_all : {K : Type 0} → List ℕ → List (Node K) → Result (List (Node K))
erase_all [] m = ok m
erase_all (i ∷ is) m = bind (erase i m) (erase_all is)
