-- ===== src/Event/MultiMap/Erase.antt =====
-- Erasing through iterators: by the identity of the nodes.
use kgl.Common.{
  ℕ, ◌≡◌, refl, sym, ap, Bool, true, false, not, ◌||◌, ◌&&◌, List, [], ◌∷◌, if◌then◌else◌, arith,
  ◌==◌, ok, fault, dangling, ==_iff,
}
use kgl.Event.MultiMap.{Node, erase, erase_all}

abbrev pub has : ℕ → List ℕ → Bool
has i [] = false
has i (j ∷ js) = j == i || has i js

has-of_eq : (i j : ℕ) (is : List ℕ) → (i == j) ≡ true → has i is ≡ has j is
has-of_eq i j is h = ap (λ k. has k is) ((==_iff i j).0 h)

-- No iterator stands twice in the list.
abbrev pub AllDiffer : List ℕ → Type 0
AllDiffer [] = Unit
AllDiffer (i ∷ is) = (has i is ≡ false) × AllDiffer is

module _ {K : Type 0} where
  abbrev pub holds_id : ℕ → List (Node K) → Bool
  holds_id i [] = false
  holds_id i (x ∷ m) = x.id == i || holds_id i m

  -- No two nodes have one identity.
  abbrev pub IdsDiffer : List (Node K) → Type 0
  IdsDiffer [] = Unit
  IdsDiffer (x ∷ m) = (holds_id x.id m ≡ false) × IdsDiffer m

  -- The nodes that are not named in the list.
  unfoldable pub without : List ℕ → List (Node K) → List (Node K)
  without is [] = []
  without is (x ∷ m) = if has x.id is then without is m else x ∷ without is m

  -- Every iterator of the list names a node.
  abbrev pub AllHeld : List ℕ → List (Node K) → Type 0
  AllHeld [] m = Unit
  AllHeld (i ∷ is) m = (holds_id i m ≡ true) × AllHeld is m

  without_absent : (i : ℕ) (m : List (Node K)) → holds_id i m ≡ false → without (i ∷ []) m ≡ m
  unfolding without
  without_absent i [] h = refl
  without_absent i (x ∷ m) h = ground (arith, without_absent i m)

  erase_held :
      (i : ℕ) (m : List (Node K))
      → IdsDiffer m
      → holds_id i m ≡ true
      → erase i m ≡ ok (without (i ∷ []) m)
  unfolding erase without
  erase_held i [] d h = absurd (cc)
  erase_held i (x ∷ m) d h = ground (arith, erase_held i m d.1, without_absent i m)

  pub erase_gone : (i : ℕ) (m : List (Node K)) → holds_id i m ≡ false → erase i m ≡ fault dangling
  unfolding erase
  erase_gone i [] h = refl
  erase_gone i (x ∷ m) h = ground (arith, erase_gone i m)

  without-without :
      (i : ℕ) (is : List ℕ) (m : List (Node K))
      → without is (without (i ∷ []) m) ≡ without (i ∷ is) m
  unfolding without
  without-without i is [] = refl
  without-without i is (x ∷ m) = ground (arith, without-without i is m)

  without_nil : (m : List (Node K)) → without [] m ≡ m
  unfolding without
  without_nil [] = refl
  without_nil (x ∷ m) = ap (◌∷◌ x) (without_nil m)

  pub holds_id-without :
      (j : ℕ) (is : List ℕ) (m : List (Node K))
      → holds_id j (without is m) ≡ (not (has j is) && holds_id j m)
  unfolding without
  holds_id-without j is [] = ground arith
  holds_id-without j is (x ∷ m) = ground (arith, holds_id-without j is m, has-of_eq x.id j is)

  without-IdsDiffer : (is : List ℕ) (m : List (Node K)) → IdsDiffer m → IdsDiffer (without is m)
  unfolding without
  without-IdsDiffer is [] d = tt
  without-IdsDiffer is (x ∷ m) d =
      ground (arith, without-IdsDiffer is m d.1, holds_id-without x.id is m)

  AllHeld-without :
      (i : ℕ) (is : List ℕ) (m : List (Node K))
      → has i is ≡ false
      → AllHeld is m
      → AllHeld is (without (i ∷ []) m)
  AllHeld-without i [] m h a = tt
  AllHeld-without i (j ∷ js) m h a =
      (ground (arith, holds_id-without j (i ∷ []) m), AllHeld-without i js m (ground arith) a.1)

  -- Iterators to nodes that are there, each once, are all erased, and just those nodes go.
  pub erase_all-held :
      (is : List ℕ) (m : List (Node K))
      → AllDiffer is
      → IdsDiffer m
      → AllHeld is m
      → erase_all is m ≡ ok (without is m)
  unfolding erase_all
  erase_all-held [] m a d h = ap ok (sym (without_nil m))
  erase_all-held (i ∷ is) m a d h = rw (
    erase_held i m d h.0,
    erase_all-held is (without (i ∷ []) m) a.1 (without-IdsDiffer (i ∷ []) m d)
        (AllHeld-without i is m a.0 h.1),
    without-without i is m,
  )
