-- ===== src/Event/Manager/Tracks.antt =====
-- What a manager may rely on of one multimap and of its iterators into it.
use kgl.Common.{ℕ, ◌+◌, ◌<◌, ◌≡◌, refl, true, false, ◌||◌, List, [], ◌∷◌, ◌++◌, ◌==◌, arith}
use kgl.Event.Order.{Order}
use kgl.Event.MultiMap.{Node, found, insert}
use kgl.Event.MultiMap.Laws.{IsSorted, insert-IsSorted}
use kgl.Event.MultiMap.Erase.{has, holds_id, IdsDiffer, AllDiffer, AllHeld}

pub has-append : (i j : ℕ) (is : List ℕ) → has i (is ++ j ∷ []) ≡ (has i is || j == i)
has-append i j [] = ground arith
has-append i j (h ∷ is) = ground (arith, has-append i j is)

module _ {K : Type 0} ⦃o : Order K⦄ where
  abbrev pub IdsBelow : ℕ → List (Node K) → Type 0
  IdsBelow n [] = Unit
  IdsBelow n (x ∷ m) = (x.id < n) × IdsBelow n m

  -- The keys are in order and differ, the identities are below `next` and differ, and the
  -- iterators `is` stand for nodes of the map, each once.
  pub record Tracks (next : ℕ) (is : List ℕ) (m : List (Node K)) : Type 0 where
    pub sorted : IsSorted m
    pub ids_differ : IdsDiffer m
    pub ids_below : IdsBelow next m
    pub held : AllHeld is m
    pub differ : AllDiffer is

  IdsBelow-suc : (n : ℕ) (m : List (Node K)) → IdsBelow n m → IdsBelow (n + 1) m
  IdsBelow-suc n [] h = tt
  IdsBelow-suc n (x ∷ m) h = (omega (arith, h.0), IdsBelow-suc n m h.1)

  -- Another multimap has taken the identity `next`.
  pub Tracks-suc :
      (next : ℕ) (is : List ℕ) (m : List (Node K)) → Tracks next is m → Tracks (next + 1) is m
  Tracks-suc next is m t = record {
    sorted = t.sorted;
    ids_differ = t.ids_differ;
    ids_below = IdsBelow-suc next m t.ids_below;
    held = t.held;
    differ = t.differ;
  }

  not-holds_id : (n : ℕ) (m : List (Node K)) → IdsBelow n m → holds_id n m ≡ false
  not-holds_id n [] h = refl
  not-holds_id n (x ∷ m) h = ground (arith, not-holds_id n m h.1, h.0)

  holds_id-insert :
      (i : ℕ) (x : Node K) (m : List (Node K))
      → holds_id i (insert x m) ≡ (x.id == i || holds_id i m)
  unfolding insert
  holds_id-insert i x [] = refl
  holds_id-insert i x (y ∷ m) = ground (arith, holds_id-insert i x m)

  insert-IdsDiffer :
      (x : Node K) (m : List (Node K))
      → holds_id x.id m ≡ false
      → IdsDiffer m
      → IdsDiffer (insert x m)
  unfolding insert
  insert-IdsDiffer x [] h d = (refl, tt)
  insert-IdsDiffer x (y ∷ m) h d = ground (arith, insert-IdsDiffer x m, holds_id-insert y.id x m)

  insert-IdsBelow :
      (n : ℕ) (x : Node K) (m : List (Node K)) → x.id < n → IdsBelow n m → IdsBelow n (insert x m)
  unfolding insert
  insert-IdsBelow n x [] h b = (h, tt)
  insert-IdsBelow n x (y ∷ m) h b = ground (arith, insert-IdsBelow n x m h b.1)

  AllHeld-insert :
      (is : List ℕ) (x : Node K) (m : List (Node K))
      → AllHeld is m
      → AllHeld (is ++ x.id ∷ []) (insert x m)
  AllHeld-insert [] x m h = (ground (arith, holds_id-insert x.id x m), tt)
  AllHeld-insert (i ∷ is) x m h =
      (ground (arith, holds_id-insert i x m, h.0), AllHeld-insert is x m h.1)

  held_below : (i n : ℕ) (m : List (Node K)) → holds_id i m ≡ true → IdsBelow n m → i < n
  held_below i n [] h b = absurd (cc)
  held_below i n (x ∷ m) h b = ground (arith, held_below i n m, b.0)

  AllDiffer-append :
      (n : ℕ) (is : List ℕ) (m : List (Node K))
      → AllHeld is m
      → IdsBelow n m
      → AllDiffer is
      → AllDiffer (is ++ n ∷ [])
  AllDiffer-append n [] m h b d = (refl, tt)
  AllDiffer-append n (i ∷ is) m h b d = (
    ground (arith, has-append i n is, held_below i n m h.0 b, d.0),
    AllDiffer-append n is m h.1 b d.1,
  )

  -- A node with a new key and the next identity, whose iterator is added to the list.
  pub Tracks-insert :
      (x : Node K) (is : List ℕ) (m : List (Node K))
      → found x.key m ≡ false
      → Tracks x.id is m
      → Tracks (x.id + 1) (is ++ x.id ∷ []) (insert x m)
  Tracks-insert x is m f t = record {
    sorted = insert-IsSorted x m f t.sorted;
    ids_differ = insert-IdsDiffer x m (not-holds_id x.id m t.ids_below) t.ids_differ;
    ids_below = insert-IdsBelow (x.id + 1) x m (omega arith) (IdsBelow-suc x.id m t.ids_below);
    held = AllHeld-insert is x m t.held;
    differ = AllDiffer-append x.id is m t.held t.ids_below t.differ;
  }
