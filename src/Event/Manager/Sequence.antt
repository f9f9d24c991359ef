-- ===== src/Event/Manager/Sequence.antt =====
-- A manager that enrolls any number of subscribers and is then reset.
use kgl.Common.{ℕ, ◌≡◌, refl, ap, ◌∙◌, List, [], ◌∷◌, ◌++◌, ok, arith, Bool-cases, inl, inr}
use kgl.Event.Order.{Order, key_order, string_order}
use kgl.Event.Types.{type_order}
use kgl.Event.MultiMap.{Node, found, insert}
use kgl.Event.MultiMap.Erase.{without}
use kgl.Event.Manager.{Table, Manager, new_manager, enroll, enroll_type, enroll_key, reset}
use kgl.Event.Manager.Tracks.{has-append, IdsBelow}
use kgl.Event.Manager.Deliver.{
  IsValid, Request, every, of_type, of_key, enroll_request, enroll_request-IsValid,
}
use kgl.Event.Manager.Reset.{without_manager, reset-without_manager}

-- The requests in turn, each with its subscriber.
unfoldable pub enroll_all : List (ℕ × Request) → Table → Manager → Table × Manager
enroll_all [] t m = (t, m)
enroll_all ((subscriber, r) ∷ rs) t m =
    let (t', m') = enroll_request subscriber r t m in enroll_all rs t' m'

module _ {K : Type 0} ⦃o : Order K⦄ where
  without_new :
      (n : ℕ) (is : List ℕ) (m : List (Node K))
      → IdsBelow n m
      → without (is ++ n ∷ []) m ≡ without is m
  unfolding without
  without_new n is [] b = refl
  without_new n is (x ∷ m) b = ground (arith, has-append x.id n is, without_new n is m b.1, b.0)

  without-insert :
      (x : Node K) (is : List ℕ) (m : List (Node K))
      → IdsBelow x.id m
      → without (is ++ x.id ∷ []) (insert x m) ≡ without is m
  unfolding without insert
  without-insert x is [] b = ground (arith, has-append x.id x.id is)
  without-insert x is (y ∷ m) b = ground (
    arith,
    has-append x.id x.id is,
    has-append y.id x.id is,
    without_new x.id is m b.1,
    without-insert x is m b.1,
    b.0,
  )

without_none : {K : Type 0} (m : List (Node K)) → without [] m ≡ m
unfolding without
without_none [] = refl
without_none (x ∷ m) = ap (◌∷◌ x) (without_none m)

-- The same callbacks; the next identity may differ.
abbrev pub SameCallbacks : Table → Table → Type 0
SameCallbacks t u =
    (t.callbacks ≡ u.callbacks)
    × (t.key_callbacks ≡ u.key_callbacks)
    × (t.type_callbacks ≡ u.type_callbacks)

without-enroll :
    (subscriber : ℕ) (r : Request) (t : Table) (m : Manager)
    → IsValid t m
    → let (t', m') = enroll_request subscriber r t m in
      SameCallbacks (without_manager m' t') (without_manager m t)
unfolding enroll_request enroll enroll_type enroll_key without_manager
without-enroll subscriber (every key) t m v = elim (Bool-cases (found key t.callbacks)) [
  | inl taken ↦ rw taken (refl, refl, refl)
  | inr fresh ↦ rw fresh (without-insert _ m.local_callbacks _ v.callbacks.ids_below, refl, refl)
]
without-enroll subscriber (of_type type key) t m v =
    elim (Bool-cases (found type t.type_callbacks)) [
      | inl taken ↦ rw taken (refl, refl, refl)
      | inr fresh ↦
          rw fresh (refl, refl, without-insert _ m.local_type_callbacks _ v.types.ids_below)
    ]
without-enroll subscriber (of_key keysym key) t m v =
    elim (Bool-cases (found keysym t.key_callbacks)) [
      | inl taken ↦ rw taken (refl, refl, refl)
      | inr fresh ↦ rw fresh (refl, without-insert _ m.local_key_callbacks _ v.keys.ids_below, refl)
    ]

same_trans : (t u w : Table) → SameCallbacks t u → SameCallbacks u w → SameCallbacks t w
same_trans t u w p q = (p.0 ∙ q.0, p.1 ∙ q.1, p.2 ∙ q.2)

reset-enroll_all-from :
    (rs : List (ℕ × Request)) (t : Table) (m : Manager)
    → IsValid t m
    → let (t', m') = enroll_all rs t m in
      (u : Table) × (reset t' m' ≡ ok u) × SameCallbacks u (without_manager m t)
unfolding enroll_all
reset-enroll_all-from [] t m v =
    (without_manager m t, reset-without_manager t m v, (refl, refl, refl))
reset-enroll_all-from ((subscriber, r) ∷ rs) t m v =
    let (t', m') = enroll_request subscriber r t m in
    let (u, done, same) =
      reset-enroll_all-from rs t' m' (enroll_request-IsValid subscriber r t m v) in
    (
      u,
      done,
      same_trans u (without_manager m' t') (without_manager m t) same
          (without-enroll subscriber r t m v),
    )

-- A new manager that enrolls any sequence of subscribers, for all events, for types and for keys,
-- can then be reset, and the callbacks in the table are again just those that were there before.
pub reset-enroll_all :
    (rs : List (ℕ × Request)) (t : Table)
    → IsValid t new_manager
    → let (t', m') = enroll_all rs t new_manager in
      (u : Table) × (reset t' m' ≡ ok u) × SameCallbacks u t
unfolding without_manager new_manager
reset-enroll_all rs t v =
    let (u, done, same) = reset-enroll_all-from rs t new_manager v in
    (
      u,
      done,
      same_trans u (without_manager new_manager t) t same
          (without_none t.callbacks, without_none t.key_callbacks, without_none t.type_callbacks),
    )
