-- ===== src/Event/Manager/Reset.antt =====
-- `reset`, once and again.
use kgl.Common.{
  ℕ, ◌≡◌, ◌≢◌, refl, ap, ◌∙◌, false, List, [], ◌∷◌, inl, inr, ok, fault, dangling, bind, Result,
  ◌⊎◌, ==_refl,
}
use kgl.Event.MultiMap.{Node, erase_all}
use kgl.Event.MultiMap.Erase.{holds_id, without, erase_all-held, erase_gone, holds_id-without}
use kgl.Event.Manager.{Table, Manager, reset, destroy}
use kgl.Event.Manager.Deliver.{IsValid}

-- The table without the nodes of the manager.
unfoldable pub without_manager : Manager → Table → Table
without_manager m t = record t {
  callbacks = without m.local_callbacks t.callbacks;
  key_callbacks = without m.local_key_callbacks t.key_callbacks;
  type_callbacks = without m.local_type_callbacks t.type_callbacks;
}

-- A valid manager can be reset: just its own nodes go, from all three multimaps, and those of
-- other managers stay.
pub reset-without_manager :
    (t : Table) (m : Manager) → IsValid t m → reset t m ≡ ok (without_manager m t)
unfolding reset without_manager
reset-without_manager t m v = rw (
  erase_all-held m.local_callbacks t.callbacks v.callbacks.differ v.callbacks.ids_differ
      v.callbacks.held,
  erase_all-held m.local_key_callbacks t.key_callbacks v.keys.differ v.keys.ids_differ v.keys.held,
  erase_all-held m.local_type_callbacks t.type_callbacks v.types.differ v.types.ids_differ
      v.types.held,
)

-- Iterators that were erased already.
erase_all_again :
    {K : Type 0} (is : List ℕ) (m : List (Node K))
    → is ≢ []
    → erase_all is (without is m) ≡ fault dangling
unfolding erase_all
erase_all_again [] m h = absurd (h refl)
erase_all_again (i ∷ is) m h =
    let gone : holds_id i (without (i ∷ is) m) ≡ false =
      holds_id-without i (i ∷ is) m ∙ rw (==_refl i) in
    rw (erase_gone i (without (i ∷ is) m) gone)

-- Nothing to erase, or a dangling iterator first.
data Outcome {A : Type 0} (is : List ℕ) : Result A → Type 0 where
  nothing : (a : A) → is ≡ [] → Outcome is (ok a)
  stopped : Outcome is (fault dangling)

Outcome-again :
    {K : Type 0} (is : List ℕ) (m : List (Node K)) → Outcome is (erase_all is (without is m))
Outcome-again [] m = unfold erase_all in nothing (without [] m) refl
Outcome-again (i ∷ is) m = rw (erase_all_again (i ∷ is) m (λ e. cc e)) stopped

first_stop :
    {A B C D : Type 0} {is js ks : List ℕ} {a : Result A} {b : Result B} {c : Result C}
    (f : A → B → C → D)
    → (is ≢ []) ⊎ ((js ≢ []) ⊎ (ks ≢ []))
    → Outcome is a
    → Outcome js b
    → Outcome ks c
    → bind a (λ x. bind b (λ y. bind c (λ z. ok (f x y z)))) ≡ fault dangling
first_stop f h stopped q r = refl
first_stop f h (nothing a p) stopped r = refl
first_stop f h (nothing a p) (nothing b q) stopped = refl
first_stop f (inl h) (nothing a p) (nothing b q) (nothing c r) = absurd (h p)
first_stop f (inr (inl h)) (nothing a p) (nothing b q) (nothing c r) = absurd (h q)
first_stop f (inr (inr h)) (nothing a p) (nothing b q) (nothing c r) = absurd (h r)

-- A manager that has enrolled anything and was reset still holds its iterators, so that the reset
-- by its destructor uses one to a node that is gone.
pub destroy_after_reset :
    (t : Table) (m : Manager)
    → IsValid t m
    → (m.local_callbacks ≢ []) ⊎ ((m.local_key_callbacks ≢ []) ⊎ (m.local_type_callbacks ≢ []))
    → bind (reset t m) (λ t'. destroy t' m) ≡ fault dangling
unfolding destroy reset without_manager
destroy_after_reset t m v h =
    ap (λ r. bind r (λ t'. destroy t' m)) (reset-without_manager t m v)
    ∙ first_stop (λ x y z. record t { callbacks = x; key_callbacks = y; type_callbacks = z }) h
        (Outcome-again m.local_callbacks t.callbacks)
        (Outcome-again m.local_key_callbacks t.key_callbacks)
        (Outcome-again m.local_type_callbacks t.type_callbacks)
