-- ===== src/Event/Manager/Deliver.antt =====
-- To whom an event goes, and how enrolling changes that.
use kgl.Common.{
  ℕ, ◌≡◌, refl, ap, ◌∙◌, Bool, true, false, List, [], ◌∷◌, ◌++◌, if◌then◌else◌, Bool-cases, inl,
  inr,
}
use kgl.Event.Keys.{Key}
use kgl.Event.Order.{Order, same, key_order, string_order}
use kgl.Event.Types.{EventType, Event, type_order}
use kgl.Event.MultiMap.{Node, found, insert}
use kgl.Event.MultiMap.Laws.{matching, equal_range-matching, matching-insert}
use kgl.Event.Manager.{Table, Manager, subscribers, push_event, enroll, enroll_key, enroll_type}
use kgl.Event.Manager.Tracks.{Tracks, Tracks-suc, Tracks-insert}

-- What holds of the table and of one manager between calls.
pub record IsValid (t : Table) (m : Manager) : Type 0 where
  pub callbacks : Tracks t.next_id m.local_callbacks t.callbacks
  pub keys : Tracks t.next_id m.local_key_callbacks t.key_callbacks
  pub types : Tracks t.next_id m.local_type_callbacks t.type_callbacks

-- Enrolling for all events keeps the table and the manager valid.
enroll-IsValid :
    (subscriber : ℕ) (key : List ℕ) (t : Table) (m : Manager)
    → IsValid t m
    → IsValid (enroll subscriber key t m).0 (enroll subscriber key t m).1
unfolding enroll
enroll-IsValid subscriber key t m v = elim (Bool-cases (found key t.callbacks)) [
  | inl taken ↦ rw taken v
  | inr fresh ↦ rw fresh (record {
    callbacks = Tracks-insert _ m.local_callbacks t.callbacks fresh v.callbacks;
    keys = Tracks-suc t.next_id m.local_key_callbacks t.key_callbacks v.keys;
    types = Tracks-suc t.next_id m.local_type_callbacks t.type_callbacks v.types;
  })
]

enroll_type-IsValid :
    (subscriber : ℕ) (type : EventType) (key : List ℕ) (t : Table) (m : Manager)
    → IsValid t m
    → IsValid (enroll_type subscriber type key t m).0 (enroll_type subscriber type key t m).1
unfolding enroll_type
enroll_type-IsValid subscriber type key t m v = elim (Bool-cases (found type t.type_callbacks)) [
  | inl taken ↦ rw taken v
  | inr fresh ↦ rw fresh (record {
    callbacks = Tracks-suc t.next_id m.local_callbacks t.callbacks v.callbacks;
    keys = Tracks-suc t.next_id m.local_key_callbacks t.key_callbacks v.keys;
    types = Tracks-insert _ m.local_type_callbacks t.type_callbacks fresh v.types;
  })
]

enroll_key-IsValid :
    (subscriber : ℕ) (keysym : Key) (key : List ℕ) (t : Table) (m : Manager)
    → IsValid t m
    → IsValid (enroll_key subscriber keysym key t m).0 (enroll_key subscriber keysym key t m).1
unfolding enroll_key
enroll_key-IsValid subscriber keysym key t m v = elim (Bool-cases (found keysym t.key_callbacks)) [
  | inl taken ↦ rw taken v
  | inr fresh ↦ rw fresh (record {
    callbacks = Tracks-suc t.next_id m.local_callbacks t.callbacks v.callbacks;
    keys = Tracks-insert _ m.local_key_callbacks t.key_callbacks fresh v.keys;
    types = Tracks-suc t.next_id m.local_type_callbacks t.type_callbacks v.types;
  })
]

-- The three ways of enrolling.
pub data Request : Type 0 where
  every : List ℕ → Request
  of_type : EventType → List ℕ → Request
  of_key : Key → List ℕ → Request

unfoldable pub enroll_request : ℕ → Request → Table → Manager → Table × Manager
enroll_request subscriber (every key) = enroll subscriber key
enroll_request subscriber (of_type type key) = enroll_type subscriber type key
enroll_request subscriber (of_key keysym key) = enroll_key subscriber keysym key

-- Every way of enrolling, taken or refused, keeps the table and the manager valid: keys in order
-- with no repetition, and iterators that stand for nodes of the table, each once.
pub enroll_request-IsValid :
    (subscriber : ℕ) (r : Request) (t : Table) (m : Manager)
    → IsValid t m
    → IsValid (enroll_request subscriber r t m).0 (enroll_request subscriber r t m).1
unfolding enroll_request
enroll_request-IsValid subscriber (every key) t m v = enroll-IsValid subscriber key t m v
enroll_request-IsValid subscriber (of_type type key) t m v =
    enroll_type-IsValid subscriber type key t m v
enroll_request-IsValid subscriber (of_key keysym key) t m v =
    enroll_key-IsValid subscriber keysym key t m v

-- The subscribers of the nodes for the event's key, and for its type.
abbrev pub for_key : Table → Key → List ℕ
for_key t keysym = subscribers (matching keysym t.key_callbacks)

abbrev pub for_type : Table → EventType → List ℕ
for_type t type = subscribers (matching type t.type_callbacks)

-- An event goes to every subscriber for all events, then to those for its key, then to those for
-- its type.
push_event_lem :
    (t : Table) (m : Manager) (e : Event)
    → IsValid t m
    → push_event t e ≡ subscribers t.callbacks ++ (for_key t e.event_key ++ for_type t e.event_type)
unfolding push_event
push_event_lem t m e v = rw (
  equal_range-matching e.event_key t.key_callbacks v.keys.sorted,
  equal_range-matching e.event_type t.type_callbacks v.types.sorted,
)

module _ {K : Type 0} ⦃o : Order K⦄ where
  subscribers_if :
      (b : Bool) (x : Node K) (m : List (Node K))
      → subscribers (if b then x ∷ [] else m) ≡ (if b then x.subscriber ∷ [] else subscribers m)
  subscribers_if true x m = refl
  subscribers_if false x m = refl

  subscribers-insert :
      (j : K) (x : Node K) (m : List (Node K))
      → found x.key m ≡ false
      → subscribers (matching j (insert x m))
        ≡ (if same x.key j then x.subscriber ∷ [] else subscribers (matching j m))
  subscribers-insert j x m h =
      ap subscribers (matching-insert j x m h) ∙ subscribers_if (same x.key j) x (matching j m)

-- After an attempt to enroll for a key, an event goes where it went before, if the key was taken;
-- otherwise the new subscriber is the only one for that key, and for other keys nothing changes.
pub push_event-enroll_key :
    (subscriber : ℕ) (keysym : Key) (key : List ℕ) (t : Table) (m : Manager) (e : Event)
    → IsValid t m
    → push_event (enroll_key subscriber keysym key t m).0 e
      ≡ subscribers t.callbacks
        ++ ((if found keysym t.key_callbacks
              then for_key t e.event_key
              else if same keysym e.event_key
              then subscriber ∷ []
              else for_key t e.event_key)
            ++ for_type t e.event_type)
push_event-enroll_key subscriber keysym key t m e v =
    push_event_lem _ _ e (enroll_key-IsValid subscriber keysym key t m v)
    ∙ elim (Bool-cases (found keysym t.key_callbacks)) [
      | inl taken ↦ unfold enroll_key in rw taken
      | inr fresh ↦
          let x : Node Key = record {
            key = keysym;
            name = key;
            subscriber = subscriber;
            id = t.next_id;
          } in
          unfold enroll_key in rw (fresh, subscribers-insert e.event_key x t.key_callbacks fresh)
    ]

-- After an attempt to enroll for a type of events, an event goes where it went before, if the type
-- was taken; otherwise the new subscriber is the only one for it, and other types do not change.
pub push_event-enroll_type :
    (subscriber : ℕ) (type : EventType) (key : List ℕ) (t : Table) (m : Manager) (e : Event)
    → IsValid t m
    → push_event (enroll_type subscriber type key t m).0 e
      ≡ subscribers t.callbacks
        ++ (for_key t e.event_key
            ++ (if found type t.type_callbacks
                then for_type t e.event_type
                else if same type e.event_type
                then subscriber ∷ []
                else for_type t e.event_type))
push_event-enroll_type subscriber type key t m e v =
    push_event_lem _ _ e (enroll_type-IsValid subscriber type key t m v)
    ∙ elim (Bool-cases (found type t.type_callbacks)) [
      | inl taken ↦ unfold enroll_type in rw taken
      | inr fresh ↦
          let x : Node EventType = record {
            key = type;
            name = key;
            subscriber = subscriber;
            id = t.next_id;
          } in
          unfold enroll_type in rw (fresh, subscribers-insert e.event_type x t.type_callbacks fresh)
    ]
