-- ===== src/Event/Manager.antt =====
-- src/event/Event.cpp: the managers, over the one static table of callbacks. The heap objects of
-- subscribers are numbers, and what a callback does is not modelled: `push_event` returns the
-- subscribers in the order in which they are executed, and takes them to leave the table alone.
pub mod Deliver
pub mod Tracks
pub mod Reset
pub mod Sequence
mod Tests
use kgl.Common.{ℕ, ◌+◌, List, [], ◌∷◌, ◌++◌, Result, ok, bind, if◌then◌else◌, map}
use kgl.Event.Keys.{Key}
use kgl.Event.Order.{Order, key_order, string_order}
use kgl.Event.Types.{EventType, Event, type_order}
use kgl.Event.MultiMap.{Node, equal_range, found, insert, erase_all}

-- `StaticEventManagerData man_data`. `next_id` is the identity of the next node.
pub record Table : Type 0 where
  pub callbacks : List (Node (List ℕ))
  pub key_callbacks : List (Node Key)
  pub type_callbacks : List (Node EventType)
  pub next_id : ℕ

-- `EventManagerData`: the iterators to the nodes that this manager has enrolled.
pub record Manager : Type 0 where
  pub local_callbacks : List ℕ
  pub local_key_callbacks : List ℕ
  pub local_type_callbacks : List ℕ

abbrev pub empty_table : Table
empty_table = record { callbacks = []; key_callbacks = []; type_callbacks = []; next_id = 0 }

-- `EventManager()`
unfoldable pub new_manager : Manager
new_manager = record { local_callbacks = []; local_key_callbacks = []; local_type_callbacks = [] }

abbrev pub subscribers : {K : Type 0} → List (Node K) → List ℕ
subscribers = map (λ n. n.subscriber)

-- `pushEvent`
unfoldable pub push_event : Table → Event → List ℕ
push_event t e =
    subscribers t.callbacks
    ++ (subscribers (equal_range e.event_key t.key_callbacks)
        ++ subscribers (equal_range e.event_type t.type_callbacks))

-- `enrollBase( subscriber, key )`: the callback is for every event.
unfoldable pub enroll : ℕ → List ℕ → Table → Manager → Table × Manager
enroll subscriber key t m = if found key t.callbacks then (t, m) else (
  record t {
    callbacks =
        insert (record { key = key; name = key; subscriber = subscriber; id = t.next_id })
          t.callbacks;
    next_id = t.next_id + 1;
  },
  record m { local_callbacks = m.local_callbacks ++ t.next_id ∷ [] },
)

-- `enrollBase( subscriber, type, key )`
unfoldable pub enroll_type : ℕ → EventType → List ℕ → Table → Manager → Table × Manager
enroll_type subscriber type key t m = if found type t.type_callbacks then (t, m) else (
  record t {
    type_callbacks =
        insert (record { key = type; name = key; subscriber = subscriber; id = t.next_id })
          t.type_callbacks;
    next_id = t.next_id + 1;
  },
  record m { local_type_callbacks = m.local_type_callbacks ++ t.next_id ∷ [] },
)

-- `enrollBase( subscriber, keysym, key )`
unfoldable pub enroll_key : ℕ → Key → List ℕ → Table → Manager → Table × Manager
enroll_key subscriber keysym key t m = if found keysym t.key_callbacks then (t, m) else (
  record t {
    key_callbacks =
        insert (record { key = keysym; name = key; subscriber = subscriber; id = t.next_id })
          t.key_callbacks;
    next_id = t.next_id + 1;
  },
  record m { local_key_callbacks = m.local_key_callbacks ++ t.next_id ∷ [] },
)

-- `reset`: the subscribers and nodes of this manager go; its lists of iterators stay as they are.
unfoldable pub reset : Table → Manager → Result Table
reset t m = bind (erase_all m.local_callbacks t.callbacks) λ callbacks.
    bind (erase_all m.local_key_callbacks t.key_callbacks) λ key_callbacks.
      bind (erase_all m.local_type_callbacks t.type_callbacks) λ type_callbacks. ok (record t {
        callbacks = callbacks;
        key_callbacks = key_callbacks;
        type_callbacks = type_callbacks;
      })

-- `~EventManager()`
unfoldable pub destroy : Table → Manager → Result Table
destroy t m = reset t m
