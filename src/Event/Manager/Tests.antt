-- ===== src/Event/Manager/Tests.antt =====
-- Runs of the event managers, and the theorems at a table with a few callbacks.
use kgl.Common.{
  ℕ, List, ◌≡◌, ◌≢◌, refl, inl, inr, [], ◌∷◌, ◌++◌, ok, fault, dangling, bind, if◌then◌else◌, arith,
  some,
}
use kgl.Event.Keys.{Key, ordinal}
use kgl.Event.Order.{same, key_order, string_order}
use kgl.Event.Types.{Event, type_order, type_number, window_exit, key_down, no_button}
use kgl.Event.MultiMap.{lower_bound, up_to, equal_range, found, insert}
use kgl.Event.Manager.{
  Table, Manager, new_manager, push_event, enroll_key, enroll_type, reset, destroy, subscribers,
}
use kgl.Event.Manager.Deliver.{
  IsValid, Request, of_key, of_type, enroll_request, enroll_request-IsValid, push_event-enroll_key,
  for_key, for_type,
}
use kgl.Event.Manager.Sequence.{enroll_all, SameCallbacks, reset-enroll_all}
use kgl.Event.Manager.Reset.{without_manager, reset-without_manager, destroy_after_reset}

-- Callbacks 7 for all events, 8 for the key A, 9 for the end of the window.
abbrev table : Table
table = record {
  callbacks = record { key = b'm' ∷ []; name = b'm' ∷ []; subscriber = 7; id = 0 } ∷ [];
  key_callbacks = record { key = Key.a; name = b'a' ∷ []; subscriber = 8; id = 1 } ∷ [];
  type_callbacks = record { key = window_exit; name = b'x' ∷ []; subscriber = 9; id = 2 } ∷ [];
  next_id = 3;
}

-- The manager that enrolled the second and the third.
abbrev manager : Manager
manager = record {
  local_callbacks = [];
  local_key_callbacks = 1 ∷ [];
  local_type_callbacks = 2 ∷ [];
}

abbrev press_a : Event
press_a = record { event_type = key_down; event_key = Key.a; event_button = some no_button }

push_press_a : push_event table press_a ≡ 7 ∷ 8 ∷ []
unfolding push_event equal_range lower_bound up_to ordinal type_number
push_press_a = refl

-- A second callback for a key that is taken is dropped.
enroll_taken : push_event (enroll_key 5 Key.a [] table manager).0 press_a ≡ 7 ∷ 8 ∷ []
unfolding push_event enroll_key found equal_range lower_bound up_to ordinal type_number
enroll_taken = refl

enrolled_here :
    enroll_type 9 window_exit
      (b'x' ∷ [])
      (record table { type_callbacks = []; next_id = 2 })
      (record manager { local_type_callbacks = [] })
    ≡ (table, manager)
unfolding enroll_type found insert type_number
enrolled_here = refl

table-IsValid : IsValid table manager
table-IsValid = record {
  callbacks = record {
    sorted = (tt, tt);
    ids_differ = (refl, tt);
    ids_below = omega arith;
    held = tt;
    differ = tt;
  };
  keys = record {
    sorted = (tt, tt);
    ids_differ = (refl, tt);
    ids_below = omega arith;
    held = (refl, tt);
    differ = (refl, tt);
  };
  types = record {
    sorted = (tt, tt);
    ids_differ = (refl, tt);
    ids_below = omega arith;
    held = (refl, tt);
    differ = (refl, tt);
  };
}

enroll_request-IsValid_example :
    IsValid (enroll_key 4 Key.b [] table manager).0 (enroll_key 4 Key.b [] table manager).1
unfolding enroll_request
enroll_request-IsValid_example =
    enroll_request-IsValid 4 (of_key Key.b []) table manager table-IsValid

push_event-enroll_key_example :
    push_event (enroll_key 4 Key.b [] table manager).0 press_a
    ≡ subscribers table.callbacks
      ++ ((if found Key.b table.key_callbacks
            then for_key table Key.a
            else if same Key.b Key.a
            then 4 ∷ []
            else for_key table Key.a)
          ++ for_type table key_down)
push_event-enroll_key_example = push_event-enroll_key 4 Key.b [] table manager press_a table-IsValid

reset-without_manager_example : reset table manager ≡ ok (without_manager manager table)
reset-without_manager_example = reset-without_manager table manager table-IsValid

some_iterator : manager.local_key_callbacks ≢ []
some_iterator e = cc e

destroy_after_reset_example : bind (reset table manager) (λ t. destroy t manager) ≡ fault dangling
destroy_after_reset_example =
    destroy_after_reset table manager table-IsValid (inr (inl some_iterator))

-- A manager that is new beside the one above.
new_manager-IsValid : IsValid table new_manager
unfolding new_manager
new_manager-IsValid = record {
  callbacks = table-IsValid.callbacks;
  keys = record {
    sorted = (tt, tt);
    ids_differ = (refl, tt);
    ids_below = omega arith;
    held = tt;
    differ = tt;
  };
  types = record {
    sorted = (tt, tt);
    ids_differ = (refl, tt);
    ids_below = omega arith;
    held = tt;
    differ = tt;
  };
}

-- Two requests, of which the second is for a key that is taken.
abbrev requests : List (ℕ × Request)
requests = (4, of_type key_down []) ∷ (5, of_key Key.a []) ∷ []

reset-enroll_all_example :
    (u : Table) × (reset
        (enroll_all requests table new_manager).0
        (enroll_all requests table new_manager).1
      ≡ ok u)
    × SameCallbacks u table
reset-enroll_all_example = reset-enroll_all requests table new_manager-IsValid
