-- ===== src/Window/Events/Tests.antt =====
-- Events of the window, at a table with a callback for all events.
use kgl.Common.{ℕ, ◌≡◌, ◌≢◌, refl, List, [], ◌∷◌, some, none, ◌-◌, arith}
use kgl.Common.Switch.{switch}
use kgl.Event.Keys.{Key, ordinal, no_key}
use kgl.Event.Order.{key_order}
use kgl.Event.Types.{
  Event, type_order, type_number, key_down, no_button, make_key_event, new_event,
  make_mouse_button_event,
}
use kgl.Event.MultiMap.{lower_bound, up_to, equal_range, found, insert}
use kgl.Event.Manager.{Table, Manager, push_event, enroll_key}
use kgl.Event.Manager.Deliver.{IsValid}
use kgl.Window.Keys.{
  key_from_sdl, mouse_button_from_sdl, key_table, button_table, sdlk_q, sdl_button_right,
}
use kgl.Window.Keys.Injective.{key_from_sdl_injective}
use kgl.Window.Numbers.{sdl, keycode_number, button_number, sdl_type_number}
use kgl.Window.Events.{
  SdlEvent, MouseState, convert_event, push, handle_events, handle_polled, poll_events,
  update_mouse, update_mouse_offset, sdl_keydown, sdl_mousebuttondown, sdl_mousemotion,
}
use kgl.Window.Events.Mouse.{handle_events_lem, executed_by, last_motion, placed}
use kgl.Window.Events.Enrolled.{handle_events-enroll_key, received, events_of}

abbrev table : Table
table = record {
  callbacks = record { key = b'm' ∷ []; name = b'm' ∷ []; subscriber = 7; id = 0 } ∷ [];
  key_callbacks = [];
  type_callbacks = [];
  next_id = 1;
}

abbrev manager : Manager
manager = record { local_callbacks = 0 ∷ []; local_key_callbacks = []; local_type_callbacks = [] }

abbrev no_event : SdlEvent ℕ
no_event = record { type = 9; keysym = 0; button = 0; x = 0; y = 0; xrel = 0; yrel = 0 }

abbrev press_q : SdlEvent ℕ
press_q = record no_event { type = sdl_type_number sdl_keydown; keysym = keycode_number sdlk_q }

abbrev click : SdlEvent ℕ
click = record no_event {
  type = sdl_type_number sdl_mousebuttondown;
  button = button_number sdl_button_right;
}

abbrev motion : SdlEvent ℕ
motion = record no_event {
  type = sdl_type_number sdl_mousemotion;
  x = 5;
  y = 6;
  xrel = 1;
  yrel = 2;
}

abbrev polled : List (SdlEvent ℕ)
polled = press_q ∷ motion ∷ click ∷ press_q ∷ no_event ∷ []

abbrev mouse : MouseState ℕ
mouse = record { mouse_xpos = 9; mouse_ypos = 8; mouse_xdelta = 0; mouse_ydelta = 0 }

abbrev enrolled : Table
enrolled = (enroll_key 4 Key.q [] table manager).0

abbrev q_down : Event
q_down = record { event_type = key_down; event_key = Key.q; event_button = some no_button }

events_of_run : events_of sdl Key.q polled ≡ q_down ∷ q_down ∷ []
unfolding ordinal make_key_event new_event make_mouse_button_event key_from_sdl
    mouse_button_from_sdl switch key_table button_table keycode_number button_number sdl_type_number
events_of_run = refl

handle_events_run :
    received 4 (handle_events (λ n. n) (λ a b. a - b) sdl enrolled 1 1 polled mouse).1
    ≡ q_down ∷ q_down ∷ []
unfolding ordinal make_key_event new_event make_mouse_button_event key_from_sdl
    mouse_button_from_sdl switch key_table button_table keycode_number button_number sdl_type_number
    handle_events poll_events handle_polled convert_event update_mouse update_mouse_offset push
    push_event equal_range lower_bound up_to type_number enroll_key found insert
handle_events_run = refl

handle_events_still :
    handle_events (λ n. n) (λ a b. a - b) sdl table 1 2 (no_event ∷ []) mouse
    ≡ (record { mouse_xpos = 1; mouse_ypos = 2; mouse_xdelta = 8; mouse_ydelta = 6 }, [])
unfolding handle_events poll_events handle_polled convert_event update_mouse update_mouse_offset
    sdl_type_number
handle_events_still = refl

table-IsValid : IsValid table manager
table-IsValid = record {
  callbacks = record {
    sorted = (tt, tt);
    ids_differ = (refl, tt);
    ids_below = omega arith;
    held = (refl, tt);
    differ = (refl, tt);
  };
  keys = record { sorted = tt; ids_differ = tt; ids_below = tt; held = tt; differ = tt };
  types = record { sorted = tt; ids_differ = tt; ids_below = tt; held = tt; differ = tt };
}

handle_events-enroll_key_example :
    received 4 (handle_events (λ n. n) (λ a b. a - b) sdl enrolled 1 1 polled mouse).1
    ≡ events_of sdl Key.q polled
handle_events-enroll_key_example =
    handle_events-enroll_key (λ n. n) (λ a b. a - b) sdl 4 Key.q [] table manager 1 1 polled mouse
      table-IsValid (unfold found in refl)
      (record { callbacks = (refl, tt); keys = tt; types = tt })

handle_events_lem_example : handle_events (λ n. n) (λ a b. a - b) sdl table 1 1 polled mouse ≡ (
  elim (last_motion sdl polled) [
    | some event ↦ placed (λ n. n) (λ a b. a - b) sdl table mouse (some event)
    | none ↦ record { mouse_xpos = 1; mouse_ypos = 1; mouse_xdelta = 9 - 1; mouse_ydelta = 8 - 1 }
  ],
  executed_by sdl table polled,
)
handle_events_lem_example = handle_events_lem (λ n. n) (λ a b. a - b) sdl table 1 1 polled mouse

other : key_from_sdl sdl.keys 12 ≢ no_key
unfolding key_from_sdl switch key_table keycode_number
other e = cc

key_from_sdl_injective_example : ◌≡◌ {A = ℕ} 12 12
key_from_sdl_injective_example = key_from_sdl_injective sdl.keys 12 12 other refl
