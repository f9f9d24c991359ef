-- ===== src/Event/Types.antt =====
-- src/event/Event.{h,cpp}: event types, mouse buttons, and the event itself.
use kgl.Common.{
  ℕ, ◌≡◌, refl, sym, ap, ◌∙◌, List, [], ◌∷◌, Option, none, some, get_elem?, from_option, ltb,
}
use kgl.Event.Keys.{Key, no_key}
use kgl.Event.Order.{Order, lt_irrefl, lt_trans, lt_connected}

-- `enum class Event::Type`
pub data EventType : Type 0 where
  no_type key_down key_up mouse_button_down mouse_button_up mouse_wheel_up : EventType
  mouse_wheel_down joystick_axis joystick_button joystick_initialize window_exit : EventType

abbrev all_types : List EventType
all_types =
    no_type ∷ key_down ∷ key_up ∷ mouse_button_down ∷ mouse_button_up ∷ mouse_wheel_up
    ∷ mouse_wheel_down ∷ joystick_axis ∷ joystick_button ∷ joystick_initialize ∷ window_exit ∷ []

-- The number of the enumerator.
unfoldable pub type_number : EventType → ℕ
type_number no_type = 0
type_number key_down = 1
type_number key_up = 2
type_number mouse_button_down = 3
type_number mouse_button_up = 4
type_number mouse_wheel_up = 5
type_number mouse_wheel_down = 6
type_number joystick_axis = 7
type_number joystick_button = 8
type_number joystick_initialize = 9
type_number window_exit = 10

abbrev type_at : ℕ → EventType
type_at n = from_option (λ (t : EventType). t) no_type (get_elem? all_types n)

type_at-type_number : (t : EventType) → type_at (type_number t) ≡ t
unfolding type_number
type_at-type_number no_type = refl
type_at-type_number _ = refl

pub type_number-injective : (s t : EventType) → type_number s ≡ type_number t → s ≡ t
type_number-injective s t e = sym (type_at-type_number s) ∙ ap type_at e ∙ type_at-type_number t

instance abbrev pub type_order : Order EventType
type_order = record {
  lt = λ s t. ltb (type_number s) (type_number t);
  irrefl = λ t. lt_irrefl (type_number t);
  trans = λ s t u. lt_trans (type_number s) (type_number t) (type_number u);
  connected =
      λ s t p q. type_number-injective s t (lt_connected (type_number s) (type_number t) p q);
}

pub data MouseButton : Type 0 where
  no_button left_click middle_click right_click wheel_up wheel_down button01 button02 : MouseButton

-- A button that was never set is `none`.
pub record Event : Type 0 where
  pub event_type : EventType
  pub event_key : Key
  pub event_button : Option MouseButton

-- `Event()`
unfoldable pub new_event : Event
new_event = record { event_type = no_type; event_key = no_key; event_button = some no_button }

-- `Event( const Event& )`: the button is not copied.
unfoldable pub copy_event : Event → Event
copy_event e = record { event_type = e.event_type; event_key = e.event_key; event_button = none }

-- The two functions return an event by value. It is taken to be built in place: a compiler may also
-- copy it, and then the button is lost.
unfoldable pub make_key_event : EventType → Key → Event
make_key_event type keysym = record new_event { event_type = type; event_key = keysym }

unfoldable pub make_mouse_button_event : EventType → MouseButton → Event
make_mouse_button_event t b = record new_event { event_type = t; event_button = some b }
