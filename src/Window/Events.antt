-- ===== src/Window/Events.antt =====
-- src/window/Window.cpp: the events of the window system, and how they reach the managers of events.
-- SDL and its numbers for events are parameters, and so are floats: `float` is the conversion of
-- an int. What `SDL_PollEvent` returns until it has no more is a list.
pub mod Mouse
pub mod Enrolled
mod Tests
use kgl.Common.{ℕ, List, [], ◌∷◌, ◌++◌, Bool, true, false, if◌then◌else◌, map, ◌==◌, not}
use kgl.Common.Switch.{Enumeration}
use kgl.Event.Keys.{Key, esc}
use kgl.Event.Types.{
  Event, make_key_event, make_mouse_button_event, key_down, key_up, mouse_button_down,
  mouse_button_up, window_exit,
}
use kgl.Event.Manager.{Table, push_event}
use kgl.Window.Keys.{Keycode, ButtonCode, key_from_sdl, mouse_button_from_sdl}

-- The types of events that the code tests for.
pub data SdlType : Type 0 where
  sdl_keydown sdl_keyup sdl_mousebuttondown sdl_mousebuttonup sdl_quit sdl_mousemotion : SdlType

-- `SDL_Event`, a union: only the fields of the event's own type have a meaning. `I` is int.
pub record SdlEvent (I : Type 0) : Type 0 where
  pub type : ℕ
  pub keysym : ℕ
  pub button : ℕ
  pub x : I
  pub y : I
  pub xrel : I
  pub yrel : I

-- The numbers of the window system.
pub record Sdl : Type 0 where
  pub types : Enumeration SdlType
  pub keys : Enumeration Keycode
  pub buttons : Enumeration ButtonCode

-- The four floats of StaticEventManagerData (src/event/Event.cpp).
pub record MouseState (F : Type 0) : Type 0 where
  pub mouse_xpos : F
  pub mouse_ypos : F
  pub mouse_xdelta : F
  pub mouse_ydelta : F

-- `EventManager::updateMouse`
unfoldable pub update_mouse : {F : Type 0} → F → F → MouseState F → MouseState F
update_mouse x y m = record m { mouse_xpos = x; mouse_ypos = y }

-- `EventManager::updateMouseOffset`
unfoldable pub update_mouse_offset : {F : Type 0} → F → F → MouseState F → MouseState F
update_mouse_offset x y m = record m { mouse_xdelta = x; mouse_ydelta = y }

-- The subscribers that `pushEvent` executes, each with the event.
unfoldable pub push : Table → Event → List (ℕ × Event)
push t e = map (λ subscriber. (subscriber, e)) (push_event t e)

module _ {I : Type 0} (sdl : Sdl) (t : Table) where
  -- `convertEvent`
  unfoldable pub convert_event : SdlEvent I → List (ℕ × Event)
  convert_event event =
      if event.type == sdl.types.value sdl_keydown
      then push t (make_key_event key_down (key_from_sdl sdl.keys event.keysym))
      else if event.type == sdl.types.value sdl_keyup
      then push t (make_key_event key_up (key_from_sdl sdl.keys event.keysym))
      else if event.type == sdl.types.value sdl_mousebuttondown
      then push t (
          make_mouse_button_event mouse_button_down
            (mouse_button_from_sdl sdl.buttons event.button))
      else if event.type == sdl.types.value sdl_mousebuttonup
      then push t
          (make_mouse_button_event mouse_button_up (mouse_button_from_sdl sdl.buttons event.button))
      else if event.type == sdl.types.value sdl_quit
      then push t (make_key_event window_exit esc)
      else []

-- The managers' mouse, the local `mouse_move`, and what has been executed so far.
pub record Handling (F : Type 0) : Type 0 where
  pub mouse : MouseState F
  pub mouse_move : Bool
  pub executed : List (ℕ × Event)

module _ {I F : Type 0} (float : I → F) (minus : F → F → F) (sdl : Sdl) (t : Table) where
  -- The body of the loop of `handleEvents`.
  unfoldable pub handle_polled : SdlEvent I → Handling F → Handling F
  handle_polled event h =
      let moved : Bool = event.type == sdl.types.value sdl_mousemotion in
      record {
        mouse =
            if moved
            then update_mouse (float event.x) (float event.y)
                (update_mouse_offset (float event.xrel) (float event.yrel) h.mouse)
            else h.mouse;
        mouse_move = if moved then true else h.mouse_move;
        executed = h.executed ++ convert_event sdl t event;
      }

  unfoldable pub poll_events : List (SdlEvent I) → Handling F → Handling F
  poll_events [] h = h
  poll_events (event ∷ events) h = poll_events events (handle_polled event h)

  -- `handleEvents`, where `SDL_GetMouseState` gives `x` and `y`.
  unfoldable pub handle_events :
      I → I → List (SdlEvent I) → MouseState F → MouseState F × List (ℕ × Event)
  handle_events x y events m =
      let h = poll_events events (record { mouse = m; mouse_move = false; executed = [] }) in
      (
        if not h.mouse_move
            then update_mouse (float x) (float y) (
                update_mouse_offset (minus h.mouse.mouse_xpos (float x))
                  (minus h.mouse.mouse_ypos (float y)) h.mouse)
            else h.mouse,
        h.executed,
      )
