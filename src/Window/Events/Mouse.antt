-- ===== src/Window/Events/Mouse.antt =====
-- What `handleEvents` leaves in the managers' mouse, and what it executes.
use kgl.Common.{
  ℕ, ◌≡◌, ◌∙◌, refl, List, [], ◌∷◌, ◌++◌, Bool, true, false, if◌then◌else◌, ◌==◌, append_assoc,
  append-nil, Option, none, some, Option-cases, Bool-cases, inl, inr,
}
use kgl.Event.Types.{Event}
use kgl.Event.Manager.{Table}
use kgl.Window.Events.{
  Sdl, SdlEvent, MouseState, Handling, convert_event, handle_polled, poll_events, handle_events,
  update_mouse, update_mouse_offset, sdl_mousemotion,
}

module _ {I : Type 0} (sdl : Sdl) where
  -- The last motion of the mouse, if there is one.
  abbrev pub last_motion : List (SdlEvent I) → Option (SdlEvent I)
  last_motion [] = none
  last_motion (event ∷ events) = elim (last_motion events) [
    | some later ↦ some later
    | none ↦ if event.type == sdl.types.value sdl_mousemotion then some event else none
  ]

  abbrev pub executed_by : Table → List (SdlEvent I) → List (ℕ × Event)
  executed_by t [] = []
  executed_by t (event ∷ events) = convert_event sdl t event ++ executed_by t events

module _ {I F : Type 0} (float : I → F) (minus : F → F → F) (sdl : Sdl) (t : Table) where
  abbrev pub placed : MouseState F → Option (SdlEvent I) → MouseState F
  placed m (some event) = record {
    mouse_xpos = float event.x;
    mouse_ypos = float event.y;
    mouse_xdelta = float event.xrel;
    mouse_ydelta = float event.yrel;
  }
  placed m none = m

  abbrev has : Option (SdlEvent I) → Bool → Bool
  has (some _) b = true
  has none b = b

  poll_events_lem :
      (events : List (SdlEvent I)) (h : Handling F)
      → poll_events float minus sdl t events h ≡ record {
        mouse = placed h.mouse (last_motion sdl events);
        mouse_move = has (last_motion sdl events) h.mouse_move;
        executed = h.executed ++ executed_by sdl t events;
      }
  unfolding poll_events handle_polled update_mouse update_mouse_offset
  poll_events_lem [] h = rw (append-nil h.executed) refl
  poll_events_lem (event ∷ events) h =
      let later = poll_events_lem events (handle_polled float minus sdl t event h) in
      elim (Option-cases (last_motion sdl events)) [
        | inl e ↦ elim (Bool-cases (event.type == sdl.types.value sdl_mousemotion)) [
          | inl b ↦ later ∙ rw (e, b, append_assoc) refl
          | inr b ↦ later ∙ rw (e, b, append_assoc) refl
        ]
        | inr (last, e) ↦ later ∙ rw (e, append_assoc) refl
      ]

  -- `handleEvents` executes the subscribers of each event, in the order of the events. The mouse
  -- is then at the last motion, with its offset; when no event is a motion, it is where the window
  -- system says, with the way back to the old position as its offset.
  pub handle_events_lem :
      (x y : I) (events : List (SdlEvent I)) (m : MouseState F)
      → handle_events float minus sdl t x y events m ≡ (
        elim (last_motion sdl events) [
          | some event ↦ placed m (some event)
          | none ↦ record {
            mouse_xpos = float x;
            mouse_ypos = float y;
            mouse_xdelta = minus m.mouse_xpos (float x);
            mouse_ydelta = minus m.mouse_ypos (float y);
          }
        ],
        executed_by sdl t events,
      )
  unfolding handle_events update_mouse update_mouse_offset
  handle_events_lem x y events m = elim (Option-cases (last_motion sdl events)) [
    | inl e ↦
        rw (poll_events_lem events (record { mouse = m; mouse_move = false; executed = [] }), e)
          refl
    | inr (event, e) ↦
        rw (poll_events_lem events (record { mouse = m; mouse_move = false; executed = [] }), e)
          refl
  ]
