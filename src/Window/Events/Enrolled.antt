-- ===== src/Window/Events/Enrolled.antt =====
-- A subscriber that is enrolled for a key, and the events of the window that it receives.
use kgl.Common.{
  ℕ, ◌≡◌, ◌∙◌, ap, refl, List, [], ◌∷◌, ◌++◌, false, if◌then◌else◌, ◌==◌, arith, Option, none, some,
  Bool-cases, Option-cases, inl, inr, All, map, from_option, ==_refl,
}
use kgl.Event.Keys.{Key, esc}
use kgl.Event.Order.{Order, same, key_order}
use kgl.Event.Types.{
  Event, make_key_event, make_mouse_button_event, key_down, key_up, mouse_button_down,
  mouse_button_up, window_exit, type_order,
}
use kgl.Event.MultiMap.{Node, found}
use kgl.Event.MultiMap.Laws.{matching}
use kgl.Event.Manager.{Table, Manager, subscribers, enroll_key}
use kgl.Event.Manager.Deliver.{IsValid, for_key, for_type, push_event-enroll_key}
use kgl.Window.Keys.{key_from_sdl, mouse_button_from_sdl}
use kgl.Window.Events.{
  Sdl, SdlEvent, MouseState, convert_event, push, handle_events, sdl_keydown, sdl_keyup,
  sdl_mousebuttondown, sdl_mousebuttonup, sdl_quit,
}
use kgl.Window.Events.Mouse.{executed_by, handle_events_lem}

-- The events that one subscriber is executed with.
abbrev pub received : ℕ → List (ℕ × Event) → List Event
received s [] = []
received s ((subscriber, event) ∷ rest) =
    if subscriber == s then event ∷ received s rest else received s rest

received-append :
    (s : ℕ) (p q : List (ℕ × Event)) → received s (p ++ q) ≡ received s p ++ received s q
received-append s [] q = refl
received-append s ((n, e) ∷ p) q = ground (arith, received-append s p q)

abbrev AreOthers : ℕ → List ℕ → Type 0
AreOthers s = All (λ n. (n == s) ≡ false)

-- No callback of the table is of this subscriber.
pub record IsNew (s : ℕ) (t : Table) : Type 0 where
  pub callbacks : AreOthers s (subscribers t.callbacks)
  pub keys : AreOthers s (subscribers t.key_callbacks)
  pub types : AreOthers s (subscribers t.type_callbacks)

AreOthers-matching :
    {K : Type 0} ⦃o : Order K⦄ (s : ℕ) (k : K) (m : List (Node K))
    → AreOthers s (subscribers m)
    → AreOthers s (subscribers (matching k m))
unfolding matching
AreOthers-matching s k [] h = tt
AreOthers-matching s k (x ∷ m) h = elim (Bool-cases (same x.key k)) [
  | inl here ↦ rw here (h.0, AreOthers-matching s k m h.1)
  | inr away ↦ rw away (AreOthers-matching s k m h.1)
]

abbrev with_event : Event → List ℕ → List (ℕ × Event)
with_event e = map (λ subscriber. (subscriber, e))

received-others :
    (s : ℕ) (e : Event) (ns rest : List ℕ)
    → AreOthers s ns
    → received s (with_event e (ns ++ rest)) ≡ received s (with_event e rest)
received-others s e [] rest h = refl
received-others s e (n ∷ ns) rest h = rw (h.0, received-others s e ns rest h.1) refl

received-all_others :
    (s : ℕ) (e : Event) (ns : List ℕ) → AreOthers s ns → received s (with_event e ns) ≡ []
received-all_others s e [] h = refl
received-all_others s e (n ∷ ns) h = rw (h.0, received-all_others s e ns h.1) refl

-- What the window's event stands for.
abbrev translated : {I : Type 0} → Sdl → SdlEvent I → Option Event
translated sdl event =
    if event.type == sdl.types.value sdl_keydown
    then some (make_key_event key_down (key_from_sdl sdl.keys event.keysym))
    else if event.type == sdl.types.value sdl_keyup
    then some (make_key_event key_up (key_from_sdl sdl.keys event.keysym))
    else if event.type == sdl.types.value sdl_mousebuttondown
    then some
        (make_mouse_button_event mouse_button_down (mouse_button_from_sdl sdl.buttons event.button))
    else if event.type == sdl.types.value sdl_mousebuttonup
    then some
        (make_mouse_button_event mouse_button_up (mouse_button_from_sdl sdl.buttons event.button))
    else if event.type == sdl.types.value sdl_quit
    then some (make_key_event window_exit esc)
    else none

abbrev for_keysym : Key → Event → List Event
for_keysym keysym e = if same keysym e.event_key then e ∷ [] else []

-- Those with the key, in the order of the window's events.
abbrev pub events_of : {I : Type 0} → Sdl → Key → List (SdlEvent I) → List Event
events_of sdl keysym [] = []
events_of sdl keysym (event ∷ events) =
    from_option (for_keysym keysym) [] (translated sdl event) ++ events_of sdl keysym events

convert_event_lem :
    {I : Type 0} (sdl : Sdl) (t : Table) (event : SdlEvent I)
    → convert_event sdl t event ≡ from_option (push t) [] (translated sdl event)
unfolding convert_event
convert_event_lem sdl t event = ground arith

module _ (subscriber : ℕ) (keysym : Key) (key : List ℕ) (t : Table) (m : Manager)
    (valid : IsValid t m) (free : found keysym t.key_callbacks ≡ false)
    (new : IsNew subscriber t) where
  abbrev enrolled : Table
  enrolled = (enroll_key subscriber keysym key t m).0

  received-push : (e : Event) → received subscriber (push enrolled e) ≡ for_keysym keysym e
  unfolding push
  received-push e =
      ap (λ ns. received subscriber (with_event e ns))
        (push_event-enroll_key subscriber keysym key t m e valid)
      ∙ received-others subscriber e _ _ new.callbacks
      ∙ rw free (elim (Bool-cases (same keysym e.event_key)) [
        | inl here ↦ rw (here, ==_refl subscriber) (ap (◌∷◌ e) types_others)
        | inr away ↦ rw away (received-others subscriber e _ _ keys_others ∙ types_others)
      ])
    where
      keys_others : AreOthers subscriber (for_key t e.event_key)
      keys_others = AreOthers-matching subscriber e.event_key t.key_callbacks new.keys

      types_others : received subscriber (with_event e (for_type t e.event_type)) ≡ []
      types_others =
          received-all_others subscriber e (for_type t e.event_type)
            (AreOthers-matching subscriber e.event_type t.type_callbacks new.types)

  module _ {I : Type 0} (sdl : Sdl) where
    received-convert_event :
        (event : SdlEvent I)
        → received subscriber (convert_event sdl enrolled event)
          ≡ from_option (for_keysym keysym) [] (translated sdl event)
    received-convert_event event =
        ap (received subscriber) (convert_event_lem sdl enrolled event)
        ∙ elim (Option-cases (translated sdl event)) [
          | inl e ↦ rw e refl
          | inr (event', e) ↦ rw e (received-push event')
        ]

    received-executed_by :
        (events : List (SdlEvent I))
        → received subscriber (executed_by sdl enrolled events) ≡ events_of sdl keysym events
    received-executed_by [] = refl
    received-executed_by (event ∷ events) =
        received-append subscriber (convert_event sdl enrolled event) _
        ∙ rw (received-convert_event event, received-executed_by events) refl

-- A new subscriber that is enrolled for a key that has no callback yet receives, from the window's
-- events, each event with that key once, in the order of the window, and no other event. The end of
-- the window has the key `ESC`.
pub handle_events-enroll_key :
    {I F : Type 0} (float : I → F) (minus : F → F → F) (sdl : Sdl) (subscriber : ℕ) (keysym : Key)
    (key : List ℕ) (t : Table) (m : Manager) (x y : I) (events : List (SdlEvent I))
    (mouse : MouseState F)
    → IsValid t m
    → found keysym t.key_callbacks ≡ false
    → IsNew subscriber t
    → received subscriber
        (handle_events float minus sdl (enroll_key subscriber keysym key t m).0 x y events mouse).1
      ≡ events_of sdl keysym events
handle_events-enroll_key float minus sdl subscriber keysym key t m x y events mouse valid free new =
    ap (λ (r : MouseState _ × List (ℕ × Event)). received subscriber r.1)
      (handle_events_lem float minus sdl (enroll_key subscriber keysym key t m).0 x y events mouse)
    ∙ received-executed_by subscriber keysym key t m valid free new sdl events
