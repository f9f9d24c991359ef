-- ===== src/Vkg/Chain/Ring.antt =====
-- The four slots of a chain as a function from places, and the loops of a chain on them.
use kgl.Common.{ℕ, ◌≡◌, refl, Bool, true, false, if◌then◌else◌, List, [], ◌∷◌, Option, ok}
use kgl.Vkg.Command.{
  Slot, update, at_current, begin_slot, begin_pass_slot, record_plain, record_pass, stop_slot, stop,
  submit_slot, submit, advance, set_active,
}
use kgl.Vkg.Chain.{Chain, command_buffer_count, each, for_each}

pub data Place : Type 0 where
  first second third fourth : Place

abbrev pub number : Place → ℕ
number first = 0
number second = 1
number third = 2
number fourth = 3

abbrev pub here : Place → Place → Bool
here first first = true
here second second = true
here third third = true
here fourth fourth = true
here _ _ = false

abbrev pub next : Place → Place
next first = second
next second = third
next third = fourth
next fourth = first

abbrev pub slots_of : (Place → Slot) → List Slot
slots_of g = g first ∷ g second ∷ g third ∷ g fourth ∷ []

-- A chain at a place, in the mode All or not.
abbrev pub state : Bool → Place → (Place → Slot) → Bool → Option Bool → Bool → Bool → Chain
state all c g recording pass has_record dirty = record {
  cmd = record { slots = slots_of g; recording = recording; current = number c };
  pass = pass;
  has_record = has_record;
  num_cmd = if all then command_buffer_count else 1;
  current = number c;
  dirty = dirty;
}

-- The places that a loop goes over.
abbrev pub on : Bool → Place → Place → Bool
on true c i = true
on false c i = here c i

abbrev pub touch : Bool → (Slot → Slot) → Slot → Slot
touch true f s = f s
touch false f s = s

abbrev pub touched : Bool → Place → (Slot → Slot) → (Place → Slot) → Place → Slot
touched all c f g i = touch (on all c i) f (g i)

pub on_here : (all : Bool) (c : Place) → on all c c ≡ true
on_here true c = refl
on_here false first = refl
on_here false _ = refl

module _ (g : Place → Slot) (pass : Option Bool) (h d : Bool) where
  pub for_each-at_current :
      (f : Slot → Slot) (all : Bool) (c : Place) (r : Bool)
      → for_each (at_current f) (state all c g r pass h d)
        ≡ ok (state all c (touched all c f g) r pass h d)
  unfolding for_each each at_current update advance set_active
  for_each-at_current f true first r = refl
  for_each-at_current f true _ r = refl
  for_each-at_current f false first r = refl
  for_each-at_current f false _ r = refl

  pub for_each-record_plain :
      (all : Bool) (c : Place) (r : Bool)
      → for_each record_plain (state all c g r pass h d)
        ≡ ok (state all c (touched all c begin_slot g) true pass h d)
  unfolding for_each each record_plain at_current update advance set_active
  for_each-record_plain true first r = refl
  for_each-record_plain true _ r = refl
  for_each-record_plain false first r = refl
  for_each-record_plain false _ r = refl

  pub for_each-record_pass :
      (all : Bool) (c : Place) (r : Bool)
      → for_each record_pass (state all c g r pass h d)
        ≡ ok (state all c (touched all c begin_pass_slot g) true pass h d)
  unfolding for_each each record_pass at_current update advance set_active
  for_each-record_pass true first r = refl
  for_each-record_pass true _ r = refl
  for_each-record_pass false first r = refl
  for_each-record_pass false _ r = refl

  pub for_each-stop :
      (all : Bool) (c : Place) (r : Bool)
      → for_each stop (state all c g r pass h d)
        ≡ ok (state all c (touched all c stop_slot g) false pass h d)
  unfolding for_each each stop at_current update advance set_active
  for_each-stop true first r = refl
  for_each-stop true _ r = refl
  for_each-stop false first r = refl
  for_each-stop false _ r = refl

  pub set_active-state :
      (all : Bool) (c : Place) (r : Bool)
      → set_active (number c) (state all c g r pass h d).cmd ≡ (state all c g r pass h d).cmd
  unfolding set_active
  set_active-state all first r = refl
  set_active-state all _ r = refl

  pub submit-state :
      (all : Bool) (c : Place) (r : Bool)
      → submit (state all c g r pass h d).cmd
        ≡ ok (state all (next c) (touched false c submit_slot g) r pass h d).cmd
  unfolding submit at_current update advance
  submit-state all first r = refl
  submit-state all _ r = refl
