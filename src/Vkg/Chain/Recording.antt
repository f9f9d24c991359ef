-- ===== src/Vkg/Chain/Recording.antt =====
-- A chain between its operations, and the operations that record.
use kgl.Common.{
  ℕ, ◌≡◌, refl, sym, ap, Bool, true, false, ◌&&◌, Option, Bool-cases, inl, inr, Result, ok, bind,
  from_option,
}
use mathlib.Core.Path.{subst}
use kgl.Vkg.Command.{Slot, begin_slot, begin_pass_slot, command_slot}
use kgl.Vkg.Chain.{Chain, record_chain, perform, draw}
use kgl.Vkg.Chain.Usage.{IsResting, IsOpen, IsRecorded}
use kgl.Vkg.Chain.Slots.{begin_slot-IsOpen, begin_pass_slot-IsOpen, command_slot-IsOpen}
use kgl.Vkg.Chain.Ring.{
  Place, state, on, touch, touched, for_each-at_current, for_each-record_plain,
  for_each-record_pass, set_active-state,
}

-- Whether a slot is being recorded.
abbrev pub Use : Bool → Slot → Type 0
Use true s = IsOpen s
Use false s = IsResting s

-- No buffer is being recorded; if the chain is dirty, its current buffer waits for submission.
pub record IsClosed (chain : Chain) : Type 0 where
  pub all : Bool
  pub place : Place
  pub slots : Place → Slot
  pub has_record : Bool
  pub dirty : Bool
  pub is_state : chain ≡ state all place slots false chain.pass has_record dirty
  pub resting : (i : Place) → IsResting (slots i)
  pub recorded : dirty ≡ true → IsRecorded (slots place)

-- Just the buffers that the loops go over are being recorded.
pub record IsRecording (chain : Chain) : Type 0 where
  pub all : Bool
  pub place : Place
  pub slots : Place → Slot
  pub has_record : Bool
  pub dirty : Bool
  pub is_state : chain ≡ state all place slots true chain.pass has_record dirty
  pub in_use : (i : Place) → Use (on all place i) (slots i)

abbrev pub At : Bool → Chain → Type 0
At true chain = IsRecording chain
At false chain = IsClosed chain

pub record Reaches (recording : Bool) (r : Result Chain) : Type 0 where
  pub after : Chain
  pub returned : r ≡ ok after
  pub at : At recording after

pub Reaches-bind :
    (r r' : Bool) (m : Result Chain) (f : Chain → Result Chain)
    → Reaches r m
    → ((chain : Chain) → At r chain → Reaches r' (f chain))
    → Reaches r' (bind m f)
Reaches-bind r r' m f h k = rw h.returned (k h.after h.at)

Use-touch :
    (b : Bool) (f : Slot → Slot) (s : Slot)
    → ((s : Slot) → IsResting s → IsOpen (f s))
    → IsResting s
    → Use b (touch b f s)
Use-touch true f s h i = h s i
Use-touch false f s h i = i

touch-open :
    (b : Bool) (f : Slot → Slot) (s : Slot)
    → ((s : Slot) → IsOpen s → IsOpen (f s))
    → Use b s
    → Use b (touch b f s)
touch-open true f s h i = h s i
touch-open false f s h i = i

-- Beginning to record, in a render pass or not.
record-state :
    (u : Bool) (all : Bool) (c : Place) (g : Place → Slot) (pass : Option Bool) (h d : Bool)
    → ((i : Place) → IsResting (g i))
    → Reaches true (record_chain u (state all c g false pass h d))
unfolding record_chain
record-state u all c g pass h d rest =
    elim (Bool-cases (from_option (λ (initialized : Bool). initialized && u) false pass)) [
      | inl inside ↦ rw inside record {
        after = state all c (touched all c begin_pass_slot g) true pass h d;
        returned = for_each-record_pass g pass h d all c false;
        at = record {
          all = all;
          place = c;
          slots = touched all c begin_pass_slot g;
          has_record = h;
          dirty = d;
          is_state = refl;
          in_use =
              λ i. Use-touch (on all c i) begin_pass_slot (g i) begin_pass_slot-IsOpen (rest i);
        };
      }
      | inr outside ↦ rw outside record {
        after = state all c (touched all c begin_slot g) true pass h d;
        returned = for_each-record_plain g pass h d all c false;
        at = record {
          all = all;
          place = c;
          slots = touched all c begin_slot g;
          has_record = h;
          dirty = d;
          is_state = refl;
          in_use = λ i. Use-touch (on all c i) begin_slot (g i) begin_slot-IsOpen (rest i);
        };
      }
    ]

record_closed : (u : Bool) (chain : Chain) → IsClosed chain → Reaches true (record_chain u chain)
record_closed u chain i =
    subst (λ ch. Reaches true (record_chain u ch)) (sym i.is_state)
      (record-state u i.all i.place i.slots chain.pass i.has_record i.dirty i.resting)

record_again : (u : Bool) (chain : Chain) → IsRecording chain → Reaches true (record_chain u chain)
record_again u chain i =
    subst (λ ch. Reaches true (record_chain u ch)) (sym i.is_state)
      (again i.all i.place i.slots chain.pass i.has_record i.dirty i.in_use)
  where
    again :
        (all : Bool) (c : Place) (g : Place → Slot) (pass : Option Bool) (h d : Bool)
        → ((j : Place) → Use (on all c j) (g j))
        → Reaches true (record_chain u (state all c g true pass h d))
    again all c g pass h d uses = record {
      after = state all c g true pass h d;
      returned =
          unfold record_chain in
          ap (λ cmd. ok (record (state all c g true pass h d) { cmd = cmd }))
            (set_active-state g pass h d all c true);
      at = record {
        all = all;
        place = c;
        slots = g;
        has_record = h;
        dirty = d;
        is_state = refl;
        in_use = uses;
      };
    }

pub record_chain-Reaches :
    (r u : Bool) (chain : Chain) → At r chain → Reaches true (record_chain u chain)
record_chain-Reaches true u chain i = record_again u chain i
record_chain-Reaches false u chain i = record_closed u chain i

pub perform-Reaches : (n : ℕ) (chain : Chain) → IsRecording chain → Reaches true (perform n chain)
perform-Reaches n chain i =
    subst (λ ch. Reaches true (perform n ch)) (sym i.is_state)
      (performed i.all i.place i.slots chain.pass i.has_record i.dirty i.in_use)
  where
    performed :
        (all : Bool) (c : Place) (g : Place → Slot) (pass : Option Bool) (h d : Bool)
        → ((j : Place) → Use (on all c j) (g j))
        → Reaches true (perform n (state all c g true pass h d))
    performed all c g pass h d uses = record {
      after = state all c (touched all c (command_slot n) g) true pass h true;
      returned =
          unfold perform in
          ap (λ m. bind m (λ (ch : Chain). ok (record ch { dirty = true })))
            (for_each-at_current g pass h d (command_slot n) all c true);
      at = record {
        all = all;
        place = c;
        slots = touched all c (command_slot n) g;
        has_record = h;
        dirty = true;
        is_state = refl;
        in_use =
            λ j. touch-open (on all c j) (command_slot n) (g j) (command_slot-IsOpen n) (uses j);
      };
    }

pub draw-Reaches : (r : Bool) (n : ℕ) (chain : Chain) → At r chain → Reaches true (draw n chain)
unfolding draw
draw-Reaches r n chain i =
    Reaches-bind true true (record_chain true chain) _ (record_chain-Reaches r true chain i) λ ch j.
      perform-Reaches n (record ch { has_record = true })
        (record {
          all = j.all;
          place = j.place;
          slots = j.slots;
          has_record = true;
          dirty = j.dirty;
          is_state = ap (λ (x : Chain). record x { has_record = true }) j.is_state;
          in_use = j.in_use;
        })
