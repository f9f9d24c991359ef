-- ===== src/Vkg/Chain/Ending.antt =====
-- The end of recording, and the submission.
use kgl.Common.{◌≡◌, refl, sym, ap, Bool, true, false, Option, ok, bind}
use mathlib.Core.Path.{subst}
use kgl.Vkg.Command.{Slot, CommandBuffer, stop_slot, submit_slot}
use kgl.Vkg.Chain.{Chain, end, submit_ended}
use kgl.Vkg.Chain.Usage.{IsResting, IsRecorded}
use kgl.Vkg.Chain.Slots.{stop_slot-IsRecorded, submit_slot-IsResting, IsRecorded-IsResting}
use kgl.Vkg.Chain.Ring.{
  Place, first, second, third, fourth, state, next, on, on_here, here, touch, touched,
  for_each-stop, submit-state,
}
use kgl.Vkg.Chain.Recording.{Use, IsClosed, At, Reaches}

touch-stop : (b : Bool) (s : Slot) → Use b s → IsResting (touch b stop_slot s)
touch-stop true s i = IsRecorded-IsResting (stop_slot s) (stop_slot-IsRecorded s i)
touch-stop false s i = i

pub end-Reaches : (r : Bool) (chain : Chain) → At r chain → Reaches false (end chain)
end-Reaches false chain i =
    subst (λ ch. Reaches false (end ch)) (sym i.is_state)
      (unfold end in
        record {
          after = state i.all i.place i.slots false chain.pass i.has_record i.dirty;
          returned = refl;
          at = record {
            all = i.all;
            place = i.place;
            slots = i.slots;
            has_record = i.has_record;
            dirty = i.dirty;
            is_state = refl;
            resting = i.resting;
            recorded = i.recorded;
          };
        })
end-Reaches true chain i =
    subst (λ ch. Reaches false (end ch)) (sym i.is_state)
      (ended i.all i.place i.slots chain.pass i.has_record i.dirty i.in_use)
  where
    ended :
        (all : Bool) (c : Place) (g : Place → Slot) (pass : Option Bool) (h d : Bool)
        → ((j : Place) → Use (on all c j) (g j))
        → Reaches false (end (state all c g true pass h d))
    ended all c g pass h d uses = record {
      after = state all c (touched all c stop_slot g) false pass true d;
      returned =
          unfold end in
          ap (λ m. bind m (λ (ch : Chain). ok (record ch { has_record = true })))
            (for_each-stop g pass h d all c true);
      at = record {
        all = all;
        place = c;
        slots = touched all c stop_slot g;
        has_record = true;
        dirty = d;
        is_state = refl;
        resting = λ j. touch-stop (on all c j) (g j) (uses j);
        recorded = λ e.
            subst (λ b. IsRecorded (touch b stop_slot (g c))) (sym (on_here all c))
              (stop_slot-IsRecorded (g c) (subst (λ b. Use b (g c)) (on_here all c) (uses c)));
      };
    }

touch-submit :
    (b : Bool) (s : Slot)
    → IsResting s
    → (b ≡ true → IsRecorded s)
    → IsResting (touch b submit_slot s)
touch-submit true s i h = submit_slot-IsResting s (h refl)
touch-submit false s i h = i

here→eq : (c i : Place) → here c i ≡ true → c ≡ i
here→eq first first h = refl
here→eq second second h = refl
here→eq third third h = refl
here→eq fourth fourth h = refl
here→eq _ _ h = absurd (cc)

pub submit_ended-Reaches : (chain : Chain) → IsClosed chain → Reaches false (submit_ended chain)
submit_ended-Reaches chain i =
    subst (λ ch. Reaches false (submit_ended ch)) (sym i.is_state)
      (submitted i.all i.place i.slots chain.pass i.has_record i.dirty i.resting i.recorded)
  where
    submitted :
        (all : Bool) (c : Place) (g : Place → Slot) (pass : Option Bool) (h d : Bool)
        → ((j : Place) → IsResting (g j))
        → (d ≡ true → IsRecorded (g c))
        → Reaches false (submit_ended (state all c g false pass h d))
    submitted all c g pass true true rest rec = record {
      after = state all (next c) (touched false c submit_slot g) false pass true false;
      returned =
          unfold submit_ended in
          ap
            (λ m. bind m (λ (cmd : CommandBuffer). ok (record (state all c g false pass true true) {
              cmd = cmd;
              current = cmd.current;
              dirty = false;
            })))
            (submit-state g pass true true all c false);
      at = record {
        all = all;
        place = next c;
        slots = touched false c submit_slot g;
        has_record = true;
        dirty = false;
        is_state = refl;
        resting = λ j.
            touch-submit (here c j) (g j) (rest j)
              (λ e. subst (λ p. IsRecorded (g p)) (here→eq c j e) (rec refl));
        recorded = λ e. absurd (cc);
      };
    }
    submitted all c g pass true false rest rec =
        unfold submit_ended in
        record {
          after = state all c g false pass true false;
          returned = refl;
          at = record {
            all = all;
            place = c;
            slots = g;
            has_record = true;
            dirty = false;
            is_state = refl;
            resting = rest;
            recorded = rec;
          };
        }
    submitted all c g pass false d rest rec =
        unfold submit_ended in
        record {
          after = state all c g false pass false d;
          returned = refl;
          at = record {
            all = all;
            place = c;
            slots = g;
            has_record = false;
            dirty = d;
            is_state = refl;
            resting = rest;
            recorded = rec;
          };
        }
