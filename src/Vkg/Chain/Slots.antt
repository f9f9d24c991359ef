-- ===== src/Vkg/Chain/Slots.antt =====
-- What the operations on one slot do to its use.
use kgl.Common.{
  ℕ, ◌≡◌, refl, sym, ◌∙◌, Bool, true, false, List, [], ◌∷◌, some, Bool-cases, inl, inr,
}
use mathlib.Core.Path.{subst}
use kgl.Vkg.Command.{
  Call, waits, resets, begins, begins_pass, submits, commands, Slot, wait_signaled, begin_slot,
  begin_pass_slot, command_slot, stop_slot, submit_slot,
}
use kgl.Vkg.Chain.Usage.{
  Usage, resting, open_buffer, in_flight, usage, usage-append, RestUse, signaled, flying, waited,
  IsResting, IsOpen, IsRecorded,
}

-- After the wait the fence is not signaled, and the buffer may begin.
record Waited (s : Slot) : Type 0 where
  recorded : Bool
  used : usage s.calls ≡ some (resting recorded false)
  signal : s.is_signaled ≡ false
  started : s.started_render_pass ≡ false

wait_fields :
    (calls : List Call) (b : Bool) (u : Usage)
    → RestUse b u
    → usage calls ≡ some u
    → Waited
        (wait_signaled (record { calls = calls; is_signaled = b; started_render_pass = false }))
unfolding wait_signaled
wait_fields calls true _ (signaled r) h = record {
  recorded = r;
  used = usage-append (resting r true) calls (waits ∷ resets ∷ []) h;
  signal = refl;
  started = refl;
}
wait_fields calls true _ flying h = record {
  recorded = true;
  used = usage-append in_flight calls (waits ∷ resets ∷ []) h;
  signal = refl;
  started = refl;
}
wait_fields calls false _ (waited r) h = record {
  recorded = r;
  used = h;
  signal = refl;
  started = refl;
}

wait_signaled-Waited : (s : Slot) → IsResting s → Waited (wait_signaled s)
wait_signaled-Waited s i =
    subst
      (λ st. Waited (
        wait_signaled
          (record { calls = s.calls; is_signaled = s.is_signaled; started_render_pass = st })))
      (sym i.started) (wait_fields s.calls s.is_signaled i.in_use i.fits i.used)

pub begin_slot-IsOpen : (s : Slot) → IsResting s → IsOpen (begin_slot s)
unfolding begin_slot
begin_slot-IsOpen s i =
    let w = wait_signaled-Waited s i in
    record {
      used =
          rw w.started
            (usage-append (resting w.recorded false) (wait_signaled s).calls (begins ∷ []) w.used);
      signal = w.signal;
    }

pub begin_pass_slot-IsOpen : (s : Slot) → IsResting s → IsOpen (begin_pass_slot s)
unfolding begin_pass_slot
begin_pass_slot-IsOpen s i =
    let w = wait_signaled-Waited s i in
    record {
      used =
          usage-append (resting w.recorded false) (wait_signaled s).calls
            (begins ∷ begins_pass ∷ []) w.used;
      signal = w.signal;
    }

pub command_slot-IsOpen : (n : ℕ) (s : Slot) → IsOpen s → IsOpen (command_slot n s)
unfolding command_slot
command_slot-IsOpen n s i = record {
  used = usage-append (open_buffer false s.started_render_pass) s.calls (commands n ∷ []) i.used;
  signal = i.signal;
}

pub stop_slot-IsRecorded : (s : Slot) → IsOpen s → IsRecorded (stop_slot s)
unfolding stop_slot
stop_slot-IsRecorded s i = record {
  used =
      usage-append (open_buffer false s.started_render_pass) s.calls _ i.used
      ∙ elim (Bool-cases s.started_render_pass) [ inl e ↦ rw e refl | inr e ↦ rw e refl ];
  signal = i.signal;
  started = refl;
}

pub submit_slot-IsResting : (s : Slot) → IsRecorded s → IsResting (submit_slot s)
unfolding submit_slot
submit_slot-IsResting s i = record {
  in_use = in_flight;
  used = usage-append (resting true false) s.calls (submits ∷ []) i.used;
  fits = flying;
  started = i.started;
}

pub IsRecorded-IsResting : (s : Slot) → IsRecorded s → IsResting s
IsRecorded-IsResting s i = record {
  in_use = resting true false;
  used = i.used;
  fits = rw i.signal (waited true);
  started = i.started;
}
