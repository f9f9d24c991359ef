-- ===== src/Vkg/Chain/Usage.antt =====
-- The order in which Vulkan lets a command buffer and its fence be used. What a command does, and
-- whether it may stand inside a render pass, is left out.
use kgl.Common.{
  ◌≡◌, ap, Bool, true, false, List, [], ◌∷◌, ◌++◌, Option, none, some, from_option, Option-cases,
  inl, inr,
}
use mathlib.Core.Path.{subst}
use kgl.Vkg.Command.{
  Call, waits, resets, begins, begins_pass, ends_pass, ends, submits, commands, Slot,
}

-- `resting`: whether it has been recorded, and whether the fence is signaled. `open`: whether the
-- fence is signaled, and whether it is inside a render pass. `in_flight`: submitted with the fence.
pub data Usage : Type 0 where
  resting open_buffer : Bool → Bool → Usage
  in_flight : Usage

-- A wait for a fence that nothing will signal does not return.
abbrev pub in_order : Call → Usage → Option Usage
in_order waits (resting recorded true) = some (resting recorded true)
in_order waits (open_buffer true pass) = some (open_buffer true pass)
in_order waits in_flight = some (resting true true)
in_order resets (resting recorded signaled) = some (resting recorded false)
in_order resets (open_buffer signaled pass) = some (open_buffer false pass)
in_order begins (resting recorded signaled) = some (open_buffer signaled false)
in_order begins_pass (open_buffer signaled false) = some (open_buffer signaled true)
in_order (commands n) (open_buffer signaled pass) = some (open_buffer signaled pass)
in_order ends_pass (open_buffer signaled true) = some (open_buffer signaled false)
in_order ends (open_buffer signaled false) = some (resting true signaled)
in_order submits (resting true false) = some in_flight
in_order _ _ = none

abbrev pub usage_after : Usage → List Call → Option Usage
usage_after u [] = some u
usage_after u (c ∷ calls) = from_option (λ v. usage_after v calls) none (in_order c u)

-- A new buffer, with its fence signaled.
abbrev pub usage : List Call → Option Usage
usage calls = usage_after (resting false true) calls

usage_after-append :
    (u v : Usage) (p q : List Call)
    → usage_after u p ≡ some v
    → usage_after u (p ++ q) ≡ usage_after v q
usage_after-append u v [] q h = ap (from_option (λ w. usage_after w q) none) h
usage_after-append u v (c ∷ p) q h = elim (Option-cases (in_order c u)) [
  | inl e ↦
      let h' : none ≡ some v =
        subst (λ o. from_option (λ w. usage_after w p) none o ≡ some v) e h in
      absurd (cc)
  | inr (w, e) ↦
      let h' = subst (λ o. from_option (λ w. usage_after w p) none o ≡ some v) e h in
      rw e (usage_after-append w v p q h')
]

pub usage-append :
    (v : Usage) (p q : List Call) → usage p ≡ some v → usage (p ++ q) ≡ usage_after v q
usage-append v p q h = usage_after-append (resting false true) v p q h

-- What `is_signaled` says of a buffer that is not being recorded.
pub data RestUse : Bool → Usage → Type 0 where
  signaled : (r : Bool) → RestUse true (resting r true)
  flying : RestUse true in_flight
  waited : (r : Bool) → RestUse false (resting r false)

-- A slot that is not being recorded.
pub record IsResting (s : Slot) : Type 0 where
  pub in_use : Usage
  pub used : usage s.calls ≡ some in_use
  pub fits : RestUse s.is_signaled in_use
  pub started : s.started_render_pass ≡ false

-- A slot that is being recorded, inside a render pass if it has started one.
pub record IsOpen (s : Slot) : Type 0 where
  pub used : usage s.calls ≡ some (open_buffer false s.started_render_pass)
  pub signal : s.is_signaled ≡ false

-- A slot that has been recorded, and waits for its submission.
pub record IsRecorded (s : Slot) : Type 0 where
  pub used : usage s.calls ≡ some (resting true false)
  pub signal : s.is_signaled ≡ false
  pub started : s.started_render_pass ≡ false
