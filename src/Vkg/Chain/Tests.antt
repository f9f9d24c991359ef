-- ===== src/Vkg/Chain/Tests.antt =====
-- Runs of a chain.
use kgl.Common.{◌≡◌, refl, true, List, [], ◌∷◌, some, none, ok, bind, map}
use kgl.Vkg.Command.{
  Call, waits, resets, wait_signaled, begin_slot, begin_pass_slot, command_slot, stop_slot,
  submit_slot, new_command_buffer, initialize, record_plain, record_pass, at_current, update, stop,
  set_active, submit, advance,
}
use kgl.Vkg.Chain.{
  Chain, new_chain, each, for_each, record_chain, perform, operate, draw, begin, end, submit_ended,
  submit_chain, set_mode, Operation, step, steps,
}
use kgl.Vkg.Chain.Usage.{usage}

-- Two frames, each a draw and a submission.
abbrev frames : List Operation
frames =
    Operation.draws 1
    ∷ Operation.submits
    ∷ Operation.draws 2
    ∷ Operation.ends
    ∷ Operation.submits
    ∷ []

abbrev calls_of : Chain → List (List Call)
calls_of chain = map (λ s. s.calls) chain.cmd.slots

two_frames :
    bind (steps frames (new_chain (some true))) (λ chain. ok (calls_of chain))
    ≡ ok (
        (waits
          ∷ resets
          ∷ Call.begins
          ∷ Call.begins_pass
          ∷ Call.commands 1
          ∷ Call.ends_pass
          ∷ Call.ends
          ∷ Call.submits
          ∷ [])
        ∷ (waits
            ∷ resets
            ∷ Call.begins
            ∷ Call.begins_pass
            ∷ Call.commands 2
            ∷ Call.ends_pass
            ∷ Call.ends
            ∷ Call.submits
            ∷ [])
        ∷ []
        ∷ []
        ∷ [])
unfolding steps step draw record_chain perform for_each each submit_chain end submit_ended new_chain
    initialize new_command_buffer record_pass at_current update begin_pass_slot wait_signaled
    command_slot stop stop_slot submit submit_slot advance set_active
two_frames = refl

-- A draw after an operation that has begun to record is outside the render pass.
draw_outside_pass :
    bind
      (steps (Operation.operates 1 ∷ Operation.draws 2 ∷ []) (new_chain (some true)))
      (λ chain. ok (calls_of chain))
    ≡ ok (
        (waits ∷ resets ∷ Call.begins ∷ Call.commands 1 ∷ Call.commands 2 ∷ []) ∷ [] ∷ [] ∷ [] ∷ [])
unfolding steps step operate draw record_chain perform for_each each new_chain initialize
    new_command_buffer record_plain at_current update begin_slot wait_signaled command_slot advance
    set_active
draw_outside_pass = refl

-- A mode that is set in the middle of recording ends buffers that have not begun.
mode_while_recording :
    bind
      (steps (Operation.begins ∷ Operation.sets_mode true ∷ Operation.ends ∷ []) (new_chain none))
      (λ chain. ok (map usage (calls_of chain)))
    ≡ ok (usage (waits ∷ resets ∷ Call.begins ∷ Call.ends ∷ []) ∷ none ∷ none ∷ none ∷ [])
unfolding steps step begin record_chain set_mode end for_each each new_chain initialize
    new_command_buffer record_plain at_current update begin_slot wait_signaled stop stop_slot
    advance set_active
mode_while_recording = refl
