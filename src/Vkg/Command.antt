-- ===== src/Vkg/Command.antt =====
-- src/vkg/CommandBuffer.cpp: the ring of primary command buffers that a chain records into. The vectors
-- of one length (buffers, fences and flags) are one list of slots, and the calls of Vulkan for a
-- buffer or its fence are a list in its slot. What one operation records is one command.
use kgl.Common.{
  ℕ, zero, suc, ◌+◌, Bool, true, false, if◌then◌else◌, ltb, leb, List, [], ◌∷◌, ◌++◌, Result, ok,
  fault, overrun, bind, length, replicate,
}

-- `submits` is the submission of the buffer with its fence.
pub data Call : Type 0 where
  waits resets begins begins_pass ends_pass ends submits : Call
  commands : ℕ → Call

pub record Slot : Type 0 where
  pub calls : List Call
  pub is_signaled : Bool
  pub started_render_pass : Bool

-- `CommandBufferData`, of level Primary.
pub record CommandBuffer : Type 0 where
  pub slots : List Slot
  pub recording : Bool
  pub current : ℕ

-- `CommandBufferData()`
unfoldable pub new_command_buffer : CommandBuffer
new_command_buffer = record { slots = []; recording = false; current = 0 }

-- `initialize`: the fences are created signaled.
unfoldable pub initialize : ℕ → CommandBuffer → CommandBuffer
initialize count cmd = record cmd {
  slots = replicate count (record { calls = []; is_signaled = true; started_render_pass = false });
}

-- `cmd_buffers[ current ]`, and the flags at the same place.
unfoldable pub update : ℕ → (Slot → Slot) → List Slot → Result (List Slot)
update i f [] = fault overrun
update zero f (s ∷ slots) = ok (f s ∷ slots)
update (suc i) f (s ∷ slots) = bind (update i f slots) λ slots'. ok (s ∷ slots')

unfoldable pub at_current : (Slot → Slot) → CommandBuffer → Result CommandBuffer
at_current f cmd = bind (update cmd.current f cmd.slots) λ slots. ok (record cmd { slots = slots })

-- The wait for the fence at the start of each `record`.
unfoldable pub wait_signaled : Slot → Slot
wait_signaled s =
    if s.is_signaled
    then record s { calls = s.calls ++ (waits ∷ resets ∷ []); is_signaled = false }
    else s

unfoldable pub begin_slot : Slot → Slot
begin_slot s = let ready = wait_signaled s in record ready { calls = ready.calls ++ begins ∷ [] }

unfoldable pub begin_pass_slot : Slot → Slot
begin_pass_slot s =
    let ready = wait_signaled s in
    record ready { calls = ready.calls ++ (begins ∷ begins_pass ∷ []); started_render_pass = true }

-- `record()`
unfoldable pub record_plain : CommandBuffer → Result CommandBuffer
record_plain cmd = bind (at_current begin_slot cmd) λ cmd'. ok (record cmd' { recording = true })

-- `record( render_pass )`
unfoldable pub record_pass : CommandBuffer → Result CommandBuffer
record_pass cmd =
    bind (at_current begin_pass_slot cmd) λ cmd'. ok (record cmd' { recording = true })

-- A command on `cmd_buffers[ current ]`.
unfoldable pub command_slot : ℕ → Slot → Slot
command_slot n s = record s { calls = s.calls ++ commands n ∷ [] }

unfoldable pub stop_slot : Slot → Slot
stop_slot s = record s {
  calls = s.calls ++ (if s.started_render_pass then ends_pass ∷ ends ∷ [] else ends ∷ []);
  started_render_pass = false;
}

-- `stop`
unfoldable pub stop : CommandBuffer → Result CommandBuffer
stop cmd = at_current stop_slot (record cmd { recording = false })

-- `fence`, and the submission of the buffer with it.
unfoldable pub submit_slot : Slot → Slot
submit_slot s = record s { calls = s.calls ++ submits ∷ []; is_signaled = true }

-- `advance`
unfoldable pub advance : CommandBuffer → CommandBuffer
advance cmd = record cmd {
  current = if leb (length cmd.slots) (cmd.current + 1) then 0 else cmd.current + 1;
}

-- `setActive`
unfoldable pub set_active : ℕ → CommandBuffer → CommandBuffer
set_active index cmd = record cmd {
  current = if ltb index (length cmd.slots) then index else cmd.current;
}

-- `Queue::submit( CommandBuffer )` (src/vkg/Queue.cpp).
unfoldable pub submit : CommandBuffer → Result CommandBuffer
submit cmd = bind (at_current submit_slot cmd) λ cmd'. ok (advance cmd')
