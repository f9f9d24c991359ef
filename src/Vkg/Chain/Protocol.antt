-- ===== src/Vkg/Chain/Protocol.antt =====
-- A chain keeps the order in which Vulkan wants its command buffers and their fences to be used.
use kgl.Common.{◌≡◌, Bool, true, false, List, [], ◌∷◌, some, Result, ok, All}
use kgl.Vkg.Command.{Slot}
use kgl.Vkg.Chain.{Chain, Operation, begins, ends, submits, operates, draws, pushes, sets_mode}
use kgl.Vkg.Chain.Usage.{Usage, usage}

-- Whether a chain is recording after an operation.
abbrev pub recording_after : Operation → Bool → Bool
recording_after begins r = true
recording_after ends r = false
recording_after submits r = false
recording_after (operates n) r = true
recording_after (draws n) r = true
recording_after (pushes n) r = true
recording_after (sets_mode all) r = r

-- The mode is set only while the chain is not recording.
abbrev pub MayFollow : Bool → Operation → Type 0
MayFollow r (sets_mode all) = r ≡ false
MayFollow r _ = Unit

abbrev pub IsDisciplined : Bool → List Operation → Type 0
IsDisciplined r [] = Unit
IsDisciplined r (o ∷ os) = MayFollow r o × IsDisciplined (recording_after o r) os

-- The calls for a command buffer and its fence are in an order that Vulkan allows.
abbrev pub IsInOrder : Slot → Type 0
IsInOrder s = (u : Usage) × (usage s.calls ≡ some u)

-- The operations succeed, and the calls that they made are in order.
pub record InOrder (r : Result Chain) : Type 0 where
  pub after : Chain
  pub returned : r ≡ ok after
  pub calls : All IsInOrder after.cmd.slots
