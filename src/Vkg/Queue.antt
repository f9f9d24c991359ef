-- ===== src/Vkg/Queue.antt =====
-- src/vkg/Queue.cpp: a queue of a device. Handles of Vulkan are numbers, 0 is the null handle, and the
-- bits of the flags are parameters.
use kgl.Common.{ℕ, ◌-◌, ◌^◌, Bool, true, false, not, ◌&&◌, if◌then◌else◌, ◌==◌, Option, none, some}
use Prim.Native.Nat.{bit_and}

-- `QueueData`, less the cached submission and the fence. `mutex` is the queue whose mutex it is.
pub record Queue : Type 0 where
  pub queue : ℕ
  pub dev_id : Option ℕ
  pub mutex : Option ℕ
  pub mask : ℕ
  pub family : ℕ

-- `Queue()`
unfoldable pub new_queue : Queue
new_queue = record { queue = 0; dev_id = none; mutex = none; mask = 0; family = 2 ^ 32 - 1 }

-- `Queue::initialize`
unfoldable pub initialize : ℕ → ℕ → ℕ → ℕ → Queue
initialize device queue queue_family mask = record {
  queue = queue;
  dev_id = some device;
  mutex = some queue;
  mask = mask;
  family = queue_family;
}

-- `flags & bit`, as a test.
unfoldable pub has_bit : ℕ → ℕ → Bool
has_bit flags bit = not (bit_and flags bit == 0)

-- `Queue::valid`
unfoldable pub valid : Queue → Bool
valid q = not (q.queue == 0) && not (q.family == 2 ^ 32 - 1)

-- `Queue::graphics` and `Queue::present`, for the bit eGraphics.
unfoldable pub graphics : ℕ → Queue → Bool
graphics e_graphics q = if has_bit q.mask e_graphics then true else false

-- `Queue::compute`, for the bit eCompute.
unfoldable pub compute : ℕ → Queue → Bool
compute e_compute q = if has_bit q.mask e_compute then true else false
