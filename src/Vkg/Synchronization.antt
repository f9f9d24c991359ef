-- ===== src/Vkg/Synchronization.antt =====
-- src/vkg/Synchronization.cpp: semaphores and fences that one piece of work signals and another waits
-- on, and the submissions of src/vkg/Queue.cpp that read them. Handles are numbers, 0 is null.
pub mod Waits
mod Tests
use kgl.Common.{
  ℕ, zero, suc, ◌+◌, Bool, true, false, not, if◌then◌else◌, ◌==◌, ltb, leb, List, [], ◌∷◌, ◌++◌,
  Result, ok, fault, overrun, bind, length, index_or, replicate, take,
}

-- `SynchronizationData`, with the number of the device.
pub record Synchronization : Type 0 where
  pub device : ℕ
  pub signal_fence : ℕ
  pub signal_sems : List ℕ
  pub wait_fences : List ℕ
  pub wait_sems : List ℕ
  pub should_make_fence : Bool

-- `SynchronizationData()`
unfoldable pub new_synchronization : Synchronization
new_synchronization = record {
  device = 0;
  signal_fence = 0;
  signal_sems = [];
  wait_fences = [];
  wait_sems = [];
  should_make_fence = true;
}

-- `setMakeFence`
unfoldable pub set_make_fence : Bool → Synchronization → Synchronization
set_make_fence value s = record s { should_make_fence = value }

-- What createSemaphore returns from its `i`-th call on, `n` times.
unfoldable pub create_semaphores : (ℕ → ℕ) → ℕ → ℕ → List ℕ
create_semaphores create i zero = []
create_semaphores create i (suc n) = create i ∷ create_semaphores create (i + 1) n

-- `initialize`, where createSemaphore and createFence return `create` and `fence`.
unfoldable pub initialize : (ℕ → ℕ) → ℕ → ℕ → ℕ → Synchronization → Synchronization
initialize create fence device num_sems s = record s {
  device = device;
  signal_sems = create_semaphores create 0 num_sems;
  signal_fence = if s.should_make_fence then fence else s.signal_fence;
}

-- The loop of `waitOn`.
unfoldable pub push_all : List ℕ → List ℕ → List ℕ
push_all [] list = list
push_all (sem ∷ sems) list = push_all sems (list ++ sem ∷ [])

-- `waitOn`
unfoldable pub wait_on : Synchronization → Synchronization → Synchronization
wait_on sync s = record s {
  wait_sems = push_all sync.signal_sems s.wait_sems;
  wait_fences =
      if not (sync.signal_fence == 0)
      then s.wait_fences ++ sync.signal_fence ∷ []
      else s.wait_fences;
}

-- `numSignals`, `numWaitSems`
unfoldable pub num_signals : Synchronization → ℕ
num_signals s = length s.signal_sems

unfoldable pub num_wait_sems : Synchronization → ℕ
num_wait_sems s = length s.wait_sems

-- `signal`, `wait` and `waitFence`, with the null handle for the dummies.
unfoldable pub signal : ℕ → Synchronization → Result ℕ
signal idx s = index_or s.signal_sems idx (λ sem. sem) 0

unfoldable pub wait : ℕ → Synchronization → Result ℕ
wait idx s = index_or s.wait_sems idx (λ sem. sem) 0

unfoldable pub wait_fence : ℕ → Synchronization → Result ℕ
wait_fence idx s = index_or s.wait_fences idx (λ fence. fence) 0

-- `swap`
unfoldable pub swap : Synchronization → Synchronization
swap s =
    let tmp = s.wait_sems in
    let s' = record s { wait_sems = s.signal_sems } in record s' { signal_sems = tmp }

-- `clear`
unfoldable pub clear : Synchronization → Synchronization
clear s = record s { wait_fences = []; wait_sems = [] }

-- `reset`: the handles that are destroyed; the object keeps them.
unfoldable pub reset : Synchronization → List ℕ
reset s = s.signal_sems ++ s.signal_fence ∷ []

-- The driver reads `count` elements from a pointer to an array.
unfoldable pub read_array : {A : Type 0} → List A → ℕ → Result (List A)
read_array array count = if leb count (length array) then ok (take count array) else fault overrun

-- What a submission hands to the driver: the command buffers, the semaphores to wait on with the
-- stages that wait, the semaphores to signal, and the fence.
pub record Submission : Type 0 where
  pub buffers : List ℕ
  pub waits : List ℕ
  pub wait_stages : List ℕ
  pub signals : List ℕ
  pub fence : ℕ

-- The driver's reading of `vk::SubmitInfo` with the synchronization.
unfoldable pub submit_info : List ℕ → List ℕ → Synchronization → Result Submission
submit_info buffers flags sync = bind (read_array sync.wait_sems (num_wait_sems sync)) λ waits.
    bind (read_array flags (num_wait_sems sync)) λ stages.
      bind (read_array sync.signal_sems (num_signals sync)) λ signals. ok (record {
        buffers = buffers;
        waits = waits;
        wait_stages = stages;
        signals = signals;
        fence = sync.signal_fence;
      })

-- `Queue::submit( CommandBuffer, Synchronization )`, of the buffers of a command buffer: nothing is
-- submitted for a secondary one. `e_all_commands` is the bit of Vulkan.
unfoldable pub submit : ℕ → Bool → List ℕ → Synchronization → Result (List Submission)
submit e_all_commands primary buffers sync =
    if primary
    then (bind (submit_info buffers (replicate 100 e_all_commands) sync) λ info. ok (info ∷ []))
    else ok []

-- `Queue::submit( vk::CommandBuffer, Synchronization )`: `flags` is one element.
unfoldable pub submit_one : ℕ → ℕ → Synchronization → Result Submission
submit_one e_all_commands cmd_buff sync = submit_info (cmd_buff ∷ []) (e_all_commands ∷ []) sync
