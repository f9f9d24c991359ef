-- ===== src/Vkg/Synchronization/Tests.antt =====
-- Runs of synchronizations and submissions.
use kgl.Common.{
  ◌++◌, get_elem?, from_option, ℕ, ◌+◌, ◌≡◌, refl, List, [], ◌∷◌, true, if◌then◌else◌, leb, ok,
  fault, overrun, length, replicate,
}
use kgl.Vkg.Synchronization.{
  Synchronization, new_synchronization, initialize, create_semaphores, wait_on, wait, wait_fence,
  push_all, clear, num_wait_sems, num_signals, read_array, Submission, submit_info, submit,
  submit_one,
}
use kgl.Vkg.Synchronization.Waits.{
  signals_of, fences_of, wait_on_all, wait-wait_on_all, submit-wait_on_all,
}

abbrev sync : Synchronization
sync = record new_synchronization { signal_sems = 5 ∷ 6 ∷ []; signal_fence = 9 }

abbrev fenceless : Synchronization
fenceless = record new_synchronization { signal_sems = 7 ∷ [] }

made : initialize (λ i. 5 + i) 9 0 2 new_synchronization ≡ sync
unfolding initialize create_semaphores new_synchronization
made = refl

waits_run :
    wait_on fenceless (wait_on sync new_synchronization)
    ≡ record new_synchronization { wait_sems = 5 ∷ 6 ∷ 7 ∷ []; wait_fences = 9 ∷ [] }
unfolding wait_on push_all new_synchronization
waits_run = refl

-- A bare command buffer that waits on two semaphores has one stage for both.
two_waits : submit_one 1 30 (wait_on sync fenceless) ≡ fault overrun
unfolding submit_one submit_info read_array wait_on push_all num_wait_sems num_signals
    new_synchronization
two_waits = refl

-- It waits on 4 already, and then on what `sync` signals.
abbrev waiting : Synchronization
waiting = record fenceless { wait_sems = 4 ∷ [] }

submit-wait_on_all_example :
    let waits : List ℕ = waiting.wait_sems ++ signals_of (sync ∷ []) in
    let info : List ℕ → Submission = λ bs. record {
      buffers = bs;
      waits = waits;
      wait_stages = replicate (length waits) 1;
      signals = waiting.signal_sems;
      fence = waiting.signal_fence;
    } in
    (submit 1 true (30 ∷ 31 ∷ []) (wait_on_all (sync ∷ []) waiting) ≡ (
      if true
      then (if leb (length waits) 100 then ok (info (30 ∷ 31 ∷ []) ∷ []) else fault overrun)
      else ok []))
    × (submit_one 1 30 (wait_on_all (sync ∷ []) waiting)
        ≡ (if leb (length waits) 1 then ok (info (30 ∷ [])) else fault overrun))
submit-wait_on_all_example = submit-wait_on_all (sync ∷ []) waiting 1 30 true (30 ∷ 31 ∷ [])

wait-wait_on_all_example :
    (num_wait_sems (wait_on_all (sync ∷ fenceless ∷ []) (clear sync))
      ≡ length (signals_of (sync ∷ fenceless ∷ [])))
    × (wait 2 (wait_on_all (sync ∷ fenceless ∷ []) (clear sync))
        ≡ ok (from_option (λ sem. sem) 0 (get_elem? (signals_of (sync ∷ fenceless ∷ [])) 2)))
    × (wait_fence 2 (wait_on_all (sync ∷ fenceless ∷ []) (clear sync))
        ≡ ok (from_option (λ fence. fence) 0 (get_elem? (fences_of (sync ∷ fenceless ∷ [])) 2)))
wait-wait_on_all_example = wait-wait_on_all (sync ∷ fenceless ∷ []) sync 2
