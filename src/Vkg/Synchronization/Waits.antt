-- ===== src/Vkg/Synchronization/Waits.antt =====
-- What waiting on several pieces of work comes to, and which submissions stay within their arrays.
use kgl.Common.{
  ℕ, zero, suc, ◌≤◌, ◌≡◌, inl, inr, refl, sym, ap, ◌∙◌, Bool, true, false, not, if◌then◌else◌, ◌==◌,
  leb, leb→le, le→leb, List, [], ◌∷◌, ◌++◌, ok, fault, overrun, length, take, replicate,
  length-replicate, get_elem?, from_option, index_or_lem, append_assoc, append-nil, Bool-cases,
  arith,
}
use kgl.Vkg.Synchronization.{
  Synchronization, push_all, wait_on, num_wait_sems, num_signals, wait, wait_fence, clear,
  read_array, Submission, submit_info, submit, submit_one,
}

-- The semaphores that some pieces of work signal, one after the other.
abbrev pub signals_of : List Synchronization → List ℕ
signals_of [] = []
signals_of (sync ∷ syncs) = sync.signal_sems ++ signals_of syncs

-- Their fences, where they have one.
abbrev pub fences_of : List Synchronization → List ℕ
fences_of [] = []
fences_of (sync ∷ syncs) =
    (if not (sync.signal_fence == 0) then sync.signal_fence ∷ [] else []) ++ fences_of syncs

-- Waiting on all of them.
abbrev pub wait_on_all : List Synchronization → Synchronization → Synchronization
wait_on_all [] s = s
wait_on_all (sync ∷ syncs) s = wait_on_all syncs (wait_on sync s)

push_all_lem : (sems list : List ℕ) → push_all sems list ≡ list ++ sems
unfolding push_all
push_all_lem [] list = sym (append-nil list)
push_all_lem (sem ∷ sems) list =
    push_all_lem sems (list ++ sem ∷ []) ∙ append_assoc list (sem ∷ []) sems

wait_on_all_lem :
    (syncs : List Synchronization) (s : Synchronization)
    → wait_on_all syncs s ≡ record s {
      wait_sems = s.wait_sems ++ signals_of syncs;
      wait_fences = s.wait_fences ++ fences_of syncs;
    }
wait_on_all_lem [] s = rw (append-nil s.wait_sems, append-nil s.wait_fences) refl
wait_on_all_lem (sync ∷ syncs) s =
    wait_on_all_lem syncs (wait_on sync s)
    ∙ unfold wait_on in
      rw (push_all_lem, append_assoc)
        (elim (Bool-cases (not (sync.signal_fence == 0))) [
          | inl fence ↦ rw (fence, append_assoc) refl
          | inr none_there ↦ rw none_there refl
        ])

take-all : {A : Type 0} (xs : List A) → take (length xs) xs ≡ xs
take-all [] = refl
take-all (x ∷ xs) = ap (◌∷◌ x) (take-all xs)

read_array-all : {A : Type 0} (xs : List A) → read_array xs (length xs) ≡ ok xs
unfolding read_array
read_array-all xs = rw (le→leb (length xs) (length xs) (omega arith), take-all xs) refl

take-replicate : {A : Type 0} (n m : ℕ) (a : A) → n ≤ m → take n (replicate m a) ≡ replicate n a
take-replicate zero m a h = refl
take-replicate (suc n) zero a h = absurd (omega arith)
take-replicate (suc n) (suc m) a h = ap (◌∷◌ a) (take-replicate n m a (omega arith))

-- The submission, when there are stages for all the semaphores.
submit_info_lem :
    (buffers : List ℕ) (m e_all_commands : ℕ) (sync : Synchronization)
    → submit_info buffers (replicate m e_all_commands) sync ≡ (
        if leb (length sync.wait_sems) m
        then ok (record {
          buffers = buffers;
          waits = sync.wait_sems;
          wait_stages = replicate (length sync.wait_sems) e_all_commands;
          signals = sync.signal_sems;
          fence = sync.signal_fence;
        })
        else fault overrun)
unfolding submit_info num_wait_sems num_signals
submit_info_lem buffers m e sync =
    rw (read_array-all sync.wait_sems) (elim (Bool-cases (leb (length sync.wait_sems) m)) [
      | inl enough ↦
          rw (read_some (length sync.wait_sems) m e enough, read_array-all sync.signal_sems, enough)
            refl
      | inr short ↦ rw (read_none (length sync.wait_sems) m e short, short) refl
    ])
  where
    read_some : (n m e : ℕ) → leb n m ≡ true → read_array (replicate m e) n ≡ ok (replicate n e)
    read_some n m e h =
        unfold read_array in rw (length-replicate m e, h, take-replicate n m e (leb→le n m h)) refl

    read_none : (n m e : ℕ) → leb n m ≡ false → read_array (replicate m e) n ≡ fault overrun
    read_none n m e h = unfold read_array in rw (length-replicate m e, h) refl

-- After a clear and waits on any pieces of work, `numWaitSems` is the number of the semaphores that
-- they signal, `wait` gives those in order, and `waitFence` their fences, less the null ones; past
-- the end both give the null handle.
pub wait-wait_on_all :
    (syncs : List Synchronization) (s : Synchronization) (idx : ℕ)
    → (num_wait_sems (wait_on_all syncs (clear s)) ≡ length (signals_of syncs))
      × (wait idx (wait_on_all syncs (clear s))
          ≡ ok (from_option (λ sem. sem) 0 (get_elem? (signals_of syncs) idx)))
      × (wait_fence idx (wait_on_all syncs (clear s))
          ≡ ok (from_option (λ fence. fence) 0 (get_elem? (fences_of syncs) idx)))
unfolding num_wait_sems wait wait_fence clear
wait-wait_on_all syncs s idx = rw (wait_on_all_lem syncs (clear s)) (
  refl,
  index_or_lem (signals_of syncs) idx (λ sem. sem) 0,
  index_or_lem (fences_of syncs) idx (λ fence. fence) 0,
)

-- Submitting after waits on some pieces of work: the driver gets exactly the semaphores that the
-- object already waited on and then those that the work signals, each with a stage, and the
-- object's own to signal, as long as they are at most 100 for a primary command buffer of the
-- library, and at most one for a bare one. Beyond that it reads past the array of stages. For a
-- secondary command buffer nothing is submitted.
pub submit-wait_on_all :
    (syncs : List Synchronization) (s : Synchronization) (e_all_commands cmd_buff : ℕ)
    (primary : Bool) (buffers : List ℕ)
    → let waits : List ℕ = s.wait_sems ++ signals_of syncs in
      let info : List ℕ → Submission = λ bs. record {
        buffers = bs;
        waits = waits;
        wait_stages = replicate (length waits) e_all_commands;
        signals = s.signal_sems;
        fence = s.signal_fence;
      } in
      (submit e_all_commands primary buffers (wait_on_all syncs s) ≡ (
        if primary
        then (if leb (length waits) 100 then ok (info buffers ∷ []) else fault overrun)
        else ok []))
      × (submit_one e_all_commands cmd_buff (wait_on_all syncs s)
          ≡ (if leb (length waits) 1 then ok (info (cmd_buff ∷ [])) else fault overrun))
unfolding submit submit_one
submit-wait_on_all syncs s e cmd_buff true buffers = rw (wait_on_all_lem syncs s) (
  rw (submit_info_lem buffers 100 e _)
      (elim (Bool-cases (leb (length (s.wait_sems ++ signals_of syncs)) 100)) [
        | inl few ↦ rw few refl
        | inr many ↦ rw many refl
      ]),
  submit_info_lem (cmd_buff ∷ []) 1 e _,
)
submit-wait_on_all syncs s e cmd_buff false buffers =
    rw (wait_on_all_lem syncs s) (refl, submit_info_lem (cmd_buff ∷ []) 1 e _)
