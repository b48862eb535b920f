-- ===== src/Tests/Gather.antt =====
-- A chunk of one row beside a call of another worker, and the theorems on it.
use batch_processing_system.Common.{
  ℕ, ◌≤◌, some, List, [], ◌∷◌, true, false, ◌≡◌, ◌⊎◌, inl, refl, arith, contains,
}
use batch_processing_system.Domain.{ResultRecord}
use batch_processing_system.Config.{default_settings}
use batch_processing_system.Limiter.{Limiter, enters, enter}
use batch_processing_system.Limiter.Slots.{Fits}
use batch_processing_system.Row.{process_chunk}
use batch_processing_system.Row.Gather.{
  Gathering, own, others, GatherReach, here, next, fresh, advance, fresh_tasks, gathered, has_call,
}
use batch_processing_system.Row.Gather.Results.{Matched, Gathers-Matched}
use batch_processing_system.Row.Gather.Sequence.{open_limiter, chunk-Gathers, gathers_in_sequence}
use batch_processing_system.Row.Gather.Ends.{own_steps, gather_terminates}
use batch_processing_system.Row.Gather.Bounded.{flying, gather_bounded}
use batch_processing_system.Row.Gather.Progress.{GoesOn, gather_not_stuck}
use batch_processing_system.Tests.Samples.{quiet, an_item}
use batch_processing_system.Tests.Pool.{a_row_state}

Gathers-Matched_example :
    Matched quiet default_settings
      (an_item ∷ [])
      (process_chunk quiet default_settings (an_item ∷ []) a_row_state).0
Gathers-Matched_example =
    Gathers-Matched quiet default_settings (an_item ∷ [])
      (process_chunk quiet default_settings (an_item ∷ []) a_row_state).0
      (chunk-Gathers quiet default_settings (an_item ∷ []) a_row_state)

gathers_in_sequence_example :
    (last : Gathering quiet default_settings) × GatherReach quiet default_settings
      (record {
        tasks = fresh_tasks 0 (an_item ∷ []);
        limiter = open_limiter 1 [];
        counters = a_row_state;
      })
      last
    × (gathered last.tasks
        ≡ some (process_chunk quiet default_settings (an_item ∷ []) a_row_state).0)
    × (last.limiter ≡ open_limiter 1 [])
    × (last.counters ≡ (process_chunk quiet default_settings (an_item ∷ []) a_row_state).1)
gathers_in_sequence_example =
    gathers_in_sequence quiet default_settings 0 1 [] (an_item ∷ []) a_row_state

-- One slot, which is free.
abbrev one_slot : Limiter
one_slot = record { free = 1; running = []; waiting = [] }

abbrev at_start : Gathering quiet default_settings
at_start = record {
  tasks = fresh_tasks 1 (an_item ∷ []);
  limiter = one_slot;
  counters = a_row_state;
}

-- A call of another worker takes the slot first, and the row's call waits behind it.
behind_another :
    (u : Gathering quiet default_settings) × GatherReach quiet default_settings at_start u
unfolding fresh_tasks advance enter
behind_another =
    let taken = next here (others (enters 0) a_row_state refl) in
    (_, next taken (own [] [] (record { call = 1; item = an_item; phase = fresh }) _ _ _ refl refl))

gather_terminates_example : own_steps quiet default_settings behind_another.1 ≤ 12
gather_terminates_example =
    gather_terminates quiet default_settings 1 (an_item ∷ []) one_slot a_row_state behind_another.0
      behind_another.1

one_slot-Fits : Fits 1 one_slot
one_slot-Fits = record { slots = refl; busy = inl refl }

gather_bounded_example : flying behind_another.0.tasks ≤ 1
gather_bounded_example =
    gather_bounded quiet default_settings 1 1 (an_item ∷ []) one_slot a_row_state behind_another.0
      one_slot-Fits (λ k m. refl) behind_another.1

gather_not_stuck_example :
    ((rs : List ResultRecord) × (gathered behind_another.0.tasks ≡ some rs))
    ⊎ (GoesOn quiet default_settings behind_another.0
        ⊎ ((k : ℕ) × (contains behind_another.0.limiter.running k ≡ true)
            × (has_call k behind_another.0.tasks ≡ false)))
gather_not_stuck_example =
    gather_not_stuck quiet default_settings 1 1 (an_item ∷ []) one_slot a_row_state behind_another.0
      (omega arith) one_slot-Fits (λ k m. refl) behind_another.1
