-- ===== src/Tests/Ports.antt =====
-- The theorems about the limiter, the clients and the routes at small inputs.
use batch_processing_system.Common.{◌≤◌, ◌≡◌, refl, List, [], ◌∷◌, ◌⊎◌, length}
use batch_processing_system.Limiter.{
  Limiter, LimiterEvent, enters, leaves, limiter, limiter_run, enter, leave, release,
}
use batch_processing_system.Limiter.Slots.{limiter_run_bounded}

abbrev two_slots : Limiter
two_slots = record { free = 2; running = []; waiting = [] }

-- Three calls arrive at two slots, and the first one leaves.
abbrev three_calls : List LimiterEvent
three_calls = enters 1 ∷ enters 2 ∷ enters 3 ∷ leaves 1 ∷ []

third_runs : (limiter_run three_calls two_slots).running ≡ 3 ∷ 2 ∷ []
unfolding limiter_run enter leave release
third_runs = refl

limiter_run_bounded_example :
    (length (limiter_run three_calls two_slots).running ≤ 2)
    × (((limiter_run three_calls two_slots).waiting ≡ [])
        ⊎ (length (limiter_run three_calls two_slots).running ≡ 2))
unfolding limiter
limiter_run_bounded_example = limiter_run_bounded 2 two_slots three_calls refl
