-- ===== src/Limiter.antt =====
-- app/engine/concurrency.py: ConcurrencyLimiter, an asyncio.Semaphore around each call. The semaphore
-- counts its free slots and keeps the calls that wait in the order of their arrival.
pub mod Slots
pub mod Held
use batch_processing_system.Common.{
  ℕ, zero, suc, Option, none, some, List, [], ◌∷◌, ◌++◌, Bool, ◌==◌, ltb, contains, if◌then◌else◌,
}

-- The semaphore, the calls inside `async with` and those that wait at it.
pub record Limiter : Type 0 where
  pub free : ℕ
  pub running : List ℕ
  pub waiting : List ℕ

-- `none` is the ValueError.
unfoldable pub limiter : ℕ → Option Limiter
limiter max_concurrency =
    if ltb max_concurrency 1
    then none
    else some (record { free = max_concurrency; running = []; waiting = [] })

abbrev pub enter_with : ℕ → ℕ → Limiter → Limiter
enter_with zero c s = record s { waiting = s.waiting ++ c ∷ [] }
enter_with (suc n) c s = record s { free = n; running = c ∷ s.running }

-- `run` up to the `async with`: the call enters where a slot is free, or it waits.
unfoldable pub enter : ℕ → Limiter → Limiter
enter c s = enter_with s.free c s

abbrev pub drop_one : ℕ → List ℕ → List ℕ
drop_one c [] = []
drop_one c (x ∷ xs) = let rest = drop_one c xs in if x == c then xs else x ∷ rest

abbrev pub hand_on : List ℕ → Limiter → Limiter
hand_on [] s = record s { free = suc s.free }
hand_on (w ∷ ws) s = record s { running = w ∷ s.running; waiting = ws }

-- A slot that is given back goes to the call that has waited longest.
unfoldable pub release : Limiter → Limiter
release s = hand_on s.waiting s

-- The end of the `async with`, by a result or by an exception; only a call that is inside gets there.
unfoldable pub leave : ℕ → Limiter → Limiter
unfolding release
leave c s =
    let left = release (record s { running = drop_one c s.running }) in
    if contains s.running c then left else s

pub data LimiterEvent : Type 0 where
  enters leaves : ℕ → LimiterEvent

abbrev pub caller : LimiterEvent → ℕ
caller (enters c) = c
caller (leaves c) = c

abbrev pub limiter_step : LimiterEvent → Limiter → Limiter
limiter_step (enters c) s = enter c s
limiter_step (leaves c) s = leave c s

unfoldable pub limiter_run : List LimiterEvent → Limiter → Limiter
limiter_run [] s = s
limiter_run (e ∷ es) s = limiter_run es (limiter_step e s)
