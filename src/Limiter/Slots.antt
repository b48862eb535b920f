-- ===== src/Limiter/Slots.antt =====
-- How many calls run at once.
use batch_processing_system.Common.{
  ℕ, zero, suc, ◌+◌, ◌≤◌, ◌≡◌, refl, subst, arith, some, List, [], ◌∷◌, true, ◌⊎◌, inl, inr,
  contains, length, Bool-cases,
}
use batch_processing_system.Limiter.{
  Limiter, LimiterEvent, enters, leaves, drop_one, limiter, enter, enter_with, hand_on, leave,
  release, limiter_step, limiter_run,
}

-- Running and free slots are the maximum, and no call waits while a slot is free.
pub record Fits (max : ℕ) (s : Limiter) : Type 0 where
  pub slots : length s.running + s.free ≡ max
  pub busy : (s.waiting ≡ []) ⊎ (s.free ≡ 0)

pub length-drop_one :
    (c : ℕ) (xs : List ℕ) → contains xs c ≡ true → 1 + length (drop_one c xs) ≡ length xs
length-drop_one c [] h = cc
length-drop_one c (x ∷ xs) h = let rest = length-drop_one c xs in ground arith

enter_with-Fits :
    (max n c : ℕ) (s : Limiter) → s.free ≡ n → Fits max s → Fits max (enter_with n c s)
enter_with-Fits max zero c s e h = record { slots = h.slots; busy = inr e }
enter_with-Fits max (suc n) c s e h = record {
  slots = omega (arith, h.slots, e);
  busy = elim h.busy [
    | inl none_waits ↦ inl none_waits
    | inr no_slot ↦ absurd (omega (arith, e, no_slot))
  ];
}

hand_on-Fits :
    (max : ℕ) (ws : List ℕ) (s : Limiter)
    → 1 + (length s.running + s.free) ≡ max
    → (ws ≡ []) ⊎ (s.free ≡ 0)
    → s.waiting ≡ ws
    → Fits max (hand_on ws s)
hand_on-Fits max [] s h b e = record { slots = omega (arith, h); busy = inl e }
hand_on-Fits max (w ∷ ws) s h b e = record {
  slots = omega (arith, h);
  busy = elim b [ inl none_waits ↦ cc | inr no_slot ↦ inr no_slot ];
}

abbrev unused : ℕ → Limiter
unused max = record { free = max; running = []; waiting = [] }

limiter-suc : (n : ℕ) → limiter (suc n) ≡ some (unused (suc n))
unfolding limiter
limiter-suc n = ground arith

pub limiter-Fits : (max : ℕ) (s : Limiter) → limiter max ≡ some s → Fits max s
unfolding limiter
limiter-Fits zero s h = absurd cc
limiter-Fits (suc n) s h =
    let start = limiter-suc n in
    let same : unused (suc n) ≡ s = cc in
    subst (λ u. Fits (suc n) u) same (record { slots = omega arith; busy = inl refl })

leave-Fits : (max c : ℕ) (s : Limiter) → Fits max s → Fits max (leave c s)
unfolding leave release
leave-Fits max c s h = elim (Bool-cases (contains s.running c)) [
  | inl inside ↦ rw inside (
      hand_on-Fits max s.waiting (record s { running = drop_one c s.running })
        (omega (arith, h.slots, length-drop_one c s.running inside)) h.busy refl)
  | inr outside ↦ rw outside h
]

pub limiter_step-Fits :
    (max : ℕ) (e : LimiterEvent) (s : Limiter) → Fits max s → Fits max (limiter_step e s)
unfolding enter
limiter_step-Fits max (enters c) s h = enter_with-Fits max s.free c s refl h
limiter_step-Fits max (leaves c) s h = leave-Fits max c s h

limiter_run-Fits :
    (max : ℕ) (es : List LimiterEvent) (s : Limiter) → Fits max s → Fits max (limiter_run es s)
unfolding limiter_run
limiter_run-Fits max [] s h = h
limiter_run-Fits max (e ∷ es) s h =
    limiter_run-Fits max es (limiter_step e s) (limiter_step-Fits max e s h)

-- At a limiter of at least one slot, whatever calls come and go, in whatever order: at most
-- `max_concurrency` calls run at once, and a call waits only while exactly that many run.
pub limiter_run_bounded :
    (max_concurrency : ℕ) (s : Limiter) (es : List LimiterEvent)
    → limiter max_concurrency ≡ some s
    → (length (limiter_run es s).running ≤ max_concurrency)
      × (((limiter_run es s).waiting ≡ []) ⊎ (length (limiter_run es s).running ≡ max_concurrency))
limiter_run_bounded max_concurrency s es h =
    let after = limiter_run-Fits max_concurrency es s (limiter-Fits max_concurrency s h) in
    (
      omega (arith, after.slots),
      elim after.busy [
        | inl none_waits ↦ inl none_waits
        | inr no_slot ↦ inr (omega (arith, after.slots, no_slot))
      ],
    )
