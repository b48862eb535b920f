-- ===== src/Limiter/Held.antt =====
-- Who is at the limiter: the calls that run and those that wait, counted.
use batch_processing_system.Common.{
  ℕ, zero, suc, ◌+◌, ◌≤◌, ◌<◌, ◌≡◌, ◌≢◌, refl, ap, arith, List, [], ◌∷◌, ◌++◌, true, false,
  Bool-cases, inl, inr, ◌==◌, if◌then◌else◌, contains,
}
use batch_processing_system.Limiter.{
  Limiter, LimiterEvent, enters, leaves, drop_one, enter, enter_with, hand_on, leave, release,
  caller, limiter_step,
}

abbrev pub one : ℕ → ℕ → ℕ
one c k = if c == k then 1 else 0

abbrev pub count : ℕ → List ℕ → ℕ
count k [] = 0
count k (x ∷ xs) = one x k + count k xs

abbrev pub held : ℕ → Limiter → ℕ
held k l = count k l.running + count k l.waiting

pub contains_of_count : (k : ℕ) (xs : List ℕ) → 0 < count k xs → contains xs k ≡ true
contains_of_count k [] h = absurd (omega (arith, h))
contains_of_count k (x ∷ xs) h = let rest = contains_of_count k xs in ground (arith, h)

pub count_of_contains : (k : ℕ) (xs : List ℕ) → contains xs k ≡ true → 0 < count k xs
count_of_contains k [] h = cc
count_of_contains k (x ∷ xs) h = let rest = count_of_contains k xs in ground (arith, h)

count-snoc : (k c : ℕ) (xs : List ℕ) → count k (xs ++ c ∷ []) ≡ count k xs + one c k
count-snoc k c [] = omega arith
count-snoc k c (x ∷ xs) = let rest = count-snoc k c xs in omega (arith, rest)

pub count-drop_one :
    (k c : ℕ) (xs : List ℕ) → contains xs c ≡ true → count k (drop_one c xs) + one c k ≡ count k xs
count-drop_one k c [] h = cc
count-drop_one k c (x ∷ xs) h = let rest = count-drop_one k c xs in ground (arith, h)

enter_with-held :
    (k n c : ℕ) (l : Limiter)
    → (held k (enter_with n c l) ≡ held k l + one c k)
      × (count k l.running ≤ count k (enter_with n c l).running)
enter_with-held k zero c l =
    let waits = count-snoc k c l.waiting in (omega (arith, waits), omega arith)
enter_with-held k (suc n) c l = (omega arith, omega arith)

pub enter-held :
    (k c : ℕ) (l : Limiter)
    → (held k (enter c l) ≡ held k l + one c k) × (count k l.running ≤ count k (enter c l).running)
unfolding enter
enter-held k c l = enter_with-held k l.free c l

hand_on-held :
    (k : ℕ) (ws : List ℕ) (l : Limiter)
    → l.waiting ≡ ws
    → (held k (hand_on ws l) ≡ held k l) × (count k l.running ≤ count k (hand_on ws l).running)
hand_on-held k [] l e = (omega arith, omega arith)
hand_on-held k (w ∷ ws) l e = let waits = ap (count k) e in (omega (arith, waits), omega arith)

pub leave-held :
    (k c : ℕ) (l : Limiter)
    → contains l.running c ≡ true
    → (held k (leave c l) + one c k ≡ held k l)
      × (count k l.running ≤ count k (leave c l).running + one c k)
unfolding leave release
leave-held k c l h =
    let dropped = count-drop_one k c l.running h in
    let on = hand_on-held k l.waiting (record l { running = drop_one c l.running }) refl in
    rw h (omega (arith, dropped, on.0), omega (arith, dropped, on.1))

pub leave_outside : (c : ℕ) (l : Limiter) → contains l.running c ≡ false → leave c l ≡ l
unfolding leave
leave_outside c l h = rw h refl

-- What another call's event leaves alone.
abbrev pub Elsewhere : ℕ → Limiter → Limiter → Type 0
Elsewhere c l l' =
    (k : ℕ) → c ≢ k → (held k l' ≡ held k l) × (count k l.running ≤ count k l'.running)

pub enter-Elsewhere : (c : ℕ) (l : Limiter) → Elsewhere c l (enter c l)
enter-Elsewhere c l k d =
    let (all, some_run) = enter-held k c l in (ground (arith, all, d), some_run)

pub leave-Elsewhere : (c : ℕ) (l : Limiter) → Elsewhere c l (leave c l)
leave-Elsewhere c l k d = elim (Bool-cases (contains l.running c)) [
  | inl inside ↦
      let (all, some_run) = leave-held k c l inside in
      (ground (arith, all, d), ground (arith, some_run, d))
  | inr outside ↦ rw (leave_outside c l outside) (omega arith, omega arith)
]

pub limiter_step-Elsewhere :
    (e : LimiterEvent) (l : Limiter) → Elsewhere (caller e) l (limiter_step e l)
limiter_step-Elsewhere (enters c) l = enter-Elsewhere c l
limiter_step-Elsewhere (leaves c) l = leave-Elsewhere c l
