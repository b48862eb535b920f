-- ===== src/Row/Gather/Calls.antt =====
-- The calls of a chunk are told apart by their numbers.
use batch_processing_system.Common.{
  ℕ, suc, ◌<◌, List, [], ◌∷◌, ◌++◌, map, true, false, ◌==◌, ◌≡◌, ◌≢◌, refl, ap, subst, arith, All,
  Bool-cases, inl, inr, ◌⊎◌, contains,
}
use batch_processing_system.Domain.{ClaimedItem}
use batch_processing_system.Row.Gather.{Task, has_call, fresh_tasks}

abbrev pub Distinct : List ℕ → Type 0
Distinct [] = Unit
Distinct (c ∷ cs) = (contains cs c ≡ false) × Distinct cs

abbrev pub calls_of : List Task → List ℕ
calls_of ts = map (λ t. t.call) ts

pub contains-calls :
    (before after : List Task) (t : Task) → contains (calls_of (before ++ t ∷ after)) t.call ≡ true
contains-calls [] after t = ground arith
contains-calls (x ∷ before) after t =
    let rest = contains-calls before after t in ground (arith, rest)

pub All-elsewhere :
    (P Q : Task → Type 0) (c : ℕ)
    → ((x : Task) → c ≢ x.call → P x → Q x)
    → (xs : List Task) → contains (calls_of xs) c ≡ false
    → All P xs
    → All Q xs
All-elsewhere P Q c f [] e h = tt
All-elsewhere P Q c f (x ∷ xs) e h =
    (f x (ground (arith, e)) h.0, All-elsewhere P Q c f xs (ground (arith, e)) h.1)

-- One task is replaced, and the others have other calls.
pub All-apart :
    (P Q : Task → Type 0) (before after : List Task) (t u : Task)
    → Distinct (calls_of (before ++ t ∷ after))
    → ((x : Task) → t.call ≢ x.call → P x → Q x)
    → (P t → Q u)
    → All P (before ++ t ∷ after)
    → All Q (before ++ u ∷ after)
All-apart P Q [] after t u d f g h = (g h.0, All-elsewhere P Q t.call f after d.0 h.1)
All-apart P Q (x ∷ before) after t u d f g h =
    let calls = calls_of (before ++ t ∷ after) in
    let there = contains-calls before after t in
    (
      f x (λ e. let again = subst (λ k. contains calls k ≡ true) e there in cc) h.0,
      All-apart P Q before after t u d.1 f g h.1,
    )

pub has_call-contains :
    (c : ℕ) (ts : List Task) → has_call c ts ≡ false → contains (calls_of ts) c ≡ false
has_call-contains c [] h = refl
has_call-contains c (t ∷ ts) h = let rest = has_call-contains c ts in ground (arith, h)

-- The task of a call.
pub find_call :
    (c : ℕ) (ts : List Task)
    → ((before : List Task) × (t : Task) × (after : List Task) × (ts ≡ before ++ t ∷ after)
        × (t.call ≡ c))
      ⊎ (has_call c ts ≡ false)
find_call c [] = inr refl
find_call c (t ∷ ts) = elim (Bool-cases (t.call == c)) [
  | inl same ↦ inl ([], t, ts, refl, ground (arith, same))
  | inr different ↦ elim (find_call c ts) [
    | inl (before, u, after, e, h) ↦ inl (t ∷ before, u, after, ap (λ l. t ∷ l) e, h)
    | inr nobody ↦ inr (ground (arith, different, nobody))
  ]
]

fresh_calls :
    (c n : ℕ) (items : List ClaimedItem)
    → c < n
    → contains (calls_of (fresh_tasks n items)) c ≡ false
unfolding fresh_tasks
fresh_calls c n [] h = refl
fresh_calls c n (item ∷ items) h =
    let rest = fresh_calls c (suc n) items (omega (arith, h)) in ground (arith, h, rest)

pub fresh_tasks-Distinct :
    (n : ℕ) (items : List ClaimedItem) → Distinct (calls_of (fresh_tasks n items))
unfolding fresh_tasks
fresh_tasks-Distinct n [] = tt
fresh_tasks-Distinct n (item ∷ items) =
    (fresh_calls n (suc n) items (omega arith), fresh_tasks-Distinct (suc n) items)
