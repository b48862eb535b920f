-- ===== src/Pool/Phases.antt =====
-- What a phase says of the rows, and how the locks change when one worker moves.
use batch_processing_system.Common.{
  ℕ, String, List, [], ◌∷◌, map, Bool, true, false, ◌||◌, ◌&&◌, not, ◌≡◌, refl, arith, eq_iff,
  str_eq, contains, exists_where, Bool-cases, inl, inr,
}
use batch_processing_system.Common.Text.{mentions}
use batch_processing_system.Domain.{is_claimed, is_pending}
use batch_processing_system.Queue.{PromptRow, of_job}
use batch_processing_system.Worker.Turn.{record_ids}
use batch_processing_system.Pool.{
  Phase, stopped, working, storing, completing, raised, Phases, ids_of, move, of_member,
}

-- The external ids of the rows that a worker has claimed and not completed.
abbrev pub names_of : Phase → List String
names_of (working items) = map (λ i. i.external_id) items
names_of (storing rs) = record_ids rs
names_of (completing rs ref) = record_ids rs
names_of (raised p) = names_of p
names_of _ = []

-- A CLAIMED row of the job whose worker is none of the pool: another process has left it behind.
abbrev pub abandoned : ℕ → List String → PromptRow → Bool
abandoned job members r = of_job job is_claimed r && not (of_member members r.worker_id)

-- The row waits for a claim.
abbrev pub to_claim : ℕ → List String → PromptRow → Bool
to_claim job members r = of_job job is_pending r || abandoned job members r

abbrev pub is_stopped : Phase → Bool
is_stopped stopped = true
is_stopped _ = false

abbrev pub is_raised : Phase → Bool
is_raised (raised p) = true
is_raised _ = false

module _ (phase : Phases) (w : String) (p : Phase) where
  pub move_self : move phase w p w ≡ p
  move_self = ground (arith, eq_iff w w)

  pub move-other : (v : String) → str_eq v w ≡ false → move phase w p v ≡ phase v
  move-other v h = rw h

  -- A lock that is not the mover's stays.
  pub locks_keep :
      (members : List String) (k : ℕ)
      → contains (ids_of (phase w)) k ≡ false
      → exists_where (λ v. contains (ids_of (phase v)) k) members ≡ true
      → exists_where (λ v. contains (ids_of (move phase w p v)) k) members ≡ true
  locks_keep [] k free h = h
  locks_keep (v ∷ vs) k free h = elim (Bool-cases (str_eq v w)) [
    | inl same ↦
        let e : v ≡ w = (eq_iff v w).0 same in
        let mine : contains (ids_of (phase v)) k ≡ false = rw e free in
        let rest = locks_keep vs k free in ground arith
    | inr different ↦ let rest = locks_keep vs k free in rw different (ground arith)
  ]

pub locks_intro :
    (phase : Phases) (members : List String) (v : String) (k : ℕ)
    → mentions members v ≡ true
    → contains (ids_of (phase v)) k ≡ true
    → exists_where (λ u. contains (ids_of (phase u)) k) members ≡ true
locks_intro phase [] v k m h = cc
locks_intro phase (u ∷ us) v k m h = elim (Bool-cases (str_eq v u)) [
  | inl same ↦ let e : v ≡ u = (eq_iff v u).0 same in rw (← e, h) refl
  | inr different ↦ let rest = locks_intro phase us v k in ground arith
]
