-- ===== src/Pool/Progress.antt =====
-- A pool does not deadlock: the claim's locks are always given back.
use batch_processing_system.Common.{
  ℕ, String, List, [], ◌∷◌, Bool, true, false, ◌&&◌, ◌≡◌, refl, arith, eq_iff, str_eq, All,
  All-every, contains, exists_where, Bool-cases, ◌⊎◌, inl, inr, not,
}
use batch_processing_system.Common.Text.{mentions}
use batch_processing_system.Domain.{is_claimed}
use batch_processing_system.Config.{Settings}
use batch_processing_system.Queue.{PromptRow}
use batch_processing_system.Queue.History.{held_by}
use batch_processing_system.World.{World, StorageBackend}
use batch_processing_system.Worker.Settled.{Writes}
use batch_processing_system.Row.{RowState}
use batch_processing_system.Row.Gather.Sequence.{chunk-Gathers}
use batch_processing_system.Pool.{
  Phase, asking, stopped, selecting, working, storing, completing, raised, ids_of, of_member, Pool,
  locks, InUpdate, candidates, Step, finds_nothing, selects, commits, renews, processes, writes,
  completes, raises,
}

-- The worker has left its loop.
abbrev pub has_ended : Phase → Bool
has_ended stopped = true
has_ended (raised p) = true
has_ended _ = false

-- A member that satisfies a test, or the fact that none does.
find_member :
    (p : String → Bool) (members : List String)
    → ((w : String) × (mentions members w ≡ true) × (p w ≡ true)) ⊎ (exists_where p members ≡ false)
find_member p [] = inr refl
find_member p (v ∷ vs) = elim (Bool-cases (p v)) [
  | inl hit ↦ inl (v, rw ((eq_iff v v).1 refl) refl, hit)
  | inr miss ↦ elim (find_member p vs) [
    | inl (w, member, hit) ↦ inl (w, ground (arith, member), hit)
    | inr rest ↦ inr (ground (arith, miss, rest))
  ]
]

none_of :
    (p : String → Bool) (members : List String)
    → exists_where p members ≡ false
    → (w : String) → mentions members w ≡ true
    → p w ≡ false
none_of p [] h w m = cc
none_of p (v ∷ vs) h w m = elim (Bool-cases (str_eq w v)) [
  | inl same ↦ let e : w ≡ v = (eq_iff w v).0 same in rw e (ground (arith, h))
  | inr different ↦ none_of p vs (ground (arith, h)) w (ground (arith, m, different))
]

module _ (world : World) (storage : StorageBackend) (settings : Settings) (job : ℕ)
    (members : List String) where
  -- The step takes its worker on: neither an exception nor a round of the heartbeat.
  abbrev pub Advances : {s u : Pool storage} → Step world storage settings job members s u → Type 0
  Advances (raises w m) = ⊥
  Advances (renews w now items m e b) = ⊥
  Advances _ = Unit

  abbrev Goes : Pool storage → Type 0
  Goes s = (u : Pool storage) × (st : Step world storage settings job members s u) × Advances st

  module _ (s : Pool storage) where
    -- No lock stands in the worker's way, or some row of it is locked.
    blocked_or_not :
        (w : String) (rows : List PromptRow)
        → (All
            (λ r.
              held_by w r ≡ true → locks world storage settings job members s.phase r.id ≡ false)
            rows)
          ⊎ ((k : ℕ) × (locks world storage settings job members s.phase k ≡ true))
    blocked_or_not w [] = inl tt
    blocked_or_not w (r ∷ rows) =
        elim (Bool-cases (locks world storage settings job members s.phase r.id)) [
          | inl hit ↦ inr (r.id, hit)
          | inr miss ↦ elim (blocked_or_not w rows) [
            | inl rest ↦ inl ((λ h. miss), rest)
            | inr found ↦ inr found
          ]
        ]

    -- Who holds a lock can commit.
    unlocks :
        (w : String) (k : ℕ) (p : Phase)
        → mentions members w ≡ true
        → s.phase w ≡ p
        → contains (ids_of p) k ≡ true
        → Goes s
    unlocks w k (selecting now ids) m e c = (_, commits w now ids m e, tt)
    unlocks w k asking m e c = cc
    unlocks w k stopped m e c = cc
    unlocks w k (working items) m e c = cc
    unlocks w k (storing rs) m e c = cc
    unlocks w k (completing rs ref) m e c = cc
    unlocks w k (raised p) m e c = cc

    nothing_updated : InUpdate world storage settings job members s (λ k. false)
    nothing_updated =
        All-every (λ r. false ≡ true → is_claimed r.status && of_member members r.worker_id ≡ true)
          (λ r c. cc) s.table.rows

    asks :
        (w : String) (ids : List ℕ)
        → mentions members w ≡ true
        → s.phase w ≡ asking
        → candidates world storage settings job members s 0 (λ k. false) ≡ ids
        → Goes s
    asks w [] m e c = (_, finds_nothing w 0 (λ k. false) m e nothing_updated c, tt)
    asks w (k ∷ ids) m e c = (_, selects w 0 k ids (λ k. false) m e nothing_updated c, tt)

    go_on :
        (r : RowState world) (ok : Writes storage) (w : String) (p : Phase)
        → mentions members w ≡ true
        → s.phase w ≡ p
        → has_ended p ≡ false
        → Goes s
    go_on r ok w asking m e h =
        asks w (candidates world storage settings job members s 0 (λ k. false)) m e refl
    go_on r ok w (selecting now ids) m e h = (_, commits w now ids m e, tt)
    go_on r ok w (working items) m e h =
        (_, processes w items _ m e (chunk-Gathers world settings items r), tt)
    go_on r ok w (storing rs) m e h =
        let (written, wrote) = ok job "c" rs s.store in
        (_, writes w "c" written.0 rs written.1 m e wrote, tt)
    go_on r ok w (completing rs ref) m e h = elim (blocked_or_not w s.table.rows) [
      | inl free ↦ (_, completes w ref 0 rs m e free, tt)
      | inr (k, found) ↦ elim (find_member (λ v. contains (ids_of (s.phase v)) k) members) [
        | inl (v, member, hit) ↦ unlocks v k (s.phase v) member refl hit
        | inr nobody ↦ cc
      ]
    ]
    go_on r ok w stopped m e h = cc
    go_on r ok w (raised p) m e h = cc

    -- Over a storage that does not raise, in any state of a pool: either every worker has left its
    -- loop, or some worker can take its next step, which is neither an exception nor a round of its
    -- heartbeat.
    pub pool_never_stuck :
        (r : RowState world)
        → Writes storage
        → ((w : String) → mentions members w ≡ true → has_ended (s.phase w) ≡ true)
          ⊎ ((u : Pool storage) × (st : Step world storage settings job members s u) × Advances st)
    pool_never_stuck r ok = elim (find_member (λ w. not (has_ended (s.phase w))) members) [
      | inl (w, member, running) ↦
          inr (go_on r ok w (s.phase w) member refl (ground (arith, running)))
      | inr all ↦ inl (λ w member.
          ground (arith, none_of (λ w. not (has_ended (s.phase w))) members all w member))
    ]
