-- ===== src/Worker/Safety.antt =====
-- What a worker keeps, whatever other processes do on the queue in the meantime.
use batch_processing_system.Common.{ℕ, ◌+◌, String, Option, none, some, List, [], ◌∷◌, All}
use batch_processing_system.Domain.{ClaimedItem, ResultRecord}
use batch_processing_system.Config.{Settings}
use batch_processing_system.Queue.{Table}
use batch_processing_system.Queue.Invariant.{
  IsValid, claim_chunk-IsValid, complete_items-IsValid, renew_lease-IsValid,
}
use batch_processing_system.Queue.Lifecycle.{
  Evolves, Evolves-refl, Evolves-trans, claim_chunk-Evolves, complete_items-Evolves,
  renew_lease-Evolves,
}
use batch_processing_system.Queue.History.{
  Final, run_history, commit-IsValid, commit-Evolves, run_history-IsValid, run_history-Evolves,
}
use batch_processing_system.Row.{process_chunk}
use batch_processing_system.Row.Handled.{Closed, process_chunk-Handled}
use batch_processing_system.World.{World, StorageBackend, Event, beat, other}
use batch_processing_system.Worker.{RunState, RunEnd, during, flush_chunk, run_chunk, claim}

-- The other processes hand in results that are SUCCEEDED or FAILED, as workers do.
abbrev pub FinalEvent : Event → Type 0
FinalEvent (beat now) = Unit
FinalEvent (other x) = Final x

pub record Behaves (world : World) : Type 0 where
  pub meanwhile : (s : world.State) → All FinalEvent (world.meanwhile s)
  pub between : (s : world.State) → All Final (world.between s)

-- One table after another.
pub record Follows (t u : Table) : Type 0 where
  pub valid : IsValid u
  pub evolves : Evolves t.rows u.rows

pub Follows-refl : (t : Table) → IsValid t → Follows t t
Follows-refl t h = record { valid = h; evolves = Evolves-refl t.rows }

pub Follows-trans : (t u v : Table) → Follows t u → Follows u v → Follows t v
Follows-trans t u v h k = record {
  valid = k.valid;
  evolves = Evolves-trans t.rows u.rows v.rows h.evolves k.evolves;
}

module _ (world : World) (storage : StorageBackend) (settings : Settings) where
  abbrev pub State : Type 0
  State = RunState world storage

  pub during-Follows :
      (w : String) (es : List Event) (t : Table)
      → All FinalEvent es
      → IsValid t
      → Follows t (during world storage settings w es t)
  unfolding during
  during-Follows w [] t f h = Follows-refl t h
  during-Follows w (beat now ∷ es) t f h =
      let lease = settings.lease_ttl_seconds in
      Follows-trans t _ _
        (record {
          valid = renew_lease-IsValid now w lease t h;
          evolves = renew_lease-Evolves now w lease t;
        })
        (during-Follows w es _ f.1 (renew_lease-IsValid now w lease t h))
  during-Follows w (other x ∷ es) t f h =
      Follows-trans t _ _
        (record { valid = commit-IsValid x t h; evolves = commit-Evolves x t f.0 h })
        (during-Follows w es _ f.1 (commit-IsValid x t h))

  flush_chunk-Follows :
      (w : String) (rs : List ResultRecord) (written : Option (String × storage.Store)) (s : State)
      → All Closed rs
      → IsValid s.table
      → Follows s.table (flush_chunk world storage settings w rs written s).1.table
  flush_chunk-Follows w rs none s c h = Follows-refl s.table h
  flush_chunk-Follows w rs (some (ref, store)) s c h = record {
    valid = complete_items-IsValid (world.now s.env) w rs ref s.table h;
    evolves = complete_items-Evolves (world.now s.env) w rs ref s.table c;
  }

  module _ (b : Behaves world) where
    pub run_chunk-Follows :
        (job : ℕ) (w : String) (chunk : List ClaimedItem) (s : State)
        → IsValid s.table
        → Follows s.table (run_chunk world storage settings job w chunk s).1.table
    unfolding run_chunk
    run_chunk-Follows job w chunk s h =
        let m = s.metrics in
        let (chunk_id, env) = world.new_id s.env in
        let (results, rs) =
          process_chunk world settings chunk
            (record { metrics = record m { chunks_claimed = m.chunks_claimed + 1 }; env = env }) in
        let table = during world storage settings w (world.meanwhile rs.env) s.table in
        let waited = during-Follows w (world.meanwhile rs.env) s.table (b.meanwhile rs.env) h in
        Follows-trans s.table table _ waited (
          flush_chunk-Follows w results (storage.write_chunk job chunk_id results s.store)
            (record s { metrics = rs.metrics; env = rs.env; table = table })
            (process_chunk-Handled world settings chunk _).1 waited.valid)

    pub claim-Follows :
        (job : ℕ) (w : String) (s : State)
        → IsValid s.table
        → Follows s.table (claim world storage settings job w s).1
    unfolding claim
    claim-Follows job w s h =
        let before = run_history (world.between s.env) s.table in
        let valid = run_history-IsValid (world.between s.env) s.table h in
        Follows-trans s.table before _
          (record {
            valid = valid;
            evolves = run_history-Evolves (world.between s.env) s.table (b.between s.env) h;
          })
          (record {
            valid =
                claim_chunk-IsValid (world.now s.env) job w settings.chunk_size
                  settings.lease_ttl_seconds (world.locked s.env) before valid;
            evolves =
                claim_chunk-Evolves (world.now s.env) job w settings.chunk_size
                  settings.lease_ttl_seconds (world.locked s.env) before valid;
          })

    abbrev pub RunFollows : State → Option (RunEnd × State) → Type 0
    RunFollows s none = Unit
    RunFollows s (some (ended, s')) = Follows s.table s'.table
