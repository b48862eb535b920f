-- ===== src/Worker/Settled.antt =====
-- What the round of a worker that no other process disturbs makes of its chunk.
use batch_processing_system.Common.{
  ℕ, ◌+◌, String, Option, some, List, [], ◌∷◌, map, ◌≡◌, refl, ap, ◌∙◌, All, All-map_of,
}
use batch_processing_system.Domain.{ClaimedItem, ResultRecord}
use batch_processing_system.Config.{Settings}
use batch_processing_system.Row.{process_chunk}
use batch_processing_system.Row.Handled.{Closed, process_chunk-Handled}
use batch_processing_system.World.{World, StorageBackend, Event, beat, other}
use batch_processing_system.Worker.{
  RunState, RunEnd, finished, raised, Continue, on_end, during, flush_chunk, run_chunk,
}
use batch_processing_system.Worker.Safety.{Behaves, FinalEvent}
use batch_processing_system.Worker.Turn.{
  record_ids, IsBeat, beats, finish, complete_items-eq-map, during-eq-map,
}
use batch_processing_system.Worker.Round.{settle}

-- No other process runs transactions on the queue while the worker runs.
pub record Alone (world : World) : Type 0 where
  pub meanwhile : (s : world.State) → All IsBeat (world.meanwhile s)
  pub between : (s : world.State) → world.between s ≡ []

-- The storage backend raises no exception.
abbrev pub Writes : StorageBackend → Type 0
Writes storage =
    (job : ℕ) (id : String) (rs : List ResultRecord) (s : storage.Store)
    → (r : String × storage.Store) × (storage.write_chunk job id rs s ≡ some r)

IsBeat-FinalEvent : (e : Event) → IsBeat e → FinalEvent e
IsBeat-FinalEvent (beat now) h = tt
IsBeat-FinalEvent (other x) h = absurd h

pub Alone-Behaves : (world : World) → Alone world → Behaves world
Alone-Behaves world a = record {
  meanwhile =
      λ s. All-map_of IsBeat FinalEvent IsBeat-FinalEvent (world.meanwhile s) (a.meanwhile s);
  between = λ s. rw (a.between s) tt;
}

map-map {ℓ} :
    {A B C : Type ℓ} (g : B → C) (f : A → B) (xs : List A)
    → map g (map f xs) ≡ map (λ x. g (f x)) xs
map-map g f [] = refl
map-map g f (x ∷ xs) = ap (λ l. g (f x) ∷ l) (map-map g f xs)

module _ (world : World) (storage : StorageBackend) (settings : Settings) where
  abbrev pub State : Type 0
  State = RunState world storage

  -- How a round behind a claim ends: the results name the items of the chunk and are SUCCEEDED or
  -- FAILED, and every row is as `settle` makes it.
  pub record Settled (w : String) (chunk : List ClaimedItem) (s : State) (e : RunEnd × State)
      : Type 0 where
    pub now : ℕ
    pub ref : String
    pub es : List Event
    pub rs : List ResultRecord
    pub closed : All Closed rs
    pub named : record_ids rs ≡ map (λ i. i.external_id) chunk
    pub ended : e.0 ≡ finished
    pub rows : e.1.table.rows ≡ map (settle now settings.lease_ttl_seconds w ref es rs) s.table.rows

  flush_chunk-rows :
      (w : String) (rs : List ResultRecord) (written : Option (String × storage.Store)) (s : State)
      (r : String × storage.Store)
      → written ≡ some r
      → let e = flush_chunk world storage settings w rs written s in
        (e.0 ≡ finished) × (e.1.table.rows ≡ map (finish (world.now s.env) w r.0 rs) s.table.rows)
  flush_chunk-rows w rs written s (ref, store) h =
      rw h (refl, complete_items-eq-map (world.now s.env) w rs ref s.table)

  pub on_end_finished :
      (e : RunEnd × State) (next : Continue world storage settings)
      → e.0 ≡ finished
      → on_end world storage settings e next ≡ next e.1
  on_end_finished (finished, s) next h = refl
  on_end_finished (raised, s) next h = cc

  module _ (alone : Alone world) (writes : Writes storage) where
    pub run_chunk-Settled :
        (job : ℕ) (w : String) (chunk : List ClaimedItem) (s : State)
        → Settled w chunk s (run_chunk world storage settings job w chunk s)
    unfolding run_chunk settle
    run_chunk-Settled job w chunk s =
        let m = s.metrics in
        let (chunk_id, env) = world.new_id s.env in
        let (results, rs) =
          process_chunk world settings chunk
            (record { metrics = record m { chunks_claimed = m.chunks_claimed + 1 }; env = env }) in
        let es = world.meanwhile rs.env in
        let lease = settings.lease_ttl_seconds in
        let (r, wrote) = writes job chunk_id results s.store in
        let waited : State = record s {
          metrics = rs.metrics;
          env = rs.env;
          table = during world storage settings w es s.table;
        } in
        let (ended, rows) =
          flush_chunk-rows w results (storage.write_chunk job chunk_id results s.store) waited r
            wrote in
        record {
          now = world.now rs.env;
          ref = r.0;
          es = es;
          rs = results;
          closed = (process_chunk-Handled world settings chunk _).1;
          named = (process_chunk-Handled world settings chunk _).0;
          ended = ended;
          rows =
              rows
              ∙ ap (map (finish (world.now rs.env) w r.0 results))
                  (during-eq-map world storage settings w es s.table (alone.meanwhile rs.env))
              ∙ map-map (finish (world.now rs.env) w r.0 results) (beats w lease es) s.table.rows;
        }
