-- ===== src/Pool/Work.antt =====
-- What a worker does with the rows in its hands keeps the invariant.
use batch_processing_system.Common.{
  ℕ, ◌+◌, String, some, List, true, false, ◌≡◌, refl, sym, subst, All, All-map_of, All-zip, All-map,
  update_where-eq-map, contains, exists_where, if_ind, if◌then◌else◌,
}
use batch_processing_system.Common.Text.{mentions}
use batch_processing_system.Domain.{ClaimedItem, ResultRecord}
use batch_processing_system.Config.{Settings}
use batch_processing_system.Queue.{PromptRow, Table, complete_items, renew_lease}
use batch_processing_system.Queue.Invariant.{complete_items-IsValid, renew_lease-IsValid}
use batch_processing_system.Queue.Lifecycle.{
  Evolves-trans, complete_items-Evolves, renew_lease-Evolves,
}
use batch_processing_system.Queue.History.{held_by}
use batch_processing_system.Row.Handled.{Closed}
use batch_processing_system.World.{World, StorageBackend}
use batch_processing_system.Worker.Turn.{finish, finish_keeps, complete_items-eq-map}
use batch_processing_system.Row.Gather.{Gathers}
use batch_processing_system.Row.Gather.Results.{Gathers-names}
use batch_processing_system.Pool.{
  asking, working, storing, completing, raised, ids_of, move, Pool, put, Unblocked,
}
use batch_processing_system.Pool.Rows.{RowOk, locked, Same, RowOk-kept, RowOk-raises}
use batch_processing_system.Pool.Completion.{RowOk-completes}
use batch_processing_system.Pool.Invariant.{exists-map, Inv, Onward-refl, moved, passes_on}

module _ (world : World) (storage : StorageBackend) (settings : Settings) (job : ℕ)
    (members : List String) where
  pub renews-Inv :
      (first : Table) (s : Pool storage) (w : String) (now : ℕ)
      → Inv world storage settings job members first s
      → Inv world storage settings job members first
          (record s { table = renew_lease now w settings.lease_ttl_seconds s.table })
  unfolding renew_lease
  renews-Inv first s w now inv =
      let lease = settings.lease_ttl_seconds in
      let f = λ (r : PromptRow). record r { lease_until = some (now + lease) } in
      let g = λ (r : PromptRow). if held_by w r then f r else r in
      let as_map = update_where-eq-map (held_by w) f s.table.rows in
      record {
        valid = renew_lease-IsValid now w lease s.table inv.valid;
        evolves =
            Evolves-trans first.rows s.table.rows (renew_lease now w lease s.table).rows inv.evolves
              (renew_lease-Evolves now w lease s.table);
        rows = subst (All (RowOk job members s.phase)) (sym as_map) (
            All-map (RowOk job members s.phase) (RowOk job members s.phase) g
              (λ r. RowOk-kept job members s.phase r (g r) (
                if_ind (Same job members r) (held_by w r) (f r) r
                  (λ _. record {
                    id = refl;
                    job_id = refl;
                    external_id = refl;
                    status = refl;
                    worker_id = refl;
                  })
                  (λ _. record {
                    id = refl;
                    job_id = refl;
                    external_id = refl;
                    status = refl;
                    worker_id = refl;
                  })))
              s.table.rows inv.rows);
        inside = inv.inside;
        there = λ v c.
            subst (λ l. exists_where (λ r. contains (ids_of (s.phase v)) r.id) l ≡ true)
              (sym as_map)
              (exists-map (ids_of (s.phase v)) g s.table.rows
                (λ r. if_ind (λ q. q.id ≡ r.id) (held_by w r) (f r) r (λ _. refl) (λ _. refl))
                (inv.there v c));
        closed = inv.closed;
        outside = inv.outside;
      }

  pub processes-Inv :
      (first : Table) (s : Pool storage) (w : String) (items : List ClaimedItem)
      (rs : List ResultRecord)
      → mentions members w ≡ true
      → s.phase w ≡ working items
      → Gathers world settings items rs
      → Inv world storage settings job members first s
      → Inv world storage settings job members first
          (put world storage settings job members s w (storing rs))
  processes-Inv first s w items rs member stands g inv =
      let (same, closed) = Gathers-names world settings items rs g in
      passes_on world storage settings job members first s w (storing rs) s.store inv member closed
        refl refl refl (rw stands refl) (rw stands refl) (rw stands same)

  pub writes-Inv :
      (first : Table) (s : Pool storage) (w ref : String) (rs : List ResultRecord)
      (store : storage.Store)
      → mentions members w ≡ true
      → s.phase w ≡ storing rs
      → Inv world storage settings job members first s
      → Inv world storage settings job members first
          (record { phase = move s.phase w (completing rs ref); table = s.table; store = store })
  writes-Inv first s w ref rs store member stands inv =
      passes_on world storage settings job members first s w (completing rs ref) store inv member
        (rw stands at (inv.closed w)) refl refl refl (rw stands refl) (rw stands refl)
        (rw stands refl)

  pub completes-Inv :
      (first : Table) (s : Pool storage) (w ref : String) (now : ℕ) (rs : List ResultRecord)
      → mentions members w ≡ true
      → s.phase w ≡ completing rs ref
      → Unblocked world storage settings job members s w
      → Inv world storage settings job members first s
      → Inv world storage settings job members first (record {
        phase = move s.phase w asking;
        table = (complete_items now w rs ref s.table).1;
        store = s.store;
      })
  completes-Inv first s w ref now rs member stands unblocked inv =
      let u = (complete_items now w rs ref s.table).1 in
      let g = finish now w ref rs in
      let as_map = complete_items-eq-map now w rs ref s.table in
      let closed : All Closed rs = rw stands at (inv.closed w) in
      moved world storage settings job members first s w asking u s.store inv
        (record {
          valid = complete_items-IsValid now w rs ref s.table inv.valid;
          evolves = complete_items-Evolves now w rs ref s.table closed;
          there = λ js h.
              subst (λ l. exists_where (λ r. contains js r.id) l ≡ true) (sym as_map)
                (exists-map js g s.table.rows (λ r. (finish_keeps now w ref rs r).0) h);
        })
        (record { member = member; there = λ c. cc; closed = tt })
        (subst (All (RowOk job members (move s.phase w asking))) (sym as_map) (
          All-map
            (λ r.
              (held_by w r ≡ true → locked job members s.phase r.id ≡ false)
              × RowOk job members s.phase r)
            (RowOk job members (move s.phase w asking)) g
            (λ r both.
              RowOk-completes job members s.phase w ref now rs r member (λ v. inv.inside v r.id)
                stands closed both.0 both.1)
            s.table.rows
            (All-zip (λ r. held_by w r ≡ true → locked job members s.phase r.id ≡ false)
              (RowOk job members s.phase) _ (λ r n ok. (n, ok)) s.table.rows unblocked inv.rows)))

  pub raises-Inv :
      (first : Table) (s : Pool storage) (w : String)
      → mentions members w ≡ true
      → Inv world storage settings job members first s
      → Inv world storage settings job members first
          (put world storage settings job members s w (raised (s.phase w)))
  raises-Inv first s w member inv =
      moved world storage settings job members first s w (raised (s.phase w)) s.table s.store inv
        (Onward-refl world storage settings job members s.table inv.valid)
        (record { member = member; there = λ c. cc; closed = tt })
        (All-map_of (RowOk job members s.phase)
          (RowOk job members (move s.phase w (raised (s.phase w))))
          (RowOk-raises job members s.phase w) s.table.rows inv.rows)
