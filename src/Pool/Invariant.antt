-- ===== src/Pool/Invariant.antt =====
-- The invariant of a pool, and what a step of one worker owes it.
use batch_processing_system.Common.{
  ℕ, String, List, [], ◌∷◌, map, Bool, true, false, ◌≡◌, refl, arith, eq_iff, str_eq, All,
  All-map_of, All-zip, All-every, contains, exists_where, if_ind,
}
use batch_processing_system.Common.Text.{mentions}
use batch_processing_system.Domain.{ResultRecord, is_open, is_claimed}
use batch_processing_system.Config.{Settings}
use batch_processing_system.Queue.{PromptRow, Table, claim_row, of_job}
use batch_processing_system.Queue.Invariant.{IsValid}
use batch_processing_system.Queue.Lifecycle.{Later, Evolves, Evolves-refl, Evolves-trans}
use batch_processing_system.Row.Handled.{Closed}
use batch_processing_system.World.{World, StorageBackend}
use batch_processing_system.Pool.{
  Phase, asking, selecting, storing, completing, ids_of, move, of_member, Pool, start,
}
use batch_processing_system.Pool.Phases.{names_of, is_stopped, is_raised}
use batch_processing_system.Pool.Rows.{RowOk, RowOk-start, GoesOn, RowOk-move}

abbrev pub is_selecting : Phase → Bool
is_selecting (selecting now ids) = true
is_selecting _ = false

abbrev pub results_of : Phase → List ResultRecord
results_of (storing rs) = rs
results_of (completing rs ref) = rs
results_of _ = []

pub Evolves-map :
    (g : PromptRow → PromptRow) (rs : List PromptRow)
    → All (λ r. Later r (g r)) rs
    → Evolves rs (map g rs)
Evolves-map g [] h = tt
Evolves-map g (r ∷ rs) h = (h.0, Evolves-map g rs h.1)

-- An open row may be claimed.
pub Later-claims :
    (job now lease : ℕ) (w : String) (r : PromptRow)
    → of_job job is_open r ≡ true
    → Later r (claim_row now w lease r)
Later-claims job now lease w r h = record {
  id = refl;
  job_id = refl;
  external_id = refl;
  forward = ground (arith, h);
  final = λ c. ground (arith, h, c);
}

pub Later-self : (r : PromptRow) → Later r r
Later-self r = (Evolves-refl (r ∷ [])).0

pub exists-map :
    (ids : List ℕ) (g : PromptRow → PromptRow) (rs : List PromptRow)
    → ((r : PromptRow) → (g r).id ≡ r.id)
    → exists_where (λ r. contains ids r.id) rs ≡ true
    → exists_where (λ r. contains ids r.id) (map g rs) ≡ true
exists-map ids g [] k h = h
exists-map ids g (r ∷ rs) k h =
    let same = k r in let rest = exists-map ids g rs k in rw same (ground arith)

module _ (world : World) (storage : StorageBackend) (settings : Settings) (job : ℕ)
    (members : List String) where
  pub record Inv (first : Table) (s : Pool storage) : Type 0 where
    pub valid : IsValid s.table
    pub evolves : Evolves first.rows s.table.rows
    pub rows : All (RowOk job members s.phase) s.table.rows
    pub inside :
        (v : String) (k : ℕ) → contains (ids_of (s.phase v)) k ≡ true → mentions members v ≡ true
    pub there :
        (v : String)
        → is_selecting (s.phase v) ≡ true
        → exists_where (λ r. contains (ids_of (s.phase v)) r.id) s.table.rows ≡ true
    pub closed : (v : String) → All Closed (results_of (s.phase v))
    pub outside : (v : String) → mentions members v ≡ false → s.phase v ≡ asking

  pub start-Inv :
      (t : Table) (store : storage.Store)
      → IsValid t
      → All (λ r. of_job job is_claimed r ≡ true → of_member members r.worker_id ≡ false) t.rows
      → Inv t (start world storage settings job members t store)
  start-Inv t store valid strangers = record {
    valid = valid;
    evolves = Evolves-refl t.rows;
    rows = All-map_of _ _ (λ r h. RowOk-start job members r h) t.rows strangers;
    inside = λ v k c. cc;
    there = λ v c. cc;
    closed = λ v. tt;
    outside = λ v c. refl;
  }

  -- The part of the invariant about the mover's new phase.
  pub record Fits (rows : List PromptRow) (w : String) (p : Phase) : Type 0 where
    pub member : mentions members w ≡ true
    pub there : is_selecting p ≡ true → exists_where (λ r. contains (ids_of p) r.id) rows ≡ true
    pub closed : All Closed (results_of p)

  -- The table behind a step: valid, further on its way, with every row still there.
  pub record Onward (t u : Table) : Type 0 where
    pub valid : IsValid u
    pub evolves : Evolves t.rows u.rows
    pub there :
        (ids : List ℕ)
        → exists_where (λ r. contains ids r.id) t.rows ≡ true
        → exists_where (λ r. contains ids r.id) u.rows ≡ true

  pub Onward-refl : (t : Table) → IsValid t → Onward t t
  Onward-refl t valid = record { valid = valid; evolves = Evolves-refl t.rows; there = λ ids h. h }

  -- A step of one worker.
  pub moved :
      (first : Table) (s : Pool storage) (w : String) (p : Phase) (u : Table)
      (store : storage.Store)
      → Inv first s
      → Onward s.table u
      → Fits u.rows w p
      → All (RowOk job members (move s.phase w p)) u.rows
      → Inv first (record { phase = move s.phase w p; table = u; store = store })
  moved first s w p u store inv on fits rows = record {
    valid = on.valid;
    evolves = Evolves-trans first.rows s.table.rows u.rows inv.evolves on.evolves;
    rows = rows;
    inside = λ v k.
        if_ind (λ q. contains (ids_of q) k ≡ true → mentions members v ≡ true) (str_eq v w) p
          (s.phase v) (λ same c. rw ((eq_iff v w).0 same) fits.member)
          (λ different. inv.inside v k);
    there = λ v.
        if_ind
          (λ q. is_selecting q ≡ true → exists_where (λ r. contains (ids_of q) r.id) u.rows ≡ true)
          (str_eq v w) p (s.phase v) (λ same. fits.there)
          (λ different c. on.there (ids_of (s.phase v)) (inv.there v c));
    closed = λ v.
        if_ind (λ q. All Closed (results_of q)) (str_eq v w) p (s.phase v) (λ same. fits.closed)
          (λ different. inv.closed v);
    outside = λ v c.
        if_ind (λ q. q ≡ asking) (str_eq v w) p (s.phase v)
          (λ same.
            let e : v ≡ w = (eq_iff v w).0 same in let c' = rw e at c in let m = fits.member in cc)
          (λ different. inv.outside v c);
  }

  -- A worker that goes on over the same table.
  pub goes_on :
      (first : Table) (s : Pool storage) (w : String) (p : Phase) (store : storage.Store)
      → Inv first s
      → Fits s.table.rows w p
      → All (GoesOn job members s.phase w p) s.table.rows
      → Inv first (record { phase = move s.phase w p; table = s.table; store = store })
  goes_on first s w p store inv fits g =
      moved first s w p s.table store inv (Onward-refl s.table inv.valid) fits (
        All-zip (GoesOn job members s.phase w p) (RowOk job members s.phase)
          (RowOk job members (move s.phase w p)) (RowOk-move job members s.phase w p) s.table.rows g
          inv.rows)

  -- A worker whose names go on over the same table, and that holds no lock before or after.
  pub passes_on :
      (first : Table) (s : Pool storage) (w : String) (p : Phase) (store : storage.Store)
      → Inv first s
      → mentions members w ≡ true
      → All Closed (results_of p)
      → ids_of p ≡ []
      → is_selecting p ≡ false
      → is_stopped p ≡ false
      → ids_of (s.phase w) ≡ []
      → is_raised (s.phase w) ≡ false
      → names_of p ≡ names_of (s.phase w)
      → Inv first (record { phase = move s.phase w p; table = s.table; store = store })
  passes_on first s w p store inv member closed no_ids not_selecting not_stopped free calm same =
      goes_on first s w p store inv (record { member = member; there = λ c. cc; closed = closed })
        (All-every (GoesOn job members s.phase w p)
          (λ r. record {
            names = λ c. rw same c;
            locks = λ c. cc (rw no_ids at c);
            lets_go = rw free refl;
            stops = λ c. cc;
            calm = λ c. calm;
          })
          s.table.rows)
