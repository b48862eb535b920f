-- ===== src/Pool/Claims.antt =====
-- A worker's claim keeps the invariant: the SELECT, empty or not, and the UPDATE behind it.
use batch_processing_system.Common.{
  ℕ, ◌<◌, String, List, [], ◌∷◌, map, Bool, true, false, ◌||◌, ◌&&◌, ◌≡◌, refl, sym, ap, subst,
  arith, All, All-map_of, All-zip, All-map, update_where-eq-map, contains, exists_where,
  update_where, if_ind, if◌then◌else◌,
}
use batch_processing_system.Common.Text.{mentions}
use batch_processing_system.Domain.{ClaimedItem, is_claimed}
use batch_processing_system.Config.{Settings}
use batch_processing_system.Queue.{PromptRow, Table, lease_expired, claim_row, claimed_ids}
use batch_processing_system.Queue.Invariant.{update-IsValid}
use batch_processing_system.Queue.Claim.{limit_ids, unlocked_claimable}
use batch_processing_system.Queue.Lifecycle.{Later, Evolves}
use batch_processing_system.World.{World, StorageBackend}
use batch_processing_system.Pool.{
  asking, stopped, selecting, working, move, commit_claim, after_claim, of_member, Pool, put,
  InUpdate, candidates,
}
use batch_processing_system.Pool.Phases.{names_of, abandoned, is_raised}
use batch_processing_system.Pool.Choice.{
  chosen_passes, chosen_there, none_chosen, returned_names, returned_some,
}
use batch_processing_system.Pool.Rows.{RowOk, locked, RowOk-claims}
use batch_processing_system.Pool.Invariant.{
  is_selecting, Evolves-map, Later-claims, Later-self, exists-map, Inv, moved, goes_on,
}

-- The lease of each abandoned row has run out.
abbrev pub AbandonedExpired : ℕ → List String → ℕ → List PromptRow → Type 0
AbandonedExpired job members now rows =
    All (λ r. abandoned job members r ≡ true → lease_expired now r.lease_until ≡ true) rows

module _ (world : World) (storage : StorageBackend) (settings : Settings) (job : ℕ)
    (members : List String) where
  pub finds_nothing-Inv :
      (first : Table) (s : Pool storage) (w : String) (now : ℕ) (busy : ℕ → Bool)
      → 0 < settings.chunk_size
      → mentions members w ≡ true
      → s.phase w ≡ asking
      → InUpdate world storage settings job members s busy
      → candidates world storage settings job members s now busy ≡ []
      → AbandonedExpired job members now s.table.rows
      → Inv world storage settings job members first s
      → Inv world storage settings job members first
          (put world storage settings job members s w stopped)
  unfolding claimed_ids
  finds_nothing-Inv first s w now busy pos member stands only no_ids expired inv =
      goes_on world storage settings job members first s w stopped s.store inv
        (record { member = member; there = λ c. cc; closed = tt })
        (All-zip
          (λ r. unlocked_claimable now job (λ k. locked job members s.phase k || busy k) r ≡ false)
          (λ r.
            (busy r.id ≡ true → is_claimed r.status && of_member members r.worker_id ≡ true)
            × (abandoned job members r ≡ true → lease_expired now r.lease_until ≡ true))
          _
          (λ r fails both. record {
            names = λ c. cc (rw stands at c);
            locks = λ c. cc;
            lets_go = rw stands refl;
            stops = λ c calm waits.
                let updated = both.0 in
                let late = both.1 in ground (arith, fails, waits, updated, late);
            calm = λ c. ap is_raised stands;
          })
          s.table.rows
          (none_chosen (unlocked_claimable now job (λ k. locked job members s.phase k || busy k))
            settings.chunk_size s.table.rows pos no_ids)
          (All-zip _ _ _ (λ r u l. (u, l)) s.table.rows only expired))

  pub selects-Inv :
      (first : Table) (s : Pool storage) (w : String) (now k : ℕ) (ids : List ℕ) (busy : ℕ → Bool)
      → mentions members w ≡ true
      → s.phase w ≡ asking
      → candidates world storage settings job members s now busy ≡ k ∷ ids
      → Inv world storage settings job members first s
      → Inv world storage settings job members first
          (put world storage settings job members s w (selecting now (k ∷ ids)))
  unfolding claimed_ids
  selects-Inv first s w now k ids busy member stands chose inv =
      let ok = unlocked_claimable now job (λ k. locked job members s.phase k || busy k) in
      goes_on world storage settings job members first s w (selecting now (k ∷ ids)) s.store inv
        (record {
          member = member;
          there = λ c. chosen_there ok k ids settings.chunk_size s.table.rows chose;
          closed = tt;
        })
        (All-map_of
          (λ r. contains (limit_ids ok settings.chunk_size s.table.rows) r.id ≡ true → ok r ≡ true)
          _
          (λ r passes. record {
            names = λ c. cc (rw stands at c);
            locks = λ c. let hit = passes (rw chose c) in ground (arith, hit);
            lets_go = rw stands refl;
            stops = λ c. cc;
            calm = λ c. ap is_raised stands;
          })
          s.table.rows
          (chosen_passes ok settings.chunk_size 0 s.table.next_id s.table.rows inv.valid.ascending))

  pub commits-Inv :
      (first : Table) (s : Pool storage) (w : String) (now at : ℕ) (ids : List ℕ)
      → mentions members w ≡ true
      → s.phase w ≡ selecting now ids
      → Inv world storage settings job members first s
      → let (items, u) = commit_claim at w settings.lease_ttl_seconds ids s.table in
        Inv world storage settings job members first
          (record { phase = move s.phase w (after_claim items); table = u; store = s.store })
  unfolding commit_claim
  commits-Inv first s w now at ids member stands inv =
      let lease = settings.lease_ttl_seconds in
      let chosen = λ (r : PromptRow). contains ids r.id in
      let g = λ (r : PromptRow). if chosen r then claim_row at w lease r else r in
      let found : exists_where chosen s.table.rows ≡ true =
        rw stands at (inv.there w (ap is_selecting stands)) in
      let (i, items, some_items) = returned_some at lease w chosen s.table.rows found in
      let as_map = update_where-eq-map chosen (claim_row at w lease) s.table.rows in
      let u : Table = record s.table {
        rows = update_where chosen (claim_row at w lease) s.table.rows;
      } in
      let names : All
          (λ r. chosen r ≡ true → mentions (names_of (working (i ∷ items))) r.external_id ≡ true)
          s.table.rows =
        subst
          (λ (l : List ClaimedItem).
            All
              (λ (r : PromptRow).
                chosen r ≡ true
                → mentions (map (λ (j : ClaimedItem). j.external_id) l) r.external_id ≡ true)
              s.table.rows)
          some_items (returned_names at lease w chosen s.table.rows) in
      subst
        (λ (l : List ClaimedItem).
          Inv world storage settings job members first
            (record { phase = move s.phase w (after_claim l); table = u; store = s.store }))
        (sym some_items)
        (moved world storage settings job members first s w (working (i ∷ items)) u s.store inv
          (record {
            valid =
                update-IsValid chosen (claim_row at w lease) (λ r. (refl, refl, refl))
                  (λ r hit l c. ((λ e. cc), (λ e. cc))) s.table inv.valid;
            evolves = subst (Evolves s.table.rows) (sym as_map) (
                Evolves-map g s.table.rows (
                  All-map_of (RowOk job members s.phase) (λ r. Later r (g r))
                    (λ r ok.
                      if_ind (Later r) (chosen r) (claim_row at w lease r) r
                        (λ hit. Later-claims job at lease w r (ok.selected w (rw stands hit)))
                        (λ miss. Later-self r))
                    s.table.rows inv.rows));
            there = λ js h.
                subst (λ l. exists_where (λ r. contains js r.id) l ≡ true) (sym as_map)
                  (exists-map js g s.table.rows
                    (λ r.
                      if_ind (λ q. q.id ≡ r.id) (chosen r) (claim_row at w lease r) r (λ _. refl)
                        (λ _. refl))
                    h);
          })
          (record { member = member; there = λ c. cc; closed = tt })
          (subst (All (RowOk job members (move s.phase w (working (i ∷ items))))) (sym as_map) (
            All-map
              (λ r.
                (chosen r ≡ true → mentions (names_of (working (i ∷ items))) r.external_id ≡ true)
                × RowOk job members s.phase r)
              (RowOk job members (move s.phase w (working (i ∷ items)))) g
              (λ r both.
                RowOk-claims job members s.phase w now at lease ids i items r member stands both.0
                  both.1)
              s.table.rows
              (All-zip
                (λ r.
                  chosen r ≡ true → mentions (names_of (working (i ∷ items))) r.external_id ≡ true)
                (RowOk job members s.phase) _ (λ r n ok. (n, ok)) s.table.rows names inv.rows))))
