-- ===== src/Worker/Turn.antt =====
-- What one round of a worker does to the rows of the queue: the rows of its chunk are finished, and
-- all others stay as they are.
use batch_processing_system.Common.{
  ℕ, ◌+◌, String, some, List, [], ◌∷◌, map, Bool, true, false, ◌≡◌, refl, ap, ◌∙◌, arith, All,
  update_where, if_ind, if◌then◌else◌,
}
use batch_processing_system.Common.Text.{mentions}
use batch_processing_system.Domain.{ResultRecord, is_open}
use batch_processing_system.Config.{Settings}
use batch_processing_system.Queue.{
  PromptRow, Table, completes, complete_row, complete_items, renew_lease,
}
use batch_processing_system.Queue.History.{held_by}
use batch_processing_system.Row.Handled.{Closed}
use batch_processing_system.World.{World, StorageBackend, Event, beat, other}
use batch_processing_system.Worker.{during}

abbrev pub record_ids : List ResultRecord → List String
record_ids = map (λ r. r.external_id)

-- complete_items, as it acts on one row.
unfoldable pub finish : ℕ → String → String → List ResultRecord → PromptRow → PromptRow
finish now w ref [] p = p
finish now w ref (v ∷ vs) p =
    finish now w ref vs (if completes w v p then complete_row now ref v p else p)

map-update {ℓ} :
    {A : Type ℓ} (g f : A → A) (p : A → Bool) (xs : List A)
    → map g (update_where p f xs) ≡ map (λ x. g (if p x then f x else x)) xs
map-update g f p [] = refl
map-update g f p (x ∷ xs) = ap (λ l. g (if p x then f x else x) ∷ l) (map-update g f p xs)

map_id {ℓ} : {A : Type ℓ} (xs : List A) → xs ≡ map (λ x. x) xs
map_id [] = refl
map_id (x ∷ xs) = ap (λ l. x ∷ l) (map_id xs)

pub complete_items-eq-map :
    (now : ℕ) (w : String) (rs : List ResultRecord) (ref : String) (t : Table)
    → (complete_items now w rs ref t).1.rows ≡ map (finish now w ref rs) t.rows
unfolding complete_items finish
complete_items-eq-map now w [] ref t = map_id t.rows
complete_items-eq-map now w (v ∷ rs) ref t =
    complete_items-eq-map now w rs ref _
    ∙ map-update (finish now w ref rs) (complete_row now ref v) (completes w v) t.rows

-- The keys of a row stay.
pub finish_keeps :
    (now : ℕ) (w ref : String) (rs : List ResultRecord) (p : PromptRow)
    → let q = finish now w ref rs p in
      (q.id ≡ p.id) × (q.job_id ≡ p.job_id) × (q.external_id ≡ p.external_id)
unfolding finish
finish_keeps now w ref [] p = (refl, refl, refl)
finish_keeps now w ref (v ∷ rs) p =
    if_ind
      (λ x.
        let q = finish now w ref rs x in
        (q.id ≡ p.id) × (q.job_id ≡ p.job_id) × (q.external_id ≡ p.external_id))
      (completes w v p) (complete_row now ref v p) p
      (λ hit. finish_keeps now w ref rs (complete_row now ref v p))
      (λ miss. finish_keeps now w ref rs p)

module _ (now : ℕ) (w ref : String) where
  -- A row that the worker does not hold is left alone.
  pub finish_skip :
      (rs : List ResultRecord) (p : PromptRow) → held_by w p ≡ false → finish now w ref rs p ≡ p
  unfolding finish
  finish_skip [] p h = refl
  finish_skip (v ∷ rs) p h =
      let miss : completes w v p ≡ false = ground arith in rw miss (finish_skip rs p h)

  -- A row that the worker holds and that the results name is finished.
  pub finish_done :
      (rs : List ResultRecord) (p : PromptRow)
      → held_by w p ≡ true
      → mentions (record_ids rs) p.external_id ≡ true
      → All Closed rs
      → let q = finish now w ref rs p in (q.job_id ≡ p.job_id) × (is_open q.status ≡ false)
  unfolding finish
  finish_done [] p h m c = cc
  finish_done (v ∷ rs) p h m c =
      if_ind
        (λ x. let q = finish now w ref rs x in (q.job_id ≡ p.job_id) × (is_open q.status ≡ false))
        (completes w v p) (complete_row now ref v p) p
        (λ hit. rw (finish_skip rs (complete_row now ref v p) (ground (arith, c.0))) (refl, c.0))
        (λ miss. finish_done rs p h (ground arith) c.1)

-- The rounds of the heartbeat, as they act on one row.
pub beats : String → ℕ → List Event → PromptRow → PromptRow
beats w lease [] p = p
beats w lease (beat now ∷ es) p =
    beats w lease es (if held_by w p then record p { lease_until = some (now + lease) } else p)
beats w lease (other x ∷ es) p = beats w lease es p

abbrev pub IsBeat : Event → Type 0
IsBeat (beat now) = Unit
IsBeat (other x) = ⊥

module _ (w : String) (lease : ℕ) where
  pub beats_skip : (es : List Event) (p : PromptRow) → held_by w p ≡ false → beats w lease es p ≡ p
  unfolding beats
  beats_skip [] p h = refl
  beats_skip (beat now ∷ es) p h = rw h (beats_skip es p h)
  beats_skip (other x ∷ es) p h = beats_skip es p h

  -- The heartbeat moves the leases of the worker's rows and nothing else.
  pub beats_keep :
      (es : List Event) (p : PromptRow)
      → let q = beats w lease es p in
        (q.job_id ≡ p.job_id)
        × (q.external_id ≡ p.external_id)
        × (q.status ≡ p.status)
        × (q.worker_id ≡ p.worker_id)
  unfolding beats
  beats_keep [] p = (refl, refl, refl, refl)
  beats_keep (beat now ∷ es) p =
      if_ind
        (λ x.
          let q = beats w lease es x in
          (q.job_id ≡ p.job_id)
          × (q.external_id ≡ p.external_id)
          × (q.status ≡ p.status)
          × (q.worker_id ≡ p.worker_id))
        (held_by w p) (record p { lease_until = some (now + lease) }) p
        (λ hit. beats_keep es (record p { lease_until = some (now + lease) }))
        (λ miss. beats_keep es p)
  beats_keep (other x ∷ es) p = beats_keep es p

pub during-eq-map :
    (world : World) (storage : StorageBackend) (settings : Settings) (w : String) (es : List Event)
    (t : Table)
    → All IsBeat es
    → (during world storage settings w es t).rows
      ≡ map (beats w settings.lease_ttl_seconds es) t.rows
unfolding during renew_lease beats
during-eq-map world storage settings w [] t h = map_id t.rows
during-eq-map world storage settings w (beat now ∷ es) t h =
    during-eq-map world storage settings w es _ h.1
    ∙ map-update (beats w settings.lease_ttl_seconds es)
        (λ r. record r { lease_until = some (now + settings.lease_ttl_seconds) }) (held_by w) t.rows
during-eq-map world storage settings w (other x ∷ es) t h = absurd h.0
