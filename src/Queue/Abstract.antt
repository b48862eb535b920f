-- ===== src/Queue/Abstract.antt =====
-- The queue as it is promised: items that are to do, leased to a worker until an instant, or done. A
-- transaction of a worker at an instant moves each item by one of a few rules, or leaves it.
use batch_processing_system.Common.{
  ℕ, zero, suc, ◌+◌, ◌<◌, String, Option, none, some, List, [], ◌∷◌, ◌++◌, map, Bool, true, false,
  ◌&&◌, ◌||◌, ◌≡◌, ◌≢◌, refl, sym, ap, subst, arith, eq_iff, All, All-append, All-map_of,
  update_where, exists_where, if_ind, Bool-cases, inl, inr,
}
use batch_processing_system.Domain.{
  ItemStatus, PromptItem, ClaimedItem, ResultRecord, is_open, is_pending, is_claimed,
}
use batch_processing_system.Queue.{
  PromptRow, Table, owned_by, InsertRow, new_row, insert_row, insert_rows, bulk_insert, claim_row,
  completes, complete_row, renew_lease, same_key, lease_expired, pending_row, failed_row,
}
use batch_processing_system.Queue.Invariant.{IsValid, Leased}
use batch_processing_system.Queue.Claim.{mark_first, unlocked_claimable, claim_chunk-eq-first}
use batch_processing_system.Queue.History.{
  Transaction, inserts, claims, finishes, renews, commit, Final, held_by,
}
use batch_processing_system.Worker.Turn.{finish as row_finish, finish_skip, complete_items-eq-map}

pub data Item : Type 0 where
  todo : Item
  leased : (w : String) (until : ℕ) → Item
  done : (succeeded : Bool) → Item

abbrev pub item : ItemStatus → Option String → Option ℕ → Item
item ItemStatus.pending w until = todo
item ItemStatus.claimed (some w) (some until) = leased w until
item ItemStatus.claimed _ _ = todo
item ItemStatus.succeeded w until = done true
item ItemStatus.failed w until = done false

abbrev pub view : PromptRow → Item
view r = item r.status r.worker_id r.lease_until

-- What one transaction of the worker `w` at the instant `now` may do to an item.
pub data Move (w : String) (now : ℕ) : Item → Item → Type 0 where
  stay : (i : Item) → Move w now i i
  take : (until : ℕ) → Move w now todo (leased w until)
  retake : (v : String) (old until : ℕ) → old < now → Move w now (leased v old) (leased w until)
  renew : (old until : ℕ) → Move w now (leased w old) (leased w until)
  finish : (until : ℕ) (succeeded : Bool) → Move w now (leased w until) (done succeeded)

-- A new item is to do, or done without success.
pub data Fresh : Item → Type 0 where
  new : Fresh todo
  refused : Fresh (done false)

abbrev pub Refines : String → ℕ → List PromptRow → List PromptRow → Type 0
Refines w now [] ss = All (λ s. Fresh (view s)) ss
Refines w now (r ∷ rs) [] = ⊥
Refines w now (r ∷ rs) (s ∷ ss) = Move w now (view r) (view s) × Refines w now rs ss

Refines-refl : (w : String) (now : ℕ) (rs : List PromptRow) → Refines w now rs rs
Refines-refl w now [] = tt
Refines-refl w now (r ∷ rs) = (stay (view r), Refines-refl w now rs)

Refines-append :
    (w : String) (now : ℕ) (rs ss new_rows : List PromptRow)
    → Refines w now rs ss
    → All (λ s. Fresh (view s)) new_rows
    → Refines w now rs (ss ++ new_rows)
Refines-append w now [] [] new_rows h f = f
Refines-append w now [] (s ∷ ss) new_rows h f = (h.0, Refines-append w now [] ss new_rows h.1 f)
Refines-append w now (r ∷ rs) [] new_rows h f = absurd h
Refines-append w now (r ∷ rs) (s ∷ ss) new_rows h f =
    (h.0, Refines-append w now rs ss new_rows h.1 f)

-- A claim.
claim-Move :
    (w : String) (now until : ℕ) (status : ItemStatus) (owner : Option String) (lease : Option ℕ)
    → (is_pending status || (is_claimed status && lease_expired now lease)) ≡ true
    → (is_claimed status ≡ true → (owner ≢ none) × (lease ≢ none))
    → Move w now (item status owner lease) (leased w until)
claim-Move w now until ItemStatus.pending owner lease h l = take until
claim-Move w now until ItemStatus.claimed (some v) (some old) h l =
    retake v old until (ground (arith, h))
claim-Move w now until ItemStatus.claimed (some v) none h l = cc
claim-Move w now until ItemStatus.claimed none lease h l = absurd ((l refl).0 refl)
claim-Move w now until ItemStatus.succeeded owner lease h l = cc
claim-Move w now until ItemStatus.failed owner lease h l = cc

module _ (now job : ℕ) (w : String) (lease : ℕ) (locked : ℕ → Bool) where
  mark-Refines :
      (n : ℕ) (rs : List PromptRow)
      → All Leased rs
      → Refines w now rs
          (mark_first (unlocked_claimable now job locked) (claim_row now w lease) n rs)
  mark-Refines zero rs l = Refines-refl w now rs
  mark-Refines (suc n) [] l = tt
  mark-Refines (suc n) (r ∷ rs) l = elim (Bool-cases (unlocked_claimable now job locked r)) [
    | inl hit ↦ rw hit (
      claim-Move w now (now + lease) r.status r.worker_id r.lease_until (ground (arith, hit)) l.0,
      mark-Refines n rs l.1,
    )
    | inr miss ↦ rw miss (stay (view r), mark-Refines (suc n) rs l.1)
  ]

-- An UPDATE that moves each row that it writes.
update-Refines :
    (w : String) (now : ℕ) (p : PromptRow → Bool) (f : PromptRow → PromptRow) (rs : List PromptRow)
    → All (λ r. p r ≡ true → Move w now (view r) (view (f r))) rs
    → Refines w now rs (update_where p f rs)
update-Refines w now p f [] h = tt
update-Refines w now p f (r ∷ rs) h = (
  if_ind (λ s. Move w now (view r) (view s)) (p r) (f r) r h.0 (λ _. stay (view r)),
  update-Refines w now p f rs h.1,
)

renew-Move :
    (w : String) (now until : ℕ) (status : ItemStatus) (owner : Option String) (lease : Option ℕ)
    → owner ≡ some w
    → is_claimed status ≡ true
    → lease ≢ none
    → Move w now (item status owner lease) (item status owner (some until))
renew-Move w now until ItemStatus.claimed (some v) (some old) e c l =
    let same : v ≡ w = cc in rw same (renew old until)
renew-Move w now until ItemStatus.claimed (some v) none e c l = absurd (l refl)
renew-Move w now until ItemStatus.claimed none lease e c l = cc
renew-Move w now until ItemStatus.pending owner lease e c l = cc
renew-Move w now until ItemStatus.succeeded owner lease e c l = cc
renew-Move w now until ItemStatus.failed owner lease e c l = cc

owner_of : (w : String) (r : PromptRow) → held_by w r ≡ true → r.worker_id ≡ some w
owner_of w r h = go r.worker_id (ground (arith, h))
  where
    go : (o : Option String) → owned_by w o ≡ true → o ≡ some w
    go none e = cc
    go (some v) e = ap some ((eq_iff v w).0 e)

finish-Move :
    (w : String) (now : ℕ) (status after : ItemStatus) (owner : Option String) (lease : Option ℕ)
    → owner ≡ some w
    → is_claimed status ≡ true
    → lease ≢ none
    → is_open after ≡ false
    → Move w now (item status owner lease) (item after owner lease)
finish-Move w now ItemStatus.claimed ItemStatus.succeeded (some v) (some old) e c l d =
    let same : v ≡ w = cc in rw same (finish old true)
finish-Move w now ItemStatus.claimed ItemStatus.failed (some v) (some old) e c l d =
    let same : v ≡ w = cc in rw same (finish old false)
finish-Move w now ItemStatus.claimed ItemStatus.pending owner lease e c l d = cc
finish-Move w now ItemStatus.claimed ItemStatus.claimed owner lease e c l d = cc
finish-Move w now ItemStatus.claimed ItemStatus.succeeded (some v) none e c l d = absurd (l refl)
finish-Move w now ItemStatus.claimed ItemStatus.failed (some v) none e c l d = absurd (l refl)
finish-Move w now ItemStatus.claimed ItemStatus.succeeded none lease e c l d = cc
finish-Move w now ItemStatus.claimed ItemStatus.failed none lease e c l d = cc
finish-Move w now ItemStatus.pending after owner lease e c l d = cc
finish-Move w now ItemStatus.succeeded after owner lease e c l d = cc
finish-Move w now ItemStatus.failed after owner lease e c l d = cc

finish-row-Move :
    (now : ℕ) (w ref : String) (rs : List ResultRecord) (r : PromptRow)
    → All (λ v. is_open v.status ≡ false) rs
    → Leased r
    → Move w now (view r) (view (row_finish now w ref rs r))
unfolding row_finish
finish-row-Move now w ref [] r closed l = stay (view r)
finish-row-Move now w ref (v ∷ rs) r closed l =
    if_ind (λ s. Move w now (view r) (view (row_finish now w ref rs s))) (completes w v r)
      (complete_row now ref v r) r
      (λ hit.
        let held : held_by w r ≡ true = ground (arith, hit) in
        let claimed : is_claimed r.status ≡ true = ground (arith, hit) in
        rw (finish_skip now w ref rs (complete_row now ref v r) (ground (arith, closed.0))) (
          finish-Move w now r.status v.status r.worker_id r.lease_until (owner_of w r held) claimed
            (l claimed).1 closed.0))
      (λ miss. finish-row-Move now w ref rs r closed.1 l)

map-Refines :
    (w : String) (now : ℕ) (g : PromptRow → PromptRow) (rs : List PromptRow)
    → All (λ r. Move w now (view r) (view (g r))) rs
    → Refines w now rs (map g rs)
map-Refines w now g [] h = tt
map-Refines w now g (r ∷ rs) h = (h.0, map-Refines w now g rs h.1)

-- An INSERT.
abbrev FreshRow : InsertRow → Type 0
FreshRow v = Fresh (item v.status none none)

FreshRow-items : (job : ℕ) (items : List PromptItem) → All FreshRow (map (pending_row job) items)
FreshRow-items job [] = tt
FreshRow-items job (i ∷ items) = (new, FreshRow-items job items)

FreshRow-failed : (job : ℕ) (rs : List ResultRecord) → All FreshRow (map (failed_row job) rs)
FreshRow-failed job [] = tt
FreshRow-failed job (r ∷ rs) = (refused, FreshRow-failed job rs)

insert_rows-Refines :
    (w : String) (now : ℕ) (vs : List InsertRow) (rs : List PromptRow) (t : Table)
    → All FreshRow vs
    → Refines w now rs t.rows
    → Refines w now rs (insert_rows now vs t).1.rows
unfolding insert_rows insert_row
insert_rows-Refines w now [] rs t f h = h
insert_rows-Refines w now (v ∷ vs) rs t f h =
    insert_rows-Refines w now vs rs (insert_row now v t) f.1 (
      if_ind (λ (u : Table). Refines w now rs u.rows)
        (exists_where (same_key v.job_id v.external_id) t.rows)
        (record t { next_id = t.next_id + 1 })
        (record t { rows = t.rows ++ new_row now t.next_id v ∷ []; next_id = t.next_id + 1 })
        (λ old. h)
        (λ fresh. Refines-append w now rs t.rows (new_row now t.next_id v ∷ []) h (f.0, tt)))

-- Who runs a transaction, and when. The ingestion moves no item: it has no worker's name.
abbrev pub actor : Transaction → String
actor (inserts now job items failed) = ""
actor (claims now job w size lease locked) = w
actor (finishes now w results ref) = w
actor (renews now w lease) = w

abbrev pub instant : Transaction → ℕ
instant (inserts now job items failed) = now
instant (claims now job w size lease locked) = now
instant (finishes now w results ref) = now
instant (renews now w lease) = now

-- Every transaction on a valid table whose results are SUCCEEDED or FAILED refines the promise of the
-- queue: each item stays, or is taken from to do, or taken over when its lease has run out before that
-- instant, or renewed or finished by the worker that holds its lease; new items are to do, or failed.
pub commit-Refines :
    (x : Transaction) (t : Table)
    → Final x
    → IsValid t
    → Refines (actor x) (instant x) t.rows (commit x t).rows
unfolding bulk_insert renew_lease
commit-Refines (inserts now job items failed) t f h =
    insert_rows-Refines "" now (map (pending_row job) items ++ map (failed_row job) failed) t.rows t
      (All-append FreshRow (map (pending_row job) items) (map (failed_row job) failed)
        (FreshRow-items job items) (FreshRow-failed job failed))
      (Refines-refl "" now t.rows)
commit-Refines (claims now job w size lease locked) t f h =
    subst (λ (c : List ClaimedItem × Table). Refines w now t.rows c.1.rows)
      (sym (claim_chunk-eq-first now job w size lease locked t h))
      (mark-Refines now job w lease locked size t.rows h.leased)
commit-Refines (finishes now w results ref) t f h =
    subst (Refines w now t.rows) (sym (complete_items-eq-map now w results ref t)) (
      map-Refines w now (row_finish now w ref results) t.rows (
        All-map_of Leased (λ r. Move w now (view r) (view (row_finish now w ref results r)))
          (λ r l. finish-row-Move now w ref results r f l) t.rows h.leased))
commit-Refines (renews now w lease) t f h =
    update-Refines w now (held_by w) (λ r. record r { lease_until = some (now + lease) }) t.rows
      (All-map_of Leased
        (λ r.
          held_by w r ≡ true → Move w now (view r) (item r.status r.worker_id (some (now + lease))))
        (λ r l held.
          let claimed : is_claimed r.status ≡ true = ground (arith, held) in
          renew-Move w now (now + lease) r.status r.worker_id r.lease_until (owner_of w r held)
            claimed (l claimed).1)
        t.rows h.leased)
