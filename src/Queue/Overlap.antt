-- ===== src/Queue/Overlap.antt =====
-- No row is handed to two workers at once: not by a claim that runs while another holds its locks,
-- and not by a later claim before the lease has run out.
use batch_processing_system.Common.{
  ℕ, zero, suc, ◌+◌, ◌≤◌, String, List, [], ◌∷◌, map, Bool, true, false, ◌≡◌, refl, ap, ◌∙◌, arith,
  ◌==◌, ==_iff, take, All, select_where, update_where, contains, Bool-cases, inl, inr,
}
use batch_processing_system.Domain.{ClaimedItem}
use batch_processing_system.Queue.{
  PromptRow, Table, claim_row, claimed_item, claimed_ids, claim_chunk,
}
use batch_processing_system.Queue.Invariant.{IsValid, claim_chunk-IsValid}
use batch_processing_system.Queue.Claim.{
  first, by_id, limit_ids, unlocked_claimable, claim_chunk-eq-first,
}

abbrev pub item_ids : List ClaimedItem → List ℕ
item_ids = map (λ c. c.id)

ids_of_claim :
    (now : ℕ) (w : String) (lease : ℕ) (rs : List PromptRow)
    → item_ids (map claimed_item (map (claim_row now w lease) rs)) ≡ map (λ r. r.id) rs
ids_of_claim now w lease [] = refl
ids_of_claim now w lease (r ∷ rs) = ap (λ l. r.id ∷ l) (ids_of_claim now w lease rs)

first-eq-take :
    (ok : PromptRow → Bool) (n : ℕ) (rs : List PromptRow)
    → first ok n rs ≡ take n (select_where ok rs)
first-eq-take ok zero rs = refl
first-eq-take ok (suc n) [] = refl
first-eq-take ok (suc n) (r ∷ rs) = elim (Bool-cases (ok r)) [
  | inl hit ↦ rw hit (ap (λ l. r ∷ l) (first-eq-take ok n rs))
  | inr miss ↦ rw miss (first-eq-take ok (suc n) rs)
]

-- The items that a claim returns have the ids that it locked.
pub item_ids-claim_chunk :
    (now job : ℕ) (w : String) (size lease : ℕ) (locked : ℕ → Bool) (t : Table)
    → IsValid t
    → item_ids (claim_chunk now job w size lease locked t).0
      ≡ claimed_ids now job size locked t.rows
unfolding claimed_ids
item_ids-claim_chunk now job w size lease locked t h =
    let ok = unlocked_claimable now job locked in
    rw (claim_chunk-eq-first now job w size lease locked t h)
      (ids_of_claim now w lease (first ok size t.rows) ∙ rw (first-eq-take ok size t.rows))

-- A row that the ids in `held` name is not chosen where those rows do not pass.
other_id :
    (held : List ℕ) (a k : ℕ) (b : Bool)
    → contains held k ≡ true
    → (contains held a ≡ true → b ≡ false)
    → b ≡ true
    → (a == k) ≡ false
other_id held a k b m h hit = elim (Bool-cases (a == k)) [
  | inl same ↦ cc (h (rw ((==_iff a k).0 same) m), hit)
  | inr differ ↦ differ
]

barred :
    (ok : PromptRow → Bool) (held : List ℕ) (k n : ℕ) (rs : List PromptRow)
    → contains held k ≡ true
    → All (λ r. contains held r.id ≡ true → ok r ≡ false) rs
    → contains (limit_ids ok n rs) k ≡ false
barred ok held k zero rs m h = refl
barred ok held k (suc n) [] m h = refl
barred ok held k (suc n) (r ∷ rs) m h = elim (Bool-cases (ok r)) [
  | inl hit ↦ rw (hit, other_id held r.id k (ok r) m h.0 hit) (barred ok held k n rs m h.1)
  | inr miss ↦ rw miss (barred ok held k (suc n) rs m h.1)
]

-- A claimed row is not claimable before its lease has run out.
leased_not_claimable :
    (now now2 job : ℕ) (w : String) (lease : ℕ) (locked : ℕ → Bool) (r : PromptRow)
    → now2 ≤ now + lease
    → unlocked_claimable now2 job locked (claim_row now w lease r) ≡ false
leased_not_claimable now now2 job w lease locked r h = ground arith

barred_by_lease :
    (now now2 job2 : ℕ) (w : String) (lease : ℕ) (locked : ℕ → Bool) (held : List ℕ)
    → now2 ≤ now + lease
    → (rs : List PromptRow)
    → All
        (λ r. contains held r.id ≡ true → unlocked_claimable now2 job2 locked r ≡ false)
        (update_where (by_id held) (claim_row now w lease) rs)
barred_by_lease now now2 job2 w lease locked held h [] = tt
barred_by_lease now now2 job2 w lease locked held h (r ∷ rs) =
    let rest = barred_by_lease now now2 job2 w lease locked held h rs in
    elim (Bool-cases (contains held r.id)) [
      | inl hit ↦ rw hit ((λ _. leased_not_claimable now now2 job2 w lease locked r h), rest)
      | inr miss ↦ rw miss ((λ m. cc (m, miss)), rest)
    ]

barred_by_lock :
    (now job : ℕ) (locked : ℕ → Bool) (held : List ℕ)
    → ((k : ℕ) → contains held k ≡ true → locked k ≡ true)
    → (rs : List PromptRow)
    → All (λ r. contains held r.id ≡ true → unlocked_claimable now job locked r ≡ false) rs
barred_by_lock now job locked held h [] = tt
barred_by_lock now job locked held h (r ∷ rs) =
    ((λ m. rw (h r.id m) (ground arith)), barred_by_lock now job locked held h rs)

-- On the valid table that a claim leaves, a claim of any worker, for any job, at an instant that is
-- not past the end of the first claim's lease, returns no row that the first one returned.
pub claim_chunk_excludes_leased :
    (now now2 job job2 : ℕ) (w w2 : String) (size size2 lease lease2 : ℕ)
    (locked locked2 : ℕ → Bool) (t : Table)
    → IsValid t
    → now2 ≤ now + lease
    → (k : ℕ) → contains (item_ids (claim_chunk now job w size lease locked t).0) k ≡ true
    → contains
        (item_ids
          (claim_chunk now2 job2 w2 size2 lease2 locked2
            (claim_chunk now job w size lease locked t).1).0)
        k
      ≡ false
claim_chunk_excludes_leased now now2 job job2 w w2 size size2 lease lease2 locked locked2 t h le k
      m =
    let ids = claimed_ids now job size locked t.rows in
    rw
      (item_ids-claim_chunk now2 job2 w2 size2 lease2 locked2 _
        (claim_chunk-IsValid now job w size lease locked t h))
      (unfold claim_chunk claimed_ids in
        barred (unlocked_claimable now2 job2 locked2) ids k size2 _
          (rw (item_ids-claim_chunk now job w size lease locked t h) at m)
          (barred_by_lease now now2 job2 w lease locked2 ids le t.rows))

-- A claim that runs while another transaction holds the locks of its own claim on the same table
-- returns no row that the other one returned.
pub claim_chunk_skips_locked :
    (now now2 job job2 : ℕ) (w w2 : String) (size size2 lease lease2 : ℕ)
    (locked locked2 : ℕ → Bool) (t : Table)
    → IsValid t
    → ((k : ℕ)
        → contains (item_ids (claim_chunk now job w size lease locked t).0) k ≡ true
        → locked2 k ≡ true)
    → (k : ℕ) → contains (item_ids (claim_chunk now job w size lease locked t).0) k ≡ true
    → contains (item_ids (claim_chunk now2 job2 w2 size2 lease2 locked2 t).0) k ≡ false
claim_chunk_skips_locked now now2 job job2 w w2 size size2 lease lease2 locked locked2 t h held k
      m =
    let ids = item_ids (claim_chunk now job w size lease locked t).0 in
    rw (item_ids-claim_chunk now2 job2 w2 size2 lease2 locked2 t h) (
      unfold claimed_ids in
      barred (unlocked_claimable now2 job2 locked2) ids k size2 t.rows m
        (barred_by_lock now2 job2 locked2 ids held t.rows))
