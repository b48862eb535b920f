-- ===== src/Pool/Choice.antt =====
-- The ids that the SELECT of a claim takes, and the rows that its UPDATE then finds.
use batch_processing_system.Common.{
  ℕ, zero, suc, ◌≤◌, ◌<◌, String, List, [], ◌∷◌, map, Bool, true, false, ◌≡◌, refl, sym, subst,
  if_ind, arith, eq_iff, All, All-map_of, All-zip, contains, select_where, exists_where, Bool-cases,
  inl, inr,
}
use batch_processing_system.Common.Text.{mentions}
use batch_processing_system.Domain.{ClaimedItem}
use batch_processing_system.Queue.{PromptRow, claim_row, claimed_item}
use batch_processing_system.Queue.Invariant.{Ascending}
use batch_processing_system.Queue.Claim.{limit_ids, ids_below, ids_hit, ids_miss}

Ascending-above :
    (lo next : ℕ) (rs : List PromptRow) → Ascending lo next rs → All (λ r. lo ≤ r.id) rs
Ascending-above lo next [] a = tt
Ascending-above lo next (r ∷ rs) a = (
  a.0,
  All-map_of (λ q. suc r.id ≤ q.id) (λ q. lo ≤ q.id) (λ q h. omega (arith, h, a.0)) rs
      (Ascending-above (suc r.id) next rs a.1),
)

module _ (ok : PromptRow → Bool) where
  -- A row whose id is chosen passed the test.
  pub chosen_passes :
      (n lo next : ℕ) (rs : List PromptRow)
      → Ascending lo next rs
      → All (λ r. contains (limit_ids ok n rs) r.id ≡ true → ok r ≡ true) rs
  chosen_passes n lo next [] a = tt
  chosen_passes zero lo next (r ∷ rs) a = ((λ c. cc), chosen_passes zero (suc r.id) next rs a.1)
  chosen_passes (suc n) lo next (r ∷ rs) a = elim (Bool-cases (ok r)) [
    | inl hit ↦
        subst (λ ids. All (λ q. contains ids q.id ≡ true → ok q ≡ true) (r ∷ rs))
          (sym (ids_hit ok n r rs hit))
          (
            (λ c. hit),
            All-zip (λ q. suc r.id ≤ q.id)
                (λ q. contains (limit_ids ok n rs) q.id ≡ true → ok q ≡ true)
                (λ q. contains (r.id ∷ limit_ids ok n rs) q.id ≡ true → ok q ≡ true)
                (λ q above passes c. passes (ground arith)) rs
                (Ascending-above (suc r.id) next rs a.1) (chosen_passes n (suc r.id) next rs a.1),
          )
    | inr miss ↦
        subst (λ ids. All (λ q. contains ids q.id ≡ true → ok q ≡ true) (r ∷ rs))
          (sym (ids_miss ok (suc n) r rs miss))
          (
            (λ c. let below = ids_below ok r.id (suc r.id) next (suc n) rs (omega arith) a.1 in cc),
            chosen_passes (suc n) (suc r.id) next rs a.1,
          )
  ]

  -- Where ids are chosen, their rows are there.
  pub chosen_there :
      (k : ℕ) (ids : List ℕ) (n : ℕ) (rs : List PromptRow)
      → limit_ids ok n rs ≡ k ∷ ids
      → exists_where (λ r. contains (k ∷ ids) r.id) rs ≡ true
  chosen_there k ids zero rs e = cc
  chosen_there k ids (suc n) [] e = cc
  chosen_there k ids (suc n) (r ∷ rs) e = elim (Bool-cases (ok r)) [
    | inl hit ↦
        let same : r.id ∷ limit_ids ok n rs ≡ k ∷ ids = rw (ids_hit ok n r rs hit) at e in
        let first_is : r.id ≡ k = cc in ground arith
    | inr miss ↦
        let rest = chosen_there k ids (suc n) rs (rw (ids_miss ok (suc n) r rs miss) at e) in
        ground arith
  ]

  -- Where no id is chosen, no row passed.
  pub none_chosen :
      (n : ℕ) (rs : List PromptRow) → 0 < n → limit_ids ok n rs ≡ [] → All (λ r. ok r ≡ false) rs
  none_chosen zero rs pos e = absurd (omega arith)
  none_chosen (suc n) [] pos e = tt
  none_chosen (suc n) (r ∷ rs) pos e = elim (Bool-cases (ok r)) [
    | inl hit ↦ cc (rw (ids_hit ok n r rs hit) at e)
    | inr miss ↦ (miss, none_chosen (suc n) rs pos (rw (ids_miss ok (suc n) r rs miss) at e))
  ]

-- What RETURNING gives for the chosen rows.
module _ (now lease : ℕ) (w : String) (chosen : PromptRow → Bool) where
  abbrev pub returned_items : List PromptRow → List ClaimedItem
  returned_items rs = map claimed_item (map (claim_row now w lease) (select_where chosen rs))

  pub returned_names :
      (rs : List PromptRow)
      → All
          (λ r.
            chosen r ≡ true
            → mentions (map (λ i. i.external_id) (returned_items rs)) r.external_id ≡ true)
          rs
  returned_names [] = tt
  returned_names (r ∷ rs) =
      let rest = select_where chosen rs in
      let names = λ (l : List PromptRow).
        map (λ (i : ClaimedItem). i.external_id)
          (map claimed_item (map (claim_row now w lease) l)) in
      if_ind (λ l. All (λ q. chosen q ≡ true → mentions (names l) q.external_id ≡ true) (r ∷ rs))
        (chosen r) (r ∷ rest) rest
        (λ hit. (
          (λ c. let self = (eq_iff r.external_id r.external_id).1 refl in ground arith),
          All-map_of (λ q. chosen q ≡ true → mentions (names rest) q.external_id ≡ true)
              (λ q. chosen q ≡ true → mentions (names (r ∷ rest)) q.external_id ≡ true)
              (λ q h c. let there = h c in ground arith) rs (returned_names rs),
        ))
        (λ miss. ((λ c. cc), returned_names rs))

  pub returned_some :
      (rs : List PromptRow)
      → exists_where chosen rs ≡ true
      → (i : ClaimedItem) × (items : List ClaimedItem) × (returned_items rs ≡ i ∷ items)
  returned_some [] h = cc
  returned_some (r ∷ rs) h = elim (Bool-cases (chosen r)) [
    | inl hit ↦ (claimed_item (claim_row now w lease r), returned_items rs, rw hit refl)
    | inr miss ↦ let rest = returned_some rs (rw miss at h) in (rest.0, rest.1, rw miss rest.2)
  ]
