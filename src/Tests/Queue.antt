-- ===== src/Tests/Queue.antt =====
-- The theorems about the queue at small inputs.
use batch_processing_system.Common.{◌≡◌, refl, arith, List, [], ◌∷◌, map, true, false, contains}
use batch_processing_system.Queue.{claimed_item, claim_row, claim_chunk, complete_items}
use batch_processing_system.Queue.Invariant.{IsValid}
use batch_processing_system.Queue.Claim.{
  first, mark_first, unlocked_claimable, claim_chunk-eq-first,
}
use batch_processing_system.Queue.Overlap.{
  item_ids, claim_chunk_excludes_leased, claim_chunk_skips_locked,
}
use batch_processing_system.Queue.History.{
  Transaction, claims, finishes, renews, run_history, run_history-IsValid, complete_items_fenced,
}
use batch_processing_system.Tests.Samples.{two_rows, two_rows-IsValid, orphaned, nobody, a_result}

-- The pending row is claimed, and completed by the result that names it.
claims_one : item_ids (claim_chunk 10 7 "w" 50 120 nobody two_rows).0 ≡ 1 ∷ []
unfolding claim_chunk
claims_one = refl

completes_one :
    (complete_items 20 "w"
      (a_result ∷ [])
      "jobs/7/chunks/c1.jsonl"
      (claim_chunk 10 7 "w" 50 120 nobody two_rows).1).0
    ≡ 1
unfolding claim_chunk complete_items
completes_one = refl

claim_chunk-eq-first_example : claim_chunk 10 7 "w" 50 120 nobody two_rows ≡ (
  map claimed_item
      (map (claim_row 10 "w" 120) (first (unlocked_claimable 10 7 nobody) 50 two_rows.rows)),
  record two_rows {
    rows = mark_first (unlocked_claimable 10 7 nobody) (claim_row 10 "w" 120) 50 two_rows.rows;
  },
)
claim_chunk-eq-first_example = claim_chunk-eq-first 10 7 "w" 50 120 nobody two_rows two_rows-IsValid

claimed_one : contains (item_ids (claim_chunk 10 7 "w" 50 120 nobody two_rows).0) 1 ≡ true
unfolding claim_chunk
claimed_one = refl

claim_chunk_excludes_leased_example :
    contains
      (item_ids
        (claim_chunk 130 7 "v" 50 120 nobody (claim_chunk 10 7 "w" 50 120 nobody two_rows).1).0)
      1
    ≡ false
claim_chunk_excludes_leased_example =
    claim_chunk_excludes_leased 10 130 7 7 "w" "v" 50 50 120 120 nobody nobody two_rows
      two_rows-IsValid (omega arith) 1 claimed_one

claim_chunk_skips_locked_example :
    contains (item_ids (claim_chunk 10 7 "v" 50 120 (λ k. true) two_rows).0) 1 ≡ false
claim_chunk_skips_locked_example =
    claim_chunk_skips_locked 10 10 7 7 "w" "v" 50 50 120 120 nobody (λ k. true) two_rows
      two_rows-IsValid (λ k m. refl) 1 claimed_one

abbrev a_history : List Transaction
a_history =
    claims 10 7 "w" 50 120 nobody ∷ renews 20 "w" 120 ∷ finishes 30 "w" (a_result ∷ []) "c1" ∷ []

run_history-IsValid_example : IsValid (run_history a_history two_rows)
run_history-IsValid_example = run_history-IsValid a_history two_rows two_rows-IsValid

complete_items_fenced_example : complete_items 50 "w" (a_result ∷ []) "c1" orphaned ≡ (0, orphaned)
complete_items_fenced_example =
    complete_items_fenced 50 "w" (a_result ∷ []) "c1" orphaned (refl, tt)
