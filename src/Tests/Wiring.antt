-- ===== src/Tests/Wiring.antt =====
-- The wiring of the services, the pool over the S3 storage and the log handlers at small inputs.
use batch_processing_system.Common.{none, [], ◌∷◌, ◌≡◌, ◌↔◌, ◌<◌, ◌⊎◌, refl, All, true, false}
use batch_processing_system.Domain.{is_succeeded}
use batch_processing_system.Config.{Settings, default_settings}
use batch_processing_system.Queue.{claimed_ids, of_job}
use batch_processing_system.Composition.{s3_storage, build_services, lower_is}
use batch_processing_system.Composition.Refusals.{UnknownBackend, build_services_raises}
use batch_processing_system.Composition.Spaces.{s3_pool_never_succeeds}
use batch_processing_system.Row.Gather.Sequence.{chunk-Gathers}
use batch_processing_system.Pool.{
  commit_claim, Pool, selects, commits, processes, raises, Reach, here, next, start,
}
use batch_processing_system.Tests.Samples.{quiet, two_rows, nobody}
use batch_processing_system.Tests.Pool.{team, dump_a, load_a, no_text, a_row_state}
use batch_processing_system.Tests.Edge.{whole}

abbrev in_capitals : Settings
in_capitals = record default_settings { storage_backend = "S3" }

-- The case of the letters does not count.
capitals_known : lower_is in_capitals.storage_backend "s3" ≡ true
unfolding lower_is
capitals_known = refl

build_services_raises_example :
    (build_services dump_a load_a no_text whole 1 2 30 true true in_capitals ≡ none)
    ↔ ((true ≡ false) ⊎ (UnknownBackend in_capitals ⊎ ((true ≡ false) ⊎ (10 < 1))))
build_services_raises_example =
    build_services_raises dump_a load_a no_text whole 1 2 30 true true in_capitals

abbrev s3_start : Pool s3_storage
s3_start = start quiet s3_storage default_settings 7 team two_rows tt

-- A worker claims a row, runs it, and is stopped by the storage's exception.
s3_run : (s : Pool s3_storage) × Reach quiet s3_storage default_settings 7 team s3_start s
unfolding claimed_ids commit_claim
s3_run =
    let r1 = next here (selects "w" 10 1 [] nobody refl refl ((λ c. cc), ((λ c. cc), tt)) refl) in
    let r2 = next r1 (commits "w" 10 (1 ∷ []) refl refl) in
    let r3 =
      next r2 (processes "w" _ _ refl refl (chunk-Gathers quiet default_settings _ a_row_state)) in
    (_, next r3 (raises "w" refl))

s3_pool_never_succeeds_example : All (λ r. of_job 7 is_succeeded r ≡ false) s3_run.0.table.rows
s3_pool_never_succeeds_example =
    s3_pool_never_succeeds quiet default_settings 7 team two_rows s3_run.0 (refl, (refl, tt))
      s3_run.1
