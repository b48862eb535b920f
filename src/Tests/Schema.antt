-- ===== src/Tests/Schema.antt =====
-- The migration on a database that has one table, and the mock client in a worker.
use batch_processing_system.Common.{none, some, List, [], ◌∷◌, map, ◌≡◌, refl, arith, false}
use batch_processing_system.Domain.{ClaimedItem}
use batch_processing_system.Config.{default_settings, no_metrics}
use batch_processing_system.Inference.{MockClient, seen_count}
use batch_processing_system.Row.{RowState, process_chunk}
use batch_processing_system.Row.Mocked.{
  mocked, outcome, mock_outcome, Bounded, mock_failures_absorbed,
}
use batch_processing_system.Schema.{Schema, text, column, upgrade, downgrade}
use batch_processing_system.Schema.Reverts.{Free, upgraded, downgrade-upgrade}
use batch_processing_system.World.{World}
use batch_processing_system.Tests.Samples.{quiet, an_item}

abbrev one_table : Schema
one_table = record {
  tables =
      record {
        name = "alembic_version";
        columns = column "version_num" text false none ∷ [];
        unique = [];
      }
      ∷ [];
  indexes = [];
}

one_table-Free : Free one_table
one_table-Free = record {
  no_jobs = refl;
  no_items = refl;
  no_index = refl;
  none_on_jobs = refl;
  none_on_items = refl;
  none_to_jobs = refl;
  none_to_items = refl;
}

downgrade-upgrade_example :
    (upgrade one_table ≡ some (upgraded one_table))
    × (upgrade (upgraded one_table) ≡ none)
    × (downgrade (upgraded one_table) ≡ some one_table)
downgrade-upgrade_example = downgrade-upgrade one_table one_table-Free

-- Two transient failures for each prompt, and a failure for good on "bad".
abbrev a_mock : MockClient
a_mock = record { fail_substring = some "bad"; transient_fail = 2; latency_ms = 1 }

abbrev mock_world : World
mock_world = mocked a_mock quiet (λ s. s)

abbrev three_items : List ClaimedItem
three_items =
    an_item
    ∷ record an_item { id = 2; external_id = "b"; prompt = "a bad prompt" }
    ∷ record an_item { id = 3; external_id = "c" }
    ∷ []

abbrev at_first : RowState mock_world
at_first = record { metrics = no_metrics; env = (0, []) }

none_seen : Bounded a_mock []
unfolding seen_count
none_seen p = omega arith

mock_failures_absorbed_example :
    map outcome (process_chunk mock_world default_settings three_items at_first).0
    ≡ map (mock_outcome a_mock) three_items
mock_failures_absorbed_example =
    mock_failures_absorbed a_mock quiet (λ s. s) default_settings three_items at_first (omega arith)
      none_seen
