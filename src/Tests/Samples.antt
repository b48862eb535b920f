-- ===== src/Tests/Samples.antt =====
-- A job of two rows, one of them finished by ingestion, and a quiet outside world.
use batch_processing_system.Common.{
  ℕ, ◌+◌, String, none, some, List, [], ◌∷◌, Bool, false, refl, arith,
}
use batch_processing_system.Domain.{ItemStatus, ClaimedItem, ResultRecord}
use batch_processing_system.Config.{no_metrics}
use batch_processing_system.Queue.{PromptRow, Table}
use batch_processing_system.Queue.Invariant.{IsValid}
use batch_processing_system.World.{World, StorageBackend, response}
use batch_processing_system.Worker.{RunState}
use batch_processing_system.Worker.Settled.{Alone, Writes}

abbrev pub row : ℕ → String → ItemStatus → PromptRow
row id name status = record {
  id = id;
  job_id = 7;
  external_id = name;
  prompt = some "hello";
  status = status;
  attempts = 0;
  worker_id = none;
  lease_until = none;
  chunk_id = none;
  result_ref = none;
  error = none;
  created_at = 0;
  updated_at = 0;
}

abbrev pub two_rows : Table
two_rows = record {
  rows = row 1 "a" ItemStatus.pending ∷ row 2 "b" ItemStatus.failed ∷ [];
  next_id = 3;
}

pub two_rows-IsValid : IsValid two_rows
two_rows-IsValid = record {
  ascending = omega arith;
  unique = (refl, (refl, tt));
  leased = ((λ c. cc), ((λ c. cc), tt));
}

-- A row that a crashed worker has left behind, with a lease up to 100.
abbrev pub orphan : PromptRow
orphan = record (row 1 "a" ItemStatus.claimed) { worker_id = some "dead"; lease_until = some 100 }

abbrev pub orphaned : Table
orphaned = record { rows = orphan ∷ []; next_id = 2 }

pub orphaned-IsValid : IsValid orphaned
orphaned-IsValid = record {
  ascending = omega arith;
  unique = (refl, tt);
  leased = ((λ c. ((λ e. cc), (λ e. cc))), tt);
}

abbrev pub nobody : ℕ → Bool
nobody k = false

-- An endpoint that answers every prompt; the database's clock stands at 10.
abbrev pub quiet : World
quiet = record {
  State = ℕ;
  complete = λ q s. (
    response (record { text = q.prompt; prompt_tokens = 1; completion_tokens = 1; latency_ms = 0 }),
    s + 1,
  );
  monotonic = λ s. s;
  sleep = λ attempt s. s;
  capture = λ s. s;
  now = λ s. 10;
  locked = λ s k. false;
  meanwhile = λ s. [];
  between = λ s. [];
  new_id = λ s. ("c1", s);
}

pub quiet-Alone : Alone quiet
quiet-Alone = record { meanwhile = λ s. tt; between = λ s. refl }

-- A storage that keeps all records in one list.
abbrev pub one_list : StorageBackend
one_list = record {
  Store = List ResultRecord;
  write_chunk = λ job id rs s. some ("c1", rs);
  iter_results = λ job s. some s;
}

pub one_list-Writes : Writes one_list
one_list-Writes job id rs s = (("c1", rs), refl)

abbrev pub started : Table → RunState quiet one_list
started t = record { metrics = no_metrics; env = 0; table = t; store = [] }

abbrev pub an_item : ClaimedItem
an_item = record { id = 1; external_id = "a"; prompt = "hello"; attempts = 1 }

abbrev pub a_result : ResultRecord
a_result = record {
  external_id = "a";
  status = ItemStatus.succeeded;
  response = some "hi";
  error = none;
  attempts = 1;
  latency_ms = some 5;
}
