-- ===== src/Lib.antt =====
-- A model of the batch processing system, an asynchronous batch evaluation engine, with proofs.
--
-- The program takes a JSON array of prompts, records it as a job, splits it into rows of a database
-- table that serves as a work queue, and has a pool of workers claim chunks of rows under a lease,
-- ask an inference endpoint for each, store the results and finish the rows.
--
-- The parts and their files, with paths from the repository's root:
--   Domain       app/domain/models.py, results.py, enums.py: the records and enums
--   Config       app/core/config.py, app/core/metrics.py: the settings, and the counters as a record
--   Queue        app/infrastructure/db/repositories/work_queue_repository.py, app/infrastructure/db/models.py:
--                bulk_insert, claim_chunk, complete_items, renew_lease, count_by_status, has_open_work
--                on a Table, which is the rows in the order of their ids and the next id; a history of
--                the transactions of app/interfaces/repositories.py is in Queue/History, and what the queue
--                promises, without its columns, in Queue/Abstract
--   Validation   app/services/validation/rules.py, pipeline.py, app/interfaces/validation.py and
--                build_validation_pipeline of app/composition.py
--   Jobs         app/infrastructure/db/repositories/job_repository.py: the table of jobs
--   Ingest       app/services/ingestor.py: to_item is _to_item, take_row the body of the loop of
--                ingest, close_ingest what stands behind the loop
--   World        app/interfaces/inference_client.py, app/interfaces/storage_backend.py: the endpoint,
--                the clock, other processes and the storage, as parameters
--   Row          app/engine/worker.py, _process_row and _process_chunk; over the mock client in
--                Row/Mocked; Row/Gather is _process_chunk with the calls of its rows side by side under
--                the limiter, where a call stands between two awaits
--   Worker       app/engine/worker.py, run and _heartbeat
--   Pool         app/engine/batch_engine.py and the workers that it starts, side by side: a state says
--                where each worker stands, one step moves one of them, and a claim is two steps with
--                its locks between them; rows that a crashed process has left CLAIMED are the abandoned
--                ones of Pool/Phases
--   Retry        app/engine/retry.py, over floats that are a parameter
--   Logging      app/core/logging.py: the correlation ids and the payload of a line; the handlers in
--                Logging/Setup
--   Middleware   app/api/middleware.py, with the request counters of app/core/metrics.py
--   Service      app/services/job_service.py, and behind the gather of app/engine/batch_engine.py
--   Api          app/api/routers/jobs.py with the exception handlers of app/main.py
--   Process      workers/run_worker.py with the run of app/engine/batch_engine.py, the resumption in the
--                lifespan of app/main.py, and app/core/observability.py over its SDK
--   Limiter      app/engine/concurrency.py
--   Inference    app/infrastructure/inference/mock_client.py, openai_client.py: complete
--   Storage      app/infrastructure/storage/local_storage.py: the text of one chunk in Storage, the
--                directory of a job's files in Storage/Directory, which fills the port of World
--   Composition  app/composition.py, app/infrastructure/storage/factory.py, s3_storage.py
--   Schema       app/infrastructure/db/migrations/versions/0001_initial.py
--   Tests        the theorems at concrete inputs
--
-- How they interact: Service validates and creates a job in Jobs and runs Ingest on it, which puts its
-- rows through Validation into Queue; then a pool of Workers claims chunks from Queue, runs each row
-- by Row over World, and completes the rows in Queue. The state is passed explicitly. Worker is one
-- worker's whole run, in which the transactions of others are given by the world; Pool is the workers
-- of one engine by single steps, and the results of a chunk are those of a run of Row/Gather.
-- Service takes the pool as a function, and Service/Completed takes one that ends as the steps of Pool
-- do. Pool/Stored takes what it needs of the storage as a record, which Storage/Directory/Durable fills.
--
-- Bounds and fuel. `worker_run` takes fuel for its `while True` and gives `none` where it runs out;
-- each round that claims rows finishes at least one, so more fuel than open rows is enough
-- (Worker/Outcome). Pool and Row/Gather are relations and have no fuel; the lengths of their runs
-- are the matter of Pool/Ends and Row/Gather/Ends. The attempts of a row recur on the attempts that are
-- left, of `retry_max_attempts`. `decimal n` takes n + 1 rounds, and each divides by ten. Numbers are
-- unbounded, as Python's are; the instants of the database and its leases are numbers of one unit.
--
-- What is not modelled: in Worker, the interleaving of the coroutines of one chunk, which asyncio.gather
-- runs together under the limiter (there the rows run one after the other, which Row/Gather/Sequence
-- compares with Row/Gather, and what other processes do in the meantime is given by the world); a task
-- that is cancelled at an await; the time of a retry's sleep in a row, which is the world's; the JSON
-- parser, which Ingest takes as the rows that it yields and the exception behind them; an exception of the
-- database, which Ingest has as a parameter for its insertions and its total and no other part has; the
-- order of the rows of a RETURNING clause, which is that of the ids here; the formatting of
-- exceptions as text; a disk that refuses a write; the download route, and what FastAPI and the SDK
-- of the endpoint do themselves; the SDK of the tracing service; the set-up of the
-- application and of the database session; and the scripts, which make sample data, demonstrations
-- and documents.
pub mod Common
pub mod Domain
pub mod Config
pub mod Queue
pub mod Validation
pub mod Schema
pub mod Jobs
pub mod Ingest
pub mod World
pub mod Limiter
pub mod Inference
pub mod Storage
pub mod Retry
pub mod Logging
pub mod Middleware
pub mod Row
pub mod Worker
pub mod Pool
pub mod Composition
pub mod Service
pub mod Api
pub mod Process
pub mod Tests
