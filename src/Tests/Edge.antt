-- ===== src/Tests/Edge.antt =====
-- The storage's directory, the retry delays, the log lines and the middleware at small inputs.
use Prim.Native.Nat.{◌*◌}
use mathlib.Core.List.{Perm}
use batch_processing_system.Common.{
  ℕ, zero, suc, ◌+◌, ◌≤◌, none, some, List, [], ◌∷◌, map, ◌≡◌, refl, arith, All, if◌then◌else◌, leb,
}
use batch_processing_system.Common.Text.{strip}
use batch_processing_system.Queue.History.{claims, commit}
use batch_processing_system.Queue.Abstract.{Refines, commit-Refines}
use batch_processing_system.Retry.{Floats, FloatLaws, RetryPolicy, delay_for, delay_for_bounds}
use batch_processing_system.Logging.{Context, LogRecord, json_payload}
use batch_processing_system.Logging.Payload.{lookup, says, lookup-json_payload}
use batch_processing_system.Middleware.{Request, Handled, answers, HttpMetrics}
use batch_processing_system.Middleware.Counted.{serve_all, label, serve_all-counts}
use batch_processing_system.Storage.Lines.{Faithful}
use batch_processing_system.Storage.Directory.{local_iter}
use batch_processing_system.Storage.Directory.Gathered.{
  Chunk, gather, of, write_all, Readable, local_iter-write_all,
}
use batch_processing_system.Tests.Pool.{dump_a, load_a, no_text, the_result}
use batch_processing_system.Tests.Samples.{orphaned, orphaned-IsValid, nobody}
use batch_processing_system.Domain.{ResultRecord}

-- Two chunks of job 7, and one of job 8.
abbrev three_chunks : List Chunk
three_chunks =
    record { job = 7; id = "d2"; records = the_result ∷ [] }
    ∷ record { job = 8; id = "d2"; records = [] }
    ∷ record { job = 7; id = "c1"; records = the_result ∷ [] }
    ∷ []

one_Readable : All (Readable dump_a load_a no_text) three_chunks
unfolding strip
one_Readable =
    let ok : Faithful dump_a load_a the_result = record {
      loads = refl;
      one_line = (refl, (refl, tt));
      visible = refl;
    } in
    ((ok, tt), (tt, ((ok, tt), tt)))

local_iter-write_all_example :
    (rs : List ResultRecord) × (local_iter dump_a load_a no_text 7
        (write_all dump_a load_a no_text three_chunks [])
      ≡ some rs)
    × Perm rs (gather (of 7 three_chunks))
local_iter-write_all_example =
    local_iter-write_all dump_a load_a no_text 7 three_chunks (refl, (refl, (refl, tt)))
      one_Readable

-- Whole numbers in place of floats, and a generator that always draws the upper bound.
abbrev pub lower : ℕ → ℕ → ℕ
lower a b = if leb a b then a else b

abbrev pub powered : ℕ → ℕ → ℕ
powered f zero = 1
powered f (suc n) = f * powered f n

abbrev pub whole : Floats
whole = record {
  F = ℕ;
  zero_float = 0;
  times = λ a b. a * b;
  power = λ f n. some (powered f n);
  minimum = lower;
  Generator = ℕ;
  uniform = λ a b g. (b, g + 1);
  Le = λ a b. a ≤ b;
}

whole-FloatLaws : FloatLaws whole
whole-FloatLaws = record {
  trans = λ a b c h k. omega (arith, h, k);
  min_left = λ a b. ground arith;
  min_right = λ a b. ground arith;
  min_greatest = λ c a b h k. ground (arith, h, k);
  in_range = λ a b g h. (h, omega arith);
}

abbrev a_policy : RetryPolicy whole
a_policy = record { base = 1; factor = 2; cap = 30; max_attempts = 5; statuses = 429 ∷ [] }

delay_for_bounds_example :
    (d : ℕ) × (g' : ℕ) × (delay_for whole a_policy 3 0 ≡ some (d, g'))
    × (0 ≤ d)
    × (d ≤ 30)
    × (d ≤ 8)
delay_for_bounds_example =
    delay_for_bounds whole whole-FloatLaws a_policy 3 0 8 refl (omega arith) (omega arith)

abbrev a_context : Context
a_context = record { request_id = some "r1"; job_id = none; worker_id = some "w" }

abbrev a_line : LogRecord
a_line = record {
  ts = "2026-01-01T00:00:00";
  level = "ERROR";
  logger = "worker";
  message = "worker crashed";
  attributes = ("name", "worker") ∷ ("job_id", "7") ∷ [];
  exception = some "Traceback";
}

lookup-json_payload_example :
    lookup "job_id" (json_payload ("name" ∷ []) a_context a_line)
    ≡ says ("name" ∷ []) a_context a_line "job_id"
lookup-json_payload_example = lookup-json_payload ("name" ∷ []) a_context a_line "job_id"

abbrev a_call : Request
a_call = record { header = none; method = "GET"; route = some "/jobs/{job_id}"; path = "/jobs/7" }

abbrev ok_app : Request → Context → Handled
ok_app q ctx = answers (record { status_code = 200; headers = [] })

abbrev no_requests : HttpMetrics
no_requests = record { requests = []; latencies = [] }

serve_all-counts_example :
    (serve_all ok_app a_context ((a_call, "n1") ∷ (a_call, "n2") ∷ []) [] no_requests).1.requests
    ≡ map
        (label ok_app a_context)
        (serve_all ok_app a_context ((a_call, "n1") ∷ (a_call, "n2") ∷ []) [] no_requests).0
serve_all-counts_example =
    serve_all-counts ok_app a_context ((a_call, "n1") ∷ (a_call, "n2") ∷ []) [] no_requests refl

-- Behind the lease of a worker that crashed, another takes the row over.
commit-Refines_example :
    Refines "w" 200 orphaned.rows (commit (claims 200 7 "w" 5 120 nobody) orphaned).rows
commit-Refines_example = commit-Refines (claims 200 7 "w" 5 120 nobody) orphaned tt orphaned-IsValid
