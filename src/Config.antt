-- ===== src/Config.antt =====
-- app/core/config.py: the settings that the modelled code reads, and app/core/metrics.py: the
-- counters that it moves. A counter with a label is one number for each value of the label; the
-- program uses one model name, so the label `model` is left out.
use batch_processing_system.Common.{ℕ, String, Bool, true, List, []}

pub record Settings : Type 0 where
  pub llm_model : String
  pub worker_pool_size : ℕ
  pub max_concurrency : ℕ
  pub chunk_size : ℕ
  pub retry_max_attempts : ℕ
  pub lease_ttl_seconds : ℕ
  pub heartbeat_seconds : ℕ
  pub storage_backend : String
  pub log_level : String
  pub log_format : String
  pub log_file : String
  pub log_file_max_bytes : ℕ
  pub log_file_backup_count : ℕ
  pub max_items_per_batch : ℕ
  pub max_prompt_tokens : ℕ
  pub max_output_tokens : ℕ
  pub min_prompt_chars : ℕ
  pub reject_duplicate_ids : Bool

-- The defaults of the class.
abbrev pub default_settings : Settings
default_settings = record {
  llm_model = "llama3-8b-instruct";
  worker_pool_size = 4;
  max_concurrency = 10;
  chunk_size = 50;
  retry_max_attempts = 5;
  lease_ttl_seconds = 120;
  heartbeat_seconds = 30;
  storage_backend = "local";
  log_level = "INFO";
  log_format = "json";
  log_file = "";
  log_file_max_bytes = 10_000_000;
  log_file_backup_count = 5;
  max_items_per_batch = 200_000;
  max_prompt_tokens = 120_000;
  max_output_tokens = 2048;
  min_prompt_chars = 1;
  reject_duplicate_ids = true;
}

pub record Metrics : Type 0 where
  pub jobs_submitted : ℕ
  pub jobs_completed : ℕ  -- state="COMPLETED"
  pub jobs_failed : ℕ  -- state="FAILED"
  pub ingest_accepted : ℕ
  pub ingest_rejected : ℕ
  pub items_succeeded : ℕ
  pub items_failed : ℕ
  pub chunks_claimed : ℕ
  pub inflight : ℕ
  pub requests_success : ℕ
  pub requests_retryable_error : ℕ
  pub requests_permanent_error : ℕ
  pub requests_unexpected : ℕ
  pub inference_latency : List ℕ  -- the observed times, in microseconds
  pub inference_retries : ℕ

abbrev pub no_metrics : Metrics
no_metrics = record {
  jobs_submitted = 0;
  jobs_completed = 0;
  jobs_failed = 0;
  ingest_accepted = 0;
  ingest_rejected = 0;
  items_succeeded = 0;
  items_failed = 0;
  chunks_claimed = 0;
  inflight = 0;
  requests_success = 0;
  requests_retryable_error = 0;
  requests_permanent_error = 0;
  requests_unexpected = 0;
  inference_latency = [];
  inference_retries = 0;
}
