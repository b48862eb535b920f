-- ===== src/Domain.antt =====
-- app/domain: the states of jobs and of work items (enums.py), the value objects that the layers
-- exchange (models.py) and the records of one inference call and of one row's result (results.py).
-- A UUID is its 128-bit value, an instant is a number of seconds of the database's clock.
use batch_processing_system.Common.{ℕ, String, Option, List, Bool, true, false}

pub data JobState : Type 0 where
  pending ingesting running completed failed : JobState

pub data ItemStatus : Type 0 where
  pending claimed succeeded failed : ItemStatus

-- A parsed JSON value that is no object of the input array. A number, and an array or an object
-- inside a row, is kept as the text that Python's `str` gives for it.
pub data Json : Type 0 where
  null : Json
  boolean : Bool → Json
  text : String → Json
  number nested : String → Json

abbrev pub JsonObject : Type 0
JsonObject = List (String × Json)

pub record PromptItem : Type 0 where
  pub external_id : String
  pub prompt : String

pub record ClaimedItem : Type 0 where
  pub id : ℕ
  pub external_id : String
  pub prompt : String
  pub attempts : ℕ

pub record SubmitJobRequest : Type 0 where
  pub input_path : String
  pub model : Option String
  pub config : JsonObject

pub record JobRecord : Type 0 where
  pub id : ℕ
  pub state : JobState
  pub input_path : String
  pub model : String
  pub total_items : ℕ
  pub config : JsonObject
  pub error : Option String
  pub created_at : Option ℕ
  pub updated_at : Option ℕ

pub record JobStatus : Type 0 where
  pub job_id : ℕ
  pub state : JobState
  pub total : ℕ
  pub pending : ℕ
  pub in_progress : ℕ
  pub succeeded : ℕ
  pub failed : ℕ
  pub created_at : ℕ
  pub updated_at : ℕ

pub record IngestSummary : Type 0 where
  pub total : ℕ
  pub accepted : ℕ
  pub rejected : ℕ

-- `temperature` and `top_p` keep their defaults in every request of the program.
pub record InferenceRequest : Type 0 where
  pub model : String
  pub prompt : String
  pub max_tokens : ℕ

pub record InferenceResponse : Type 0 where
  pub text : String
  pub prompt_tokens : ℕ
  pub completion_tokens : ℕ
  pub latency_ms : ℕ

pub record ResultRecord : Type 0 where
  pub external_id : String
  pub status : ItemStatus
  pub response : Option String
  pub error : Option String
  pub attempts : ℕ
  pub latency_ms : Option ℕ

abbrev pub is_pending : ItemStatus → Bool
is_pending ItemStatus.pending = true
is_pending _ = false

abbrev pub is_claimed : ItemStatus → Bool
is_claimed ItemStatus.claimed = true
is_claimed _ = false

abbrev pub is_succeeded : ItemStatus → Bool
is_succeeded ItemStatus.succeeded = true
is_succeeded _ = false

abbrev pub is_failed : ItemStatus → Bool
is_failed ItemStatus.failed = true
is_failed _ = false

-- Still to be finished: PENDING or CLAIMED.
abbrev pub is_open : ItemStatus → Bool
is_open ItemStatus.pending = true
is_open ItemStatus.claimed = true
is_open _ = false
