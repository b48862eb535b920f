-- ===== src/Logging.antt =====
-- app/core/logging.py: the correlation ids, and the payload of a line in both formats. A dict is a list
-- of its keys and values in the order of insertion.
pub mod Payload
pub mod Setup
use batch_processing_system.Common.{
  String, Option, none, some, List, [], ◌∷◌, ◌++◌, map, Bool, true, false, ◌&&◌, not, str_eq,
  if◌then◌else◌,
}
use batch_processing_system.Common.Text.{codes, mentions, join, ◌<>◌}
use batch_processing_system.Inference.{is_prefix}

-- The three context variables.
pub record Context : Type 0 where
  pub request_id : Option String
  pub job_id : Option String
  pub worker_id : Option String

abbrev pub no_context : Context
no_context = record { request_id = none; job_id = none; worker_id = none }

abbrev pub set_request_id : Option String → Context → Context
set_request_id value ctx = record ctx { request_id = value }

abbrev pub set_job_id : Option String → Context → Context
set_job_id value ctx = record ctx { job_id = value }

abbrev pub set_worker_id : Option String → Context → Context
set_worker_id value ctx = record ctx { worker_id = value }

abbrev pub Dict : Type 0
Dict = List (String × String)

-- `payload[key] = value`: a key that is there keeps its place.
unfoldable pub set_key : String → String → Dict → Dict
set_key k v [] = (k, v) ∷ []
set_key k v ((j, w) ∷ d) = if str_eq j k then (k, v) ∷ d else (j, w) ∷ set_key k v d

-- `payload.update(…)`
unfoldable pub update : Dict → Dict → Dict
unfolding set_key
update d [] = d
update d ((k, v) ∷ more) = update (set_key k v d) more

abbrev pub optional : String → Option String → Dict
optional name none = []
optional name (some value) = (name, value) ∷ []

abbrev pub context_fields : Context → Dict
context_fields ctx =
    optional "request_id" ctx.request_id
    ++ (optional "job_id" ctx.job_id ++ optional "worker_id" ctx.worker_id)

-- A LogRecord, with the texts that the standard library makes of it: `attributes` is its __dict__.
pub record LogRecord : Type 0 where
  pub ts : String
  pub level : String
  pub logger : String
  pub message : String
  pub attributes : Dict
  pub exception : Option String

-- `key not in _RESERVED and not key.startswith("_")`; the standard attributes are a parameter.
pub is_extra : List String → String → Bool
is_extra reserved key = not (mentions reserved key) && not (is_prefix (codes "_") (codes key))

-- The loop over the attributes.
unfoldable pub add_extras : List String → Dict → Dict → Dict
unfolding set_key
add_extras reserved [] d = d
add_extras reserved ((k, v) ∷ more) d =
    add_extras reserved more (if is_extra reserved k then set_key k v d else d)

abbrev pub base_fields : LogRecord → Dict
base_fields r = ("ts", r.ts) ∷ ("level", r.level) ∷ ("logger", r.logger) ∷ ("msg", r.message) ∷ []

abbrev pub with_exception : Option String → Dict → Dict
with_exception none d = d
with_exception (some text) d = set_key "exception" text d

-- The payload of JsonFormatter.format, before json.dumps.
unfoldable pub json_payload : List String → Context → LogRecord → Dict
unfolding update add_extras set_key
json_payload reserved ctx r =
    with_exception r.exception
      (add_extras reserved r.attributes (update (base_fields r) (context_fields ctx)))

-- ConsoleFormatter.format, behind the line that the standard library makes.
abbrev pub shown : String × String → String
shown (k, v) = k <> ("=" <> v)

unfoldable pub console_line : Context → String → String
console_line ctx base = elim (context_fields ctx) as (λ _. String) [
  | [] ↦ base
  | f ∷ fs ↦ base <> (" " <> join " " (map shown (f ∷ fs)))
]
