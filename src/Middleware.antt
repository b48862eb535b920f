-- ===== src/Middleware.antt =====
-- app/api/middleware.py: ObservabilityMiddleware. How the application answers a request is an argument,
-- `Handled`; the clock is left out, so the latencies are counted by their labels and have no values.
pub mod Counted
use batch_processing_system.Common.{
  ℕ, String, Option, none, some, List, [], ◌∷◌, Bool, str_eq, if◌then◌else◌,
}
use batch_processing_system.Common.Text.{decimal}
use batch_processing_system.Logging.{Context, Dict, set_request_id, set_key}

-- A request: its header x-request-id, its method, the template of its route, if one matched, and its
-- path.
pub record Request : Type 0 where
  pub header : Option String
  pub method : String
  pub route : Option String
  pub path : String

pub record Response : Type 0 where
  pub status_code : ℕ
  pub headers : Dict

pub data Handled : Type 0 where
  answers : Response → Handled
  fails : String → Handled

-- HTTP_REQUESTS by the labels of each `inc`, and HTTP_LATENCY by those of each `observe`.
pub record HttpMetrics : Type 0 where
  pub requests : List (String × String × String)
  pub latencies : List (String × String)

abbrev pub route_template : Request → String
route_template q = elim q.route as (λ _. String) [ none ↦ q.path | some template ↦ template ]

-- `request.headers.get("x-request-id") or uuid4().hex`
abbrev pub id_or_new : Option String → String → String
id_or_new none new_id = new_id
id_or_new (some header) new_id = if str_eq header "" then new_id else header

abbrev pub count_request : Request → String → HttpMetrics → HttpMetrics
count_request q status m = record {
  requests = (q.method, route_template q, status) ∷ m.requests;
  latencies = (q.method, route_template q) ∷ m.latencies;
}

-- Behind call_next.
abbrev pub finish_request : String → Request → Handled → HttpMetrics → Handled × HttpMetrics
finish_request request_id q (fails e) m = (fails e, count_request q "500" m)
finish_request request_id q (answers r) m = (
  answers (record r { headers = set_key "x-request-id" request_id r.headers }),
  count_request q (decimal r.status_code) m,
)

-- `app` is call_next, which sees the request in the new context.
unfoldable pub dispatch :
    (Request → Context → Handled) → String → Request → Context → HttpMetrics → Handled × HttpMetrics
unfolding set_key
dispatch app new_id q ctx m =
    let request_id = id_or_new q.header new_id in
    finish_request request_id q (app q (set_request_id (some request_id) ctx)) m
