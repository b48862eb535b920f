-- ===== src/Inference.antt =====
-- app/infrastructure/inference: the clients behind the port. MockInferenceClient keeps a count for
-- each prompt; of DOInferenceClient, the classes of the SDK's exceptions and the response are data,
-- and what the SDK makes of a request is the reply that the model gets.
pub mod Transient
use batch_processing_system.Common.{
  ℕ, zero, suc, ◌+◌, ◌/◌, String, Option, none, some, List, [], ◌∷◌, Bool, true, false, ◌&&◌, ◌||◌,
  ◌==◌, ltb, leb, length, str_eq, if◌then◌else◌, contains,
}
use batch_processing_system.Common.Text.{codes, ◌<>◌}
use batch_processing_system.Domain.{InferenceRequest, InferenceResponse}
use batch_processing_system.World.{Reply, response, retryable, permanent, unexpected}

-- `needle in text`
unfoldable pub is_prefix : List ℕ → List ℕ → Bool
is_prefix [] ys = true
is_prefix (x ∷ xs) [] = false
is_prefix (x ∷ xs) (y ∷ ys) = (x == y) && is_prefix xs ys

unfoldable pub is_infix : List ℕ → List ℕ → Bool
unfolding is_prefix
is_infix xs [] = is_prefix xs []
is_infix xs (y ∷ ys) = is_prefix xs (y ∷ ys) || is_infix xs ys

pub record MockClient : Type 0 where
  pub fail_substring : Option String
  pub transient_fail : ℕ
  pub latency_ms : ℕ

-- `self.fail_substring and self.fail_substring in prompt`
unfoldable pub fails_on : Option String → String → Bool
unfolding is_infix
fails_on none prompt = false
fails_on (some s) prompt = if str_eq s "" then false else is_infix (codes s) (codes prompt)

-- The dict `_seen`: the last assignment of a key stands first.
abbrev pub Seen : Type 0
Seen = List (String × ℕ)

-- `self._seen.get(prompt, 0)`
unfoldable pub seen_count : String → Seen → ℕ
seen_count prompt [] = 0
seen_count prompt ((p, n) ∷ seen) = if str_eq p prompt then n else seen_count prompt seen

-- `max(1, len(prompt) // 4)`
abbrev pub mock_tokens : String → ℕ
mock_tokens prompt = let n = length (codes prompt) / 4 in if leb n 1 then 1 else n

abbrev pub mock_response : MockClient → InferenceRequest → InferenceResponse
mock_response client q = record {
  text = "[mock] " <> q.prompt;
  prompt_tokens = mock_tokens q.prompt;
  completion_tokens = 5;
  latency_ms = client.latency_ms;
}

-- MockInferenceClient.complete; the sleep at its head changes no state of the client.
unfoldable pub mock_complete : MockClient → InferenceRequest → Seen → Reply × Seen
unfolding fails_on seen_count
mock_complete client q seen =
    let n = seen_count q.prompt seen in
    if fails_on client.fail_substring q.prompt
    then (permanent "mock permanent failure", seen)
    else if ltb n client.transient_fail
    then (retryable "mock transient failure", (q.prompt, n + 1) ∷ seen)
    else (response (mock_response client q), seen)

-- What chat.completions.create gives: the messages of the choices, each with its content, and the two
-- counts of `usage`; or an exception, by its class in the SDK.
pub data SdkReply : Type 0 where
  completion : (choices : List (Option String)) (usage : Option (Option ℕ × Option ℕ)) → SdkReply
  rate_limit_error api_timeout_error api_connection_error internal_server_error : String → SdkReply
  api_status_error : (status_code : ℕ) → String → SdkReply
  other_error : String → SdkReply

abbrev pub retryable_status : List ℕ
retryable_status = 429 ∷ 500 ∷ 502 ∷ 503 ∷ 504 ∷ []

abbrev pub text_or_empty : Option String → String
text_or_empty none = ""
text_or_empty (some s) = s

abbrev pub first_text : List (Option String) → String
first_text [] = ""
first_text (c ∷ cs) = text_or_empty c

abbrev pub count_or_zero : Option ℕ → ℕ
count_or_zero none = 0
count_or_zero (some n) = n

-- `getattr(usage, …, 0) or 0`, for either of the two counts
abbrev pub used : (Option ℕ × Option ℕ → Option ℕ) → Option (Option ℕ × Option ℕ) → ℕ
used part none = 0
used part (some u) = count_or_zero (part u)

-- DOInferenceClient.complete behind the call; `latency_ms` is what the clock gave.
unfoldable pub do_complete : ℕ → SdkReply → Reply
do_complete latency_ms (completion choices usage) = response (record {
  text = first_text choices;
  prompt_tokens = used (λ u. u.0) usage;
  completion_tokens = used (λ u. u.1) usage;
  latency_ms = latency_ms;
})
do_complete latency_ms (rate_limit_error e) = retryable e
do_complete latency_ms (api_timeout_error e) = retryable e
do_complete latency_ms (api_connection_error e) = retryable e
do_complete latency_ms (internal_server_error e) = retryable e
do_complete latency_ms (api_status_error status_code e) =
    if contains retryable_status status_code then retryable e else permanent e
do_complete latency_ms (other_error e) = unexpected e
