-- ===== src/Inference/Transient.antt =====
-- The injected failures of the mock client, over calls of one prompt and of others in between.
use batch_processing_system.Common.{
  ℕ, ◌+◌, ◌≤◌, String, ◌≡◌, refl, arith, List, [], ◌∷◌, false, ltb, leb, if◌then◌else◌, str_eq,
  eq_iff, Bool-cases, inl, inr,
}
use batch_processing_system.Domain.{InferenceRequest}
use batch_processing_system.World.{response, retryable}
use batch_processing_system.Inference.{
  MockClient, Seen, fails_on, seen_count, mock_complete, mock_response,
}

-- The calls of a list of requests, one after the other.
unfoldable pub mock_run : MockClient → List InferenceRequest → Seen → Seen
mock_run client [] seen = seen
mock_run client (q ∷ qs) seen = mock_run client qs (mock_complete client q seen).1

-- How many of the requests have the prompt.
pub asked : String → List InferenceRequest → ℕ
asked prompt [] = 0
asked prompt (q ∷ qs) = (if str_eq q.prompt prompt then 1 else 0) + asked prompt qs

pub minimum : ℕ → ℕ → ℕ
minimum a b = if leb a b then a else b

module _ (client : MockClient) (prompt : String)
    (ok : fails_on client.fail_substring prompt ≡ false) where
  same_call :
      (q : InferenceRequest) (seen : Seen)
      → q.prompt ≡ prompt
      → seen_count prompt seen ≤ client.transient_fail
      → seen_count prompt (mock_complete client q seen).1
        ≡ minimum (1 + seen_count prompt seen) client.transient_fail
  unfolding mock_complete seen_count minimum
  same_call q seen e h =
      let here = (eq_iff prompt prompt).1 refl in rw (e, ok) (ground (arith, here, h))

  other_call :
      (q : InferenceRequest) (seen : Seen)
      → str_eq q.prompt prompt ≡ false
      → seen_count prompt (mock_complete client q seen).1 ≡ seen_count prompt seen
  unfolding mock_complete seen_count
  other_call q seen e = ground (arith, e)

  counted :
      (qs : List InferenceRequest) (seen : Seen)
      → seen_count prompt seen ≤ client.transient_fail
      → seen_count prompt (mock_run client qs seen)
        ≡ minimum (seen_count prompt seen + asked prompt qs) client.transient_fail
  unfolding mock_run asked minimum
  counted [] seen h = ground arith
  counted (q ∷ qs) seen h = elim (Bool-cases (str_eq q.prompt prompt)) [
    | inl same ↦
        let one = same_call q seen ((eq_iff q.prompt prompt).0 same) h in
        let rest = counted qs (mock_complete client q seen).1 in ground arith
    | inr different ↦
        let one = other_call q seen different in
        let rest = counted qs (mock_complete client q seen).1 in ground arith
  ]

  -- The reply to a request with a given count of earlier failures.
  reply_at :
      (q : InferenceRequest) (seen : Seen)
      → q.prompt ≡ prompt
      → (mock_complete client q seen).0 ≡ (
          if ltb (seen_count prompt seen) client.transient_fail
          then retryable "mock transient failure"
          else response (mock_response client q))
  unfolding mock_complete
  reply_at q seen e = rw (e, ok) (ground arith)

-- A mock client that has answered any requests since its start, for this prompt and for others, and
-- that does not fail on the prompt for good: it answers the prompt with a transient failure while it
-- was asked fewer than `transient_fail` times for it, and with its response from then on.
mock_transient :
    (client : MockClient) (q : InferenceRequest) (qs : List InferenceRequest)
    → fails_on client.fail_substring q.prompt ≡ false
    → (mock_complete client q (mock_run client qs [])).0 ≡ (
        if ltb (asked q.prompt qs) client.transient_fail
        then retryable "mock transient failure"
        else response (mock_response client q))
unfolding minimum seen_count
mock_transient client q qs ok =
    let count = counted client q.prompt ok qs [] (omega arith) in
    let reply = reply_at client q.prompt ok q (mock_run client qs []) refl in ground arith
