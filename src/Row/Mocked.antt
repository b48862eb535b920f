-- ===== src/Row/Mocked.antt =====
-- A worker whose endpoint is the mock client of app/infrastructure/inference/mock_client.py.
use batch_processing_system.Common.{
  ℕ, zero, suc, ◌+◌, ◌-◌, ◌≤◌, ◌<◌, String, Option, none, some, List, [], ◌∷◌, map, true, false,
  ◌≡◌, refl, sym, ap₂, subst, arith, ltb, eq_iff, str_eq, Bool-cases, if_ind, inl, inr,
  if◌then◌else◌,
}
use batch_processing_system.Common.Text.{◌<>◌}
use batch_processing_system.Domain.{ItemStatus, ClaimedItem, InferenceRequest, ResultRecord}
use batch_processing_system.Config.{Settings}
use batch_processing_system.World.{World, Reply, response, retryable, permanent}
use batch_processing_system.Inference.{
  MockClient, Seen, fails_on, seen_count, mock_complete, mock_response,
}
use batch_processing_system.Row.{
  RowState, LoopEnd, returned, fell_out, request_of, on_reply, row_loop, close_row, process_row,
  process_chunk,
}

-- The mock client in place of a world's endpoint; `pass` is what happens during its sleep.
abbrev pub mocked : MockClient → (world : World) → (world.State → world.State) → World
mocked client world pass = record {
  State = world.State × Seen;
  complete = λ q s. let reply = mock_complete client q s.1 in (reply.0, (pass s.0, reply.1));
  monotonic = λ s. world.monotonic s.0;
  sleep = λ attempt s. (world.sleep attempt s.0, s.1);
  capture = λ s. (world.capture s.0, s.1);
  now = λ s. world.now s.0;
  locked = λ s. world.locked s.0;
  meanwhile = λ s. world.meanwhile s.0;
  between = λ s. world.between s.0;
  new_id = λ s. let id = world.new_id s.0 in (id.0, (id.1, s.1));
}

-- What a record says, but for its attempts and its time.
abbrev pub outcome : ResultRecord → String × ItemStatus × Option String × Option String
outcome r = (r.external_id, r.status, r.response, r.error)

-- What the mock client makes of a row that is tried often enough.
abbrev pub mock_outcome :
    MockClient → ClaimedItem → String × ItemStatus × Option String × Option String
mock_outcome client item =
    if fails_on client.fail_substring item.prompt
    then (item.external_id, ItemStatus.failed, none, some "mock permanent failure")
    else (item.external_id, ItemStatus.succeeded, some ("[mock] " <> item.prompt), none)

-- No prompt has more failures behind it than the client injects.
abbrev pub Bounded : MockClient → Seen → Type 0
Bounded client seen = (p : String) → seen_count p seen ≤ client.transient_fail

module _ (client : MockClient) (q : InferenceRequest) (seen : Seen) where
  fails_for_good :
      fails_on client.fail_substring q.prompt ≡ true
      → mock_complete client q seen ≡ (permanent "mock permanent failure", seen)
  unfolding mock_complete
  fails_for_good e = rw e refl

  fails_once :
      fails_on client.fail_substring q.prompt ≡ false
      → ltb (seen_count q.prompt seen) client.transient_fail ≡ true
      → mock_complete client q seen
        ≡ (retryable "mock transient failure", (q.prompt, seen_count q.prompt seen + 1) ∷ seen)
  unfolding mock_complete
  fails_once e h = rw (e, h) refl

  answers_now :
      fails_on client.fail_substring q.prompt ≡ false
      → ltb (seen_count q.prompt seen) client.transient_fail ≡ false
      → mock_complete client q seen ≡ (response (mock_response client q), seen)
  unfolding mock_complete
  answers_now e h = rw (e, h) refl

  fails_once-Bounded :
      ltb (seen_count q.prompt seen) client.transient_fail ≡ true
      → Bounded client seen
      → Bounded client ((q.prompt, seen_count q.prompt seen + 1) ∷ seen)
  unfolding seen_count
  fails_once-Bounded h b p =
      if_ind (λ n. n ≤ client.transient_fail) (str_eq q.prompt p) (seen_count q.prompt seen + 1)
        (seen_count p seen) (λ _. ground (arith, h)) (λ _. b p)

module _ (client : MockClient) (base : World) (pass : base.State → base.State)
    (settings : Settings) where
  abbrev world : World
  world = mocked client base pass

  -- How the loop of a row ends.
  abbrev Fits : ClaimedItem → LoopEnd → Type 0
  Fits item (returned r) = outcome r ≡ mock_outcome client item
  Fits item (fell_out a e) =
      (fails_on client.fail_substring item.prompt ≡ true) × (e ≡ some "mock permanent failure")

  abbrev After : ClaimedItem → LoopEnd × RowState world → Type 0
  After item e = Fits item e.0 × Bounded client e.1.env.1

  row_loop-Fits :
      (item : ClaimedItem) (start left index attempt : ℕ) (last : Option String)
      (s : RowState world)
      → Bounded client s.env.1
      → client.transient_fail < left + seen_count item.prompt s.env.1
      → After item (row_loop world settings item start left index attempt last s)
  unfolding row_loop on_reply seen_count
  row_loop-Fits item start zero index attempt last s b enough =
      let most = b item.prompt in absurd (omega arith)
  row_loop-Fits item start (suc left) index attempt last s b enough =
      let q = request_of world settings item in
      let next = row_loop world settings item start left (suc index) index in
      let seen = s.env.1 in
      let replied : Reply × Seen → LoopEnd × RowState world = λ m.
        on_reply world settings item start index (world.monotonic s.env) next m.0
          (record s { env = (pass s.env.0, m.1) }) in
      elim (Bool-cases (fails_on client.fail_substring item.prompt)) [
        | inl bad ↦
            subst (λ m. After item (replied m)) (sym (fails_for_good client q seen bad))
              ((bad, refl), b)
        | inr good ↦ elim (Bool-cases (ltb (seen_count item.prompt seen) client.transient_fail)) [
          | inl again ↦
              let b' = fails_once-Bounded client q seen again b in
              let here = (eq_iff item.prompt item.prompt).1 refl in
              subst (λ m. After item (replied m)) (sym (fails_once client q seen good again))
                (if_ind
                  (λ t. After item (
                    row_loop world settings item start left (suc index) index
                      (some "mock transient failure") t))
                  (ltb index (settings.retry_max_attempts - 1)) _ _
                  (λ _.
                    row_loop-Fits item start left (suc index) index (some "mock transient failure")
                      _ b' (rw here (omega (arith, enough))))
                  (λ _.
                    row_loop-Fits item start left (suc index) index (some "mock transient failure")
                      _ b' (rw here (omega (arith, enough)))))
          | inr enough_now ↦
              subst (λ m. After item (replied m)) (sym (answers_now client q seen good enough_now))
                (rw good refl, b)
        ]
      ]

  close_row-Fits :
      (item : ClaimedItem) (start : ℕ) (e : LoopEnd × RowState world)
      → After item e
      → let r = close_row world settings item start e.0 e.1 in
        (outcome r.0 ≡ mock_outcome client item) × Bounded client r.1.env.1
  unfolding close_row
  close_row-Fits item start (returned r, s) h = h
  close_row-Fits item start (fell_out a error, s) h = (rw (h.0.0, h.0.1) refl, h.1)

  process_row-mocked :
      (item : ClaimedItem) (s : RowState world)
      → client.transient_fail < settings.retry_max_attempts
      → Bounded client s.env.1
      → let r = process_row world settings item s in
        (outcome r.0 ≡ mock_outcome client item) × Bounded client r.1.env.1
  unfolding process_row
  process_row-mocked item s enough b =
      let m = s.metrics in
      let start = world.monotonic s.env in
      close_row-Fits item start _ (
        row_loop-Fits item start settings.retry_max_attempts 0 0 none
          (record s { metrics = record m { inflight = m.inflight + 1 } }) b (omega (arith, enough)))

  process_chunk-mocked :
      (items : List ClaimedItem) (s : RowState world)
      → client.transient_fail < settings.retry_max_attempts
      → Bounded client s.env.1
      → let r = process_chunk world settings items s in
        (map outcome r.0 ≡ map (mock_outcome client) items) × Bounded client r.1.env.1
  unfolding process_chunk
  process_chunk-mocked [] s enough b = (refl, b)
  process_chunk-mocked (item ∷ items) s enough b =
      let one = process_row-mocked item s enough b in
      let rest = process_chunk-mocked items (process_row world settings item s).1 enough one.1 in
      (ap₂ (λ x xs. x ∷ xs) one.0 rest.0, rest.1)

  -- A chunk over the mock client, started with any counts that it can have reached, with more attempts
  -- allowed than it injects transient failures: every row, in order, is SUCCEEDED with the mock's text,
  -- unless its prompt contains the text that the client fails on, and then it is FAILED with the
  -- client's message.
  pub mock_failures_absorbed :
      (items : List ClaimedItem) (s : RowState world)
      → client.transient_fail < settings.retry_max_attempts
      → Bounded client s.env.1
      → map outcome (process_chunk world settings items s).0 ≡ map (mock_outcome client) items
  mock_failures_absorbed items s enough b = (process_chunk-mocked items s enough b).0
