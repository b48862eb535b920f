-- ===== src/Middleware/Counted.antt =====
-- The request counters against the answers that the clients get.
use batch_processing_system.Common.{String, some, List, [], ◌∷◌, map, ◌≡◌, refl, ap, ◌∙◌}
use batch_processing_system.Common.Text.{decimal}
use batch_processing_system.Logging.{Context, set_key, set_request_id}
use batch_processing_system.Logging.Payload.{lookup, lookup-set_key}
use batch_processing_system.Middleware.{
  Request, Response, Handled, answers, fails, HttpMetrics, route_template, id_or_new,
  finish_request, dispatch,
}

module _ (app : Request → Context → Handled) (ctx : Context) where
  -- Requests that are served one after the other, each with the id that uuid4 would give it: the
  -- answers, the latest first, and the counters.
  pub serve_all :
      List (Request × String)
      → List (Request × Handled)
      → HttpMetrics
      → List (Request × Handled) × HttpMetrics
  serve_all [] done m = (done, m)
  serve_all ((q, new_id) ∷ qs) done m =
      let (answer, m') = dispatch app new_id q ctx m in serve_all qs ((q, answer) ∷ done) m'

  -- The labels under which an answer belongs.
  abbrev pub status_text : Handled → String
  status_text (answers r) = decimal r.status_code
  status_text (fails e) = "500"

  abbrev pub label : Request × Handled → String × String × String
  label (q, answer) = (q.method, route_template q, status_text answer)

  one_label :
      (request_id : String) (q : Request) (h : Handled) (m : HttpMetrics)
      → (finish_request request_id q h m).1.requests
        ≡ label (q, (finish_request request_id q h m).0) ∷ m.requests
  one_label request_id q (answers r) m = refl
  one_label request_id q (fails e) m = refl

  -- The counter of requests has, behind any requests, exactly one count for each answer that was sent,
  -- under the method, the route and the status of that answer, "500" where the application raised.
  pub serve_all-counts :
      (qs : List (Request × String)) (done : List (Request × Handled)) (m : HttpMetrics)
      → m.requests ≡ map label done
      → (serve_all qs done m).1.requests ≡ map label (serve_all qs done m).0
  unfolding serve_all dispatch
  serve_all-counts [] done m h = h
  serve_all-counts ((q, new_id) ∷ qs) done m h =
      let request_id = id_or_new q.header new_id in
      let handled = app q (set_request_id (some request_id) ctx) in
      let (answer, m') = finish_request request_id q handled m in
      serve_all-counts qs ((q, answer) ∷ done) m'
        (one_label request_id q handled m ∙ ap (λ l. label (q, answer) ∷ l) h)

  -- Every response carries the request's id: the one of its header, or a new one where the header is
  -- missing or empty; the application has seen the request with that id in its context.
  dispatch_echoes :
      (q : Request) (new_id : String) (m : HttpMetrics) (r : Response)
      → app q (set_request_id (some (id_or_new q.header new_id)) ctx) ≡ answers r
      → (r' : Response) × ((dispatch app new_id q ctx m).0 ≡ answers r')
        × (r'.status_code ≡ r.status_code)
        × (lookup "x-request-id" r'.headers ≡ some (id_or_new q.header new_id))
  unfolding dispatch
  dispatch_echoes q new_id m r e =
      let request_id = id_or_new q.header new_id in
      (
        record r { headers = set_key "x-request-id" request_id r.headers },
        rw e refl,
        refl,
        lookup-set_key "x-request-id" "x-request-id" request_id r.headers,
      )
