-- ===== src/ServerMetrics.antt =====
-- witchcraft-server/src/service/server_metrics.rs and endpoint_metrics.rs: the meters that the requests
-- of a server are counted with. A meter is the number of its marks, a timer the list of the times that
-- it was given, and instants are numbers; counters and meters are unbounded.
pub mod Counts
mod Tests
use witchcraft_rust_server.Common.{
  ℕ, zero, suc, ◌+◌, ◌-◌, ◌/◌, ◌≡◌, Bool, true, false, ◌&&◌, Option, none, some, List, [], ◌∷◌,
  ◌++◌, if◌then◌else◌, leb, ltb, ◌==◌,
}

-- `Metrics`, with those of one endpoint, `EndpointMetrics`
pub record Metrics : Type 0 where
  pub request_active : ℕ
  pub request_unmatched : ℕ
  pub response_all : ℕ
  pub response_xxx : List ℕ
  pub response_500 : ℕ
  pub response : List ℕ
  pub response_error : ℕ

-- `ServerMetricsLayer::new` and `EndpointMetrics::new`
abbrev pub new : Metrics
new = record {
  request_active = 0;
  request_unmatched = 0;
  response_all = 0;
  response_xxx = 0 ∷ 0 ∷ 0 ∷ 0 ∷ 0 ∷ [];
  response_500 = 0;
  response = [];
  response_error = 0;
}

-- `get(i)`, and the mark of the meter that it gives
unfoldable pub mark_at : ℕ → List ℕ → List ℕ
mark_at i [] = []
mark_at zero (n ∷ ns) = (n + 1) ∷ ns
mark_at (suc i) (n ∷ ns) = n ∷ mark_at i ns

abbrev pub mark_if : Bool → ℕ → ℕ
mark_if b n = if b then n + 1 else n

-- `StatusCode::is_server_error`
abbrev pub is_server_error : ℕ → Bool
is_server_error status = leb 500 status && ltb status 600

-- `ServerMetricsService::call` before the inner service; `EndpointMetricsService::call` reads the time.
unfoldable pub on_request : Metrics → Metrics
on_request m = record m { request_active = m.request_active + 1 }

-- What the two services do with the status of a response; a status is 100 at least. `tracked` says
-- whether the request has an endpoint with these metrics.
unfoldable pub on_response : Bool → ℕ → Metrics → Metrics
unfolding mark_at
on_response tracked status m = record m {
  request_unmatched = mark_if (status == 404) m.request_unmatched;
  response_all = m.response_all + 1;
  response_xxx = mark_at (status / 100 - 1) m.response_xxx;
  response_500 = mark_if (status == 500) m.response_500;
  response_error = mark_if (tracked && is_server_error status) m.response_error;
}

-- The guard, of a response's body or of a request that is given up before it has one
unfoldable pub drop_guard : Metrics → Metrics
drop_guard m = record m { request_active = m.request_active - 1 }

-- The drop of the two bodies
unfoldable pub drop_body : Bool → ℕ → Metrics → Metrics
unfolding drop_guard
drop_body tracked elapsed m =
    drop_guard
      (record m { response = if tracked then m.response ++ (elapsed ∷ []) else m.response })

-- A request that waits for its response, with the instant of its start, and one whose body is read
pub data Request : Type 0 where
  calling : Bool → ℕ → Request
  reading : Bool → ℕ → Request

-- The requests of a server, with what they have left behind: the statuses of all responses, and the
-- times of those that are over, by whether they have an endpoint with these metrics
pub record Server : Type 0 where
  pub metrics : Metrics
  pub requests : List Request
  pub statuses : List (Bool × ℕ)
  pub times : List (Bool × ℕ)

abbrev pub started : Server
started = record { metrics = new; requests = []; statuses = []; times = [] }

-- Requests come, are answered, and are over in any order.
pub data Step (s : Server) : Server → Type 0 where
  comes :
      (tracked : Bool) (now : ℕ)
      → Step s
          (record s { metrics = on_request s.metrics; requests = calling tracked now ∷ s.requests })
  answers :
      (tracked : Bool) (start : ℕ) (before after : List Request) (status : ℕ)
      → s.requests ≡ before ++ (calling tracked start ∷ after)
      → Step s (record s {
        metrics = on_response tracked status s.metrics;
        requests = before ++ (reading tracked start ∷ after);
        statuses = s.statuses ++ ((tracked, status) ∷ []);
      })
  is_given_up :
      (tracked : Bool) (start : ℕ) (before after : List Request)
      → s.requests ≡ before ++ (calling tracked start ∷ after)
      → Step s (record s { metrics = drop_guard s.metrics; requests = before ++ after })
  is_over :
      (tracked : Bool) (start : ℕ) (before after : List Request) (now : ℕ)
      → s.requests ≡ before ++ (reading tracked start ∷ after)
      → Step s (record s {
        metrics = drop_body tracked (now - start) s.metrics;
        requests = before ++ after;
        times = s.times ++ ((tracked, now - start) ∷ []);
      })

pub data Reach : Server → Type 0 where
  starts : Reach started
  then_step : {s t : Server} → Reach s → Step s t → Reach t
