-- ===== src/ServerMetrics/Tests.antt =====
-- Three requests: one is answered and over, one is being read, one was given up.
use witchcraft_rust_server.Common.{refl, true, false, [], ◌∷◌}
use witchcraft_rust_server.ServerMetrics.{
  Reach, Server, answers, calling, comes, drop_body, drop_guard, is_given_up, is_over, on_request,
  on_response, reading, starts, then_step,
}
use witchcraft_rust_server.ServerMetrics.Counts.{Counted, metrics-Counted}

abbrev served : Server
served = record {
  metrics = record {
    request_active = 1;
    request_unmatched = 1;
    response_all = 2;
    response_xxx = 0 ∷ 0 ∷ 0 ∷ 1 ∷ 1 ∷ [];
    response_500 = 1;
    response = 4 ∷ [];
    response_error = 1;
  };
  requests = reading false 5 ∷ [];
  statuses = (true, 500) ∷ (false, 404) ∷ [];
  times = (true, 4) ∷ [];
}

served-Reach : Reach served
unfolding on_request on_response drop_body drop_guard
served-Reach =
    then_step
      (then_step
        (then_step
          (then_step
            (then_step (then_step (then_step starts (comes true 3)) (comes false 5)) (comes true 6))
            (answers true 3 (calling true 6 ∷ calling false 5 ∷ []) [] 500 refl))
          (is_given_up true 6 [] (calling false 5 ∷ reading true 3 ∷ []) refl))
        (answers false 5 [] (reading true 3 ∷ []) 404 refl))
      (is_over true 3 (reading false 5 ∷ []) [] 7 refl)

metrics-Counted_example : Counted served
metrics-Counted_example = metrics-Counted served-Reach
