-- ===== src/EndpointHealth/Tests.antt =====
-- Runs of the health check of endpoint_500s.rs.
use witchcraft_rust_server.Common.{ℕ, ◌*◌, ◌≡◌, refl, true, List, [], ◌∷◌, arith}
use witchcraft_rust_server.EndpointHealth.{unhealthy_check, second}
use witchcraft_rust_server.EndpointHealth.Startup.{failures}
use witchcraft_rust_server.EndpointHealth.Streaks.{
  Event, error_at, check_at, run, IsOrdered, error_times, is_unhealthy, run-check,
}

abbrev log : List (ℕ × ℕ)
log = (500, 0) ∷ (503, 1) ∷ (500, 2) ∷ (200, 3) ∷ (500, 4) ∷ []

failures-log : failures log ≡ 2
failures-log = refl

abbrev minute : ℕ
minute = 60 * second

-- Errors at the minutes 1, 3, 5, 7, 9 and 11, a check at the minute 6
abbrev history : List Event
history =
    error_at (11 * minute)
    ∷ error_at (9 * minute)
    ∷ error_at (7 * minute)
    ∷ check_at (6 * minute)
    ∷ error_at (5 * minute)
    ∷ error_at (3 * minute)
    ∷ error_at (1 * minute)
    ∷ []

history-IsOrdered : IsOrdered (12 * minute) history
history-IsOrdered = (
  omega arith,
  (omega arith, (omega arith, (omega arith, (omega arith, (omega arith, (omega arith, tt)))))),
)

is_unhealthy-history : is_unhealthy (12 * minute) (error_times history) ≡ true
is_unhealthy-history = refl

run-check_example :
    (unhealthy_check (run history) (12 * minute)).1
    ≡ is_unhealthy (12 * minute) (error_times history)
run-check_example = run-check (12 * minute) history history-IsOrdered
