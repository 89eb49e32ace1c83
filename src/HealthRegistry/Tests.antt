-- ===== src/HealthRegistry/Tests.antt =====
-- Runs of the registry of health checks, where a check is a type and a number.
use witchcraft_rust_server.Common.{
  ℕ, ◌+◌, ◌<◌, ◌≡◌, ◌↔◌, refl, Bool, true, false, none, some, List, [], ◌∷◌, Mem,
}
use witchcraft_rust_server.Http.{Text, eq_text}
use witchcraft_rust_server.Assoc.{lookup}
use witchcraft_rust_server.HealthRegistry.{
  HealthCheckResult, Row, healthy, register, register_if_absent, run_check, run_checks,
  staleness_type, stale_checks, store, make_check,
}
use witchcraft_rust_server.HealthRegistry.History.{
  Event, registers, registers_if_absent, runs, apply, registry,
}
use witchcraft_rust_server.HealthRegistry.Expected.{Last, expected}
use witchcraft_rust_server.HealthRegistry.Report.{Warns, row_with, run_checks-reports}

abbrev any_type : Text → Bool
any_type t = true

abbrev type_of : Text × ℕ → Text
type_of (t, n) = t

abbrev fine : HealthCheckResult ℕ
fine = record { state = healthy; params = none }

-- The check 65 runs once, 66 panics and is then registered again, which keeps its result.
abbrev events : List (ℕ × Event (Text × ℕ) ℕ)
events =
    (50, registers_if_absent (66 ∷ [], 3))
    ∷ (40, runs (66 ∷ []) none)
    ∷ (10, runs (65 ∷ []) (some fine))
    ∷ (5, registers (66 ∷ [], 2))
    ∷ (0, registers (65 ∷ [], 1))
    ∷ []

first_is_stale : stale_checks 311 (registry {P = ℕ} any_type type_of events) ≡ (65 ∷ []) ∷ []
unfolding registry apply register register_if_absent run_check make_check store stale_checks
first_is_stale = refl

run_checks-reports_example :
    ((t : Text)
      → eq_text staleness_type t ≡ false
      → lookup t (run_checks 311 (registry any_type type_of events))
        ≡ row_with t (expected any_type type_of t events))
    × ((r : Row ℕ) × (lookup staleness_type (run_checks 311 (registry any_type type_of events))
          ≡ some r)
        × Warns r
        × ((t : Text)
            → Mem t r.stale_health_checks ↔ (
                (l : Last ℕ) × (expected any_type type_of t events ≡ some l)
                × (l.time + 300 < 311))))
run_checks-reports_example = run_checks-reports any_type type_of events 311
