-- ===== src/EndpointHealth.antt =====
-- witchcraft-server/src/health/endpoint_500s.rs: the health check that watches the 500s of the
-- endpoints. An `Instant` is a number of nanoseconds, and the clock is an argument. The variants
-- of `Unhealthy` and `Broken` carry the name of their type where both have one of that name. The
-- sets of the names of endpoints are lists, in the order of the map.
pub mod Streaks
pub mod Startup
mod Tests
use witchcraft_rust_server.Common.{
  ℕ, suc, ◌+◌, ◌*◌, ◌≡◌, Bool, true, false, not, ◌&&◌, ◌||◌, Option, none, some, List, [], ◌∷◌,
  if◌then◌else◌, ltb, leb, ◌==◌, is_empty,
}

abbrev pub second : ℕ
second = 1000000000

abbrev pub grace_period : ℕ
grace_period = 120 * second

abbrev pub evaluation_period : ℕ
evaluation_period = 600 * second

abbrev pub broken_threshold : ℕ
broken_threshold = 50

pub data Unhealthy : Type 0 where
  unhealthy_healthy : Unhealthy
  unhealthy_errors : (first : ℕ) → (last : ℕ) → Unhealthy

unfoldable pub tick : Unhealthy → ℕ → Unhealthy
tick unhealthy_healthy now = unhealthy_healthy
tick (unhealthy_errors first last) now =
    if ltb (last + grace_period) now then unhealthy_healthy else unhealthy_errors first last

abbrev extend : Unhealthy → ℕ → Unhealthy
extend unhealthy_healthy now = unhealthy_errors now now
extend (unhealthy_errors first last) now = unhealthy_errors first now

unfoldable pub unhealthy_error : Unhealthy → ℕ → Unhealthy
unfolding tick
unhealthy_error u now = extend (tick u now) now

abbrev is_long : Unhealthy → ℕ → Bool
is_long unhealthy_healthy now = false
is_long (unhealthy_errors first last) now = ltb (first + evaluation_period) now

-- `check` ticks, too: the new state and the answer.
unfoldable pub unhealthy_check : Unhealthy → ℕ → Unhealthy × Bool
unfolding tick
unhealthy_check u now = let u' = tick u now in (u', is_long u' now)

pub data Broken : Type 0 where
  broken_healthy : Broken
  broken_errors : ℕ → Broken
  broken_broken : Broken

unfoldable pub broken_error : Broken → Broken
broken_error broken_healthy = broken_healthy
broken_error broken_broken = broken_broken
broken_error (broken_errors count) =
    if count == broken_threshold then broken_broken else broken_errors (count + 1)

unfoldable pub broken_success : Broken → Broken
broken_success broken_healthy = broken_healthy
broken_success broken_broken = broken_broken
broken_success (broken_errors count) = broken_healthy

unfoldable pub broken_check : Broken → Bool
broken_check broken_healthy = false
broken_check (broken_errors count) = false
broken_check broken_broken = true

pub record State : Type 0 where
  pub unhealthy : Unhealthy
  pub broken : Broken

unfoldable pub new : State
new = record { unhealthy = unhealthy_healthy; broken = broken_errors 0 }

-- `StatusCode::is_server_error`, of the crate `http`
abbrev pub is_server_error : ℕ → Bool
is_server_error status = leb 500 status && ltb status 600

unfoldable pub mark : State → ℕ → ℕ → State
unfolding unhealthy_error broken_error broken_success
mark s status now =
    if status == 500
    then record { unhealthy = unhealthy_error s.unhealthy now; broken = broken_error s.broken }
    else if not (is_server_error status)
    then record s { broken = broken_success s.broken }
    else s

module _ (K : Type 0) where
  -- The states after the checks, and the endpoints that are unhealthy
  unfoldable pub unhealthy_endpoints : List (K × State) → ℕ → List (K × State) × List K
  unfolding unhealthy_check
  unhealthy_endpoints [] now = ([], [])
  unhealthy_endpoints ((k, s) ∷ rest) now =
      let (rest', names) = unhealthy_endpoints rest now in
      let (u, bad) = unhealthy_check s.unhealthy now in
      ((k, record s { unhealthy = u }) ∷ rest', if bad then k ∷ names else names)

  unfoldable pub broken_endpoints : List (K × State) → List K
  unfolding broken_check
  broken_endpoints [] = []
  broken_endpoints ((k, s) ∷ rest) =
      let names = broken_endpoints rest in if broken_check s.broken then k ∷ names else names

  pub data Report : Type 0 where
    healthy : Report
    warning : (unhealthy broken : List K) → Report

  unfoldable pub result : List (K × State) → ℕ → List (K × State) × Report
  unfolding unhealthy_endpoints broken_endpoints
  result endpoints now =
      let (endpoints', bad) = unhealthy_endpoints endpoints now in
      let broken = broken_endpoints endpoints' in
      (endpoints', if is_empty bad && is_empty broken then healthy else warning bad broken)
