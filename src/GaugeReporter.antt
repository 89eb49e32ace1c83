-- ===== src/GaugeReporter.antt =====
-- witchcraft-server/src/logging/metric/gauge_reporter.rs, and the loop of metric/mod.rs that feeds it:
-- gauges run as blocking tasks, two at a time, where one that is slow gives up its permit. The
-- semaphore is the number of its permits; tokio's task, its timer and the grant of a permit are what a
-- poll finds. An id is a number, and so is a gauge.
pub mod InFlight
pub mod Idle
mod Tests
use witchcraft_rust_server.Common.{
  ℕ, zero, suc, ◌+◌, ◌-◌, ◌≡◌, Bool, true, false, ◌||◌, Option, none, some, List, [], ◌∷◌, ◌++◌,
  if◌then◌else◌, ◌==◌, is_empty,
}

-- `GaugeFuture`, where a running one has the permit still or not
pub data GaugeFuture : Type 0 where
  acquiring : ℕ → ℕ → GaugeFuture
  running : ℕ → Bool → GaugeFuture

abbrev pub id_of : GaugeFuture → ℕ
id_of (acquiring id gauge) = id
id_of (running id permit) = id

pub record GaugeReporter : Type 0 where
  pub ids : List ℕ
  pub results : List GaugeFuture
  -- Those of `semaphore`
  pub permits : ℕ

-- `GaugeReporter::new`
unfoldable pub new : GaugeReporter
new = record { ids = []; results = []; permits = 2 }

unfoldable pub member : ℕ → List ℕ → Bool
member id [] = false
member id (x ∷ xs) = x == id || member id xs

-- `HashSet::remove`
unfoldable pub remove : ℕ → List ℕ → List ℕ
remove id [] = []
remove id (x ∷ xs) = if x == id then xs else x ∷ remove id xs

-- `GaugeReporter::insert`
unfoldable pub insert : ℕ → ℕ → GaugeReporter → GaugeReporter × Bool
unfolding member
insert id gauge r =
    if member id r.ids
    then (r, false)
    else (record r { ids = id ∷ r.ids; results = acquiring id gauge ∷ r.results }, true)

-- What a poll of a future finds: whether a permit is granted, whether the timer is over, and whether
-- the task has ended. A permit is granted only if there is one.
pub record Found : Type 0 where
  pub granted : Bool
  pub too_long : Bool
  pub ended : Bool

-- The arm `Running` of `GaugeFuture::poll`: the permits that are given back, and the future if it is
-- still pending. One that is ready is dropped, with its permit.
unfoldable pub poll_running : ℕ → Bool → Found → ℕ × Option GaugeFuture
poll_running id true f =
    if f.too_long
    then (1, if f.ended then none else some (running id false))
    else (if f.ended then (1, none) else (0, some (running id true)))
poll_running id false f = (0, if f.ended then none else some (running id false))

-- `GaugeFuture::poll`, with the permits of the semaphore
unfoldable pub poll : GaugeFuture → Found → ℕ → ℕ × Option GaugeFuture
unfolding poll_running
poll (acquiring id gauge) f permits =
    if f.granted
    then (let (back, future) = poll_running id true f in (permits - 1 + back, future))
    else (permits, some (acquiring id gauge))
poll (running id permit) f permits =
    let (back, future) = poll_running id permit f in (permits + back, future)

-- `poll_next` of the stream, for the future at one place: it stays, or its id is removed.
abbrev pub after_poll :
    List GaugeFuture → ℕ → List GaugeFuture → List ℕ → ℕ × Option GaugeFuture → GaugeReporter
after_poll before id after ids (permits, some future) = record {
  ids = ids;
  results = before ++ (future ∷ after);
  permits = permits;
}
after_poll before id after ids (permits, none) = record {
  ids = remove id ids;
  results = before ++ after;
  permits = permits;
}

-- The loop of `log_metrics` inserts gauges, and polls the stream while it is idle.
pub data Step (r : GaugeReporter) : GaugeReporter → Type 0 where
  inserts : (id gauge : ℕ) → Step r (insert id gauge r).0
  polls :
      (before after : List GaugeFuture) (future : GaugeFuture) (f : Found)
      → r.results ≡ before ++ (future ∷ after)
      → (f.granted ≡ true → (n : ℕ) × (r.permits ≡ suc n))
      → Step r (after_poll before (id_of future) after r.ids (poll future f r.permits))

pub data Reach : GaugeReporter → Type 0 where
  starts : Reach new
  then_step : {r s : GaugeReporter} → Reach r → Step r s → Reach s
