-- ===== src/GaugeReporter/Idle.antt =====
-- logging/metric/mod.rs: `IdleFuture`, which hands the results of gauges to the appender while the loop
-- waits for its next round. Of the reporter there are the results that its stream has ready, the last
-- part of which is not polled yet, and whether other gauges are still running; `none` is the `Err` of
-- a task that panicked. The appender is a parameter.
pub mod Handed
use witchcraft_rust_server.Common.{
  ℕ, Bool, true, false, Option, none, some, List, [], ◌∷◌, if◌then◌else◌,
}

-- `Poll<Result<(), Closed>>` of `poll_ready`; `start_send` answers whether it is not closed.
pub data Ready : Type 0 where
  not_ready is_ready is_closed : Ready

pub record Appender (A L : Type 0) : Type 0 where
  pub poll_ready : A → A × Ready
  pub start_send : A → L → A × Bool

module _ {A L : Type 0} (appender : Appender A L) where
  -- The body of the `while`, from `if let Ok(log) = result` on: the appender, and whether to go on
  abbrev pub send_result : A → Option L → A × Bool
  send_result a none = (a, true)
  send_result a (some log) = appender.start_send a log

  abbrev pub go_on : A × Bool → List (Option L) → (A → A × List (Option L)) → A × List (Option L)
  go_on (a, true) rest again = again a
  go_on (a, false) rest again = (a, rest)

  abbrev pub when_ready :
      A × Ready → List (Option L) → (A → A × List (Option L)) → A × List (Option L)
  when_ready (a, not_ready) results next = (a, results)
  when_ready (a, is_closed) results next = (a, results)
  when_ready (a, is_ready) results next = next a

  -- The `while`; with no result ready it ends, or waits for the gauges that are running, but only once
  -- the appender is ready.
  unfoldable pub hand_over : Bool → List (Option L) → A → A × List (Option L)
  hand_over false [] a = (a, [])
  hand_over true [] a = when_ready (appender.poll_ready a) [] (λ a'. (a', []))
  hand_over more (result ∷ results) a =
      when_ready (appender.poll_ready a) (result ∷ results)
        λ a'. go_on (send_result a' result) results (hand_over more results)

  -- `IdleFuture::poll`: the appender, the results that are left, and whether it is over
  unfoldable pub poll : Bool → Bool → List (Option L) → A → A × List (Option L) × Bool
  unfolding hand_over
  poll slept more results a =
      if slept
      then (a, results, true)
      else (let (a', rest) = hand_over more results a in (a', rest, false))
