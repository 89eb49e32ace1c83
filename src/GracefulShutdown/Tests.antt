-- ===== src/GracefulShutdown/Tests.antt =====
-- A run of service/graceful_shutdown.rs.
use witchcraft_rust_server.Common.{◌≡◌, refl, true, false}
use witchcraft_rust_server.GracefulShutdown.{
  Shared, waiting, finished, new, call, drop_guard, poll_hook, Connection, Reach, starts, calls,
  polls,
}
use witchcraft_rust_server.GracefulShutdown.Waiting.{Inv, Reach-Inv}

abbrev parked : Shared
parked = poll_hook 7 (call new)

parked-Reach : Reach parked 1
unfolding call new
parked-Reach = polls 7 (calls starts) refl

Reach-Inv_example : Inv parked 1
Reach-Inv_example = Reach-Inv parked-Reach

-- The end of the last connection wakes the hook, which then finishes.
abbrev ended : Shared
ended = drop_guard parked

ended-notified : ended.notified ≡ true
unfolding drop_guard poll_hook call new
ended-notified = refl

ended-waiting : ended.hook ≡ waiting
unfolding drop_guard poll_hook call new
ended-waiting = refl

ended-finished : (poll_hook 7 ended).hook ≡ finished
unfolding drop_guard poll_hook call new
ended-finished = refl

abbrev connection : Connection
connection = record { is_terminated = false; told = 0 }
