-- ===== src/IdleConnection/Tests.antt =====
-- A run of service/idle_connection.rs.
use witchcraft_rust_server.Common.{ℕ, ◌+◌, ◌≡◌, ◌≤◌, refl, true, arith}
use witchcraft_rust_server.IdleConnection.{
  State, new, poll_timed_out, inc_active, dec_active, Reach, opens, waits, starts, ends,
}
use witchcraft_rust_server.IdleConnection.Timeout.{poll_timed_out-idle}

-- Opened at 0, a request from 1 to 5, with a timeout of 60
abbrev one_request : State
one_request = dec_active 5 (inc_active (new 60 0))

reached : Reach 60 0 one_request 70 0 5
reached =
    waits 70 (ends (waits 5 (starts (waits 1 opens (omega arith))) (omega arith))) (omega arith)

timed_out : (poll_timed_out 1 70 one_request).1 ≡ true
unfolding poll_timed_out dec_active inc_active new
timed_out = refl

abbrev no_requests : ℕ
no_requests = 0

poll_timed_out-idle_example : (no_requests ≡ 0) × (5 + 60 ≤ 70)
poll_timed_out-idle_example = poll_timed_out-idle 1 reached timed_out
