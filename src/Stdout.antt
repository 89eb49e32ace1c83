-- ===== src/Stdout.antt =====
-- witchcraft-server/src/logging/logger/stdout.rs: `StdoutSink`, which writes a chunk of bytes on
-- another thread. That thread, with the handle to wait for it, is a parameter.
pub mod Written
pub mod Laws
mod Tests
use witchcraft_rust_server.Common.{ℕ, List, ◌≡◌}
use witchcraft_rust_server.Http.{Text}
use witchcraft_rust_server.Poll.{Result, ok, err, Poll, pending, ready, Sink}

-- `Result<io::Result<()>, JoinError>`, where a `JoinError` becomes an `io::Error`
pub data Joined (E : Type 0) : Type 0 where
  joined : Result E → Joined E
  join_failed : E → Joined E

-- `task::spawn_blocking` with the closure that writes all of the bytes and flushes, and the poll of
-- its handle, where `O` is the state of the standard output and of the threads
pub record Blocking (O H E : Type 0) : Type 0 where
  pub spawn : O → Text → O × H
  pub poll : O → H → O × H × Poll (Joined E)

pub data State (H : Type 0) : Type 0 where
  idle : State H
  busy : H → State H

pub record StdoutSink (O H : Type 0) : Type 0 where
  pub out : O
  pub state : State H

module _ {O H E : Type 0} (blocking : Blocking O H E) where
  abbrev pub after_poll : O × H × Poll (Joined E) → StdoutSink O H × Poll (Result E)
  after_poll (o, h, pending) = (record { out = o; state = busy h }, pending)
  after_poll (o, h, ready (join_failed e)) = (record { out = o; state = busy h }, ready (err e))
  after_poll (o, h, ready (joined r)) = (record { out = o; state = idle }, ready r)

  abbrev pub poll_state : O → State H → StdoutSink O H × Poll (Result E)
  poll_state o idle = (record { out = o; state = idle }, ready ok)
  poll_state o (busy h) = after_poll (blocking.poll o h)

  unfoldable pub poll_flush : StdoutSink O H → StdoutSink O H × Poll (Result E)
  poll_flush s = poll_state s.out s.state

  -- The debug assertion is that the state is `idle`, as `poll_ready` leaves it.
  unfoldable pub start_send : StdoutSink O H → Text → StdoutSink O H × Result E
  start_send s item =
      let (o, h) = blocking.spawn s.out item in (record { out = o; state = busy h }, ok)

  unfoldable pub stdout_sink : Sink (StdoutSink O H) Text E
  unfolding poll_flush start_send
  stdout_sink = record {
    poll_ready = poll_flush;
    start_send = start_send;
    poll_flush = poll_flush;
    poll_close = poll_flush;
  }
