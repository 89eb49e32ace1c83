-- ===== src/GracefulShutdown.antt =====
-- witchcraft-server/src/service/graceful_shutdown.rs: the shutdown hook waits for the connections.
-- The operations on `State` run under its lock, so each is one step. The hook is one task, so its
-- waker is the number of it; `hook` says what the task does, and `notified` that it will be polled
-- again. A connection is the future of the inner service with the fused future `shutdown`.
pub mod Waiting
mod Tests
use witchcraft_rust_server.Common.{
  ℕ, suc, ◌+◌, ◌-◌, ◌≡◌, ◌≢◌, Bool, true, false, not, ◌&&◌, Option, none, some, if◌then◌else◌, ◌==◌,
}

pub record State : Type 0 where
  pub connections : ℕ
  pub waker : Option ℕ

pub data Hook : Type 0 where
  waiting : Hook
  finished : Hook

pub record Shared : Type 0 where
  pub state : State
  pub cancelled : Bool
  pub hook : Hook
  pub notified : Bool

-- `GracefulShutdownLayer::new`: the hook has not been polled.
unfoldable pub new : Shared
new = record {
  state = record { connections = 0; waker = none };
  cancelled = false;
  hook = waiting;
  notified = true;
}

-- `GracefulShutdownService::call`, up to the future
unfoldable pub call : Shared → Shared
call s = record s { state = record (s.state) { connections = s.state.connections + 1 } }

abbrev wake : Shared → Shared
wake s = elim s.state.waker [
  | none ↦ s
  | some w ↦ record s { state = record (s.state) { waker = none }; notified = true }
]

-- `Guard::drop`
unfoldable pub drop_guard : Shared → Shared
drop_guard s =
    let s' : Shared = record s {
      state = record (s.state) { connections = s.state.connections - 1 };
    } in
    if s'.state.connections == 0 then wake s' else s'

-- A poll of the hook, whose first one cancels the token
unfoldable pub poll_hook : ℕ → Shared → Shared
poll_hook task s =
    let s' : Shared = record s {
      state = record (s.state) { waker = some task };
      cancelled = true;
      notified = false;
    } in
    if s.state.connections == 0 then record s' { hook = finished } else s'

-- The future of a connection: whether `shutdown` is terminated, and how often the inner future has
-- been told to shut down
pub record Connection : Type 0 where
  pub is_terminated : Bool
  pub told : ℕ

-- `GracefulShutdownFuture::poll`, up to the poll of the inner future
unfoldable pub poll_connection : Bool → Connection → Connection
poll_connection cancelled c =
    if not c.is_terminated && cancelled
    then record { is_terminated = true; told = c.told + 1 }
    else c

-- Any interleaving, with the number of the guards that live
pub data Reach : Shared → ℕ → Type 0 where
  starts : Reach new 0
  calls : {s : Shared} {live : ℕ} → Reach s live → Reach (call s) (suc live)
  drops : {s : Shared} {live : ℕ} → Reach s (suc live) → Reach (drop_guard s) live
  polls :
      {s : Shared} {live : ℕ} (task : ℕ)
      → Reach s live
      → s.hook ≡ waiting
      → Reach (poll_hook task s) live

-- The polls of one connection, at each of which the token is cancelled or not
pub data Polled : Connection → Bool → Type 0 where
  fresh : Polled (record { is_terminated = false; told = 0 }) false
  polled :
      {c : Connection} {before : Bool} (cancelled : Bool)
      → Polled c before
      → ((before ≡ true) → (cancelled ≡ true))
      → Polled (poll_connection cancelled c) cancelled
