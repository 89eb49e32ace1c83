-- ===== src/ConnectionLimit.antt =====
-- witchcraft-server/src/service/connection_limit.rs and connection_metrics.rs, in the loop of server.rs
-- that accepts connections one after the other. The semaphore of tokio is the number of its permits;
-- the inner service, which accepts a connection, is a step. A stream only forwards what is done with
-- it, so a connection is here a permit and an increment of the counter, until it is dropped.
pub mod Bounds
mod Tests
use witchcraft_rust_server.Common.{ℕ, suc, ◌+◌, ◌-◌, ◌≡◌, Bool, true, false}
use witchcraft_rust_server.Install.{InstallConfig, max_connections}

-- The task of the loop: before `acquire_owned` gives a permit, with a permit while a connection is
-- accepted, and aborted by the shutdown hook
pub data Acceptor : Type 0 where
  acquiring accepting aborted : Acceptor

pub record Server : Type 0 where
  pub permits : ℕ
  pub active_connections : ℕ
  pub acceptor : Acceptor
  -- The number of the streams that are not dropped
  pub live : ℕ

-- `ConnectionLimitLayer::new` and `ConnectionMetricsLayer::new`
unfoldable pub new : InstallConfig → Server
new config = record {
  permits = max_connections config.server;
  active_connections = 0;
  acceptor = acquiring;
  live = 0;
}

-- `ConnectionLimitService::call` up to the permit
unfoldable pub acquire : Server → Server
acquire s = record s { permits = s.permits - 1; acceptor = accepting }

-- The rest of it, with `ConnectionMetricsService::call`; the stream is handed to a task of its own.
unfoldable pub accept : Server → Server
accept s = record s {
  active_connections = s.active_connections + 1;
  acceptor = acquiring;
  live = s.live + 1;
}

-- A stream is dropped: `dec` of the counter, and the permit
unfoldable pub close : Server → Server
close s = record s {
  permits = s.permits + 1;
  active_connections = s.active_connections - 1;
  live = s.live - 1;
}

-- `handle.abort()`, which drops the permit that the task may have
abbrev pub released : Acceptor → ℕ
released acquiring = 0
released accepting = 1
released aborted = 0

unfoldable pub abort : Server → Server
abort s = record s { permits = s.permits + released s.acceptor; acceptor = aborted }

pub data Step (s : Server) : Server → Type 0 where
  acquires : {n : ℕ} → s.acceptor ≡ acquiring → s.permits ≡ suc n → Step s (acquire s)
  accepts : s.acceptor ≡ accepting → Step s (accept s)
  closes : {n : ℕ} → s.live ≡ suc n → Step s (close s)
  aborts : Step s (abort s)

pub data Reach (config : InstallConfig) : Server → Type 0 where
  starts : Reach config (new config)
  then_step : {s t : Server} → Reach config s → Step s t → Reach config t
