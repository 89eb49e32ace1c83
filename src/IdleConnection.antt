-- ===== src/IdleConnection.antt =====
-- witchcraft-server/src/service/idle_connection.rs: a connection without requests for some time is
-- shut down. Each operation of `Shared` runs under its lock, so it is one step. A waker is the number
-- of its task; `woken` lists the tasks woken. The timer is done where the time has come to `deadline`.
pub mod Timeout
mod Tests
use witchcraft_rust_server.Common.{
  ℕ, suc, ◌+◌, ◌-◌, ◌≡◌, ◌≤◌, Bool, true, false, Option, none, some, List, [], ◌∷◌, if◌then◌else◌,
  leb, ◌==◌,
}

pub data Mode : Type 0 where
  active : ℕ → Mode
  idle : Mode
  shutting_down : Mode

pub record State : Type 0 where
  pub mode : Mode
  pub waker : Option ℕ
  pub deadline : ℕ
  pub idle_timeout : ℕ
  pub woken : List ℕ

-- `IdleConnectionService::call`
unfoldable pub new : ℕ → ℕ → State
new idle_timeout now = record {
  mode = idle;
  waker = none;
  deadline = now + idle_timeout;
  idle_timeout = idle_timeout;
  woken = [];
}

abbrev has_elapsed : Mode → ℕ → ℕ → Bool
has_elapsed idle deadline now = leb deadline now
has_elapsed (active n) deadline now = false
has_elapsed shutting_down deadline now = false

-- The new state, and whether the answer is Ready
unfoldable pub poll_timed_out : ℕ → ℕ → State → State × Bool
poll_timed_out task now s = (record s { waker = some task }, has_elapsed s.mode s.deadline now)

unfoldable pub graceful_shutdown : State → State
graceful_shutdown s = record s { mode = shutting_down }

-- `IdleConnectionFuture::poll`, up to the poll of the inner future
unfoldable pub poll : ℕ → ℕ → State → State
unfolding poll_timed_out graceful_shutdown
poll task now s =
    let (s', timed_out) = poll_timed_out task now s in
    if timed_out then graceful_shutdown s' else s'

abbrev inc : Mode → Mode
inc (active num) = active (num + 1)
inc idle = active 1
inc shutting_down = shutting_down

unfoldable pub inc_active : State → State
inc_active s = record s { mode = inc s.mode }

abbrev wake : State → State
wake s = elim s.waker [ none ↦ s | some w ↦ record s { waker = none; woken = w ∷ s.woken } ]

abbrev go_idle : ℕ → State → State
go_idle now s = wake (record s { mode = idle; deadline = now + s.idle_timeout })

unfoldable pub dec_active : ℕ → State → State
dec_active now s = elim s.mode [
  | active num ↦ if (num - 1) == 0 then go_idle now s else record s { mode = active (num - 1) }
  | idle ↦ s
  | shutting_down ↦ s
]

-- A connection at a time, with its requests that are not done and when the last one ended: requests
-- start and end, the future is polled, and the server may shut the connection down.
pub data Reach (idle_timeout start : ℕ) : State → ℕ → ℕ → ℕ → Type 0 where
  opens : Reach idle_timeout start (new idle_timeout start) start 0 start
  waits :
      {s : State} {now live since : ℕ} (later : ℕ)
      → Reach idle_timeout start s now live since
      → now ≤ later
      → Reach idle_timeout start s later live since
  starts :
      {s : State} {now live since : ℕ}
      → Reach idle_timeout start s now live since
      → Reach idle_timeout start (inc_active s) now (suc live) since
  ends :
      {s : State} {now live since : ℕ}
      → Reach idle_timeout start s now (suc live) since
      → Reach idle_timeout start (dec_active now s) now live now
  polls :
      {s : State} {now live since : ℕ} (task : ℕ)
      → Reach idle_timeout start s now live since
      → Reach idle_timeout start (poll task now s) now live since
  stops :
      {s : State} {now live since : ℕ}
      → Reach idle_timeout start s now live since
      → Reach idle_timeout start (graceful_shutdown s) now live since
