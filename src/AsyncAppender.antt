-- ===== src/AsyncAppender.antt =====
-- witchcraft-server/src/logging/logger/async.rs: `AsyncAppender`, a bounded queue that callers fill
-- and a worker task empties into the inner sink. A method of the appender runs under the lock, so it
-- is one step. `WorkerFuture::poll` gives the lock up round each call of the inner sink, so it is a
-- sequence of steps, between which callers may act: `pc` says which call comes next. A waker is the
-- number of its task. `accepted`, `handed` and `since_flush` record what happened; the code does not
-- read them.
pub mod Invariant
pub mod Interleaving
pub mod Draining
mod Tests
use witchcraft_rust_server.Common.{
  ℕ, ◌+◌, Bool, true, false, not, ◌&&◌, ◌||◌, Option, none, some, List, [], ◌∷◌, ◌++◌, ltb, leb,
  ◌==◌, if◌then◌else◌, length, is_empty,
}
use witchcraft_rust_server.Poll.{Result, ok, err, Poll, pending, ready, Sink}
use witchcraft_rust_server.ByteBuffer.{Payload}

abbrev pub queue_limit : ℕ
queue_limit = 10000

pub record State (T : Type 0) : Type 0 where
  pub queue : List (Payload T)
  pub write_waker : Option ℕ
  pub read_waker : Option ℕ
  pub flushed : Bool
  pub closed : Bool

-- Where the worker is: at the head of the loop with the lock; about to call the inner sink, with the
-- lock given up; holding an item that it has popped; returned `Pending` from such a call; returned
-- `Pending` because there is nothing to do; or finished.
pub data Pc (T : Type 0) : Type 0 where
  looping calling_ready calling_flush calling_close waiting idle done : Pc T
  sending : Payload T → Pc T

-- The appender, its worker and what the runtime knows of them: `woken` says that the worker will be
-- polled again, and `wakes` lists the other tasks woken, newest first.
pub record Appender (S T : Type 0) : Type 0 where
  pub state : State T
  pub inner : S
  pub pc : Pc T
  pub woken : Bool
  pub wakes : List ℕ
  pub accepted : List (Payload T)
  pub handed : List (Payload T)
  pub since_flush : List (Payload T)

-- `AsyncAppender::new`: the worker is spawned, so it will be polled.
unfoldable pub new : {S T : Type 0} → S → Appender S T
new inner = record {
  state = record {
    queue = [];
    write_waker = none;
    read_waker = none;
    flushed = true;
    closed = false;
  };
  inner = inner;
  pc = idle;
  woken = true;
  wakes = [];
  accepted = [];
  handed = [];
  since_flush = [];
}

-- `Closed` is the only error, so it has no name here.
abbrev pub closed_error : Poll (Result (Unit {0}))
closed_error = ready (err tt)

module _ {T : Type 0} where
  -- `State::ready`
  abbrev pub is_ready : State T → Bool
  is_ready s = ltb (length s.queue) queue_limit

  -- `state.queue.pop_front().unwrap()`: `none` is the panic
  pop_front : List (Payload T) → Option (Payload T × List (Payload T))
  pop_front [] = none
  pop_front (item ∷ rest) = some (item, rest)

module _ {S T : Type 0} where
  -- `if let Some(waker) = state.read_waker.take() { waker.wake(); }`; only the worker stores one
  wake_reader : Appender S T → Appender S T
  wake_reader a = elim a.state.read_waker [
    | none ↦ a
    | some _ ↦ record a { state = record (a.state) { read_waker = none }; woken = true }
  ]

  wake_writer : Appender S T → Appender S T
  wake_writer a = elim a.state.write_waker [
    | none ↦ a
    | some w ↦ record a { state = record (a.state) { write_waker = none }; wakes = w ∷ a.wakes }
  ]

  -- `State::start_send`
  pub push : Payload T → Appender S T → Appender S T
  unfolding wake_reader
  push item a = wake_reader (record a {
    state = record (a.state) { queue = a.state.queue ++ (item ∷ []); flushed = false };
    accepted = a.accepted ++ (item ∷ []);
  })

  -- `State::start_close`, and the `drop` of the appender
  pub start_close : Appender S T → Appender S T
  unfolding wake_reader wake_writer
  start_close a =
      if a.state.closed
      then a
      else wake_writer (wake_reader (record a { state = record (a.state) { closed = true } }))

  -- `true` for `Ok(())`, `false` for `Err(item)`
  pub try_send : Payload T → Appender S T → Appender S T × Bool
  unfolding push
  try_send item a =
      if a.state.closed || not (is_ready a.state) then (a, false) else (push item a, true)

  -- `state.write_waker = Some(cx.waker().clone())`, unless it would wake the same task
  pub store_writer : ℕ → Appender S T → Appender S T
  store_writer task a = record a { state = record (a.state) { write_waker = some task } }

  pub poll_ready : ℕ → Appender S T → Appender S T × Poll (Result (Unit {0}))
  unfolding store_writer
  poll_ready task a =
      if a.state.closed
      then (a, closed_error)
      else (if is_ready a.state then (a, ready ok) else (store_writer task a, pending))

  pub start_send : Payload T → Appender S T → Appender S T × Result (Unit {0})
  unfolding push
  start_send item a = if a.state.closed then (a, err tt) else (push item a, ok)

  pub poll_flush : ℕ → Appender S T → Appender S T × Poll (Result (Unit {0}))
  unfolding store_writer
  poll_flush task a = if a.state.flushed then (a, ready ok) else (store_writer task a, pending)

  pub poll_close : ℕ → Appender S T → Appender S T × Poll (Result (Unit {0}))
  unfolding start_close poll_flush
  poll_close task a = poll_flush task (start_close a)

  -- `ShutdownFuture::poll` closes the appender, then waits for the worker to finish.
  pub poll_shutdown : Appender S T → Appender S T × Poll (Result (Unit {0}))
  unfolding start_close
  poll_shutdown a = (start_close a, elim (start_close a).pc [ done ↦ ready ok | _ ↦ pending ])

  -- The head of the loop, and what follows it when the queue is empty.
  step_looping : ℕ → Appender S T → Appender S T
  step_looping worker a =
      if is_empty a.state.queue
      then (let b : Appender S T = record a {
        state = record (a.state) { read_waker = some worker };
      } in
          if not a.state.flushed
          then record b { pc = calling_flush }
          else (if a.state.closed then record b { pc = calling_close } else record b { pc = idle }))
      else record a { pc = calling_ready }

  -- After the inner sink's `poll_flush`: `flushed` is set only if the queue is still empty.
  after_flush : Appender S T → Appender S T
  unfolding wake_writer
  after_flush a =
      let b : Appender S T =
        if is_empty a.state.queue
        then wake_writer (record a { state = record (a.state) { flushed = true } })
        else a in
      if b.state.flushed && b.state.closed
      then record b { pc = calling_close }
      else record b { pc = idle }

  pop_answered : Appender S T → Option (Payload T × List (Payload T)) → Option (Appender S T)
  unfolding wake_writer
  pop_answered a none = none
  pop_answered a (some (item, rest)) =
      some (wake_writer (record a { state = record (a.state) { queue = rest }; pc = sending item }))

  -- An error of the inner sink is dropped: the worker goes on as after a success.
  ready_answered : {E : Type 0} → Appender S T → Poll (Result E) → Option (Appender S T)
  unfolding pop_answered pop_front
  ready_answered a pending = some (record a { pc = waiting })
  ready_answered a (ready _) = pop_answered a (pop_front a.state.queue)

  flush_answered : {E : Type 0} → Appender S T → Poll (Result E) → Appender S T
  unfolding after_flush
  flush_answered a pending = record a { pc = waiting }
  flush_answered a (ready _) = after_flush (record a { since_flush = [] })

module _ {S T E : Type 0} (sink : Sink S (Payload T) E) where
  -- The call of `poll_ready` and, if it is ready, with or without an error, the pop of the next item.
  step_ready : Appender S T → Option (Appender S T)
  unfolding ready_answered
  step_ready a =
      let (inner, poll) = sink.poll_ready a.inner in
      ready_answered (record a { inner = inner }) poll

  step_flush : Appender S T → Appender S T
  unfolding flush_answered
  step_flush a =
      let (inner, poll) = sink.poll_flush a.inner in
      flush_answered (record a { inner = inner }) poll

  step_close : Appender S T → Appender S T
  step_close a =
      let (inner, poll) = sink.poll_close a.inner in
      let b : Appender S T = record a { inner = inner } in
      elim poll [ pending ↦ record b { pc = waiting } | ready _ ↦ record b { pc = done } ]

  -- `let _ = this.inner.as_mut().start_send(value);`
  step_send : Payload T → Appender S T → Appender S T
  step_send item a = record a {
    inner = (sink.start_send a.inner item).0;
    pc = looping;
    handed = a.handed ++ (item ∷ []);
    since_flush = a.since_flush ++ (item ∷ []);
  }

  step_at : ℕ → Pc T → Appender S T → Option (Appender S T)
  unfolding step_looping step_ready step_flush step_close step_send pop_front
  step_at worker looping a = some (step_looping worker a)
  step_at worker calling_ready a = step_ready a
  step_at worker calling_flush a = some (step_flush a)
  step_at worker calling_close a = some (step_close a)
  step_at worker (sending item) a = some (step_send item a)
  step_at worker waiting a = some (record a { pc = looping; woken = false })
  step_at worker idle a = some (record a { pc = looping; woken = false })
  step_at worker done a = some a

  -- One step of the worker, whose task is `worker`; `none` is a panic. From `waiting` or `idle` the
  -- step is a new poll by the runtime.
  pub step : ℕ → Appender S T → Option (Appender S T)
  unfolding step_at
  step worker a = step_at worker a.pc a
