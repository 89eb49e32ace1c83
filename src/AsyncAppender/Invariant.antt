-- ===== src/AsyncAppender/Invariant.antt =====
-- witchcraft-server/src/logging/logger/async.rs: what holds between any two steps.
use witchcraft_rust_server.Common.{
  ℕ, ◌≤◌, ◌<◌, ◌≡◌, refl, Bool, true, false, Option, none, some, List, [], ◌∷◌, ◌++◌, length,
  length-append, append_assoc, arith, is_empty, is_some,
}
use witchcraft_rust_server.Poll.{Result, Poll, pending, ready, Sink}
use witchcraft_rust_server.ByteBuffer.{Payload}
use witchcraft_rust_server.AsyncAppender.{
  Pc, looping, calling_ready, calling_flush, calling_close, waiting, idle, done, sending, Appender,
  new, push, start_close, pop_front, queue_limit, step_looping, after_flush, step_ready, step_flush,
  step_close, step_send, step_at, step, pop_answered, ready_answered, flush_answered, store_writer,
}

-- The item that the worker has popped and not yet handed on.
abbrev pub in_hand : {T : Type 0} → Pc T → List (Payload T)
in_hand (sending item) = item ∷ []
in_hand _ = []

-- The worker is about to finish, or has.
abbrev pub is_finishing : {T : Type 0} → Pc T → Bool
is_finishing calling_close = true
is_finishing done = true
is_finishing _ = false

abbrev pub is_calling_ready : {T : Type 0} → Pc T → Bool
is_calling_ready calling_ready = true
is_calling_ready _ = false

abbrev pub is_calling_flush : {T : Type 0} → Pc T → Bool
is_calling_flush calling_flush = true
is_calling_flush _ = false

abbrev pub is_idle : {T : Type 0} → Pc T → Bool
is_idle idle = true
is_idle _ = false

is_empty-append :
    {T : Type 0} (xs : List (Payload T)) (x : Payload T) → is_empty (xs ++ (x ∷ [])) ≡ false
is_empty-append [] x = refl
is_empty-append (y ∷ ys) x = refl

module _ {S T : Type 0} where
  pub record Inv (a : Appender S T) : Type 0 where
    -- Nothing is lost, repeated or reordered.
    pub fifo : a.accepted ≡ a.handed ++ (in_hand a.pc ++ a.state.queue)
    pub bounded : length a.state.queue ≤ queue_limit
    -- Only the worker pops, so the queue that it saw is still not empty when it pops.
    pub nonempty : is_calling_ready a.pc ≡ true → is_empty a.state.queue ≡ false
    -- `flushed` is set only while all that was accepted has been handed on and flushed since.
    pub flushed_empty : a.state.flushed ≡ true → is_empty a.state.queue ≡ true
    pub flushed_hand : a.state.flushed ≡ true → in_hand a.pc ≡ []
    pub flushed_all : a.state.flushed ≡ true → a.since_flush ≡ []
    pub finishing : is_finishing a.pc ≡ true → (a.state.closed ≡ true) × (a.state.flushed ≡ true)
    -- A worker that sleeps with nothing to wake it has nothing to do.
    pub flush_awake :
        is_calling_flush a.pc ≡ true
        → a.woken ≡ false
        → (is_empty a.state.queue ≡ true) × (is_some a.state.read_waker ≡ true)
    pub idle_awake :
        is_idle a.pc ≡ true
        → a.woken ≡ false
        → (is_empty a.state.queue ≡ true)
          × (a.state.flushed ≡ true)
          × (a.state.closed ≡ false)
          × (is_some a.state.read_waker ≡ true)

  pub new-Inv : (inner : S) → Inv (new inner)
  unfolding new
  new-Inv inner = ground arith

  push-fifo :
      (item : Payload T) (a : Appender S T)
      → a.accepted ≡ a.handed ++ (in_hand a.pc ++ a.state.queue)
      → a.accepted ++ (item ∷ []) ≡ a.handed ++ (in_hand a.pc ++ (a.state.queue ++ (item ∷ [])))
  push-fifo item a h = rw h (simp append_assoc)

  pub push-Inv :
      (item : Payload T) (a : Appender S T)
      → Inv a
      → a.state.closed ≡ false
      → length a.state.queue < queue_limit
      → Inv (push item a)
  unfolding push
  push-Inv item a h o q = ground (
    arith,
    push-fifo item a h.fifo,
    is_empty-append a.state.queue item,
    length-append a.state.queue (item ∷ []),
  )

  pub start_close-Inv : (a : Appender S T) → Inv a → Inv (start_close a)
  unfolding start_close
  start_close-Inv a h = ground arith

  pub store_writer-Inv : (task : ℕ) (a : Appender S T) → Inv a → Inv (store_writer task a)
  unfolding store_writer
  store_writer-Inv task a h = record {
    fifo = h.fifo;
    bounded = h.bounded;
    nonempty = h.nonempty;
    flushed_empty = h.flushed_empty;
    flushed_hand = h.flushed_hand;
    flushed_all = h.flushed_all;
    finishing = h.finishing;
    flush_awake = h.flush_awake;
    idle_awake = h.idle_awake;
  }

  step_looping-Inv :
      (worker : ℕ) (a : Appender S T) → a.pc ≡ looping → Inv a → Inv (step_looping worker a)
  unfolding step_looping
  step_looping-Inv worker a p h = ground arith

  after_flush-Inv :
      (a : Appender S T) → a.pc ≡ calling_flush → Inv a → a.since_flush ≡ [] → Inv (after_flush a)
  unfolding after_flush
  after_flush-Inv a p h e = ground arith

  -- A step that does not panic, and keeps the invariant.
  abbrev pub Fine : Option (Appender S T) → Type 0
  Fine none = ⊥
  Fine (some b) = Inv b

  with_inner-Inv : (inner : S) (a : Appender S T) → Inv a → Inv (record a { inner = inner })
  with_inner-Inv inner a h = record {
    fifo = h.fifo;
    bounded = h.bounded;
    nonempty = h.nonempty;
    flushed_empty = h.flushed_empty;
    flushed_hand = h.flushed_hand;
    flushed_all = h.flushed_all;
    finishing = h.finishing;
    flush_awake = h.flush_awake;
    idle_awake = h.idle_awake;
  }

  waiting-Inv : (a : Appender S T) → in_hand a.pc ≡ [] → Inv a → Inv (record a { pc = waiting })
  waiting-Inv a e h = ground arith

  -- The pop that the source unwraps does not fail: only the worker pops, so the queue that it saw is
  -- still not empty.
  pop_answered-Fine :
      (a : Appender S T) (queue : List (Payload T))
      → a.state.queue ≡ queue
      → a.pc ≡ calling_ready
      → Inv a
      → Fine (pop_answered a (pop_front queue))
  unfolding pop_answered pop_front
  pop_answered-Fine a [] e p h = absurd (ground arith)
  pop_answered-Fine a (item ∷ rest) e p h = ground arith

  ready_answered-Fine :
      {E : Type 0} (a : Appender S T) (poll : Poll (Result E))
      → a.pc ≡ calling_ready
      → Inv a
      → Fine (ready_answered a poll)
  unfolding ready_answered
  ready_answered-Fine a pending p h = waiting-Inv a (ground arith) h
  ready_answered-Fine a (ready r) p h = pop_answered-Fine a a.state.queue refl p h

  flush_answered-Inv :
      {E : Type 0} (a : Appender S T) (poll : Poll (Result E))
      → a.pc ≡ calling_flush
      → Inv a
      → Inv (flush_answered a poll)
  unfolding flush_answered
  flush_answered-Inv a pending p h = waiting-Inv a (ground arith) h
  flush_answered-Inv a (ready r) p h =
      after_flush-Inv (record a { since_flush = [] }) p (forget_flushed a h) refl
    where
      forget_flushed : (a : Appender S T) → Inv a → Inv (record a { since_flush = [] })
      forget_flushed a h = ground arith

module _ {S T E : Type 0} (sink : Sink S (Payload T) E) where
  step_send-Inv :
      (item : Payload T) (a : Appender S T)
      → a.pc ≡ sending item
      → Inv a
      → Inv (step_send sink item a)
  unfolding step_send
  step_send-Inv item a p h = ground (arith, append_assoc a.handed (item ∷ []) a.state.queue)

  step_close-Inv : (a : Appender S T) → a.pc ≡ calling_close → Inv a → Inv (step_close sink a)
  unfolding step_close
  step_close-Inv a p h = ground arith

  polled-Inv :
      (a : Appender S T)
      → in_hand a.pc ≡ []
      → Inv a
      → Inv (record a { pc = looping; woken = false })
  polled-Inv a p h = ground arith

  step_at-Fine :
      (worker : ℕ) (pc : Pc T) (a : Appender S T)
      → a.pc ≡ pc
      → Inv a
      → Fine (step_at sink worker pc a)
  unfolding step_at step_ready step_flush
  step_at-Fine worker looping a p h = step_looping-Inv worker a p h
  step_at-Fine worker calling_ready a p h =
      ready_answered-Fine _ (sink.poll_ready a.inner).1 p (with_inner-Inv _ a h)
  step_at-Fine worker calling_flush a p h =
      flush_answered-Inv _ (sink.poll_flush a.inner).1 p (with_inner-Inv _ a h)
  step_at-Fine worker calling_close a p h = step_close-Inv a p h
  step_at-Fine worker (sending item) a p h = step_send-Inv item a p h
  step_at-Fine worker waiting a p h = polled-Inv a (ground arith) h
  step_at-Fine worker idle a p h = polled-Inv a (ground arith) h
  step_at-Fine worker done a p h = h

  -- A step of the worker never panics, whatever the inner sink answers, and keeps the invariant.
  pub step-Fine : (worker : ℕ) (a : Appender S T) → Inv a → Fine (step sink worker a)
  unfolding step
  step-Fine worker a h = step_at-Fine worker a.pc a refl h
