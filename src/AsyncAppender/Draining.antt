-- ===== src/AsyncAppender/Draining.antt =====
-- witchcraft-server/src/logging/logger/async.rs: the worker empties the queue, and a closed appender
-- takes nothing more.
use witchcraft_rust_server.Common.{
  ℕ, zero, suc, ◌*◌, ◌≡◌, ◌≢◌, refl, sym, ◌∙◌, true, Option, none, some, List, [], ◌∷◌, ◌++◌,
  length, append_assoc, append-nil, arith,
}
use witchcraft_rust_server.Poll.{pending, Sink}
use witchcraft_rust_server.ByteBuffer.{Payload}
use witchcraft_rust_server.AsyncAppender.{
  looping, calling_ready, sending, Appender, start_close, try_send, poll_ready, start_send,
  poll_flush, poll_close, poll_shutdown, step, wake_writer, step_send,
}
use witchcraft_rust_server.AsyncAppender.Interleaving.{
  Acts, works, tries, readies, sends, flushes, closes, drops, shuts_down, Reach, here, next,
}

module _ {S T E : Type 0} (sink : Sink S (Payload T) E) (worker : ℕ) where
  -- Steps of the worker with no other action between; `none` is a panic.
  pub run : ℕ → Appender S T → Option (Appender S T)
  run zero a = some a
  run (suc n) a = elim (step sink worker a) [ none ↦ none | some b ↦ run n b ]

  run-suc : (n : ℕ) (a b : Appender S T) → step sink worker a ≡ some b → run (suc n) a ≡ run n b
  unfolding run
  run-suc n a b e = rw (e, run)

  module _ (is_quick : (s : S) → (sink.poll_ready s).1 ≢ pending) where
    abbrev popped : Payload T → List (Payload T) → Appender S T → Appender S T
    popped item rest a = wake_writer (record a {
      state = record (a.state) { queue = rest };
      inner = (sink.poll_ready a.inner).0;
      pc = sending item;
    })

    step_to_ready :
        (a : Appender S T) (item : Payload T) (rest : List (Payload T))
        → a.pc ≡ looping
        → a.state.queue ≡ item ∷ rest
        → step sink worker a ≡ some (record a { pc = calling_ready })
    unfolding step
    step_to_ready a item rest p q = ground arith

    step_to_send :
        (a : Appender S T) (item : Payload T) (rest : List (Payload T))
        → a.state.queue ≡ item ∷ rest
        → step sink worker (record a { pc = calling_ready }) ≡ some (popped item rest a)
    unfolding step
    step_to_send a item rest q = ground (arith, is_quick a.inner)

    step_to_loop :
        (a : Appender S T) (item : Payload T)
        → a.pc ≡ sending item
        → step sink worker a ≡ some (step_send sink item a)
    unfolding step
    step_to_loop a item p = ground arith

    popped_pc :
        (a : Appender S T) (item : Payload T) (rest : List (Payload T))
        → (popped item rest a).pc ≡ sending item
    unfolding wake_writer
    popped_pc a item rest = ground arith

    after_item :
        (a : Appender S T) (item : Payload T) (rest : List (Payload T))
        → let b = step_send sink item (popped item rest a) in
          (b.pc ≡ looping) × (b.state.queue ≡ rest) × (b.handed ≡ a.handed ++ (item ∷ []))
    unfolding step_send wake_writer
    after_item a item rest = ground arith

    three_steps :
        (n : ℕ) (a : Appender S T) (item : Payload T) (rest : List (Payload T))
        → a.pc ≡ looping
        → a.state.queue ≡ item ∷ rest
        → run (suc (suc (suc n))) a ≡ run n (step_send sink item (popped item rest a))
    three_steps n a item rest p q =
        run-suc (suc (suc n)) a _ (step_to_ready a item rest p q)
        ∙ run-suc (suc n) _ _ (step_to_send a item rest q)
        ∙ run-suc n _ _ (step_to_loop (popped item rest a) item (popped_pc a item rest))

    drain_list :
        (queue : List (Payload T)) (a : Appender S T)
        → a.pc ≡ looping
        → a.state.queue ≡ queue
        → (b : Appender S T) × (run (length queue * 3) a ≡ some b)
          × (b.pc ≡ looping)
          × (b.state.queue ≡ [])
          × (b.handed ≡ a.handed ++ queue)
    unfolding run
    drain_list [] a p q = (a, refl, p, q, sym (append-nil a.handed))
    drain_list (item ∷ rest) a p q =
        let (p', q', h') = after_item a item rest in
        let (b, e, pb, qb, hb) = drain_list rest (step_send sink item (popped item rest a)) p' q' in
        (
          b,
          rw (three (length rest)) (three_steps (length rest * 3) a item rest p q ∙ e),
          pb,
          qb,
          hb ∙ rw h' (append_assoc a.handed (item ∷ []) rest),
        )
      where
        three : (n : ℕ) → suc n * 3 ≡ suc (suc (suc (n * 3)))
        three n = omega arith

    -- Where the inner sink always answers `poll_ready` at once, with or without an error, and no other
    -- action comes between, the worker hands every item of the queue to it, in order, in three steps
    -- for each item.
    pub drain :
        (a : Appender S T)
        → a.pc ≡ looping
        → (b : Appender S T) × (run (length a.state.queue * 3) a ≡ some b)
          × (b.pc ≡ looping)
          × (b.state.queue ≡ [])
          × (b.handed ≡ a.handed ++ a.state.queue)
    drain a p = drain_list a.state.queue a p refl

  -- What a closed appender keeps.
  record Same (a b : Appender S T) : Type 0 where
    still_closed : b.state.closed ≡ true
    same_accepted : b.accepted ≡ a.accepted

  start_close-Same : (a : Appender S T) → a.state.closed ≡ true → Same a (start_close a)
  unfolding start_close
  start_close-Same a h = ground arith

  poll_flush-Same :
      (task : ℕ) (a : Appender S T) → a.state.closed ≡ true → Same a (poll_flush task a).0
  unfolding poll_flush
  poll_flush-Same task a h = ground arith

  step-Same : (a b : Appender S T) → a.state.closed ≡ true → step sink worker a ≡ some b → Same a b
  unfolding step
  step-Same a b h e = ground arith

  Acts-Same : {a b : Appender S T} → Acts sink worker a b → a.state.closed ≡ true → Same a b
  unfolding try_send poll_ready start_send poll_close poll_shutdown
  Acts-Same (works a b e) h = step-Same a b h e
  Acts-Same (tries a item) h = ground arith
  Acts-Same (readies a task) h = ground arith
  Acts-Same (sends a item r) h = ground arith
  Acts-Same (flushes a task) h = poll_flush-Same task a h
  Acts-Same (closes a task) h =
      let c = start_close-Same a h in
      let f = poll_flush-Same task (start_close a) c.still_closed in
      record { still_closed = f.still_closed; same_accepted = f.same_accepted ∙ c.same_accepted }
  Acts-Same (drops a) h = start_close-Same a h
  Acts-Same (shuts_down a) h = start_close-Same a h

  -- Once the appender is closed it stays closed and accepts nothing more, whatever follows.
  pub closed_final :
      {a b : Appender S T}
      → Reach sink worker a b
      → a.state.closed ≡ true
      → (b.state.closed ≡ true) × (b.accepted ≡ a.accepted)
  closed_final here h = (h, refl)
  closed_final (next r s) h =
      let (c, same) = closed_final r h in
      let f = Acts-Same s c in (f.still_closed, f.same_accepted ∙ same)
