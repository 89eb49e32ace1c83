-- ===== src/AsyncAppender/Interleaving.antt =====
-- witchcraft-server/src/logging/logger/async.rs: callers, the runtime and the worker in any order.
use witchcraft_rust_server.Common.{
  ℕ, ◌≤◌, ◌≡◌, ◌≢◌, refl, sym, ◌∙◌, true, false, Option, none, some, List, [], ◌∷◌, ◌++◌, length,
  append-nil, arith, is_empty, is_some,
}
use witchcraft_rust_server.Poll.{ok, ready, Sink}
use witchcraft_rust_server.ByteBuffer.{Payload}
use witchcraft_rust_server.AsyncAppender.{
  idle, done, Appender, new, start_close, try_send, poll_ready, start_send, poll_flush, poll_close,
  poll_shutdown, queue_limit, step, is_ready,
}
use witchcraft_rust_server.AsyncAppender.Invariant.{
  Inv, Fine, new-Inv, push-Inv, start_close-Inv, store_writer-Inv, step-Fine, in_hand,
}

module _ {S T E : Type 0} (sink : Sink S (Payload T) E) (worker : ℕ) where
  -- What can happen next. A caller sends through the `Sink` only after a `poll_ready` that found
  -- room, and no other caller came between: the appender stands behind a lock there.
  pub data Acts : Appender S T → Appender S T → Type 0 where
    works : (a b : Appender S T) → step sink worker a ≡ some b → Acts a b
    tries : (a : Appender S T) (item : Payload T) → Acts a (try_send item a).0
    readies : (a : Appender S T) (task : ℕ) → Acts a (poll_ready task a).0
    sends :
        (a : Appender S T) (item : Payload T)
        → is_ready a.state ≡ true
        → Acts a (start_send item a).0
    flushes : (a : Appender S T) (task : ℕ) → Acts a (poll_flush task a).0
    closes : (a : Appender S T) (task : ℕ) → Acts a (poll_close task a).0
    drops : (a : Appender S T) → Acts a (start_close a)
    shuts_down : (a : Appender S T) → Acts a (poll_shutdown a).0

  pub data Reach (a : Appender S T) : Appender S T → Type 0 where
    here : Reach a a
    next : {b c : Appender S T} → Reach a b → Acts b c → Reach a c

  try_send-Inv : (item : Payload T) (a : Appender S T) → Inv a → Inv (try_send item a).0
  unfolding try_send
  try_send-Inv item a h = ground (arith, push-Inv item a h)

  start_send-Inv :
      (item : Payload T) (a : Appender S T)
      → is_ready a.state ≡ true
      → Inv a
      → Inv (start_send item a).0
  unfolding start_send
  start_send-Inv item a r h = ground (arith, push-Inv item a h)

  poll_ready-Inv : (task : ℕ) (a : Appender S T) → Inv a → Inv (poll_ready task a).0
  unfolding poll_ready
  poll_ready-Inv task a h = ground (arith, store_writer-Inv task a h)

  poll_flush-Inv : (task : ℕ) (a : Appender S T) → Inv a → Inv (poll_flush task a).0
  unfolding poll_flush
  poll_flush-Inv task a h = ground (arith, store_writer-Inv task a h)

  poll_close-Inv : (task : ℕ) (a : Appender S T) → Inv a → Inv (poll_close task a).0
  unfolding poll_close
  poll_close-Inv task a h = poll_flush-Inv task (start_close a) (start_close-Inv a h)

  Fine-some : (o : Option (Appender S T)) (b : Appender S T) → o ≡ some b → Fine o → Inv b
  Fine-some o b e f = rw e at f

  Acts-Inv : {a b : Appender S T} → Acts a b → Inv a → Inv b
  Acts-Inv (works a b e) h = Fine-some (step sink worker a) b e (step-Fine sink worker a h)
  Acts-Inv (tries a item) h = try_send-Inv item a h
  Acts-Inv (readies a task) h = poll_ready-Inv task a h
  Acts-Inv (sends a item r) h = start_send-Inv item a r h
  Acts-Inv (flushes a task) h = poll_flush-Inv task a h
  Acts-Inv (closes a task) h = poll_close-Inv task a h
  Acts-Inv (drops a) h = start_close-Inv a h
  Acts-Inv (shuts_down a) h = unfold poll_shutdown in start_close-Inv a h

  pub Reach-Inv : (inner : S) {a : Appender S T} → Reach (new inner) a → Inv a
  Reach-Inv inner here = new-Inv inner
  Reach-Inv inner (next r s) = Acts-Inv s (Reach-Inv inner r)

  ne_none : (o : Option (Appender S T)) → Fine o → o ≢ none
  ne_none none f e = f
  ne_none (some b) f e = cc

  -- Whatever callers, the runtime, the worker and the inner sink have done, in any order: the
  -- `unwrap` in the worker's next step does not panic, and the queue is within its limit.
  pub step_no_panic :
      (inner : S) {a : Appender S T}
      → Reach (new inner) a
      → (step sink worker a ≢ none) × (length a.state.queue ≤ queue_limit)
  step_no_panic inner {a} r =
      let h = Reach-Inv inner r in
      (ne_none (step sink worker a) (step-Fine sink worker a h), h.bounded)

  -- The items accepted are those handed to the inner sink, then the one that the worker holds, then
  -- the queue, in the order in which they were accepted: none is lost, repeated or overtaken.
  pub fifo :
      (inner : S) {a : Appender S T}
      → Reach (new inner) a
      → a.accepted ≡ a.handed ++ (in_hand a.pc ++ a.state.queue)
  fifo inner r = (Reach-Inv inner r).fifo

  list_of_empty : (xs : List (Payload T)) → is_empty xs ≡ true → xs ≡ []
  list_of_empty [] h = refl
  list_of_empty (x ∷ xs) h = cc

  -- Where `flushed` is set, as it is where `poll_flush` answers `Ready`, everything accepted has been
  -- handed on, and the inner sink has answered a flush since the last item.
  pub flushed_complete :
      (inner : S) {a : Appender S T} (task : ℕ)
      → Reach (new inner) a
      → (poll_flush task a).1 ≡ ready ok
      → (a.handed ≡ a.accepted) × (a.state.queue ≡ []) × (a.since_flush ≡ [])
  unfolding poll_flush
  flushed_complete inner {a} task r e =
      let h = Reach-Inv inner r in
      let f : a.state.flushed ≡ true = ground arith in
      let q = list_of_empty a.state.queue (h.flushed_empty f) in
      (sym (h.fifo ∙ rw (h.flushed_hand f, q) (append-nil a.handed)), q, h.flushed_all f)

  -- No wake-up is lost: a worker that sleeps with nothing to do, and that nothing has woken, has an
  -- empty queue, owes no flush, is not to close, and has left its waker.
  pub no_lost_wakeup :
      (inner : S) {a : Appender S T}
      → Reach (new inner) a
      → a.pc ≡ idle
      → a.woken ≡ false
      → (a.state.queue ≡ [])
        × (a.state.flushed ≡ true)
        × (a.state.closed ≡ false)
        × (is_some a.state.read_waker ≡ true)
  no_lost_wakeup inner {a} r p w =
      let (q, f, c, k) = (Reach-Inv inner r).idle_awake (rw p) w in
      (list_of_empty a.state.queue q, f, c, k)

  -- When the shutdown hook is done, the appender is closed, and everything that it ever accepted has
  -- been handed on and flushed.
  pub shutdown_complete :
      (inner : S) {a : Appender S T}
      → Reach (new inner) a
      → a.pc ≡ done
      → (a.state.closed ≡ true) × (a.handed ≡ a.accepted) × (a.since_flush ≡ [])
  unfolding poll_flush
  shutdown_complete inner {a} r p =
      let (c, f) = (Reach-Inv inner r).finishing (rw p) in
      let (all, _, since) = flushed_complete inner 0 r (rw f) in (c, all, since)
