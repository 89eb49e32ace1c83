-- ===== src/AsyncAppender/Tests.antt =====
-- witchcraft-server/src/logging/logger/async.rs: the theorems along a run with one item.
use witchcraft_rust_server.Common.{
  ℕ, zero, suc, ◌≡◌, ◌≢◌, refl, true, false, Option, none, some, [], ◌++◌, is_some,
}
use witchcraft_rust_server.Poll.{ok, err, pending, ready, Sink}
use witchcraft_rust_server.ByteBuffer.{Payload}
use witchcraft_rust_server.AsyncAppender.{Appender, new, try_send, start_close, step}
use witchcraft_rust_server.AsyncAppender.Invariant.{in_hand}
use witchcraft_rust_server.AsyncAppender.Interleaving.{
  Reach, here, next, works, tries, drops, fifo, no_lost_wakeup,
}

-- A sink that takes every item, with an error each time.
counting_sink : Sink ℕ (Payload ℕ) (Unit {0})
counting_sink = record {
  poll_ready = λ s. (s, ready (err tt));
  start_send = λ s item. (suc s, err tt);
  poll_flush = λ s. (s, ready ok);
  poll_close = λ s. (s, ready ok);
}

abbrev item : Payload ℕ
item = record { value = 5; cb = none }

start : Appender ℕ ℕ
start = new 0

sent_one : Appender ℕ ℕ
sent_one = (try_send item start).0

-- The appender after `n` steps of the worker.
after : ℕ → Appender ℕ ℕ → Appender ℕ ℕ
after zero a = a
after (suc n) a = elim (step counting_sink 1 a) [ none ↦ a | some b ↦ after n b ]

steps-Reach :
    (n : ℕ) (a b : Appender ℕ ℕ) → Reach counting_sink 1 a b → Reach counting_sink 1 a (after n b)
unfolding after
steps-Reach zero a b r = r
steps-Reach (suc n) a b r = go (λ c s. steps-Reach n a c s) (step counting_sink 1 b) refl
  where
    go :
        ((c : Appender ℕ ℕ) → Reach counting_sink 1 a c → Reach counting_sink 1 a (after n c))
        → (o : Option (Appender ℕ ℕ)) → step counting_sink 1 b ≡ o
        → Reach counting_sink 1 a (elim o [ none ↦ b | some c ↦ after n c ])
    go rest none e = r
    go rest (some c) e = rest c (next r (works b c e))

sent-Reach : Reach counting_sink 1 (new 0) sent_one
unfolding sent_one start
sent-Reach = next here (tries (new 0) item)

fifo_example :
    (after 3 sent_one).accepted
    ≡ (after 3 sent_one).handed ++ (in_hand (after 3 sent_one).pc ++ (after 3 sent_one).state.queue)
fifo_example = fifo counting_sink 1 0 (steps-Reach 3 (new 0) sent_one sent-Reach)

no_lost_wakeup_example :
    ((after 6 sent_one).state.queue ≡ [])
    × ((after 6 sent_one).state.flushed ≡ true)
    × ((after 6 sent_one).state.closed ≡ false)
    × (is_some (after 6 sent_one).state.read_waker ≡ true)
unfolding after sent_one start new try_send step counting_sink
no_lost_wakeup_example =
    no_lost_wakeup counting_sink 1 0 (steps-Reach 6 (new 0) sent_one sent-Reach) refl refl

closed_one : Appender ℕ ℕ
closed_one = start_close (after 6 sent_one)

closed-Reach : Reach counting_sink 1 (new 0) closed_one
unfolding closed_one
closed-Reach = next (steps-Reach 6 (new 0) sent_one sent-Reach) (drops (after 6 sent_one))

quick : (s : ℕ) → (counting_sink.poll_ready s).1 ≢ pending
unfolding counting_sink
quick s e = cc
