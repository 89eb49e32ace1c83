-- ===== src/ByteBuffer/Tests.antt =====
-- witchcraft-server/src/logging/logger/byte_buffer.rs: the unit tests `simple_writes` and
-- `failed_flushes`, and the theorems at concrete inputs.
use witchcraft_rust_server.Common.{
  ℕ, ◌≡◌, refl, true, false, Option, none, some, List, [], ◌∷◌, ◌++◌, arith,
}
use witchcraft_rust_server.Poll.{ok, err, ready, Sink, SinkLaws}
use witchcraft_rust_server.ByteBuffer.{
  Payload, BufBytesSink, answer_all, poll_ready, closing, poll, buf_bytes_sink,
}
use witchcraft_rust_server.ByteBuffer.Capacity.{Fits}
use witchcraft_rust_server.ByteBuffer.Callbacks.{callbacks, poll-callbacks}
use witchcraft_rust_server.ByteBuffer.Answers.{poll_ready-acknowledges_early}

-- `Vec<Bytes>` as a sink, here of one list of bytes
vec_sink : Sink (List ℕ) (List ℕ) (Unit {0})
vec_sink = record {
  poll_ready = λ s. (s, ready ok);
  start_send = λ s item. (s ++ item, ok);
  poll_flush = λ s. (s, ready ok);
  poll_close = λ s. (s, ready ok);
}

vec_laws : SinkLaws vec_sink
unfolding vec_sink
vec_laws = record {
  IsReady = λ _. Unit;
  accepted = λ s. s;
  ready_when_ok = λ s h. tt;
  accepted-poll_ready = λ s h. refl;
  accepted-start_send = λ s item r h. refl;
  accepted-poll_flush = λ s h. refl;
  accepted-poll_close = λ s h. refl;
}

-- `FailingSink`
failing_sink : Sink (List ℕ) (List ℕ) (Unit {0})
failing_sink = record {
  poll_ready = λ s. (s, ready ok);
  start_send = λ s item. (s, ok);
  poll_flush = λ s. (s, ready (err tt));
  poll_close = λ s. (s, ready (err tt));
}

abbrev line : List ℕ → Option ℕ → Payload (List ℕ)
line value cb = record { value = value; cb = cb }

-- Four bytes in a buffer of five, with a pending write that no longer fits.
abbrev filled : BufBytesSink (List ℕ) ℕ
filled = record {
  buf = 97 ∷ 97 ∷ 97 ∷ 97 ∷ [];
  pending_cbs = 1 ∷ [];
  pending_write = some (line (99 ∷ 99 ∷ []) (some 2));
  needs_flush = false;
  limit = 5;
  inner = [];
  answered = [];
}

filled_ready : poll_ready vec_sink filled ≡ (
  record {
    buf = 99 ∷ 99 ∷ [];
    pending_cbs = [];
    pending_write = none;
    needs_flush = false;
    limit = 5;
    inner = 97 ∷ 97 ∷ 97 ∷ 97 ∷ [];
    answered = (1, true) ∷ (2, true) ∷ [];
  },
  ready ok,
)
unfolding buf_bytes_sink vec_sink answer_all
filled_ready = refl

filled-Fits : Fits 5 filled
filled-Fits = record { same_limit = refl; within = omega arith }

poll-callbacks_example : callbacks (poll failing_sink closing filled).0 ≡ callbacks filled
poll-callbacks_example = poll-callbacks failing_sink closing filled

poll_ready-acknowledges_early_example :
    let s' = (poll_ready vec_sink filled).0 in
    (s'.answered ≡ [] ++ answer_all true (1 ∷ 2 ∷ []))
    × (s'.buf ≡ 99 ∷ 99 ∷ [])
    × (s'.inner ≡ 97 ∷ 97 ∷ 97 ∷ 97 ∷ [])
unfolding vec_sink
poll_ready-acknowledges_early_example =
    poll_ready-acknowledges_early vec_sink filled (line (99 ∷ 99 ∷ []) (some 2)) [] _ _ refl
      (omega arith) (omega arith) (λ e. cc) refl refl refl
