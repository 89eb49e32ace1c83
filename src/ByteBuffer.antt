-- ===== src/ByteBuffer.antt =====
-- witchcraft-server/src/logging/logger/byte_buffer.rs: `BufBytesSink`, which collects log lines in a
-- buffer of `limit` bytes before it hands them to the inner sink, and answers the callback of each
-- line when the line was flushed. The inner sink is a parameter. A callback, a oneshot sender, is a
-- number, and `answered` holds the answers sent so far: the receivers' ends. `usize` is 64 bits.
pub mod Capacity
pub mod Callbacks
pub mod Answers
pub mod Delivery
pub mod Truth
mod Tests
use witchcraft_rust_server.Common.{
  ℕ, ◌+◌, ◌-◌, ◌^◌, Bool, true, false, Option, none, some, List, [], ◌++◌, ◌∷◌, map, leb, ltb,
  if◌then◌else◌, length, to_list, is_empty,
}
use witchcraft_rust_server.Poll.{Result, ok, err, Poll, pending, ready, ready?, Sink}

-- logging/logger/mod.rs
pub record Payload (T : Type 0) : Type 0 where
  pub value : T
  pub cb : Option ℕ

pub record BufBytesSink (S A : Type 0) : Type 0 where
  pub buf : List A
  pub pending_cbs : List ℕ
  pub pending_write : Option (Payload (List A))
  pub needs_flush : Bool
  pub limit : ℕ
  pub inner : S
  pub answered : List (ℕ × Bool)

pub with_capacity : {S A : Type 0} → ℕ → S → BufBytesSink S A
with_capacity limit inner = record {
  buf = [];
  pending_cbs = [];
  pending_write = none;
  needs_flush = false;
  limit = limit;
  inner = inner;
  answered = [];
}

pub data Polling : Type 0 where
  readying flushing closing : Polling

-- `BufBytesSink::new`
unfoldable pub new : {S A : Type 0} → S → BufBytesSink S A
unfolding with_capacity
new inner = with_capacity 8192 inner

-- `a - b` on `usize`, which wraps in a release build
abbrev pub sub_usize : ℕ → ℕ → ℕ
sub_usize a b = if leb b a then a - b else a + 2 ^ 64 - b

abbrev is_ok : {E : Type 0} → Result E → Bool
is_ok ok = true
is_ok (err _) = false

-- `cb.send(ok)` for each callback
unfoldable pub answer_all : Bool → List ℕ → List (ℕ × Bool)
answer_all answer cbs = map (λ cb. (cb, answer)) cbs

module _ {S A : Type 0} where
  drain_cbs : Bool → BufBytesSink S A → BufBytesSink S A
  drain_cbs answer s = record s {
    pending_cbs = [];
    answered = s.answered ++ answer_all answer s.pending_cbs;
  }

  -- `buf.extend_from_slice(&write.value)`, and `pending_cbs.push(cb)` if there is one
  append_to_buf : Payload (List A) → BufBytesSink S A → BufBytesSink S A
  append_to_buf write s = record s {
    buf = s.buf ++ write.value;
    pending_cbs = s.pending_cbs ++ to_list write.cb;
  }

module _ {S E A : Type 0} (sink : Sink S (List A) E) where
  inner_poll_ready : BufBytesSink S A → BufBytesSink S A × Poll (Result E)
  unfolding drain_cbs
  inner_poll_ready s =
      let (inner, poll) = sink.poll_ready s.inner in
      let s' : BufBytesSink S A = record s { inner = inner } in
      elim poll [
        | ready (err e) ↦ (drain_cbs false s', ready (err e))
        | ready ok ↦ (s', ready ok)
        | pending ↦ (s', pending)
      ]

  inner_poll_flush : BufBytesSink S A → BufBytesSink S A × Poll (Result E)
  unfolding drain_cbs
  inner_poll_flush s =
      let (inner, poll) = sink.poll_flush s.inner in
      let s' : BufBytesSink S A = record s { inner = inner } in
      elim poll [
        | pending ↦ (s', pending)
        | ready result ↦
            (drain_cbs (is_ok result) (record s' { needs_flush = false }), ready result)
      ]

  inner_poll_close : BufBytesSink S A → BufBytesSink S A × Poll (Result E)
  unfolding drain_cbs
  inner_poll_close s =
      let (inner, poll) = sink.poll_close s.inner in
      let s' : BufBytesSink S A = record s { inner = inner } in
      elim poll [
        | pending ↦ (s', pending)
        | ready result ↦ (drain_cbs (is_ok result) s', ready result)
      ]

  inner_start_send : List A → BufBytesSink S A → BufBytesSink S A × Result E
  unfolding drain_cbs
  inner_start_send item s =
      let (inner, result) = sink.start_send s.inner item in
      let s' : BufBytesSink S A = record s { inner = inner } in
      elim result [
        | ok ↦ (record s' { needs_flush = true }, ok)
        | err e ↦ (drain_cbs false s', err e)
      ]

  -- `self.inner_start_send(item)?; Poll::Ready(Ok(()))`
  send_now : List A → BufBytesSink S A → BufBytesSink S A × Poll (Result E)
  unfolding inner_start_send
  send_now item s = let (s', result) = inner_start_send item s in (s', ready result)

  poll_write_buf : BufBytesSink S A → BufBytesSink S A × Poll (Result E)
  unfolding inner_poll_ready send_now
  poll_write_buf s =
      if is_empty s.buf
      then (s, ready ok)
      else ready? (inner_poll_ready s) λ s'. send_now s'.buf (record s' { buf = [] })

  -- The item is larger than the buffer, which is empty: it goes to the inner sink directly.
  write_oversized : Payload (List A) → BufBytesSink S A → BufBytesSink S A × Poll (Result E)
  unfolding send_now
  write_oversized write s =
      let (inner, poll) = sink.poll_ready s.inner in
      let s' : BufBytesSink S A = record s { inner = inner } in
      elim poll [
        | ready ok ↦
            send_now write.value (record s' { pending_cbs = s'.pending_cbs ++ to_list write.cb })
        | ready (err e) ↦ (record s' { pending_write = some write }, ready (err e))
        | pending ↦ (record s' { pending_write = some write }, pending)
      ]

  -- What follows `poll_write_buf` in `poll_write_pending`.
  after_write_buf :
      Payload (List A) → BufBytesSink S A × Poll (Result E) → BufBytesSink S A × Poll (Result E)
  unfolding append_to_buf write_oversized
  after_write_buf write (s, ready ok) =
      if ltb (length write.value) s.limit
      then (append_to_buf write s, ready ok)
      else write_oversized write s
  after_write_buf write (s, ready (err e)) =
      (record s { pending_write = some write }, ready (err e))
  after_write_buf write (s, pending) = (record s { pending_write = some write }, pending)

  write_taken : Option (Payload (List A)) → BufBytesSink S A → BufBytesSink S A × Poll (Result E)
  unfolding append_to_buf poll_write_buf after_write_buf
  write_taken none s = (s, ready ok)
  write_taken (some write) s =
      if leb (length write.value) (sub_usize s.limit (length s.buf))
      then (append_to_buf write s, ready ok)
      else after_write_buf write (poll_write_buf s)

  poll_write_pending : BufBytesSink S A → BufBytesSink S A × Poll (Result E)
  unfolding write_taken
  poll_write_pending s = write_taken s.pending_write (record s { pending_write = none })

  poll_flush_shallow : BufBytesSink S A → BufBytesSink S A × Poll (Result E)
  poll_flush_shallow s = ready? (poll_write_pending s) poll_write_buf

  pub poll_ready : BufBytesSink S A → BufBytesSink S A × Poll (Result E)
  poll_ready s =
      ready? (poll_write_pending s)
        λ s'. if s'.needs_flush then inner_poll_flush s' else (s', ready ok)

  -- The two debug assertions of the source are theorems of `ByteBuffer.Capacity`.
  unfoldable pub start_send : BufBytesSink S A → Payload (List A) → BufBytesSink S A × Result E
  start_send s item = (record s { pending_write = some item }, ok)

  pub poll_flush : BufBytesSink S A → BufBytesSink S A × Poll (Result E)
  poll_flush s = ready? (poll_flush_shallow s) inner_poll_flush

  pub poll_close : BufBytesSink S A → BufBytesSink S A × Poll (Result E)
  poll_close s = ready? (poll_flush_shallow s) inner_poll_close

  -- The three polling operations at once.
  unfoldable pub poll : Polling → BufBytesSink S A → BufBytesSink S A × Poll (Result E)
  poll readying s = poll_ready s
  poll flushing s = poll_flush s
  poll closing s = poll_close s

  -- The sink that an appender is given.
  unfoldable pub buf_bytes_sink : Sink (BufBytesSink S A) (Payload (List A)) E
  unfolding poll_ready start_send poll_flush poll_close poll_write_pending inner_poll_flush
      poll_flush_shallow inner_poll_close
  buf_bytes_sink = record {
    poll_ready = poll_ready;
    start_send = start_send;
    poll_flush = poll_flush;
    poll_close = poll_close;
  }
